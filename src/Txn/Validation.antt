-- ===== src/Txn/Validation.antt =====
-- Validation of requests: the `Validate` methods of internal/data/data_txn.go. A pointer that can be
-- nil is an Option; a payload or a lock is never nil in the model. `none` is a request that is
-- accepted, and an error says what it is about.
use scout.Base.{
  ℕ, Bool, true, false, not, ◌&&◌, ◌||◌, Option, none, some, List, [], ◌∷◌, if◌then◌else◌, ltb,
  ◌==◌, nat_eq,
}
use scout.Base.Maps.{Map}
use scout.Base.Bytes.{Bytes}
use scout.Txn.{
  TxnId, Txn, Action, Payload, unset, read, read_range, insert, update, upsert, delete, lock_key,
  lock_range, KeyCheck, RangeCheck, KeyLock, RangeLock, success, ActionStatus, TxnStatus, Decision,
  is_read_only,
}

pub data Invalid : Type 0 where
  id_is_nil id_has_missing_fields txn_is_nil txn_has_missing_fields : Invalid
  action_has_invalid_fields action_check_is_invalid action_payload_is_unknown : Invalid
  lock_has_invalid_fields status_has_missing_fields action_status_id_does_not_match : Invalid
  success_with_empty_results failed_with_results decision_has_missing_fields : Invalid
  partition_is_invalid read_timestamp_is_invalid participants_are_missing : Invalid
  commit_has_missing_fields : Invalid

-- `keyspace.FirstUserKeyspace`.
abbrev pub first_user_keyspace : ℕ
first_user_keyspace = 16

-- `if err := a(); err != nil { return err }` before `b`.
infixr 20 ◌and_then◌
abbrev pub ◌and_then◌ : Option Invalid → Option Invalid → Option Invalid
none and_then b = b
(some e) and_then b = some e

abbrev pub refuse_if : Bool → Invalid → Option Invalid
refuse_if b e = if b then some e else none

abbrev pub is_empty {ℓ} : {A : Type ℓ} → List A → Bool
is_empty [] = true
is_empty (_ ∷ _) = false

unfoldable pub validate_id : Option TxnId → Option Invalid
validate_id none = some id_is_nil
validate_id (some t) = refuse_if (t.server_id == 0 || t.timestamp == 0) id_has_missing_fields

abbrev pub bad_key : ℕ → Bytes → Bool
bad_key keyspace key = ltb keyspace first_user_keyspace || is_empty key

abbrev pub bad_range : ℕ → Bytes → Bytes → Bool
bad_range keyspace start end = ltb keyspace first_user_keyspace || (is_empty start || is_empty end)

unfoldable pub validate_key_lock : KeyLock → Option Invalid
validate_key_lock l = refuse_if (bad_key l.keyspace l.key) lock_has_invalid_fields

unfoldable pub validate_range_lock : RangeLock → Option Invalid
validate_range_lock l =
    refuse_if (bad_range l.keyspace l.start_key l.end_key) lock_has_invalid_fields

-- Whether the value of the enum has a name.
abbrev pub key_check_named : KeyCheck → Bool
key_check_named (KeyCheck.other _) = false
key_check_named _ = true

abbrev pub range_check_named : RangeCheck → Bool
range_check_named (RangeCheck.other _) = false
range_check_named _ = true

unfoldable pub validate_payload : Payload → Option Invalid
validate_payload unset = some action_payload_is_unknown
validate_payload (read x) = refuse_if (bad_key x.keyspace x.key) action_has_invalid_fields
validate_payload (read_range x) =
    refuse_if (bad_range x.keyspace x.start_key x.end_key) action_has_invalid_fields
validate_payload (insert x) = refuse_if (bad_key x.keyspace x.key) action_has_invalid_fields
validate_payload (update x) = refuse_if (bad_key x.keyspace x.key) action_has_invalid_fields
validate_payload (upsert x) = refuse_if (bad_key x.keyspace x.key) action_has_invalid_fields
validate_payload (delete x) = refuse_if (bad_key x.keyspace x.key) action_has_invalid_fields
validate_payload (lock_key x) =
    refuse_if (not (key_check_named x.check)) action_check_is_invalid
    and_then validate_key_lock x.lock
validate_payload (lock_range x) =
    refuse_if (not (range_check_named x.check)) action_check_is_invalid
    and_then validate_range_lock x.lock

unfoldable pub validate_actions : List Action → Option Invalid
validate_actions [] = none
validate_actions (a ∷ rest) = validate_payload a.payload and_then validate_actions rest

unfoldable pub validate_txn : Option Txn → Option Invalid
validate_txn none = some txn_is_nil
validate_txn (some t) =
    validate_id (some t.id)
    and_then refuse_if (is_empty t.actions) txn_has_missing_fields
    and_then validate_actions t.actions

-- `ActionStatus.Validate`; the model's codes all have a name.
unfoldable pub validate_action_status : ActionStatus → Option Invalid
validate_action_status a = elim a.code [
  | success ↦ refuse_if (is_empty a.results) success_with_empty_results
  | _ ↦ refuse_if (not (is_empty a.results)) failed_with_results
]

unfoldable pub validate_statuses : Map ℕ ActionStatus → Option Invalid
validate_statuses [] = none
validate_statuses ((id, a) ∷ rest) =
    validate_action_status a
    and_then refuse_if (not (id == a.id)) action_status_id_does_not_match
    and_then validate_statuses rest

-- `TxnStatus.Validate`; the model's states all have a name.
unfoldable pub validate_status : TxnStatus → Option Invalid
validate_status t =
    validate_id (some t.id)
    and_then refuse_if (t.timestamp == 0) status_has_missing_fields
    and_then validate_statuses t.action_status

unfoldable pub validate_decision : Decision → Option Invalid
validate_decision d =
    validate_id (some d.id) and_then refuse_if (d.commit_timestamp == 0) decision_has_missing_fields

pub record AutocommitRequest : Type 0 where
  pub partition_id : ℕ
  pub txn : Option Txn
  pub read_timestamp : ℕ

pub record PrepareRequest : Type 0 where
  pub participant_pid : ℕ
  pub txn : Option Txn

pub record CommitRequest : Type 0 where
  pub participant_pid : ℕ
  pub id : Option TxnId
  pub commit_timestamp : ℕ

pub record AbortRequest : Type 0 where
  pub participant_pid : ℕ
  pub id : Option TxnId

unfoldable pub is_snapshot_read : ℕ → Txn → Bool
is_snapshot_read read_timestamp txn = not (read_timestamp == 0) && is_read_only txn

unfoldable pub validate_autocommit : AutocommitRequest → Option Invalid
validate_autocommit r = elim r.txn [
  | none ↦ validate_txn none
  | some txn ↦
      validate_txn (some txn)
      and_then refuse_if
          (not (is_snapshot_read r.read_timestamp txn)
            && not (r.partition_id == txn.id.principal_pid))
          partition_is_invalid
      and_then refuse_if (not (r.read_timestamp == 0) && not (is_read_only txn))
          read_timestamp_is_invalid
]

unfoldable pub validate_prepare : PrepareRequest → Option Invalid
validate_prepare r = elim r.txn [
  | none ↦ validate_txn none
  | some txn ↦
      validate_txn (some txn)
      and_then refuse_if
          (r.participant_pid == txn.id.principal_pid && is_empty txn.participant_pids)
          participants_are_missing
]

unfoldable pub validate_commit : CommitRequest → Option Invalid
validate_commit r =
    validate_id r.id and_then refuse_if (r.commit_timestamp == 0) commit_has_missing_fields

unfoldable pub validate_abort : AbortRequest → Option Invalid
validate_abort r = validate_id r.id
