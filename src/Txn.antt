-- ===== src/Txn.antt =====
-- The transaction messages of internal/data/data.proto, and `IsFinal`, `IsReadOnly` and the
-- conversions to errors of internal/data/data_txn.go. The key type `id` of
-- internal/data/server/txn/types.go holds the fields of the message `TxnId`, so both are `TxnId`.
pub mod Locks
pub mod Validation
use scout.Base.{ℕ, ◌≡◌, ◌↔◌, Bool, true, false, ◌&&◌, Option, none, some, List, arith, Eq, ◌==◌}
use scout.Base.{nat_eq}
use scout.Base.Lists.{all}
use scout.Base.Maps.{Map}
use scout.Base.Bytes.{Bytes}

pub record TxnId : Type 0 where
  pub principal_pid : ℕ
  pub server_id : ℕ
  pub timestamp : ℕ

abbrev pub TxnId_beq : TxnId → TxnId → Bool
TxnId_beq a b =
    a.principal_pid == b.principal_pid && (a.server_id == b.server_id && a.timestamp == b.timestamp)

pub TxnId_beq_iff : (a b : TxnId) → (TxnId_beq a b ≡ true) ↔ (a ≡ b)
TxnId_beq_iff a b = (λ h. ground arith, λ p. ground arith)

instance abbrev pub TxnId_eq : Eq TxnId
TxnId_eq = record { beq = TxnId_beq; beq_iff = TxnId_beq_iff }

-- `Insert`, `Update` and `Upsert` have the same fields.
pub record Write : Type 0 where
  pub keyspace : ℕ
  pub key : Bytes
  pub value : Bytes

-- `Read` and `Delete` have the same fields.
pub record KeyRef : Type 0 where
  pub keyspace : ℕ
  pub key : Bytes

pub record ReadRange : Type 0 where
  pub keyspace : ℕ
  pub start_key : Bytes
  pub end_key : Bytes
  pub max_results : ℕ

pub record KeyLock : Type 0 where
  pub keyspace : ℕ
  pub key : Bytes
  pub exclusive : Bool

pub record RangeLock : Type 0 where
  pub keyspace : ℕ
  pub start_key : Bytes
  pub end_key : Bytes
  pub exclusive : Bool

-- `LockKey.Check` and `LockRange.Check`; a value that the enum does not name is `other`.
pub data KeyCheck : Type 0 where
  no_check must_exist must_not_exist : KeyCheck
  other : ℕ → KeyCheck

pub data RangeCheck : Type 0 where
  no_check must_be_empty must_not_be_empty : RangeCheck
  other : ℕ → RangeCheck

pub record LockKey : Type 0 where
  pub lock : KeyLock
  pub check : KeyCheck

pub record LockRange : Type 0 where
  pub lock : RangeLock
  pub check : RangeCheck

-- `Action.payload`, a oneof; `unset` is the oneof with no member.
pub data Payload : Type 0 where
  unset : Payload
  read : KeyRef → Payload
  read_range : ReadRange → Payload
  insert : Write → Payload
  update : Write → Payload
  upsert : Write → Payload
  delete : KeyRef → Payload
  lock_key : LockKey → Payload
  lock_range : LockRange → Payload

pub record Action : Type 0 where
  pub id : ℕ
  pub payload : Payload

pub record Txn : Type 0 where
  pub id : TxnId
  pub actions : List Action
  pub participant_pids : List ℕ

pub data LockPayload : Type 0 where
  key_lock : KeyLock → LockPayload
  range_lock : RangeLock → LockPayload

pub record Lock : Type 0 where
  pub action_id : ℕ
  pub payload : LockPayload

-- `TxnStatus.State`.
pub data State : Type 0 where
  pending prepared committed aborted failed timedout decided : State

-- `ActionStatus.Code`.
pub data Code : Type 0 where
  success key_not_found key_already_exists lock_check_failed lock_failed corrupted_data : Code

pub record ActionStatus : Type 0 where
  pub id : ℕ
  pub code : Code
  pub results : List Bytes

pub record TxnStatus : Type 0 where
  pub id : TxnId
  pub timestamp : ℕ
  pub state : State
  pub action_status : Map ℕ ActionStatus
  pub participant_pids : List ℕ

pub record Decision : Type 0 where
  pub id : TxnId
  pub commit : Bool
  pub commit_timestamp : ℕ

pub record Prepared : Type 0 where
  pub txn : Txn
  pub timestamp : ℕ
  pub locks : List Lock
  pub locks_released : Bool
  pub decision : Option Decision

-- The errors of internal/errors/types.go that the modelled code returns. `nil_dereference` is no
-- error value: it stands for the panic of a read through a nil pointer.
pub data Error : Type 0 where
  invalid_request permission_denied not_found already_exists : Error
  failed_precondition transaction_aborted corrupted_data nil_dereference : Error

pub data Result {ℓ} (A : Type ℓ) : Type ℓ where
  ok : A → Result A
  err : Error → Result A

unfoldable pub is_final : State → Bool
is_final pending = false
is_final prepared = false
is_final decided = false
is_final committed = true
is_final aborted = true
is_final failed = true
is_final timedout = true

unfoldable pub is_read_only_action : Action → Bool
is_read_only_action a = elim a.payload [ read _ ↦ true | read_range _ ↦ true | _ ↦ false ]

unfoldable pub is_read_only : Txn → Bool
is_read_only t = all is_read_only_action t.actions

-- `ActionStatus_Code.ToError`; `none` is the nil error.
pub to_error : Code → Option Error
to_error success = none
to_error key_not_found = some not_found
to_error key_already_exists = some already_exists
to_error lock_check_failed = some failed_precondition
to_error lock_failed = some transaction_aborted
to_error corrupted_data = some corrupted_data
