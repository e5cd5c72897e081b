-- ===== src/Manager/Validate.antt =====
-- Validation of a transaction's actions and the records that it writes: `validate` and
-- `buildWriteRecords` of internal/data/server/txn/manager_apply.go.
use scout.Base.{ℕ, Bool, true, false, not, Option, none, some, List, [], ◌∷◌, if◌then◌else◌}
use scout.Base.{sub_u64}
use scout.Mvcc.{Record, flag_empty, flag_tombstone}
use scout.Txn.{
  TxnId, Txn, Action, Payload, insert, update, upsert, delete, lock_key, lock_range, KeyCheck,
  RangeCheck, TxnStatus, Code, key_already_exists, key_not_found, lock_check_failed,
}
use scout.Manager.{Env, Manager, new_failed_status}

abbrev bool_eq : Bool → Bool → Bool
bool_eq true b = b
bool_eq false b = not b

-- `Check == LockKey_MustExist`, and whether there is no check.
abbrev expects_key : KeyCheck → Bool
expects_key KeyCheck.must_exist = true
expects_key _ = false

abbrev no_key_check : KeyCheck → Bool
no_key_check KeyCheck.no_check = true
no_key_check _ = false

abbrev expects_range : RangeCheck → Bool
expects_range RangeCheck.must_not_be_empty = true
expects_range _ = false

abbrev no_range_check : RangeCheck → Bool
no_range_check RangeCheck.no_check = true
no_range_check _ = false

module _ {S : Type 0} (env : Env S) where
  -- One turn of the loop of `validate`: the code of the failure, if the action fails. The store is
  -- read just below the transaction's timestamp.
  unfoldable pub check_action : Manager S → ℕ → Action → Option Code
  check_action m timestamp a =
      let found = λ (ks : ℕ) (k : List ℕ).
        env.exists m.db m.pid (sub_u64 timestamp 1) (record { keyspace = ks; key = k }) in
      elim a.payload [
        | insert x ↦ if found x.keyspace x.key then some key_already_exists else none
        | update x ↦ if not (found x.keyspace x.key) then some key_not_found else none
        | delete x ↦ if not (found x.keyspace x.key) then some key_not_found else none
        | lock_key x ↦
            if no_key_check x.check
            then none
            else if bool_eq (found x.lock.keyspace x.lock.key) (expects_key x.check)
            then none
            else some lock_check_failed
        | lock_range x ↦
            if no_range_check x.check
            then none
            else if bool_eq
                (env.exists_in_range m.db m.pid (sub_u64 timestamp 1)
                  (record { keyspace = x.lock.keyspace; key = x.lock.start_key })
                  (record { keyspace = x.lock.keyspace; key = x.lock.end_key }))
                (expects_range x.check)
            then none
            else some lock_check_failed
        | _ ↦ none
      ]

  unfoldable pub validate_actions : Manager S → TxnId → ℕ → List Action → Option TxnStatus
  validate_actions m id timestamp [] = none
  validate_actions m id timestamp (a ∷ rest) =
      let later = validate_actions m id timestamp rest in
      elim (check_action m timestamp a) [
        | none ↦ later
        | some code ↦ some (new_failed_status id timestamp a.id code)
      ]

  unfoldable pub validate : Manager S → TxnId → ℕ → Txn → Option TxnStatus
  validate m id timestamp txn = validate_actions m id timestamp txn.actions

  abbrev write_record : ℕ → ℕ → List ℕ → List ℕ → Record
  write_record timestamp ks k v = record {
    address = record { keyspace = ks; key = k };
    timestamp = timestamp;
    value = env.marshal_value v;
    flags = flag_empty;
  }

  -- One turn of the loop of `buildWriteRecords`, with the records of the later actions.
  unfoldable pub write_one : ℕ → Payload → List Record → List Record
  write_one timestamp (insert x) later = write_record timestamp x.keyspace x.key x.value ∷ later
  write_one timestamp (update x) later = write_record timestamp x.keyspace x.key x.value ∷ later
  write_one timestamp (upsert x) later = write_record timestamp x.keyspace x.key x.value ∷ later
  write_one timestamp (delete x) later =
      record {
        address = record { keyspace = x.keyspace; key = x.key };
        timestamp = timestamp;
        value = [];
        flags = flag_tombstone;
      }
      ∷ later
  write_one timestamp _ later = later

  unfoldable pub write_records : ℕ → List Action → List Record
  write_records timestamp [] = []
  write_records timestamp (a ∷ rest) = write_one timestamp a.payload (write_records timestamp rest)

  unfoldable pub build_write_records : ℕ → Txn → List Record
  build_write_records timestamp txn = write_records timestamp txn.actions
