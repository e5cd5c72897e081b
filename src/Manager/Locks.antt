-- ===== src/Manager/Locks.antt =====
-- Lock checks and the safe read timestamp: internal/data/server/txn/manager_locks.go.
use scout.Base.{ℕ, Bool, true, false, Option, none, some, List, [], ◌∷◌, if◌then◌else◌, min}
use scout.Base.{max_u64, sub_u64, ◌==◌, nat_eq}
use scout.Base.Lists.{all}
use scout.Base.Maps.{Map, lookup}
use scout.Txn.{TxnId, TxnId_eq, TxnStatus, Lock, Prepared, Txn, lock_failed, is_final}
use scout.Txn.Locks.{compatible_with, build_locks}
use scout.Manager.{Manager, new_failed_status}

-- One turn of the loop of `checkLock`.
unfoldable pub admits : Lock → Prepared → Bool
admits lock p = if p.locks_released then true else all (compatible_with lock) p.locks

unfoldable pub check_lock : Map TxnId Prepared → Lock → Bool
check_lock [] lock = true
check_lock ((_, p) ∷ rest) lock =
    let later = check_lock rest lock in if admits lock p then later else false

-- `none` is the nil status: every lock can be granted.
unfoldable pub check_locks : Map TxnId Prepared → TxnId → ℕ → List Lock → Option TxnStatus
check_locks m id timestamp [] = none
check_locks m id timestamp (lock ∷ rest) =
    let later = check_locks m id timestamp rest in
    if check_lock m lock
    then later
    else some (new_failed_status id timestamp lock.action_id lock_failed)

unfoldable pub release_locks : Prepared → Prepared
release_locks p = record p { locks = []; locks_released = true }

-- The loop of `safeTimestampForLock`; `none` is the panic on a prepared transaction that has no
-- status.
unfoldable pub safe_timestamp_for_lock : Map TxnId TxnStatus → Map TxnId Prepared → Lock → Option ℕ
safe_timestamp_for_lock status [] lock = some max_u64
safe_timestamp_for_lock status ((id, p) ∷ rest) lock =
    elim (safe_timestamp_for_lock status rest lock) [
      | none ↦ none
      | some bound ↦ if p.locks_released then some bound else elim (lookup id status) [
        | none ↦ none
        | some s ↦
            if is_final s.state
            then some bound
            else if all (compatible_with lock) p.locks
            then some bound
            else some (min bound p.timestamp)
      ]
    ]

-- The loop of `safeTimestampForLocks`.
unfoldable pub conflicting_timestamp :
    Map TxnId TxnStatus → Map TxnId Prepared → List Lock → Option ℕ
conflicting_timestamp status prepared [] = some max_u64
conflicting_timestamp status prepared (lock ∷ rest) =
    elim (conflicting_timestamp status prepared rest) [
      | none ↦ none
      | some later ↦ elim (safe_timestamp_for_lock status prepared lock) [
        | none ↦ none
        | some bound ↦ some (min bound later)
      ]
    ]

unfoldable pub safe_timestamp_for_locks : {S : Type 0} → Manager S → List Lock → Option (ℕ × Bool)
safe_timestamp_for_locks m locks = elim (conflicting_timestamp m.status m.prepared locks) [
  | none ↦ none
  | some conflicting ↦
      if conflicting == max_u64
      then some (m.max_timestamp, false)
      else some (min m.max_timestamp (sub_u64 conflicting 1), true)
]

unfoldable pub get_safe_timestamp : {S : Type 0} → Manager S → Txn → Option (ℕ × Bool)
get_safe_timestamp m txn = safe_timestamp_for_locks m (build_locks txn)
