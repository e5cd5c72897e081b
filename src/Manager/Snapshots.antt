-- ===== src/Manager/Snapshots.antt =====
-- `Snapshot`, `Restore`, `getRunning` and `getPreparedTxn` of internal/data/server/txn/manager.go.
use scout.Base.{ℕ, not, Option, none, some, List, [], ◌∷◌, if◌then◌else◌, ◌==◌}
use scout.Base.{nat_eq, ◌||◌}
use scout.Base.Maps.{Map, lookup, insert}
use scout.Txn.{TxnId, TxnId_eq, TxnStatus, State, Txn, Prepared, Decision}
use scout.Txn.Locks.{build_locks}
use scout.Manager.{Manager}

pub record TxnSnapshot : Type 0 where
  pub status : List TxnStatus
  pub prepared : List Prepared
  pub max_timestamp : ℕ

unfoldable pub values {ℓ} : {K V : Type ℓ} → Map K V → List V
values [] = []
values ((_, v) ∷ rest) = v ∷ values rest

unfoldable pub drop_locks : List Prepared → List Prepared
drop_locks [] = []
drop_locks (p ∷ rest) = record p { locks = [] } ∷ drop_locks rest

unfoldable pub snapshot : {S : Type 0} → Manager S → TxnSnapshot
snapshot m = record {
  status = values m.status;
  prepared = drop_locks (values m.prepared);
  max_timestamp = m.max_timestamp;
}

unfoldable pub restore_status : Map TxnId TxnStatus → List TxnStatus → Map TxnId TxnStatus
restore_status m [] = m
restore_status m (s ∷ rest) = restore_status (insert s.id s m) rest

-- The locks of a transaction that still holds them are built again from its actions.
unfoldable pub restore_locks : Prepared → Prepared
restore_locks p = if not p.locks_released then record p { locks = build_locks p.txn } else p

unfoldable pub restore_prepared : Map TxnId Prepared → List Prepared → Map TxnId Prepared
restore_prepared m [] = m
restore_prepared m (p ∷ rest) = restore_prepared (insert p.txn.id (restore_locks p) m) rest

unfoldable pub restore : {S : Type 0} → Manager S → TxnSnapshot → Manager S
restore m snap = record m {
  max_timestamp = snap.max_timestamp;
  status = restore_status [] snap.status;
  prepared = restore_prepared [] snap.prepared;
}

pub record Running : Type 0 where
  pub id : TxnId
  pub timestamp : ℕ
  pub state : State
  pub participant_pids : List ℕ
  pub decision : Option Decision

-- The loop of `getRunning`; `none` is the panic on a prepared transaction that has no status.
unfoldable pub running_of : ℕ → Map TxnId TxnStatus → Map TxnId Prepared → Option (List Running)
running_of pid status [] = some []
running_of pid status ((id, p) ∷ rest) =
    let later = running_of pid status rest in
    if not (id.principal_pid == pid) || p.locks_released then later else elim (lookup id status) [
      | none ↦ none
      | some s ↦ elim later [
        | none ↦ none
        | some rs ↦ some (
            record {
              id = id;
              timestamp = s.timestamp;
              state = s.state;
              participant_pids = s.participant_pids;
              decision = p.decision;
            }
            ∷ rs)
      ]
    ]

unfoldable pub get_running : {S : Type 0} → Manager S → Option (List Running)
get_running m = running_of m.pid m.status m.prepared

unfoldable pub get_prepared_txn : {S : Type 0} → Manager S → TxnId → Option Txn
get_prepared_txn m id = elim (lookup id m.prepared) [ none ↦ none | some p ↦ some p.txn ]
