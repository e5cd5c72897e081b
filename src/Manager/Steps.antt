-- ===== src/Manager/Steps.antt =====
-- The transaction manager as a transition system: a command of a batch, the write to the store and
-- a completion each make one of the moves below.
pub mod Commands
use scout.Base.{ℕ, ◌≤◌, ◌≡◌, Bool, true, false, Option, none, some, List}
use scout.Base.Maps.{lookup, delete}
use scout.Txn.{TxnId, TxnId_eq, TxnStatus, State, Txn, Prepared, Decision, is_final}
use scout.Txn.Locks.{build_locks}
use scout.Manager.{Manager, new_status}
use scout.Manager.Locks.{check_locks, release_locks}
use scout.Manager.Apply.{set_status, set_prepared}

abbrev pub fresh_prepared : Txn → ℕ → Prepared
fresh_prepared txn timestamp = record {
  txn = txn;
  timestamp = timestamp;
  locks = build_locks txn;
  locks_released = false;
  decision = none;
}

abbrev pub committed_status : TxnId → ℕ → List ℕ → TxnStatus
committed_status id timestamp pids = record (new_status id timestamp State.committed) {
  participant_pids = pids;
}

-- A transaction that is tracked, in a state, with its prepared entry.
pub record Tracked {S : Type 0} (m : Manager S) (id : TxnId) (st : State) (s : TxnStatus)
    (p : Prepared) : Type 0 where
  pub status : lookup id m.status ≡ some s
  pub entry : lookup id m.prepared ≡ some p
  pub state : s.state ≡ st

pub data Step {S : Type 0} (m : Manager S) : Manager S → Type 0 where
  keep : Step m m
  abort :
      {s : TxnStatus} {p : Prepared} (id : TxnId) (ts : ℕ)
      → Tracked m id State.prepared s p
      → Step m (set_status (set_prepared m id (release_locks p)) (new_status id ts State.aborted))
  time_out :
      {s : TxnStatus} {p : Prepared} (id : TxnId) (ts : ℕ)
      → Tracked m id State.prepared s p
      → Step m (set_status m (new_status id ts State.timedout))
  release :
      {s : TxnStatus} {p : Prepared} (id : TxnId)
      → Tracked m id State.timedout s p
      → Step m (set_prepared m id (release_locks p))
  decide :
      {s : TxnStatus} {p : Prepared} (d : Decision) (ts : ℕ)
      → Tracked m d.id State.prepared s p
      → s.timestamp ≤ d.commit_timestamp
      → Step m (
          set_status
            (set_prepared m d.id (record p { decision = some d }))
            (new_status d.id ts State.decided))
  commit_prepared :
      {s : TxnStatus} {p : Prepared} (id : TxnId) (ts : ℕ)
      → Tracked m id State.prepared s p
      → s.timestamp ≤ ts
      → Step m (set_status m (committed_status id ts p.txn.participant_pids))
  commit_decided :
      {s : TxnStatus} {p : Prepared} (id : TxnId) (d : Decision)
      → Tracked m id State.decided s p
      → p.decision ≡ some d
      → Step m (set_status m (committed_status id d.commit_timestamp p.txn.participant_pids))
  autocommit :
      (txn : Txn) (ts : ℕ)
      → lookup txn.id m.status ≡ none
      → check_locks m.prepared txn.id ts (build_locks txn) ≡ none
      → Step m (set_status m (new_status txn.id ts State.committed))
  prepare :
      (txn : Txn) (ts : ℕ)
      → lookup txn.id m.status ≡ none
      → check_locks m.prepared txn.id ts (build_locks txn) ≡ none
      → Step m (
          set_status
            (set_prepared m txn.id (fresh_prepared txn ts))
            (new_status txn.id ts State.prepared))
  store : (db : S) → Step m (record m { db = db })
  complete :
      {s : TxnStatus} {p : Prepared} (id : TxnId)
      → Tracked m id State.committed s p
      → Step m (set_prepared m id (release_locks p))
  advance : (ts : ℕ) → Step m (record m { max_timestamp = ts })

infixr 40 ◌then◌
pub data Steps {S : Type 0} : Manager S → Manager S → Type 0 where
  done : {m : Manager S} → Steps m m
  ◌then◌ : {m n k : Manager S} → Step m n → Steps n k → Steps m k

pub Steps-append : {S : Type 0} {m n k : Manager S} → Steps m n → Steps n k → Steps m k
Steps-append done r = r
Steps-append (s then q) r = s then Steps-append q r
