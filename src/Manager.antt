-- ===== src/Manager.antt =====
-- The state of the transaction manager of one partition: internal/data/server/txn/manager.go,
-- status.go, and the commands of internal/data/data.proto. The lock and the meters are left out:
-- every operation runs under the lock. What the manager takes from elsewhere is a record `Env`.
pub mod Locks
pub mod Validate
pub mod Apply
pub mod Batch
pub mod Snapshots
pub mod Steps
pub mod States
pub mod Exclusion
pub mod Completion
pub mod Runs
pub mod Cleanup
pub mod Invariant
pub mod Faults
pub mod SafeTime
pub mod Retry
pub mod Restart
pub mod Order
pub mod Requests
pub mod Released
pub mod Kept
mod Tests
use scout.Base.{ℕ, Bool, Option, none, List, [], ◌∷◌}
use scout.Base.Maps.{Map}
use scout.Base.Bytes.{Bytes}
use scout.Mvcc.{Address, Record}
use scout.Txn.{TxnId, Txn, TxnStatus, State, failed, Code, ActionStatus, Lock, Prepared, Decision}

-- The store behind `mvcc.DBBreaker`, whose calls succeed or shut the process down, with `S` for
-- its contents, and the protobuf encoding of a value. A call names the partition and the timestamp.
pub record Env (S : Type 0) : Type 0 where
  pub exists : S → ℕ → ℕ → Address → Bool
  pub exists_in_range : S → ℕ → ℕ → Address → Address → Bool
  pub put : S → ℕ → ℕ → List Record → S
  pub marshal_value : Bytes → Bytes

pub record Manager (S : Type 0) : Type 0 where
  pub pid : ℕ
  pub db : S
  pub clean_after : ℕ
  pub status : Map TxnId TxnStatus
  pub prepared : Map TxnId Prepared
  pub max_timestamp : ℕ

abbrev pub new_manager : {S : Type 0} → ℕ → S → ℕ → Manager S
new_manager pid db clean_after = record {
  pid = pid;
  db = db;
  clean_after = clean_after;
  status = [];
  prepared = [];
  max_timestamp = 0;
}

pub record Autocommit : Type 0 where
  pub txn : Txn
  pub timestamp : ℕ

pub record Prepare : Type 0 where
  pub txn : Txn
  pub timestamp : ℕ

pub record Commit : Type 0 where
  pub id : TxnId
  pub timestamp : ℕ

pub record Abort : Type 0 where
  pub id : TxnId
  pub timestamp : ℕ

pub record StoreDecision : Type 0 where
  pub decision : Decision
  pub timestamp : ℕ

pub record MarkTimedout : Type 0 where
  pub id : TxnId
  pub timestamp : ℕ
  pub release_locks : Bool

pub record TxnBatch : Type 0 where
  pub autocommit : List Autocommit
  pub prepare : List Prepare
  pub commit : List Commit
  pub abort : List Abort
  pub store_decision : List StoreDecision
  pub mark_timedout : List MarkTimedout
  pub max_timestamp : ℕ

abbrev pub new_status : TxnId → ℕ → State → TxnStatus
new_status id timestamp state = record {
  id = id;
  timestamp = timestamp;
  state = state;
  action_status = [];
  participant_pids = [];
}

abbrev pub new_failed_status : TxnId → ℕ → ℕ → Code → TxnStatus
new_failed_status id timestamp action_id code = record {
  id = id;
  timestamp = timestamp;
  state = failed;
  action_status = (action_id, record { id = action_id; code = code; results = [] }) ∷ [];
  participant_pids = [];
}
