-- ===== src/Manager/Tests.antt =====
-- The transaction manager on a small store: a list of records, the latest first.
mod Commands
use scout.Base.{
  ℕ, ◌≡◌, refl, subst, true, false, ◌&&◌, none, some, List, [], ◌∷◌, ◌++◌, arith, leb, ◌==◌, nat_eq,
  ◌<◌, ◌≢◌,
}
use scout.Base.Lists.{any, All}
use scout.Base.Maps.{lookup, insert, delete}
use scout.Base.Bytes.{bytes_eq, compare_bytes, le_bytes, lt_bytes}
use mathlib.Core.List.{head?}
use scout.Mvcc.{Record}
use scout.Txn.{
  TxnId, TxnId_eq, Txn, TxnStatus, State, Prepared, Write, Payload, key_lock, ok, err, is_final,
  lock_failed, nil_dereference,
}
use scout.Txn.Locks.{build_lock, locks_of, build_locks, compatible_with}
use scout.Manager.{
  Env, Manager, new_manager, TxnBatch, Prepare, Commit, Abort, StoreDecision, new_status,
  new_failed_status,
}
use scout.Manager.Locks.{
  admits, check_lock, check_locks, release_locks, safe_timestamp_for_lock, conflicting_timestamp,
  safe_timestamp_for_locks, get_safe_timestamp,
}
use scout.Manager.Validate.{
  check_action, validate_actions, validate, write_one, write_records, build_write_records,
}
use scout.Manager.Apply.{
  Applied, settled, apply_abort, abort_in, mark_in, apply_mark_timedout, decide_in,
  apply_store_decision, commit_prepared, commit_in, apply_commit, autocommit_new, apply_autocommit,
  prepare_new, apply_prepare,
}
use scout.Manager.Batch.{
  each, writes_of, completions_of, statuses_of, complete, complete_all, is_stale, stale_ids,
  delete_all, cleanup, run_loops, finish, apply_batch,
}
use scout.Manager.Snapshots.{snapshot, restore, Running, get_running}
use scout.Manager.States.{state_of}
use scout.Manager.Exclusion.{IsExclusive}
use scout.Manager.Runs.{apply_batch-IsExclusive}
use scout.Manager.Cleanup.{apply_batch-settled}
use scout.Manager.SafeTime.{Blocks, IsClocked, safe-lt-prepared, safe-lt-writes}
use scout.Manager.Released.{unpaid}
use scout.Manager.Released.Batches.{apply_batch-unpaid}
use scout.Manager.Faults.{decisions-no_fault, get_running-NoneListed, NoneListed}
use scout.Manager.Retry.{apply_abort_twice, apply_commit_twice, apply_prepare_twice}
use scout.Manager.Restart.{restore-snapshot}
use scout.Manager.Order.{inserts, Accepts, inserts_both_commit, prepare_beside_commits}
use scout.Manager.Invariant.{Inv}
use scout.Manager.Invariant.Moves.{apply_batch-Inv, new_manager-Inv}

abbrev pub demo : Env (List Record)
demo = record {
  exists = λ db _ ts a.
      any
        (λ (r : Record).
          r.address.keyspace == a.keyspace && (r.address.key == a.key && leb r.timestamp ts))
        db;
  exists_in_range = λ db _ ts a b.
      any
        (λ (r : Record).
          r.address.keyspace == a.keyspace
          && (le_bytes a.key r.address.key && (lt_bytes r.address.key b.key && leb r.timestamp ts)))
        db;
  put = λ db _ _ rs. rs ++ db;
  marshal_value = λ v. v;
}

program : Unit {0}
unfolding lookup insert delete compare_bytes is_final build_lock locks_of build_locks
    compatible_with admits check_lock check_locks release_locks safe_timestamp_for_lock
    conflicting_timestamp safe_timestamp_for_locks get_safe_timestamp check_action validate_actions
    validate write_one write_records build_write_records apply_abort abort_in mark_in
    apply_mark_timedout decide_in apply_store_decision commit_prepared commit_in apply_commit
    autocommit_new apply_autocommit prepare_new apply_prepare each writes_of completions_of
    statuses_of complete complete_all is_stale stale_ids delete_all cleanup run_loops finish
    apply_batch
program = tt

abbrev pub start : Manager (List Record)
start = new_manager 1 [] 100

abbrev pub none_of_them : TxnBatch
none_of_them = record {
  autocommit = [];
  prepare = [];
  commit = [];
  abort = [];
  store_decision = [];
  mark_timedout = [];
  max_timestamp = 20;
}

abbrev pub first_id : TxnId
first_id = record { principal_pid = 1; server_id = 1; timestamp = 10 }

abbrev pub second_id : TxnId
second_id = record first_id { server_id = 2 }

abbrev pub write : Write
write = record { keyspace = 100; key = 7 ∷ []; value = 1 ∷ 2 ∷ [] }

abbrev pub upsert_txn : TxnId → Txn
upsert_txn id = record {
  id = id;
  actions = record { id = 1; payload = Payload.upsert write } ∷ [];
  participant_pids = 1 ∷ 2 ∷ [];
}

abbrev prepare_first : TxnBatch
prepare_first = record none_of_them {
  prepare = record { txn = upsert_txn first_id; timestamp = 12 } ∷ [];
}

abbrev pub first_entry : Prepared
first_entry = record {
  txn = upsert_txn first_id;
  timestamp = 12;
  locks =
      record {
        action_id = 1;
        payload = key_lock (record { keyspace = 100; key = 7 ∷ []; exclusive = true });
      }
      ∷ [];
  locks_released = false;
  decision = none;
}

abbrev pub busy : Manager (List Record)
busy = record start {
  status = (first_id, new_status first_id 12 State.prepared) ∷ [];
  prepared = (first_id, first_entry) ∷ [];
  max_timestamp = 20;
}

prepare_first_lem : (apply_batch demo 50 1 start prepare_first).0 ≡ busy
unfolding program
prepare_first_lem = refl

pub busy-Inv : Inv busy
busy-Inv =
    subst Inv prepare_first_lem
      (apply_batch-Inv demo 50 1 start prepare_first (new_manager-Inv 1 [] 100))

abbrev pub commit_first : Commit
commit_first = record { id = first_id; timestamp = 15 }

abbrev pub committed_first : TxnStatus
committed_first = record (new_status first_id 15 State.committed) { participant_pids = 1 ∷ 2 ∷ [] }

abbrev pub written : Record
written = record {
  address = record { keyspace = 100; key = 7 ∷ [] };
  timestamp = 15;
  value = 1 ∷ 2 ∷ [];
  flags = 0;
}

abbrev idle : Manager (List Record)
idle = record busy {
  db = written ∷ [];
  status = (first_id, committed_first) ∷ [];
  prepared = (first_id, release_locks first_entry) ∷ [];
}

-- At 105 the cleanup keeps what is later than 5, at 1000 it forgets the transaction.
commits :
    ((apply_batch demo 105 2 busy (record none_of_them { commit = commit_first ∷ [] })).0 ≡ idle)
    × ((apply_batch demo 1000 3 idle none_of_them).0 ≡ record idle { status = []; prepared = [] })
unfolding program
commits = (refl, refl)

idle-Inv : Inv idle
idle-Inv =
    subst Inv commits.0 (
      apply_batch-Inv demo 105 2 busy (record none_of_them { commit = commit_first ∷ [] }) busy-Inv)

start-IsExclusive : IsExclusive start.prepared
start-IsExclusive = record { apart = tt; drops = tt }

busy-IsExclusive : IsExclusive busy.prepared
busy-IsExclusive =
    subst (λ (m : Manager (List Record)). IsExclusive m.prepared) prepare_first_lem
      (apply_batch-IsExclusive demo 50 1 start prepare_first start-IsExclusive)

abbrev prepare_second : TxnBatch
prepare_second = record none_of_them {
  prepare = record { txn = upsert_txn second_id; timestamp = 14 } ∷ [];
}

apply_batch-IsExclusive_example :
    IsExclusive (apply_batch demo 105 2 busy prepare_second).0.prepared
apply_batch-IsExclusive_example =
    apply_batch-IsExclusive demo 105 2 busy prepare_second busy-IsExclusive

apply_batch-Inv_example : Inv (apply_batch demo 105 2 busy prepare_second).0
apply_batch-Inv_example = apply_batch-Inv demo 105 2 busy prepare_second busy-Inv

idle-state : state_of idle first_id ≡ some State.committed
unfolding program
idle-state = refl

abbrev decide_first : StoreDecision
decide_first = record {
  decision = record { id = first_id; commit = true; commit_timestamp = 15 };
  timestamp = 14;
}

get_running-NoneListed_example : (rs : List Running) × (get_running busy ≡ some rs) × NoneListed rs
get_running-NoneListed_example = get_running-NoneListed busy busy-Inv

busy_lem : unpaid busy first_id ≡ false
unfolding program
busy_lem = refl

apply_batch-unpaid_example :
    unpaid
      (apply_batch demo 105 2 busy (record none_of_them { commit = commit_first ∷ [] })).0
      first_id
    ≡ false
apply_batch-unpaid_example =
    apply_batch-unpaid demo first_id 105 2 busy (record none_of_them { commit = commit_first ∷ [] })
      busy-Inv busy_lem
