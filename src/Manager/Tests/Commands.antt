-- ===== src/Manager/Tests/Commands.antt =====
-- Reads, repeated commands, restarts and the order of commands, on the small store.
use scout.Base.{ℕ, ◌≡◌, ◌≢◌, refl, true, none, some, List, [], ◌∷◌, arith, nat_eq, ◌<◌}
use scout.Base.Lists.{All}
use scout.Base.Maps.{lookup, insert, delete}
use scout.Base.Bytes.{bytes_eq, compare_bytes}
use scout.Mvcc.{Record}
use scout.Txn.{TxnId, TxnId_eq, Txn, State, Payload, ok, is_final, lock_failed}
use scout.Txn.Locks.{build_lock, locks_of, build_locks, compatible_with}
use scout.Manager.{TxnBatch, Prepare, Abort, new_status, new_failed_status}
use scout.Manager.Locks.{
  admits, check_lock, check_locks, release_locks, safe_timestamp_for_lock, conflicting_timestamp,
  safe_timestamp_for_locks, get_safe_timestamp,
}
use scout.Manager.Validate.{
  check_action, validate_actions, validate, write_one, write_records, build_write_records,
}
use scout.Manager.Apply.{
  Applied, apply_abort, abort_in, mark_in, apply_mark_timedout, decide_in, apply_store_decision,
  commit_prepared, commit_in, apply_commit, autocommit_new, apply_autocommit, prepare_new,
  apply_prepare,
}
use scout.Manager.Batch.{
  each, writes_of, completions_of, statuses_of, complete, complete_all, is_stale, stale_ids,
  delete_all, cleanup, run_loops, finish, apply_batch,
}
use scout.Manager.Snapshots.{snapshot, restore}
use scout.Manager.Steps.{done}
use scout.Manager.Kept.{Later}
use scout.Manager.SafeTime.{Blocks, IsClocked, safe-lt-writes}
use scout.Manager.Restart.{restore-snapshot}
use scout.Manager.Order.{inserts, Accepts, inserts_both_commit}
use scout.Reader.{Store, Config, check_safe_timestamp}
use scout.Reader
use scout.Reader.Stable.{check_safe_timestamp-lt-writes}
use scout.Manager.Tests.{
  demo, start, none_of_them, first_id, second_id, write, upsert_txn, first_entry, busy,
  commit_first, committed_first, written, busy-Inv,
}

program : Unit {0}
unfolding lookup insert delete compare_bytes is_final build_lock locks_of build_locks
    compatible_with admits check_lock check_locks release_locks safe_timestamp_for_lock
    conflicting_timestamp safe_timestamp_for_locks get_safe_timestamp check_action validate_actions
    validate write_one write_records build_write_records apply_abort abort_in mark_in
    apply_mark_timedout decide_in apply_store_decision commit_prepared commit_in apply_commit
    autocommit_new apply_autocommit prepare_new apply_prepare each writes_of completions_of
    statuses_of complete complete_all is_stale stale_ids delete_all cleanup run_loops finish
    apply_batch
program = tt

-- A read of the key that the first transaction writes.
abbrev reader : Txn
reader = record {
  id = second_id;
  actions =
      record { id = 1; payload = Payload.read (record { keyspace = 100; key = 7 ∷ [] }) } ∷ [];
  participant_pids = [];
}

reader_lem : get_safe_timestamp busy reader ≡ some (11, true)
unfolding program
reader_lem = refl

busy-Blocks :
    Blocks busy (build_locks reader) first_id (new_status first_id 12 State.prepared) first_entry
unfolding program
busy-Blocks = record {
  entry = refl;
  status = refl;
  holds = refl;
  open_state = refl;
  conflict = refl;
}

busy-IsClocked : IsClocked busy.prepared
busy-IsClocked = ((omega arith, omega arith), tt)

abbrev applied_first : Applied
applied_first = record {
  status = committed_first;
  writes = written ∷ [];
  completion = some first_id;
}

commit_lem : (apply_commit demo busy commit_first).1 ≡ ok applied_first
unfolding program
commit_lem = refl

safe-lt-writes_example : All (λ (r : Record). 11 < r.timestamp) (written ∷ [])
safe-lt-writes_example =
    safe-lt-writes demo busy busy-Inv reader 11 true commit_first
      (new_status first_id 12 State.prepared) first_entry applied_first busy-IsClocked reader_lem
      busy-Blocks commit_lem

abbrev abort_first : Abort
abort_first = record { id = first_id; timestamp = 16 }

abort_lem : (apply_abort busy abort_first).1 ≡ ok (new_status first_id 16 State.aborted)
unfolding program
abort_lem = refl

abbrev try_second : Prepare
try_second = record { txn = upsert_txn second_id; timestamp = 14 }

second_lem :
    (apply_prepare demo busy try_second).1 ≡ ok (new_failed_status second_id 14 1 lock_failed)
unfolding program
second_lem = refl

restore-snapshot_example :
    let r = restore start (snapshot busy) in
    (lookup first_id r.status ≡ lookup first_id busy.status)
    × (lookup first_id r.prepared ≡ lookup first_id busy.prepared)
    × (r.max_timestamp ≡ busy.max_timestamp)
restore-snapshot_example = restore-snapshot busy start first_id busy-Inv

second_unknown : lookup second_id busy.status ≡ none
unfolding program
second_unknown = refl

second_held :
    check_locks busy.prepared second_id 14 (build_locks (upsert_txn second_id))
    ≡ some (new_failed_status second_id 14 1 lock_failed)
unfolding program
second_held = refl

abbrev Accepted : (id : TxnId) (k t : ℕ) → Type 0
Accepted id k t = Accepts demo start (inserts id k write t)

first-Accepted : Accepted first_id 1 12
unfolding program
first-Accepted = record { unknown = refl; free = refl; valid = refl }

second-Accepted : Accepted second_id 1 14
unfolding program
second-Accepted = record { unknown = refl; free = refl; valid = refl }

inserts_both_commit_example :
    let b : TxnBatch = record none_of_them {
      autocommit = inserts first_id 1 write 12 ∷ inserts second_id 1 write 14 ∷ [];
    } in
    (apply_batch demo 105 1 start b).1.autocommit
    ≡ ok (new_status first_id 12 State.committed)
      ∷ ok (new_status second_id 14 State.committed)
      ∷ []
inserts_both_commit_example =
    inserts_both_commit demo 105 1 start first_id second_id 1 1 write write 12 14 20 refl
      first-Accepted second-Accepted

-- A reader of the same partition, on a follower.
abbrev store : Store (List Record)
store = record {
  get = λ s pid ts addrs. none;
  get_range = λ s pid ts a b. none;
  decode_value = some;
}

abbrev reading : Config
reading = record { max_iterator_results = 100; skip_corrupted_data = true }

checked : check_safe_timestamp store reading none busy reader 11 ≡ Reader.ok busy
unfolding check_safe_timestamp program
checked = refl

-- A batch with no commands, after which the first transaction is still prepared.
still_known : lookup first_id (apply_batch demo 105 2 busy none_of_them).0.status ≢ none
unfolding program
still_known = λ (e : some (new_status first_id 12 State.prepared) ≡ none). cc

late_commit :
    (apply_commit demo (apply_batch demo 105 2 busy none_of_them).0 commit_first).1
    ≡ ok applied_first
unfolding program
late_commit = refl

check_safe_timestamp-lt-writes_example : All (λ (r : Record). 11 < r.timestamp) (written ∷ [])
check_safe_timestamp-lt-writes_example =
    check_safe_timestamp-lt-writes store reading none demo busy busy
      (apply_batch demo 105 2 busy none_of_them).0 reader 11 commit_first
      (new_status first_id 12 State.prepared) first_entry applied_first checked busy-Inv
      busy-IsClocked busy-Blocks (Later.batch 105 2 none_of_them still_known (Later.within done))
      late_commit
