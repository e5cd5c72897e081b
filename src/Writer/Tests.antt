-- ===== src/Writer/Tests.antt =====
-- The writer on small data, and the theorems at concrete inputs.
use scout.Base.{
  ℕ, ◌+◌, ◌≤◌, ◌<◌, ◌≡◌, refl, false, List, [], ◌∷◌, arith, if◌then◌else◌, ◌==◌, nat_eq,
}
use scout.Base.Lists.{All}
use scout.Txn.{TxnId, Txn, ok}
use scout.Manager.{Env, Manager, new_manager, TxnBatch, Commit}
use scout.Manager.Batch.{apply_batch}
use scout.Writer.{
  Waiting, Command, Event, tick, apply, empty_batch, idle, enqueue, step, run, prepare_batch,
  everyone, wait_batch_result,
}
use scout.Writer.Answers.{Answers, run-Answers}
use scout.Writer.Loop.{callers, total, total_sent, run-total, IsBounded, run-IsBounded}
use scout.Writer.Stamps.{stamps, Ascends, prepare_batch-Ascends, commits-lower}

abbrev env : Env (Unit {0})
env = record {
  exists = λ s pid ts a. false;
  exists_in_range = λ s pid ts a b. false;
  put = λ s pid ts records. s;
  marshal_value = λ v. v;
}

abbrev id : TxnId
id = record { principal_pid = 1; server_id = 2; timestamp = 3 }

abbrev txn : Txn
txn = record { id = id; actions = []; participant_pids = [] }

-- Three callers, a tick, and a fourth caller.
abbrev events : List Event
events =
    apply 1 (Command.prepare (record { txn = txn; timestamp = 0 }))
    ∷ apply 2 (Command.commit (record { id = id; timestamp = 8 }))
    ∷ apply 3 (Command.update_timestamp 9)
    ∷ tick
    ∷ apply 4 (Command.abort (record { id = id; timestamp = 0 }))
    ∷ []

abbrev batch : TxnBatch
batch = record empty_batch {
  autocommit = record { txn = txn; timestamp = 0 } ∷ [];
  prepare = record { txn = txn; timestamp = 0 } ∷ [];
  commit = record { id = id; timestamp = 8 } ∷ [];
}

abbrev clock : ℕ → ℕ
clock n = n + 5

-- The manager has applied timestamp 100.
abbrev m : Manager (Unit {0})
m = record (new_manager 1 tt 0) { max_timestamp = 100 }

-- With a size of two, the second caller completes the first batch.
sends_two : total_sent (λ _. 1) (run 2 idle events).1 ≡ 3
unfolding run step enqueue
sends_two = refl

run-Answers_example :
    All
      (λ (s : TxnBatch × Waiting).
        Answers
          (wait_batch_result s.1 (ok (apply_batch env 0 1 m (prepare_batch clock s.0)).1))
          (everyone s.1))
      (run 2 idle events).1
run-Answers_example = run-Answers env 0 1 m clock 2 events

abbrev is_third : ℕ → ℕ
is_third ch = if ch == 3 then 1 else 0

run-total_example :
    total_sent is_third (run 2 idle events).1
      + total is_third (everyone (run 2 idle events).0.waiting)
    ≡ total is_third (callers events)
run-total_example = run-total is_third 2 events

run-IsBounded_example : IsBounded 2 (run 2 idle events).1
run-IsBounded_example = run-IsBounded 2 events (omega arith)

prepare_batch-Ascends_example :
    let done = prepare_batch clock batch in
    Ascends (stamps done)
    × (All (λ ts. ts ≤ done.max_timestamp) (stamps done)
        × (All (λ (x : Commit). x.timestamp ≤ done.max_timestamp) done.commit
            × (batch.max_timestamp ≤ done.max_timestamp)))
prepare_batch-Ascends_example = prepare_batch-Ascends clock batch (λ n. omega arith)

abbrev late_commit : Commit
late_commit = record { id = id; timestamp = 8 }

commits-lower_example :
    let commits : TxnBatch = record {
      autocommit = [];
      prepare = [];
      commit = late_commit ∷ [];
      abort = [];
      store_decision = [];
      mark_timedout = [];
      max_timestamp = 0;
    } in
    (apply_batch env 0 1 m (prepare_batch clock commits)).0.max_timestamp < 100
commits-lower_example =
    commits-lower env 0 1 m clock (late_commit ∷ []) (omega arith) (omega arith, tt)
