-- ===== src/Writer.antt =====
-- The writer of a partition, which gathers commands into batches for Raft:
-- internal/data/server/txn/writer.go. One turn of the `select` of `mainLoop` is a step on an event;
-- a result channel is a number. `readings n` is what the n-th call of `hlc.Now` in `prepareBatch`
-- returns.
pub mod Stamps
pub mod Answers
pub mod Loop
mod Tests
use scout.Base.{
  ℕ, zero, suc, ◌+◌, ◌-◌, max, Bool, true, false, Option, none, some, List, [], ◌∷◌, ◌++◌, map,
  if◌then◌else◌, ◌==◌, nat_eq,
}
use scout.Base.Lists.{length}
use scout.Txn.{Error, Result, ok, err, TxnStatus}
use scout.Manager.{Autocommit, Prepare, Commit, Abort, StoreDecision, MarkTimedout, TxnBatch}
use scout.Manager.Batch.{BatchResults}

-- `batchWaiting`.
pub record Waiting : Type 0 where
  pub autocommit : List ℕ
  pub prepare : List ℕ
  pub commit : List ℕ
  pub abort : List ℕ
  pub store_decision : List ℕ
  pub mark_timedout : List ℕ
  pub update_timestamp : List ℕ

-- The payload of an `applyCmd`.
pub data Command : Type 0 where
  autocommit : Autocommit → Command
  prepare : Prepare → Command
  commit : Commit → Command
  abort : Abort → Command
  store_decision : StoreDecision → Command
  mark_timedout : MarkTimedout → Command
  update_timestamp : ℕ → Command

abbrev pub empty_batch : TxnBatch
empty_batch = record {
  autocommit = [];
  prepare = [];
  commit = [];
  abort = [];
  store_decision = [];
  mark_timedout = [];
  max_timestamp = 0;
}

abbrev pub nobody : Waiting
nobody = record {
  autocommit = [];
  prepare = [];
  commit = [];
  abort = [];
  store_decision = [];
  mark_timedout = [];
  update_timestamp = [];
}

-- The local variables of `mainLoop`; `timer` says whether the timer runs.
pub record Writer : Type 0 where
  pub batch : TxnBatch
  pub waiting : Waiting
  pub batch_size : ℕ
  pub timer : Bool

abbrev pub idle : Writer
idle = record { batch = empty_batch; waiting = nobody; batch_size = 0; timer = false }

-- The `switch` on the payload, for the caller that waits on the channel `ch`.
unfoldable pub enqueue : ℕ → Command → TxnBatch → Waiting → TxnBatch × Waiting
enqueue ch (Command.autocommit x) b w = (
  record b { autocommit = b.autocommit ++ x ∷ [] },
  record w { autocommit = w.autocommit ++ ch ∷ [] },
)
enqueue ch (Command.prepare x) b w =
    (record b { prepare = b.prepare ++ x ∷ [] }, record w { prepare = w.prepare ++ ch ∷ [] })
enqueue ch (Command.commit x) b w =
    (record b { commit = b.commit ++ x ∷ [] }, record w { commit = w.commit ++ ch ∷ [] })
enqueue ch (Command.abort x) b w =
    (record b { abort = b.abort ++ x ∷ [] }, record w { abort = w.abort ++ ch ∷ [] })
enqueue ch (Command.store_decision x) b w = (
  record b { store_decision = b.store_decision ++ x ∷ [] },
  record w { store_decision = w.store_decision ++ ch ∷ [] },
)
enqueue ch (Command.mark_timedout x) b w = (
  record b { mark_timedout = b.mark_timedout ++ x ∷ [] },
  record w { mark_timedout = w.mark_timedout ++ ch ∷ [] },
)
enqueue ch (Command.update_timestamp ts) b w = (
  record b { max_timestamp = max b.max_timestamp ts },
  record w { update_timestamp = w.update_timestamp ++ ch ∷ [] },
)

-- What the `select` receives.
pub data Event : Type 0 where
  tick : Event
  apply : ℕ → Command → Event

-- The state after an event, and the batch that is handed to Raft, before its timestamps are set.
unfoldable pub step : ℕ → Writer → Event → Writer × List (TxnBatch × Waiting)
step max_batch_size w tick = (idle, (w.batch, w.waiting) ∷ [])
step max_batch_size w (apply ch cmd) =
    let (batch, waiting) = enqueue ch cmd w.batch w.waiting in
    let size = w.batch_size + 1 in
    if size == 1
    then (record { batch = batch; waiting = waiting; batch_size = size; timer = true }, [])
    else if size == max_batch_size
    then (idle, (batch, waiting) ∷ [])
    else (record { batch = batch; waiting = waiting; batch_size = size; timer = w.timer }, [])

unfoldable pub run : ℕ → Writer → List Event → Writer × List (TxnBatch × Waiting)
run max_batch_size w [] = (w, [])
run max_batch_size w (e ∷ events) =
    let (next, sent) = step max_batch_size w e in
    let (last, more) = run max_batch_size next events in (last, sent ++ more)

-- One loop of `prepareBatch`, from the `n`-th reading on.
unfoldable pub stamp {ℓ} : {A : Type ℓ} → (ℕ → A → A) → (ℕ → ℕ) → ℕ → List A → List A
stamp set readings n [] = []
stamp set readings n (x ∷ xs) = set (readings n) x ∷ stamp set readings (suc n) xs

-- The loop over the commits.
unfoldable pub max_commit : ℕ → List Commit → ℕ
max_commit ts [] = ts
max_commit ts (x ∷ xs) = max_commit (max ts x.timestamp) xs

-- `maxTS` after `n` readings.
abbrev pub last_reading : (ℕ → ℕ) → ℕ → ℕ
last_reading readings zero = 0
last_reading readings (suc n) = readings n

unfoldable pub prepare_batch : (ℕ → ℕ) → TxnBatch → TxnBatch
prepare_batch readings b =
    let n1 = length b.autocommit in
    let n2 = n1 + length b.prepare in
    let n3 = n2 + length b.abort in
    let n4 = n3 + length b.store_decision in
    let n5 = n4 + length b.mark_timedout in
    record {
      autocommit = stamp (λ ts x. record x { timestamp = ts }) readings 0 b.autocommit;
      prepare = stamp (λ ts x. record x { timestamp = ts }) readings n1 b.prepare;
      abort = stamp (λ ts x. record x { timestamp = ts }) readings n2 b.abort;
      store_decision = stamp (λ ts x. record x { timestamp = ts }) readings n3 b.store_decision;
      mark_timedout = stamp (λ ts x. record x { timestamp = ts }) readings n4 b.mark_timedout;
      commit = b.commit;
      max_timestamp = max b.max_timestamp (max_commit (last_reading readings n5) b.commit);
    }

-- What a caller receives: a `BatchResult`.
pub data Answer : Type 0 where
  result : Result TxnStatus → Answer
  updated : Answer
  unavailable : Error → Answer

-- `waiting[i] <- result` for each result; `none` is an index out of range.
unfoldable pub deliver : List ℕ → List (Result TxnStatus) → Option (List (ℕ × Answer))
deliver waiting [] = some []
deliver [] (r ∷ results) = none
deliver (ch ∷ waiting) (r ∷ results) = elim (deliver waiting results) [
  | none ↦ none
  | some answers ↦ some ((ch, result r) ∷ answers)
]

abbrev pub everyone : Waiting → List ℕ
everyone w =
    w.update_timestamp
    ++ (w.autocommit
        ++ (w.prepare ++ (w.commit ++ (w.abort ++ (w.store_decision ++ w.mark_timedout)))))

unfoldable pub send_batch_err : Waiting → Error → List (ℕ × Answer)
send_batch_err w e = map (λ ch. (ch, unavailable e)) (everyone w)

-- The end of `mainLoop`: who waits for the unsent batch is told of the error.
unfoldable pub stop : Writer → Error → List (ℕ × Answer)
stop w e = if w.batch_size == 0 then [] else send_batch_err w.waiting e

infixr 20 ◌and_then◌
abbrev ◌and_then◌ :
    Option (List (ℕ × Answer)) → Option (List (ℕ × Answer)) → Option (List (ℕ × Answer))
none and_then b = none
(some xs) and_then none = none
(some xs) and_then (some ys) = some (xs ++ ys)

unfoldable pub wait_batch_result : Waiting → Result BatchResults → Option (List (ℕ × Answer))
wait_batch_result w (err e) = some (send_batch_err w e)
wait_batch_result w (ok r) =
    some (map (λ ch. (ch, updated)) w.update_timestamp)
    and_then deliver w.autocommit r.autocommit
    and_then deliver w.prepare r.prepare
    and_then deliver w.commit r.commit
    and_then deliver w.abort r.abort
    and_then deliver w.store_decision r.store_decision
    and_then deliver w.mark_timedout r.mark_timedout
