-- ===== src/Writer/Loop.antt =====
-- The main loop of the writer of internal/data/server/txn/writer.go: where the callers stand, and
-- how large a batch gets.
use scout.Base.{
  ℕ, ◌+◌, ◌≤◌, ◌<◌, ◌≡◌, refl, sym, ap, ◌∙◌, inl, inr, List, [], ◌∷◌, ◌++◌, map, arith, ◌==◌,
  nat_eq, Bool-cases,
}
use scout.Base.Lists.{All, All-append}
use scout.Manager.{TxnBatch}
use scout.Txn.{Error}
use scout.Writer.Answers.{channels}
use scout.Writer.{
  Waiting, Writer, Command, Event, tick, apply, unavailable, idle, enqueue, step, run, everyone,
  stop, send_batch_err,
}

-- The sum of a weight over callers: their number for the weight 1, and how often a caller occurs
-- for the weight that is 1 at it and 0 elsewhere.
abbrev pub total : (ℕ → ℕ) → List ℕ → ℕ
total f [] = 0
total f (ch ∷ chs) = f ch + total f chs

abbrev pub total_sent : (ℕ → ℕ) → List (TxnBatch × Waiting) → ℕ
total_sent f [] = 0
total_sent f ((_, w) ∷ sent) = total f (everyone w) + total_sent f sent

-- The callers of the events.
abbrev pub callers : List Event → List ℕ
callers [] = []
callers (tick ∷ events) = callers events
callers (apply ch _ ∷ events) = ch ∷ callers events

module _ (f : ℕ → ℕ) where
  total-append : (xs ys : List ℕ) → total f (xs ++ ys) ≡ total f xs + total f ys
  total-append [] ys = omega arith
  total-append (x ∷ xs) ys = omega (arith, total-append xs ys)

  total_sent-append :
      (xs ys : List (TxnBatch × Waiting))
      → total_sent f (xs ++ ys) ≡ total_sent f xs + total_sent f ys
  total_sent-append [] ys = omega arith
  total_sent-append ((b, w) ∷ xs) ys = omega (arith, total_sent-append xs ys)

  abbrev parts : Waiting → ℕ
  parts w =
      total f w.update_timestamp
      + (total f w.autocommit
          + (total f w.prepare
              + (total f w.commit
                  + (total f w.abort + (total f w.store_decision + total f w.mark_timedout)))))

  total-everyone : (w : Waiting) → total f (everyone w) ≡ parts w
  total-everyone w = omega (
    arith,
    total-append w.update_timestamp _,
    total-append w.autocommit _,
    total-append w.prepare _,
    total-append w.commit _,
    total-append w.abort _,
    total-append w.store_decision w.mark_timedout,
  )

  snoc : (xs : List ℕ) (ch : ℕ) → total f (xs ++ ch ∷ []) ≡ total f xs + f ch
  snoc xs ch = omega (arith, total-append xs (ch ∷ []))

  parts-enqueue :
      (ch : ℕ) (cmd : Command) (b : TxnBatch) (w : Waiting)
      → parts (enqueue ch cmd b w).1 ≡ parts w + f ch
  unfolding enqueue
  parts-enqueue ch (Command.autocommit x) b w = omega (arith, snoc w.autocommit ch)
  parts-enqueue ch (Command.prepare x) b w = omega (arith, snoc w.prepare ch)
  parts-enqueue ch (Command.commit x) b w = omega (arith, snoc w.commit ch)
  parts-enqueue ch (Command.abort x) b w = omega (arith, snoc w.abort ch)
  parts-enqueue ch (Command.store_decision x) b w = omega (arith, snoc w.store_decision ch)
  parts-enqueue ch (Command.mark_timedout x) b w = omega (arith, snoc w.mark_timedout ch)
  parts-enqueue ch (Command.update_timestamp x) b w = omega (arith, snoc w.update_timestamp ch)

  pub total-enqueue :
      (ch : ℕ) (cmd : Command) (b : TxnBatch) (w : Waiting)
      → total f (everyone (enqueue ch cmd b w).1) ≡ total f (everyone w) + f ch
  total-enqueue ch cmd b w =
      total-everyone (enqueue ch cmd b w).1
      ∙ (parts-enqueue ch cmd b w ∙ ap (λ x. x + f ch) (sym (total-everyone w)))

  step-total :
      (n : ℕ) (w : Writer) (e : Event)
      → total_sent f (step n w e).1 + total f (everyone (step n w e).0.waiting)
        ≡ total f (everyone w.waiting) + total f (callers (e ∷ []))
  unfolding step
  step-total n w tick = omega arith
  step-total n w (apply ch cmd) =
      let more = total-enqueue ch cmd w.batch w.waiting in
      elim (Bool-cases (w.batch_size + 1 == 1)) [
        | inl e ↦ rw e (omega (arith, more))
        | inr e ↦ elim (Bool-cases (w.batch_size + 1 == n)) [
          | inl g ↦ rw (e, g) (omega (arith, more))
          | inr g ↦ rw (e, g) (omega (arith, more))
        ]
      ]

  total-callers :
      (e : Event) (events : List Event)
      → total f (callers (e ∷ events)) ≡ total f (callers (e ∷ [])) + total f (callers events)
  total-callers tick events = omega arith
  total-callers (apply ch cmd) events = omega arith

  run-total_from :
      (n : ℕ) (w : Writer) (events : List Event)
      → total_sent f (run n w events).1 + total f (everyone (run n w events).0.waiting)
        ≡ total f (everyone w.waiting) + total f (callers events)
  unfolding run
  run-total_from n w [] = omega arith
  run-total_from n w (e ∷ events) = omega (
    arith,
    step-total n w e,
    run-total_from n (step n w e).0 events,
    total_sent-append (step n w e).1 (run n (step n w e).0 events).1,
    total-callers e events,
  )

  -- In any order of commands and ticks, each caller stands in exactly one of the batches that are
  -- sent or still waits, as often as it has called: for every weight of the callers, the sums agree.
  pub run-total :
      (n : ℕ) (events : List Event)
      → total_sent f (run n idle events).1 + total f (everyone (run n idle events).0.waiting)
        ≡ total f (callers events)
  run-total n events = omega (arith, run-total_from n idle events)

-- The counter of the loop is the number of callers that wait, below the maximal size.
abbrev IsCounted : ℕ → Writer → Type 0
IsCounted n w = (w.batch_size ≡ total (λ _. 1) (everyone w.waiting)) × (w.batch_size < n)

abbrev pub IsBounded : ℕ → List (TxnBatch × Waiting) → Type 0
IsBounded n = All (λ (s : TxnBatch × Waiting). total (λ _. 1) (everyone s.1) ≤ n)

step-IsBounded :
    (n : ℕ) (w : Writer) (e : Event)
    → 2 ≤ n
    → IsCounted n w
    → IsCounted n (step n w e).0 × IsBounded n (step n w e).1
unfolding step
step-IsBounded n w tick low (count, below) =
    ((refl, omega (arith, low)), (omega (arith, count, below), tt))
step-IsBounded n w (apply ch cmd) low (count, below) =
    let more = total-enqueue (λ _. 1) ch cmd w.batch w.waiting in
    elim (Bool-cases (w.batch_size + 1 == 1)) [
      | inl e ↦ rw e ((omega (arith, more, count), ground (arith, e, low)), tt)
      | inr e ↦ elim (Bool-cases (w.batch_size + 1 == n)) [
        | inl g ↦ rw (e, g) ((refl, omega (arith, low)), (omega (arith, more, count, below), tt))
        | inr g ↦ rw (e, g) ((omega (arith, more, count), ground (arith, g, below)), tt)
      ]
    ]

run-IsBounded_from :
    (n : ℕ) (w : Writer) (events : List Event)
    → 2 ≤ n
    → IsCounted n w
    → IsBounded n (run n w events).1
unfolding run
run-IsBounded_from n w [] low h = tt
run-IsBounded_from n w (e ∷ events) low h =
    let (next, sent) = step-IsBounded n w e low h in
    All-append _ _ _ sent (run-IsBounded_from n (step n w e).0 events low next)

-- With a maximal batch size of two or more, no batch has more callers than it.
pub run-IsBounded : (n : ℕ) (events : List Event) → 2 ≤ n → IsBounded n (run n idle events).1
run-IsBounded n events low = run-IsBounded_from n idle events low (refl, omega (arith, low))

run-IsCounted :
    (n : ℕ) (w : Writer) (events : List Event)
    → 2 ≤ n
    → IsCounted n w
    → IsCounted n (run n w events).0
unfolding run
run-IsCounted n w [] low h = h
run-IsCounted n w (e ∷ events) low h =
    run-IsCounted n (step n w e).0 events low (step-IsBounded n w e low h).0

total_none : (xs : List ℕ) → total (λ _. 1) xs ≡ 0 → xs ≡ []
total_none [] h = refl
total_none (x ∷ xs) h = absurd (omega (arith, h))

channels-unavailable :
    (e : Error) (xs : List ℕ) → channels (map (λ ch. (ch, unavailable e)) xs) ≡ xs
channels-unavailable e [] = refl
channels-unavailable e (x ∷ xs) = ap (λ l. x ∷ l) (channels-unavailable e xs)

-- At the end of the loop, with a maximal batch size of two or more: each caller that still waits is
-- told of the error, once.
stop-channels :
    (n : ℕ) (events : List Event) (e : Error)
    → 2 ≤ n
    → channels (stop (run n idle events).0 e) ≡ everyone (run n idle events).0.waiting
unfolding stop send_batch_err
stop-channels n events e low =
    let w = (run n idle events).0 in
    let (count, _) = run-IsCounted n idle events low (refl, omega (arith, low)) in
    elim (Bool-cases (w.batch_size == 0)) [
      | inl f ↦
          let empty = total_none (everyone w.waiting) (ground (arith, count, f)) in
          rw (stop, f) (sym empty)
      | inr f ↦ rw (stop, f) (channels-unavailable e (everyone w.waiting))
    ]
