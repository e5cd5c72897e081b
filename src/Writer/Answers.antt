-- ===== src/Writer/Answers.antt =====
-- The answers of the writer of internal/data/server/txn/writer.go: who waits for a batch is
-- answered once when Raft has applied it.
use scout.Base.{
  ℕ, suc, ◌+◌, ◌≡◌, refl, sym, ap, ◌∙◌, Option, some, List, [], ◌∷◌, ◌++◌, map, arith, inl, inr,
  ◌==◌, nat_eq, Bool-cases,
}
use scout.Base.Lists.{length, All, All-mono, All-append, length-append}
use scout.Txn.{Result, ok, err, TxnStatus}
use scout.Manager.{Env, Manager, TxnBatch}
use scout.Manager.Apply.{Applied}
use scout.Manager.Batch.{each, statuses_of, run_loops, apply_batch}
use scout.Writer.{
  Waiting, Writer, Command, Event, tick, apply, Answer, result, updated, empty_batch, nobody, idle,
  enqueue, step, run, stamp, prepare_batch, deliver, everyone, wait_batch_result, ◌and_then◌,
}

abbrev pub channels : List (ℕ × Answer) → List ℕ
channels = map (λ (a : ℕ × Answer). a.0)

-- The caller of each command waits, in the same order.
abbrev pub IsPaired : TxnBatch → Waiting → Type 0
IsPaired b w =
    (length b.autocommit ≡ length w.autocommit)
    × ((length b.prepare ≡ length w.prepare)
        × ((length b.commit ≡ length w.commit)
            × ((length b.abort ≡ length w.abort)
                × ((length b.store_decision ≡ length w.store_decision)
                    × (length b.mark_timedout ≡ length w.mark_timedout)))))

-- The answers of a batch, one for each that waits.
abbrev pub Answers : Option (List (ℕ × Answer)) → List ℕ → Type 0
Answers answers waiting = (xs : List (ℕ × Answer)) × ((answers ≡ some xs) × (channels xs ≡ waiting))

deliver-Answers :
    (waiting : List ℕ) (results : List (Result TxnStatus))
    → length results ≡ length waiting
    → Answers (deliver waiting results) waiting
unfolding deliver
deliver-Answers [] [] h = ([], (refl, refl))
deliver-Answers (ch ∷ waiting) [] h = absurd (omega (arith, h))
deliver-Answers [] (r ∷ results) h = absurd (omega (arith, h))
deliver-Answers (ch ∷ waiting) (r ∷ results) h =
    let (xs, (found, names)) = deliver-Answers waiting results (omega (arith, h)) in
    ((ch, result r) ∷ xs, (rw found refl, ap (λ l. ch ∷ l) names))

channels-append : (xs ys : List (ℕ × Answer)) → channels (xs ++ ys) ≡ channels xs ++ channels ys
channels-append [] ys = refl
channels-append (x ∷ xs) ys = ap (λ l. x.0 ∷ l) (channels-append xs ys)

and_then-Answers :
    (a b : Option (List (ℕ × Answer))) (v w : List ℕ)
    → Answers a v
    → Answers b w
    → Answers (a and_then b) (v ++ w)
and_then-Answers a b v w (xs, (found, names)) (ys, (found_too, more)) =
    (xs ++ ys, (rw (found, found_too) refl, channels-append xs ys ∙ rw (names, more) refl))

channels-updated : (waiting : List ℕ) → channels (map (λ ch. (ch, updated)) waiting) ≡ waiting
channels-updated [] = refl
channels-updated (ch ∷ waiting) = ap (λ l. ch ∷ l) (channels-updated waiting)

length-each :
    {S A R : Type 0} (f : Manager S → A → Manager S × R) (m : Manager S) (xs : List A)
    → length (each f m xs).1 ≡ length xs
unfolding each
length-each f m [] = refl
length-each f m (x ∷ xs) = ap suc (length-each f (f m x).0 xs)

length-statuses_of : (rs : List (Result Applied)) → length (statuses_of rs) ≡ length rs
unfolding statuses_of
length-statuses_of [] = refl
length-statuses_of (ok a ∷ rs) = ap suc (length-statuses_of rs)
length-statuses_of (err e ∷ rs) = ap suc (length-statuses_of rs)

length-stamp {ℓ} :
    {A : Type ℓ} (set : ℕ → A → A) (readings : ℕ → ℕ) (n : ℕ) (xs : List A)
    → length (stamp set readings n xs) ≡ length xs
unfolding stamp
length-stamp set readings n [] = refl
length-stamp set readings n (x ∷ xs) = ap suc (length-stamp set readings (suc n) xs)

prepare_batch-IsPaired :
    (readings : ℕ → ℕ) (b : TxnBatch) (w : Waiting)
    → IsPaired b w
    → IsPaired (prepare_batch readings b) w
unfolding prepare_batch
prepare_batch-IsPaired readings b w (h1, (h2, (h3, (h4, (h5, h6))))) = (
  length-stamp _ _ _ _ ∙ h1,
  (
    length-stamp _ _ _ _ ∙ h2,
    (h3, (length-stamp _ _ _ _ ∙ h4, (length-stamp _ _ _ _ ∙ h5, length-stamp _ _ _ _ ∙ h6))),
  ),
)

module _ {S : Type 0} (env : Env S) where
  wait_batch_result-Answers :
      (now index : ℕ) (m : Manager S) (b : TxnBatch) (w : Waiting)
      → IsPaired b w
      → Answers (wait_batch_result w (ok (apply_batch env now index m b).1)) (everyone w)
  unfolding wait_batch_result apply_batch run_loops
  wait_batch_result-Answers now index m b w (h1, (h2, (h3, (h4, (h5, h6))))) =
      and_then-Answers _ _ _ _ (_, (refl, channels-updated w.update_timestamp))
        (and_then-Answers _ _ _ _
          (deliver-Answers w.autocommit _ (length-statuses_of _ ∙ (length-each _ _ _ ∙ h1)))
          (and_then-Answers _ _ _ _ (deliver-Answers w.prepare _ (length-each _ _ _ ∙ h2)) (
            and_then-Answers _ _ _ _
              (deliver-Answers w.commit _ (length-statuses_of _ ∙ (length-each _ _ _ ∙ h3)))
              (and_then-Answers _ _ _ _ (deliver-Answers w.abort _ (length-each _ _ _ ∙ h4)) (
                and_then-Answers _ _ _ _
                  (deliver-Answers w.store_decision _ (length-each _ _ _ ∙ h5))
                  (deliver-Answers w.mark_timedout _ (length-each _ _ _ ∙ h6)))))))

length-snoc {ℓ} : {A : Type ℓ} (xs : List A) (x : A) → length (xs ++ x ∷ []) ≡ suc (length xs)
length-snoc xs x = omega (arith, length-append xs (x ∷ []))

snoc_both {ℓ κ} :
    {A : Type ℓ} {B : Type κ} (xs : List A) (x : A) (ys : List B) (y : B)
    → length xs ≡ length ys
    → length (xs ++ x ∷ []) ≡ length (ys ++ y ∷ [])
snoc_both xs x ys y h = length-snoc xs x ∙ (ap suc h ∙ sym (length-snoc ys y))

enqueue-IsPaired :
    (ch : ℕ) (cmd : Command) (b : TxnBatch) (w : Waiting)
    → IsPaired b w
    → let next = enqueue ch cmd b w in IsPaired next.0 next.1
unfolding enqueue
enqueue-IsPaired ch (Command.autocommit x) b w (h, rest) = (snoc_both _ _ _ _ h, rest)
enqueue-IsPaired ch (Command.prepare x) b w (h1, (h, rest)) = (h1, (snoc_both _ _ _ _ h, rest))
enqueue-IsPaired ch (Command.commit x) b w (h1, (h2, (h, rest))) =
    (h1, (h2, (snoc_both _ _ _ _ h, rest)))
enqueue-IsPaired ch (Command.abort x) b w (h1, (h2, (h3, (h, rest)))) =
    (h1, (h2, (h3, (snoc_both _ _ _ _ h, rest))))
enqueue-IsPaired ch (Command.store_decision x) b w (h1, (h2, (h3, (h4, (h, rest))))) =
    (h1, (h2, (h3, (h4, (snoc_both _ _ _ _ h, rest)))))
enqueue-IsPaired ch (Command.mark_timedout x) b w (h1, (h2, (h3, (h4, (h5, h))))) =
    (h1, (h2, (h3, (h4, (h5, snoc_both _ _ _ _ h)))))
enqueue-IsPaired ch (Command.update_timestamp ts) b w h = h

abbrev SentPaired : List (TxnBatch × Waiting) → Type 0
SentPaired = All (λ (s : TxnBatch × Waiting). IsPaired s.0 s.1)

nobody-IsPaired : IsPaired empty_batch nobody
nobody-IsPaired = (refl, (refl, (refl, (refl, (refl, refl)))))

step-IsPaired :
    (n : ℕ) (w : Writer) (e : Event)
    → IsPaired w.batch w.waiting
    → let next = step n w e in IsPaired next.0.batch next.0.waiting × SentPaired next.1
unfolding step
step-IsPaired n w tick h = (nobody-IsPaired, (h, tt))
step-IsPaired n w (apply ch cmd) h =
    let more = enqueue-IsPaired ch cmd w.batch w.waiting h in
    elim (Bool-cases (w.batch_size + 1 == 1)) [
      | inl e ↦ rw e (more, tt)
      | inr e ↦ elim (Bool-cases (w.batch_size + 1 == n)) [
        | inl f ↦ rw (e, f) (nobody-IsPaired, (more, tt))
        | inr f ↦ rw (e, f) (more, tt)
      ]
    ]

run-SentPaired :
    (n : ℕ) (w : Writer) (events : List Event)
    → IsPaired w.batch w.waiting
    → SentPaired (run n w events).1
unfolding run
run-SentPaired n w [] h = tt
run-SentPaired n w (e ∷ events) h =
    let (next, sent) = step-IsPaired n w e h in
    All-append _ _ _ sent (run-SentPaired n (step n w e).0 events next)

-- In any order of commands and ticks: when Raft has applied a batch of the writer, each caller that
-- waits for the batch is answered exactly once, and no result is left over.
pub run-Answers :
    {S : Type 0} (env : Env S) (now index : ℕ) (m : Manager S) (readings : ℕ → ℕ) (n : ℕ)
    (events : List Event)
    → All
        (λ (s : TxnBatch × Waiting).
          Answers
            (wait_batch_result s.1
              (ok (apply_batch env now index m (prepare_batch readings s.0)).1))
            (everyone s.1))
        (run n idle events).1
run-Answers env now index m readings n events =
    All-mono
      (λ s paired.
        wait_batch_result-Answers env now index m (prepare_batch readings s.0) s.1
          (prepare_batch-IsPaired readings s.0 s.1 paired))
      (run n idle events).1 (run-SentPaired n idle events nobody-IsPaired)
