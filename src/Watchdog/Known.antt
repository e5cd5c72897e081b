-- ===== src/Watchdog/Known.antt =====
-- Which transactions the watchdog resolves: some that it knew at its start, each at most once.
use scout.Base.{
  ℕ, ◌≡◌, ◌≢◌, refl, Bool, true, false, none, some, List, [], ◌∷◌, ◌++◌, ltb, nat_eq, arith, inl,
  inr, Bool-cases, Option-cases, subst,
}
use scout.Base.Lists.{All, All-mono, Pairwise}
use scout.Base.Maps.{Map, lookup, insert, delete, lookup-insert, lookup-delete}
use scout.Txn.{TxnId, TxnId_eq, State}
use scout.Manager.Snapshots.{Running}
use scout.Watchdog.{
  Watchdog, Event, requested, phase1, phase2, resolved, is_prepared, is_decided, expects,
  check_timedout, follow, tick1, tick2, step, run,
}

abbrev Unlike : Running → Running → Type 0
Unlike r s = r.id ≢ s.id

-- From one state of `all` to a later one, with the transactions whose resolution starts between
-- them: nothing joins the map, what starts was in it and leaves it, and nothing starts twice.
pub record IsPass (a b : Map TxnId State) (started : List Running) : Type 0 where
  pub shrinks : (id : TxnId) → lookup id a ≡ none → lookup id b ≡ none
  pub known : All (λ (r : Running). lookup r.id a ≢ none) started
  pub gone : All (λ (r : Running). lookup r.id b ≡ none) started
  pub distinct : Pairwise Unlike started

All-append : (P : Running → Type 0) (xs ys : List Running) → All P xs → All P ys → All P (xs ++ ys)
All-append P [] ys h k = k
All-append P (x ∷ xs) ys h k = (h.0, All-append P xs ys h.1 k)

Pairwise-append :
    (b : Map TxnId State) (xs ys : List Running)
    → All (λ (r : Running). lookup r.id b ≡ none) xs
    → All (λ (r : Running). lookup r.id b ≢ none) ys
    → Pairwise Unlike xs
    → Pairwise Unlike ys
    → Pairwise Unlike (xs ++ ys)
Pairwise-append b [] ys gone known h k = k
Pairwise-append b (x ∷ xs) ys gone known h k = (
  All-append (Unlike x) xs ys h.0
      (All-mono (λ y here same. here (subst (λ i. lookup i b ≡ none) same gone.0)) ys known),
  Pairwise-append b xs ys gone.1 known h.1 k,
)

IsPass-trans :
    {a b c : Map TxnId State} (xs ys : List Running)
    → IsPass a b xs
    → IsPass b c ys
    → IsPass a c (xs ++ ys)
IsPass-trans {a} {b} {c} xs ys p q = record {
  shrinks = λ id h. q.shrinks id (p.shrinks id h);
  known =
      All-append _ xs ys p.known
        (All-mono (λ r here absent. here (p.shrinks r.id absent)) ys q.known);
  gone = All-append _ xs ys (All-mono (λ r absent. q.shrinks r.id absent) xs p.gone) q.gone;
  distinct = Pairwise-append b xs ys p.gone q.known p.distinct q.distinct;
}

IsPass-same : (a : Map TxnId State) → IsPass a a []
IsPass-same a = record { shrinks = λ id h. h; known = tt; gone = tt; distinct = tt }

delete-IsPass :
    (r : Running) (a : Map TxnId State) → lookup r.id a ≢ none → IsPass a (delete r.id a) (r ∷ [])
delete-IsPass r a here = record {
  shrinks = λ id h. ground (arith, lookup-delete r.id id a);
  known = (here, tt);
  gone = (ground (arith, lookup-delete r.id r.id a, TxnId_eq.beq_iff r.id r.id), tt);
  distinct = (tt, tt);
}

forget-IsPass : (id : TxnId) (a : Map TxnId State) → IsPass a (delete id a) []
forget-IsPass i a = record {
  shrinks = λ id h. ground (arith, lookup-delete i id a);
  known = tt;
  gone = tt;
  distinct = tt;
}

-- A status of a transaction that is in the map.
insert-IsPass :
    (i : TxnId) (s t : State) (a : Map TxnId State)
    → lookup i a ≡ some t
    → IsPass a (insert i s a) []
insert-IsPass i s t a here = record {
  shrinks = λ id h. ground (arith, lookup-insert i id s a, TxnId_eq.beq_iff i id);
  known = tt;
  gone = tt;
  distinct = tt;
}

expects-known :
    (expected : State → Bool) (all : Map TxnId State) (id : TxnId)
    → expected State.pending ≡ false
    → expects expected all id ≡ true
    → lookup id all ≢ none
unfolding expects
expects-known expected all id pending due absent = ground arith

check_timedout-IsPass :
    (oldest : ℕ) (expected : State → Bool) (all : Map TxnId State) (queue : List Running)
    → expected State.pending ≡ false
    → let (rest, left, started) = check_timedout oldest expected all queue in
      IsPass all left started
unfolding check_timedout
check_timedout-IsPass oldest expected all [] pending = IsPass-same all
check_timedout-IsPass oldest expected all (txn ∷ queue) pending =
    elim (Bool-cases (ltb oldest txn.timestamp)) [
      | inl late ↦ rw late (IsPass-same all)
      | inr early ↦ elim (Bool-cases (expects expected all txn.id)) [
        | inl due ↦
            rw (early, due)
              (IsPass-trans (txn ∷ []) _
                (delete-IsPass txn all (expects-known expected all txn.id pending due))
                (check_timedout-IsPass oldest expected (delete txn.id all) queue pending))
        | inr other ↦ rw (early, other) (check_timedout-IsPass oldest expected all queue pending)
      ]
    ]

follow-IsPass :
    (w : Watchdog) (status : Running) (s t : State)
    → lookup status.id w.all ≡ some t
    → IsPass w.all (follow w status s).all []
unfolding follow
follow-IsPass w status State.prepared t e = insert-IsPass status.id State.prepared t w.all e
follow-IsPass w status State.decided t e = insert-IsPass status.id State.decided t w.all e
follow-IsPass w status State.committed t e = forget-IsPass status.id w.all
follow-IsPass w status State.aborted t e = forget-IsPass status.id w.all
follow-IsPass w status State.pending t e = IsPass-same w.all
follow-IsPass w status State.failed t e = IsPass-same w.all
follow-IsPass w status State.timedout t e = IsPass-same w.all

step-IsPass : (w : Watchdog) (e : Event) → IsPass w.all (step w e).0.all (step w e).1
unfolding step tick1 tick2
step-IsPass w (requested status) = elim (Option-cases (lookup status.id w.all)) [
  | inl absent ↦ rw (absent, step) (IsPass-same w.all)
  | inr (t, e) ↦ rw (e, step) (follow-IsPass w status status.state t e)
]
step-IsPass w (phase1 oldest) = check_timedout-IsPass oldest is_prepared w.all w.prepared refl
step-IsPass w (phase2 oldest) = check_timedout-IsPass oldest is_decided w.all w.decided refl
step-IsPass w resolved = IsPass-same w.all

-- Whatever the watchdog receives, every transaction that it starts to abort or to commit was in
-- its map at the start, and none is started twice. So it never resolves a transaction that is
-- prepared after its start: such a status is not in the map, and nothing adds it.
pub run-IsPass :
    (w : Watchdog) (events : List Event) → IsPass w.all (run w events).0.all (run w events).1
unfolding run
run-IsPass w [] = IsPass-same w.all
run-IsPass w (e ∷ rest) =
    let w1 = (step w e).0 in
    IsPass-trans (step w e).1 (run w1 rest).1 (step-IsPass w e) (run-IsPass w1 rest)
