-- ===== src/Watchdog/Timedout.antt =====
-- A transaction that a previous leader marked as timed out, in the hands of the watchdog.
use scout.Base.{
  ℕ, ◌≡◌, ◌≢◌, refl, Bool, true, false, some, List, [], ◌∷◌, ◌++◌, ltb, nat_eq, arith, inl, inr,
  Bool-cases, Option-cases, subst, sym,
}
use scout.Base.Lists.{All}
use scout.Base.Maps.{Map, lookup, delete, lookup-insert, lookup-delete}
use scout.Txn.{TxnId, TxnId_eq, State}
use scout.Manager.Snapshots.{Running}
use scout.Watchdog.{
  Watchdog, Event, requested, phase1, phase2, resolved, is_prepared, is_decided, expects,
  check_timedout, follow, tick1, tick2, step, run,
}

-- An event that brings no status of the identifier.
abbrev pub Spares : TxnId → Event → Type 0
Spares id (requested status) = status.id ≢ id
Spares id _ = Unit

-- The identifier is in the map as timed out, and is none of those whose resolution starts.
abbrev pub Waits : TxnId → Map TxnId State → List Running → Type 0
Waits id all started =
    (lookup id all ≡ some State.timedout) × All (λ (r : Running). r.id ≢ id) started

module _ (id : TxnId) where
  unlike_expected :
      (expected : State → Bool) (all : Map TxnId State) (i : TxnId)
      → expected State.timedout ≡ false
      → lookup id all ≡ some State.timedout
      → expects expected all i ≡ true
      → i ≢ id
  unfolding expects
  unlike_expected expected all i ignores at due same =
      let here : lookup i all ≡ some State.timedout =
        subst (λ x. lookup x all ≡ some State.timedout) (sym same) at in
      ground arith

  check_timedout-Waits :
      (oldest : ℕ) (expected : State → Bool) (all : Map TxnId State) (queue : List Running)
      → expected State.timedout ≡ false
      → lookup id all ≡ some State.timedout
      → let (rest, left, started) = check_timedout oldest expected all queue in
        Waits id left started
  unfolding check_timedout
  check_timedout-Waits oldest expected all [] ignores at = (at, tt)
  check_timedout-Waits oldest expected all (txn ∷ queue) ignores at =
      elim (Bool-cases (ltb oldest txn.timestamp)) [
        | inl late ↦ rw late (at, tt)
        | inr early ↦ elim (Bool-cases (expects expected all txn.id)) [
          | inr other ↦
              rw (early, other) (check_timedout-Waits oldest expected all queue ignores at)
          | inl due ↦
              let differs : txn.id ≢ id = unlike_expected expected all txn.id ignores at due in
              let kept : lookup id (delete txn.id all) ≡ some State.timedout =
                ground (arith, lookup-delete txn.id id all, TxnId_eq.beq_iff txn.id id) in
              let (stays, others) =
                check_timedout-Waits oldest expected (delete txn.id all) queue ignores kept in
              rw (early, due) (stays, (differs, others))
        ]
      ]

  follow-Waits :
      (w : Watchdog) (status : Running) (s : State)
      → status.id ≢ id
      → lookup id w.all ≡ some State.timedout
      → lookup id (follow w status s).all ≡ some State.timedout
  unfolding follow
  follow-Waits w status s differs at = ground (
    arith,
    lookup-insert status.id id State.prepared w.all,
    lookup-insert status.id id State.decided w.all,
    lookup-delete status.id id w.all,
    TxnId_eq.beq_iff status.id id,
  )

  step-Waits :
      (w : Watchdog) (e : Event)
      → Spares id e
      → lookup id w.all ≡ some State.timedout
      → Waits id (step w e).0.all (step w e).1
  unfolding step tick1 tick2
  step-Waits w (requested status) other at = elim (Option-cases (lookup status.id w.all)) [
    | inl absent ↦ rw (absent, step) (at, tt)
    | inr (t, e) ↦ rw (e, step) (follow-Waits w status status.state other at, tt)
  ]
  step-Waits w (phase1 oldest) other at =
      check_timedout-Waits oldest is_prepared w.all w.prepared refl at
  step-Waits w (phase2 oldest) other at =
      check_timedout-Waits oldest is_decided w.all w.decided refl at
  step-Waits w resolved other at = (at, tt)

  All-append :
      (xs ys : List Running)
      → All (λ (r : Running). r.id ≢ id) xs
      → All (λ (r : Running). r.id ≢ id) ys
      → All (λ (r : Running). r.id ≢ id) (xs ++ ys)
  All-append [] ys h k = k
  All-append (x ∷ xs) ys h k = (h.0, All-append xs ys h.1 k)

  -- A transaction that the watchdog loads as timed out, and of which no status comes in, is never
  -- resolved: it stays in the map, through any ticks, as timed out.
  pub run-Waits :
      (w : Watchdog) (events : List Event)
      → All (Spares id) events
      → lookup id w.all ≡ some State.timedout
      → Waits id (run w events).0.all (run w events).1
  unfolding run
  run-Waits w [] others at = (at, tt)
  run-Waits w (e ∷ rest) (other, others) at =
      let (now, before) = step-Waits w e other at in
      let (later, after) = run-Waits (step w e).0 rest others now in
      (later, All-append (step w e).1 (run (step w e).0 rest).1 before after)
