-- ===== src/Manager/Released.antt =====
-- A batch leaves no lock with a committed transaction.
pub mod Batches
use scout.Base.{
  ℕ, ◌≡◌, refl, sym, ap, ◌⊎◌, inl, inr, Bool, true, false, not, ◌&&◌, ◌||◌, Option, none, some,
  List, [], ◌∷◌, ◌++◌, arith, Bool-cases, Option-cases, ◌==◌, nat_eq, if◌then◌else◌, subst, ltb,
  xor,
}
use scout.Base.Maps.{lookup, insert, lookup-insert, lookup-insert_self}
use scout.Txn.{TxnId, TxnId_eq, TxnStatus, State, Prepared, Decision, Result, ok, err}
use scout.Manager.{
  Env, Manager, TxnBatch, Commit, Autocommit, Prepare, Abort, StoreDecision, MarkTimedout,
  new_status,
}
use scout.Manager.Locks.{release_locks, check_locks}
use scout.Manager.Apply.{
  Applied, apply_abort, abort_in, mark_in, apply_mark_timedout, decide_in, apply_store_decision,
  commit_prepared, commit_in, apply_commit, autocommit_new, apply_autocommit, prepare_new,
  apply_prepare,
}
use scout.Manager.Batch.{
  each, completions_of, complete, complete_all, delete_all, cleanup, run_loops, finish, apply_batch,
}
use scout.Manager.Steps.{committed_status, fresh_prepared}

abbrev pub is_committed : State → Bool
is_committed State.committed = true
is_committed _ = false

-- A committed transaction whose locks are not released.
abbrev pub unpaid : {S : Type 0} → Manager S → TxnId → Bool
unpaid m id =
    elim (lookup id m.prepared) [ none ↦ false | some p ↦ not p.locks_released ]
    && elim (lookup id m.status) [ none ↦ false | some s ↦ is_committed s.state ]

module _ {S : Type 0} (m : Manager S) (id : TxnId) where
  abort_in-unpaid :
      (c : Abort) (s : TxnStatus) (p : Prepared) (st : State)
      → unpaid m id ≡ false
      → unpaid (abort_in st m c s p).0 id ≡ false
  unfolding abort_in release_locks
  abort_in-unpaid c s p st h = ground (
    arith,
    lookup-insert c.id id (release_locks p) m.prepared,
    lookup-insert c.id id (new_status c.id c.timestamp State.aborted) m.status,
  )

  apply_abort-unpaid : (c : Abort) → unpaid m id ≡ false → unpaid (apply_abort m c).0 id ≡ false
  unfolding apply_abort
  apply_abort-unpaid c h = elim (Option-cases (lookup c.id m.status)) [
    | inl e ↦ rw (e, apply_abort) h
    | inr (s, e) ↦ elim (Option-cases (lookup c.id m.prepared)) [
      | inl f ↦ rw (e, f, apply_abort) h
      | inr (p, f) ↦ rw (e, f, apply_abort) (abort_in-unpaid c s p s.state h)
    ]
  ]

  mark_in-unpaid :
      (c : MarkTimedout) (s : TxnStatus) (p : Prepared) (st : State)
      → unpaid m id ≡ false
      → unpaid (mark_in st m c s p).0 id ≡ false
  unfolding mark_in release_locks
  mark_in-unpaid c s p st h = ground (
    arith,
    lookup-insert c.id id (release_locks p) m.prepared,
    lookup-insert c.id id (new_status c.id c.timestamp State.timedout) m.status,
  )

  apply_mark_timedout-unpaid :
      (c : MarkTimedout) → unpaid m id ≡ false → unpaid (apply_mark_timedout m c).0 id ≡ false
  unfolding apply_mark_timedout
  apply_mark_timedout-unpaid c h = elim (Option-cases (lookup c.id m.status)) [
    | inl e ↦ rw (e, apply_mark_timedout) h
    | inr (s, e) ↦ elim (Bool-cases (c.id.principal_pid == m.pid)) [
      | inr other ↦ rw (e, other, apply_mark_timedout) h
      | inl own ↦ elim (Option-cases (lookup c.id m.prepared)) [
        | inl f ↦ rw (e, own, f, apply_mark_timedout) h
        | inr (p, f) ↦ rw (e, own, f, apply_mark_timedout) (mark_in-unpaid c s p s.state h)
      ]
    ]
  ]

  decide_in-unpaid :
      (c : StoreDecision) (s : TxnStatus) (p : Prepared) (st : State)
      → unpaid m id ≡ false
      → unpaid (decide_in st m c s p).0 id ≡ false
  unfolding decide_in
  decide_in-unpaid c s p st h = elim (Option-cases p.decision) [
    | inl e ↦ ground (
      arith,
      lookup-insert c.decision.id id (record p { decision = some c.decision }) m.prepared,
      lookup-insert c.decision.id id (new_status c.decision.id c.timestamp State.decided) m.status,
    )
    | inr (d, e) ↦ ground (
      arith,
      lookup-insert c.decision.id id (record p { decision = some c.decision }) m.prepared,
      lookup-insert c.decision.id id (new_status c.decision.id c.timestamp State.decided) m.status,
    )
  ]

  apply_store_decision-unpaid :
      (c : StoreDecision) → unpaid m id ≡ false → unpaid (apply_store_decision m c).0 id ≡ false
  unfolding apply_store_decision
  apply_store_decision-unpaid c h = elim (Option-cases (lookup c.decision.id m.status)) [
    | inl e ↦ rw (e, apply_store_decision) h
    | inr (s, e) ↦ elim (Bool-cases (c.decision.id.principal_pid == m.pid)) [
      | inr other ↦ rw (e, other, apply_store_decision) h
      | inl own ↦ elim (Option-cases (lookup c.decision.id m.prepared)) [
        | inl f ↦ rw (e, own, f, apply_store_decision) h
        | inr (p, f) ↦ rw (e, own, f, apply_store_decision) (decide_in-unpaid c s p s.state h)
      ]
    ]
  ]

  apply_prepare-unpaid :
      (env : Env S) (c : Prepare)
      → unpaid m id ≡ false
      → unpaid (apply_prepare env m c).0 id ≡ false
  unfolding apply_prepare prepare_new
  apply_prepare-unpaid env c h = ground (
    arith,
    lookup-insert c.txn.id id (fresh_prepared c.txn c.timestamp) m.prepared,
    lookup-insert c.txn.id id (new_status c.txn.id c.timestamp State.prepared) m.status,
  )

  -- An unknown transaction has no prepared entry.
  apply_autocommit-unpaid :
      (env : Env S) (c : Autocommit)
      → (lookup c.txn.id m.status ≡ none → lookup c.txn.id m.prepared ≡ none)
      → unpaid m id ≡ false
      → unpaid (apply_autocommit env m c).0 id ≡ false
  unfolding apply_autocommit autocommit_new
  apply_autocommit-unpaid env c unknown h = ground (
    arith,
    unknown,
    TxnId_eq.beq_iff c.txn.id id,
    lookup-insert c.txn.id id (new_status c.txn.id c.timestamp State.committed) m.status,
  )
