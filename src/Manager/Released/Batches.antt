-- ===== src/Manager/Released/Batches.antt =====
-- The locks of committed transactions, over a whole batch.
use scout.Base.{
  ℕ, ◌≡◌, refl, ◌∙◌, inl, inr, Bool, true, false, not, ◌&&◌, ◌||◌, none, some, List, [], ◌∷◌, arith,
  Bool-cases, Option-cases, ◌==◌, nat_eq, if◌then◌else◌, sub_u64,
}
use scout.Base.Maps.{lookup, lookup-insert}
use mathlib.Core.List.{append-nil}
use scout.Txn.{TxnId, TxnId_eq, TxnStatus, State, Prepared, Result, ok, err}
use scout.Manager.{Env, Manager, TxnBatch, Commit, Autocommit}
use scout.Manager.Locks.{release_locks}
use scout.Manager.Apply.{
  Applied, apply_abort, apply_mark_timedout, apply_store_decision, commit_prepared, commit_in,
  apply_commit, apply_autocommit, apply_prepare,
}
use scout.Manager.Batch.{
  each, completions_of, complete, complete_all, stale_ids, cleanup, run_loops, finish, apply_batch,
}
use scout.Manager.Steps.{committed_status, done, ◌then◌}
use scout.Manager.Steps.Commands.{apply_autocommit-Step}
use scout.Manager.Cleanup.{names, lookup-delete_all}
use scout.Manager.Completion.{autocommits-Idle}
use scout.Manager.Runs.{before_commits-Steps}
use scout.Manager.Invariant.{Inv}
use scout.Manager.Invariant.Moves.{Steps-Inv}
use scout.Manager.Released.{
  unpaid, apply_abort-unpaid, apply_mark_timedout-unpaid, apply_store_decision-unpaid,
  apply_prepare-unpaid, apply_autocommit-unpaid,
}

-- Whether a result's completion is that of the transaction.
abbrev completes : TxnId → Result Applied → Bool
completes id (err e) = false
completes id (ok a) = elim a.completion [ none ↦ false | some i ↦ i == id ]

names-completions :
    (id : TxnId) (r : Result Applied) (rs : List (Result Applied))
    → names id (completions_of (r ∷ rs)) ≡ (completes id r || names id (completions_of rs))
unfolding completions_of
names-completions id (err e) rs = refl
names-completions id (ok a) rs = ground arith

clash : (b : Bool) → b ≡ true → b ≡ false → ⊥
clash b h k = ground arith

right_of : (a b : Bool) → (a || b) ≡ true → a ≡ false → b ≡ true
right_of a b h k = ground arith

join :
    (after before first rest both : Bool)
    → (after || rest) ≡ true
    → (after ≡ true → (before || first) ≡ true)
    → both ≡ (first || rest)
    → (before || both) ≡ true
join true before first rest both h k e = ground (arith, k refl)
join false before first rest both h k e = ground arith

module _ {S : Type 0} (env : Env S) (id : TxnId) where
  commit_in-unpaid :
      (m : Manager S) (c : Commit) (s : TxnStatus) (p : Prepared) (st : State)
      → unpaid (commit_in env st m c s p).0 id ≡ true
      → (unpaid m id || completes id (commit_in env st m c s p).1) ≡ true
  unfolding commit_in commit_prepared
  commit_in-unpaid m c s p st h = elim (Option-cases p.decision) [
    | inl e ↦ ground (
      arith,
      lookup-insert c.id id (committed_status c.id c.timestamp p.txn.participant_pids) m.status,
    )
    | inr (d, e) ↦ ground (
      arith,
      lookup-insert c.id id (committed_status c.id c.timestamp p.txn.participant_pids) m.status,
    )
  ]

  apply_commit-unpaid :
      (m : Manager S) (c : Commit)
      → unpaid (apply_commit env m c).0 id ≡ true
      → (unpaid m id || completes id (apply_commit env m c).1) ≡ true
  unfolding apply_commit
  apply_commit-unpaid m c h = elim (Option-cases (lookup c.id m.status)) [
    | inl e ↦ ground arith
    | inr (s, e) ↦ elim (Option-cases (lookup c.id m.prepared)) [
      | inl f ↦ ground arith
      | inr (p, f) ↦ ground (arith, commit_in-unpaid m c s p s.state)
    ]
  ]

  commits-unpaid :
      (m : Manager S) (cs : List Commit)
      → unpaid (each (apply_commit env) m cs).0 id ≡ true
      → (unpaid m id || names id (completions_of (each (apply_commit env) m cs).1)) ≡ true
  unfolding each
  commits-unpaid m [] h = ground arith
  commits-unpaid m (c ∷ cs) h =
      let n = (apply_commit env m c).0 in
      join (unpaid n id) (unpaid m id) _ _ _ (commits-unpaid n cs h) (apply_commit-unpaid m c)
        (names-completions id (apply_commit env m c).1 (each (apply_commit env) n cs).1)

  -- A loop over commands that each leave a transaction paid.
  each-unpaid :
      {C R : Type 0} (f : Manager S → C → Manager S × R)
      → ((m : Manager S) (c : C) → unpaid m id ≡ false → unpaid (f m c).0 id ≡ false)
      → (m : Manager S) (cs : List C) → unpaid m id ≡ false
      → unpaid (each f m cs).0 id ≡ false
  unfolding each
  each-unpaid f keeps m [] h = h
  each-unpaid f keeps m (c ∷ cs) h = each-unpaid f keeps (f m c).0 cs (keeps m c h)

  autocommits-unpaid :
      (m : Manager S) (cs : List Autocommit)
      → Inv m
      → unpaid m id ≡ false
      → unpaid (each (apply_autocommit env) m cs).0 id ≡ false
  unfolding each
  autocommits-unpaid m [] v h = h
  autocommits-unpaid m (c ∷ cs) v h =
      autocommits-unpaid (apply_autocommit env m c).0 cs
        (Steps-Inv (apply_autocommit-Step m env c then done) v)
        (apply_autocommit-unpaid m id env c
          (λ absent. elim (Option-cases (lookup c.txn.id m.prepared)) [
            | inl e ↦ e
            | inr (p, e) ↦ let (s, f, a) = v.known c.txn.id p e in absurd (ground arith)
          ])
          h)

  complete-unpaid :
      (m : Manager S) (i : TxnId) → unpaid (complete m i) id ≡ (unpaid m id && not (i == id))
  unfolding complete release_locks
  complete-unpaid m i = elim (Option-cases (lookup i m.prepared)) [
    | inl e ↦ ground (arith, TxnId_eq.beq_iff i id)
    | inr (p, e) ↦
        ground (arith, lookup-insert i id (release_locks p) m.prepared, TxnId_eq.beq_iff i id)
  ]

  complete_all-unpaid :
      (m : Manager S) (ids : List TxnId)
      → unpaid (complete_all m ids) id ≡ (unpaid m id && not (names id ids))
  unfolding complete_all
  complete_all-unpaid m [] = ground arith
  complete_all-unpaid m (i ∷ ids) =
      ground (arith, complete_all-unpaid (complete m i) ids, complete-unpaid m i)

  cleanup-unpaid :
      (now : ℕ) (m : Manager S) → unpaid m id ≡ false → unpaid (cleanup now m) id ≡ false
  unfolding cleanup
  cleanup-unpaid now m h =
      let ids = stale_ids m.prepared (sub_u64 now m.clean_after) m.status in
      rw (lookup-delete_all ids id m.prepared, lookup-delete_all ids id m.status)
        (elim (Bool-cases (names id ids)) [ inl gone ↦ rw gone refl | inr kept ↦ rw kept h ])

  after_loops-unpaid :
      (m : Manager S) (b : TxnBatch)
      → Inv m
      → unpaid m id ≡ false
      → unpaid (run_loops env m b).state id ≡ true
      → names id (run_loops env m b).completions ≡ true
  unfolding run_loops
  after_loops-unpaid m b v h owed =
      let m1 = (each apply_abort m b.abort).0 in
      let m2 = (each apply_mark_timedout m1 b.mark_timedout).0 in
      let commits = each (apply_commit env) m2 b.commit in
      let m4 = (each (apply_autocommit env) commits.0 b.autocommit).0 in
      let m5 = (each (apply_prepare env) m4 b.prepare).0 in
      let paid2 : unpaid m2 id ≡ false =
        each-unpaid apply_mark_timedout (λ n c k. apply_mark_timedout-unpaid n id c k) m1
          b.mark_timedout
          (each-unpaid apply_abort (λ n c k. apply_abort-unpaid n id c k) m b.abort h) in
      elim (Bool-cases (unpaid commits.0 id)) [
        | inr paid ↦
            let paid4 =
              autocommits-unpaid commits.0 b.autocommit (Steps-Inv (before_commits-Steps env m b) v)
                paid in
            let paid5 =
              each-unpaid (apply_prepare env) (λ n c k. apply_prepare-unpaid n id env c k) m4
                b.prepare paid4 in
            let paid6 =
              each-unpaid apply_store_decision (λ n c k. apply_store_decision-unpaid n id c k) m5
                b.store_decision paid5 in
            absurd (clash (unpaid (run_loops env m b).state id) owed paid6)
        | inl due ↦
            rw (autocommits-Idle env commits.0 b.autocommit, append-nil)
              (right_of (unpaid m2 id) (names id (completions_of commits.1))
                (commits-unpaid m2 b.commit due) paid2)
      ]

  finish-unpaid :
      (index : ℕ) (m : Manager S) (b : TxnBatch)
      → Inv m
      → unpaid m id ≡ false
      → unpaid (finish env index b (run_loops env m b)) id ≡ false
  unfolding finish
  finish-unpaid index m b v h =
      let l = run_loops env m b in
      let written : Manager S = record l.state {
        db = env.put l.state.db l.state.pid index l.writes;
      } in
      let after = complete_all-unpaid written l.completions in
      elim (Bool-cases (unpaid l.state id)) [
        | inr paid ↦ after ∙ rw paid refl
        | inl due ↦ after ∙ rw (due, after_loops-unpaid m b v h due) refl
      ]

  -- Under the invariant: if an identifier is not at once committed and in possession of its locks
  -- before a batch, it is not after the batch, so a batch releases the locks of all that it commits.
  pub apply_batch-unpaid :
      (now index : ℕ) (m : Manager S) (b : TxnBatch)
      → Inv m
      → unpaid m id ≡ false
      → unpaid (apply_batch env now index m b).0 id ≡ false
  unfolding apply_batch
  apply_batch-unpaid now index m b v h =
      cleanup-unpaid now (finish env index b (run_loops env m b)) (finish-unpaid index m b v h)
