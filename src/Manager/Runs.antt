-- ===== src/Manager/Runs.antt =====
-- What a whole batch does: `ApplyBatch` as a run of moves, followed by the cleanup.
use scout.Base.{ℕ, ◌≡◌, refl, List, [], ◌∷◌, ◌++◌}
use scout.Base.{subst, sym}
use scout.Base.Lists.{All, All-mono}
use scout.Base.Maps.{Map, delete, Pairwise-delete, All-delete}
use mathlib.Core.List.{append-nil}
use scout.Txn.{TxnId, TxnId_eq, Prepared}
use scout.Manager.{Env, Manager, TxnBatch}
use scout.Manager.Apply.{
  apply_abort, apply_mark_timedout, apply_commit, apply_autocommit, apply_prepare,
  apply_store_decision,
}
use scout.Manager.Batch.{each, delete_all, cleanup, run_loops, finish, apply_batch}
use scout.Manager.Steps.{Step, Steps, Steps-append, done, ◌then◌}
use scout.Manager.Steps.Commands.{
  apply_abort-Step, apply_mark_timedout-Step, apply_commit-Step, apply_autocommit-Step,
  apply_prepare-Step, apply_store_decision-Step,
}
use scout.Manager.Completion.{
  each-Steps, commits-AllCommitted, autocommits-Idle, complete_all-Steps, Steps-IsCommitted,
  IsCommitted,
}
use scout.Manager.Exclusion.{IsExclusive, Apart, Drops, Steps-IsExclusive}

All-append_nil :
    {A : Type 0} (P : A → Type 0) (xs ys : List A) → All P xs → ys ≡ [] → All P (xs ++ ys)
All-append_nil P xs ys h e = subst (All P) (sym (rw (e, append-nil) refl)) h

module _ {S : Type 0} (env : Env S) (m : Manager S) (b : TxnBatch) where
  -- The states between the six loops.
  abbrev after_commits : Manager S
  after_commits =
      (each (apply_commit env)
        (each apply_mark_timedout (each apply_abort m b.abort).0 b.mark_timedout).0 b.commit).0

  abbrev after_autocommits : Manager S
  after_autocommits = (each (apply_autocommit env) after_commits b.autocommit).0

  pub before_commits-Steps : Steps m after_commits
  before_commits-Steps = Steps-append (each-Steps apply_abort apply_abort-Step m b.abort) (
      Steps-append (each-Steps apply_mark_timedout apply_mark_timedout-Step _ b.mark_timedout)
        (each-Steps (apply_commit env) (λ n c. apply_commit-Step n env c) _ b.commit))

  after_commits-Steps : Steps after_commits (run_loops env m b).state
  unfolding run_loops
  after_commits-Steps =
      Steps-append
        (each-Steps (apply_autocommit env) (λ n c. apply_autocommit-Step n env c) _ b.autocommit)
        (Steps-append
          (each-Steps (apply_prepare env) (λ n c. apply_prepare-Step n env c) _ b.prepare)
          (each-Steps apply_store_decision apply_store_decision-Step _ b.store_decision))

  completions-AllCommitted :
      All (IsCommitted (run_loops env m b).state) (run_loops env m b).completions
  unfolding run_loops
  completions-AllCommitted =
      All-append_nil (IsCommitted (run_loops env m b).state) _ _
        (All-mono (Steps-IsCommitted after_commits-Steps) _ (commits-AllCommitted env _ b.commit))
        (autocommits-Idle env after_commits b.autocommit)

  -- Everything in a batch up to the cleanup is a run of moves.
  pub finish-Steps : (index : ℕ) → Steps m (finish env index b (run_loops env m b))
  unfolding finish
  finish-Steps index =
      let l = run_loops env m b in
      let stored = Step.store (env.put l.state.db l.state.pid index l.writes) in
      Steps-append before_commits-Steps (
        Steps-append after_commits-Steps (
          stored
          then (Steps-append
              (complete_all-Steps _ l.completions
                (All-mono (Steps-IsCommitted (stored then done)) _ completions-AllCommitted))
              (Step.advance b.max_timestamp then done))))

delete_all-IsExclusive :
    (ids : List TxnId) (m : Map TxnId Prepared) → IsExclusive m → IsExclusive (delete_all ids m)
unfolding delete_all
delete_all-IsExclusive [] m x = x
delete_all-IsExclusive (id ∷ ids) m x = delete_all-IsExclusive ids (delete id m) (record {
  apart = Pairwise-delete Apart id m x.apart;
  drops = All-delete (λ a. Drops a.1) id m x.drops;
})

-- If the locks that any two prepared transactions hold are compatible before a batch, they are
-- compatible after it, and what is marked as released holds no lock.
pub apply_batch-IsExclusive :
    {S : Type 0} (env : Env S) (now index : ℕ) (m : Manager S) (b : TxnBatch)
    → IsExclusive m.prepared
    → IsExclusive (apply_batch env now index m b).0.prepared
unfolding apply_batch cleanup
apply_batch-IsExclusive env now index m b x =
    delete_all-IsExclusive _ _ (Steps-IsExclusive (finish-Steps env m b index) x)
