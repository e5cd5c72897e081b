-- ===== src/Manager/Steps/Commands.antt =====
-- Each command of the manager makes one move.
use scout.Base.{◌≡◌, refl, none, some, inl, inr}
use scout.Base.{arith, Option-cases, Bool-cases, ltb, ◌==◌, nat_eq, xor}
use scout.Base.Maps.{lookup}
use scout.Txn.{TxnId_eq, TxnStatus, State, Prepared}
use scout.Txn.Locks.{build_locks}
use scout.Manager.{Env, Manager, Autocommit, Prepare, Commit, Abort, StoreDecision, MarkTimedout}
use scout.Manager.Locks.{check_locks}
use scout.Manager.Apply.{
  apply_abort, apply_mark_timedout, apply_store_decision, apply_commit, apply_autocommit,
  apply_prepare, abort_in, mark_in, decide_in, commit_in, commit_prepared, autocommit_new,
  prepare_new,
}
use scout.Manager.Validate.{validate}
use scout.Manager.Steps.{Step, Tracked}

module _ {S : Type 0} (m : Manager S) where
  abort_in-Step :
      (cmd : Abort) (s : TxnStatus) (p : Prepared) (st : State)
      → Tracked m cmd.id st s p
      → Step m (abort_in st m cmd s p).0
  unfolding abort_in
  abort_in-Step cmd s p State.prepared t = Step.abort cmd.id cmd.timestamp t
  abort_in-Step cmd s p _ t = Step.keep

  pub apply_abort-Step : (cmd : Abort) → Step m (apply_abort m cmd).0
  unfolding apply_abort
  apply_abort-Step cmd = elim (Option-cases (lookup cmd.id m.status)) [
    | inl e ↦ rw (e, apply_abort) Step.keep
    | inr (s, e) ↦ elim (Option-cases (lookup cmd.id m.prepared)) [
      | inl f ↦ rw (e, f, apply_abort) Step.keep
      | inr (p, f) ↦
          rw (e, f, apply_abort)
            (abort_in-Step cmd s p s.state (record { status = e; entry = f; state = refl }))
    ]
  ]

  mark_in-Step :
      (cmd : MarkTimedout) (s : TxnStatus) (p : Prepared) (st : State)
      → Tracked m cmd.id st s p
      → Step m (mark_in st m cmd s p).0
  unfolding mark_in
  mark_in-Step cmd s p State.prepared t = Step.time_out cmd.id cmd.timestamp t
  mark_in-Step cmd s p State.timedout t = elim (Bool-cases cmd.release_locks) [
    | inl yes_release ↦ rw (yes_release) (Step.release cmd.id t)
    | inr kept ↦ rw kept Step.keep
  ]
  mark_in-Step cmd s p _ t = Step.keep

  pub apply_mark_timedout-Step : (cmd : MarkTimedout) → Step m (apply_mark_timedout m cmd).0
  unfolding apply_mark_timedout
  apply_mark_timedout-Step cmd = elim (Option-cases (lookup cmd.id m.status)) [
    | inl e ↦ rw (e, apply_mark_timedout) Step.keep
    | inr (s, e) ↦ elim (Bool-cases (cmd.id.principal_pid == m.pid)) [
      | inr other ↦ rw (e, other, apply_mark_timedout) Step.keep
      | inl own ↦ elim (Option-cases (lookup cmd.id m.prepared)) [
        | inl f ↦ rw (e, own, f, apply_mark_timedout) Step.keep
        | inr (p, f) ↦
            rw (e, own, f, apply_mark_timedout)
              (mark_in-Step cmd s p s.state (record { status = e; entry = f; state = refl }))
      ]
    ]
  ]

  decide_in-Step :
      (cmd : StoreDecision) (s : TxnStatus) (p : Prepared) (st : State)
      → Tracked m cmd.decision.id st s p
      → Step m (decide_in st m cmd s p).0
  unfolding decide_in
  decide_in-Step cmd s p State.prepared t =
      elim (Bool-cases (ltb cmd.decision.commit_timestamp s.timestamp)) [
        | inl early ↦ rw early Step.keep
        | inr late ↦ rw late (Step.decide cmd.decision cmd.timestamp t (ground arith))
      ]
  decide_in-Step cmd s p State.decided t = elim (Option-cases p.decision) [
    | inl e ↦ rw e Step.keep
    | inr (d, e) ↦ elim (Bool-cases (xor d.commit cmd.decision.commit)) [
      | inl changed ↦ rw (e, changed) Step.keep
      | inr same ↦ rw (e, same) Step.keep
    ]
  ]
  decide_in-Step cmd s p _ t = Step.keep

  pub apply_store_decision-Step : (cmd : StoreDecision) → Step m (apply_store_decision m cmd).0
  unfolding apply_store_decision
  apply_store_decision-Step cmd = elim (Option-cases (lookup cmd.decision.id m.status)) [
    | inl e ↦ rw (e, apply_store_decision) Step.keep
    | inr (s, e) ↦ elim (Bool-cases (cmd.decision.id.principal_pid == m.pid)) [
      | inr other ↦ rw (e, other, apply_store_decision) Step.keep
      | inl own ↦ elim (Option-cases (lookup cmd.decision.id m.prepared)) [
        | inl f ↦ rw (e, own, f, apply_store_decision) Step.keep
        | inr (p, f) ↦
            rw (e, own, f, apply_store_decision)
              (decide_in-Step cmd s p s.state (record { status = e; entry = f; state = refl }))
      ]
    ]
  ]

  module _ (env : Env S) where
    commit_in-Step :
        (cmd : Commit) (s : TxnStatus) (p : Prepared) (st : State)
        → Tracked m cmd.id st s p
        → Step m (commit_in env st m cmd s p).0
    unfolding commit_in commit_prepared
    commit_in-Step cmd s p State.prepared t = elim (Bool-cases (ltb cmd.timestamp s.timestamp)) [
      | inl early ↦ rw early Step.keep
      | inr late ↦ rw late (Step.commit_prepared cmd.id cmd.timestamp t (ground arith))
    ]
    commit_in-Step cmd s p State.decided t = elim (Option-cases p.decision) [
      | inl e ↦ rw e Step.keep
      | inr (d, e) ↦ elim (Bool-cases (cmd.timestamp == d.commit_timestamp)) [
        | inr other ↦ rw (e, other) Step.keep
        | inl same ↦
            let at : cmd.timestamp ≡ d.commit_timestamp = ground arith in
            rw (e, same, at) (Step.commit_decided cmd.id d t e)
      ]
    ]
    commit_in-Step cmd s p _ t = Step.keep

    pub apply_commit-Step : (cmd : Commit) → Step m (apply_commit env m cmd).0
    unfolding apply_commit
    apply_commit-Step cmd = elim (Option-cases (lookup cmd.id m.status)) [
      | inl e ↦ rw (e, apply_commit) Step.keep
      | inr (s, e) ↦ elim (Option-cases (lookup cmd.id m.prepared)) [
        | inl f ↦ rw (e, f, apply_commit) Step.keep
        | inr (p, f) ↦
            rw (e, f, apply_commit)
              (commit_in-Step cmd s p s.state (record { status = e; entry = f; state = refl }))
      ]
    ]

    autocommit_new-Step :
        (cmd : Autocommit) → lookup cmd.txn.id m.status ≡ none → Step m (autocommit_new env m cmd).0
    unfolding autocommit_new
    autocommit_new-Step cmd absent =
        elim (Option-cases
          (check_locks m.prepared cmd.txn.id cmd.timestamp (build_locks cmd.txn))) [
            | inr (locked, e) ↦ rw (e, autocommit_new) Step.keep
            | inl free ↦ elim (Option-cases (validate env m cmd.txn.id cmd.timestamp cmd.txn)) [
              | inr (invalid, e) ↦ rw (free, e, autocommit_new) Step.keep
              | inl valid ↦
                  rw (free, valid, autocommit_new)
                    (Step.autocommit cmd.txn cmd.timestamp absent free)
            ]
          ]

    autocommit_in-Step :
        (cmd : Autocommit) (s : TxnStatus) (st : State)
        → lookup cmd.txn.id m.status ≡ some s
        → s.state ≡ st
        → Step m (apply_autocommit env m cmd).0
    unfolding apply_autocommit
    autocommit_in-Step cmd s State.committed e f = rw (e, f, apply_autocommit) Step.keep
    autocommit_in-Step cmd s _ e f = rw (e, f, apply_autocommit) Step.keep

    pub apply_autocommit-Step : (cmd : Autocommit) → Step m (apply_autocommit env m cmd).0
    unfolding apply_autocommit
    apply_autocommit-Step cmd = elim (Option-cases (lookup cmd.txn.id m.status)) [
      | inl e ↦ rw (e, apply_autocommit) (autocommit_new-Step cmd e)
      | inr (s, e) ↦ autocommit_in-Step cmd s s.state e refl
    ]

    prepare_new-Step :
        (cmd : Prepare) → lookup cmd.txn.id m.status ≡ none → Step m (prepare_new env m cmd).0
    unfolding prepare_new
    prepare_new-Step cmd absent =
        elim (Option-cases
          (check_locks m.prepared cmd.txn.id cmd.timestamp (build_locks cmd.txn))) [
            | inr (locked, e) ↦ rw (e, prepare_new) Step.keep
            | inl free ↦ elim (Option-cases (validate env m cmd.txn.id cmd.timestamp cmd.txn)) [
              | inr (invalid, e) ↦ rw (free, e, prepare_new) Step.keep
              | inl valid ↦
                  rw (free, valid, prepare_new) (Step.prepare cmd.txn cmd.timestamp absent free)
            ]
          ]

    prepare_in-Step :
        (cmd : Prepare) (s : TxnStatus) (st : State)
        → lookup cmd.txn.id m.status ≡ some s
        → s.state ≡ st
        → Step m (apply_prepare env m cmd).0
    unfolding apply_prepare
    prepare_in-Step cmd s State.committed e f = rw (e, f, apply_prepare) Step.keep
    prepare_in-Step cmd s _ e f = rw (e, f, apply_prepare) Step.keep

    pub apply_prepare-Step : (cmd : Prepare) → Step m (apply_prepare env m cmd).0
    unfolding apply_prepare
    apply_prepare-Step cmd = elim (Option-cases (lookup cmd.txn.id m.status)) [
      | inl e ↦ rw (e, apply_prepare) (prepare_new-Step cmd e)
      | inr (s, e) ↦ prepare_in-Step cmd s s.state e refl
    ]
