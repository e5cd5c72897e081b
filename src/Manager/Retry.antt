-- ===== src/Manager/Retry.antt =====
-- Retried commands. The coordinator and the watchdog send a command until it is answered.
use scout.Base.{◌≡◌, refl, inl, inr, some}
use scout.Base.{arith, Option-cases, nat_eq}
use scout.Base.Maps.{lookup, lookup-insert_self}
use scout.Txn.{TxnId_eq, TxnStatus, State, Prepared, ok}
use scout.Manager.{Env, Manager, Commit, Abort, Prepare, new_status}
use scout.Manager.Apply.{
  Applied, apply_commit, commit_in, commit_prepared, apply_abort, abort_in, apply_prepare,
  prepare_new, settled,
}
use scout.Manager.Locks.{release_locks}
use scout.Manager.Steps.{committed_status}

module _ {S : Type 0} (m : Manager S) where
  abort_again :
      (cmd : Abort) (s : TxnStatus) (p : Prepared) (st : State) (t : TxnStatus)
      → lookup cmd.id m.status ≡ some s
      → lookup cmd.id m.prepared ≡ some p
      → s.state ≡ st
      → (abort_in st m cmd s p).1 ≡ ok t
      → apply_abort (abort_in st m cmd s p).0 cmd ≡ ((abort_in st m cmd s p).0, ok t)
  unfolding apply_abort abort_in
  abort_again cmd s p State.prepared t e f g h = ground (
    arith,
    lookup-insert_self cmd.id (new_status cmd.id cmd.timestamp State.aborted) m.status,
    lookup-insert_self cmd.id (release_locks p) m.prepared,
  )
  abort_again cmd s p st t e f g h = ground arith

  -- An abort that is answered with a status gives the same status again, and changes nothing more,
  -- when it is repeated.
  pub apply_abort_twice :
      (cmd : Abort) (t : TxnStatus)
      → (apply_abort m cmd).1 ≡ ok t
      → apply_abort (apply_abort m cmd).0 cmd ≡ ((apply_abort m cmd).0, ok t)
  unfolding apply_abort
  apply_abort_twice cmd t h = elim (Option-cases (lookup cmd.id m.status)) [
    | inl e ↦ absurd (ground arith)
    | inr (s, e) ↦ elim (Option-cases (lookup cmd.id m.prepared)) [
      | inl f ↦ absurd (ground arith)
      | inr (p, f) ↦ ground (arith, abort_again cmd s p s.state t e f refl)
    ]
  ]

  commit_again :
      (env : Env S) (cmd : Commit) (s : TxnStatus) (p : Prepared) (st : State) (a : Applied)
      → lookup cmd.id m.status ≡ some s
      → lookup cmd.id m.prepared ≡ some p
      → s.state ≡ st
      → (commit_in env st m cmd s p).1 ≡ ok a
      → apply_commit env (commit_in env st m cmd s p).0 cmd
        ≡ ((commit_in env st m cmd s p).0, settled a.status)
  unfolding apply_commit commit_in commit_prepared
  commit_again env cmd s p State.prepared a e f g h = ground (
    arith,
    lookup-insert_self cmd.id (committed_status cmd.id cmd.timestamp p.txn.participant_pids)
        m.status,
  )
  commit_again env cmd s p State.decided a e f g h = ground (
    arith,
    lookup-insert_self cmd.id (committed_status cmd.id cmd.timestamp p.txn.participant_pids)
        m.status,
  )
  commit_again env cmd s p st a e f g h = ground arith

  -- A commit that succeeds, when it is repeated, gives the same status again, writes nothing,
  -- completes nothing and changes nothing more.
  pub apply_commit_twice :
      (env : Env S) (cmd : Commit) (a : Applied)
      → (apply_commit env m cmd).1 ≡ ok a
      → apply_commit env (apply_commit env m cmd).0 cmd
        ≡ ((apply_commit env m cmd).0, settled a.status)
  unfolding apply_commit
  apply_commit_twice env cmd a h = elim (Option-cases (lookup cmd.id m.status)) [
    | inl e ↦ absurd (ground arith)
    | inr (s, e) ↦ elim (Option-cases (lookup cmd.id m.prepared)) [
      | inl f ↦ absurd (ground arith)
      | inr (p, f) ↦ ground (arith, commit_again env cmd s p s.state a e f refl)
    ]
  ]

  -- A prepare that is answered with a status (also the status of a failed lock or check), when it
  -- is repeated, gives the same status again and changes nothing more.
  pub apply_prepare_twice :
      (env : Env S) (cmd : Prepare) (t : TxnStatus)
      → (apply_prepare env m cmd).1 ≡ ok t
      → apply_prepare env (apply_prepare env m cmd).0 cmd ≡ ((apply_prepare env m cmd).0, ok t)
  unfolding apply_prepare prepare_new
  apply_prepare_twice env cmd t h = ground (
    arith,
    lookup-insert_self cmd.txn.id (new_status cmd.txn.id cmd.timestamp State.prepared) m.status,
  )
