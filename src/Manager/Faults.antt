-- ===== src/Manager/Faults.antt =====
-- What the invariant excludes, and what `getRunning` hands to the watchdog.
use scout.Base.{ℕ, ◌≡◌, ◌≢◌, refl, inl, inr, some, List, [], ◌∷◌}
use scout.Base.{arith, Bool-cases, Option-cases, ◌==◌, nat_eq, not, ◌||◌}
use scout.Base.Lists.{All}
use scout.Base.Maps.{Map, lookup, All-of_lookup}
use scout.Txn.{TxnId, TxnId_eq, TxnStatus, State, Prepared, nil_dereference, err}
use scout.Manager.{Env, Manager, TxnBatch, Commit, StoreDecision}
use scout.Manager.Apply.{apply_commit, commit_in, commit_prepared, apply_store_decision, decide_in}
use scout.Manager.Snapshots.{Running, running_of, get_running}
use scout.Manager.Steps.{Tracked}
use scout.Manager.Invariant.{Inv}
use scout.Manager.Batch.{apply_batch}
use scout.Manager.Invariant.Moves.{Tracked-Agrees, apply_batch-Inv}

module _ {S : Type 0} (m : Manager S) (v : Inv m) where
  commit_in-no_fault :
      (env : Env S) (cmd : Commit) (s : TxnStatus) (p : Prepared) (st : State)
      → Tracked m cmd.id st s p
      → (commit_in env st m cmd s p).1 ≢ err nil_dereference
  unfolding commit_in commit_prepared
  commit_in-no_fault env cmd s p State.decided t =
      let (d, f, late) = (Tracked-Agrees v cmd.id t).at_decide t.state in ground arith
  commit_in-no_fault env cmd s p _ t = ground arith

  decide_in-no_fault :
      (cmd : StoreDecision) (s : TxnStatus) (p : Prepared) (st : State)
      → Tracked m cmd.decision.id st s p
      → (decide_in st m cmd s p).1 ≢ err nil_dereference
  unfolding decide_in
  decide_in-no_fault cmd s p State.decided t =
      let (d, f, late) = (Tracked-Agrees v cmd.decision.id t).at_decide t.state in ground arith
  decide_in-no_fault cmd s p _ t = ground arith

  apply_commit-no_fault :
      (env : Env S) (cmd : Commit) → (apply_commit env m cmd).1 ≢ err nil_dereference
  unfolding apply_commit
  apply_commit-no_fault env cmd = elim (Option-cases (lookup cmd.id m.status)) [
    | inl e ↦ ground arith
    | inr (s, e) ↦ elim (Option-cases (lookup cmd.id m.prepared)) [
      | inl f ↦ ground arith
      | inr (p, f) ↦ ground (
        arith,
        commit_in-no_fault env cmd s p s.state (record { status = e; entry = f; state = refl }),
      )
    ]
  ]

  apply_store_decision-no_fault :
      (cmd : StoreDecision) → (apply_store_decision m cmd).1 ≢ err nil_dereference
  unfolding apply_store_decision
  apply_store_decision-no_fault cmd = elim (Option-cases (lookup cmd.decision.id m.status)) [
    | inl e ↦ ground arith
    | inr (s, e) ↦ elim (Option-cases (lookup cmd.decision.id m.prepared)) [
      | inl f ↦ ground arith
      | inr (p, f) ↦ ground (
        arith,
        decide_in-no_fault cmd s p s.state (record { status = e; entry = f; state = refl }),
      )
    ]
  ]

-- Under the invariant no commit and no stored decision reads a decision that is not there, and a
-- batch keeps the invariant, so neither ever panics.
pub decisions-no_fault :
    {S : Type 0} (env : Env S) (now index : ℕ) (m : Manager S) (b : TxnBatch) (c : Commit)
    (d : StoreDecision)
    → Inv m
    → let n = (apply_batch env now index m b).0 in
      ((apply_commit env n c).1 ≢ err nil_dereference)
      × ((apply_store_decision n d).1 ≢ err nil_dereference)
decisions-no_fault env now index m b c d v =
    let w = apply_batch-Inv env now index m b v in
    (apply_commit-no_fault _ w env c, apply_store_decision-no_fault _ w d)

-- No running transaction carries its participants.
abbrev pub NoneListed : List Running → Type 0
NoneListed = All (λ (r : Running). (r.state ≢ State.committed) → r.participant_pids ≡ [])

running_of-NoneListed :
    (pid : ℕ) (status : Map TxnId TxnStatus) (prepared : Map TxnId Prepared)
    → All
        (λ (e : TxnId × Prepared).
          (s : TxnStatus) × (lookup e.0 status ≡ some s)
          × (s.state ≢ State.committed → s.participant_pids ≡ []))
        prepared
    → (rs : List Running) × (running_of pid status prepared ≡ some rs) × NoneListed rs
unfolding running_of
running_of-NoneListed pid status [] h = ([], refl, tt)
running_of-NoneListed pid status ((id, p) ∷ rest) ((s, e, f), h) =
    let (rs, g, k) = running_of-NoneListed pid status rest h in
    elim (Bool-cases (not (id.principal_pid == pid) || p.locks_released)) [
      | inl skip ↦ (rs, rw (skip, running_of) g, k)
      | inr held ↦ (
        record {
          id = id;
          timestamp = s.timestamp;
          state = s.state;
          participant_pids = s.participant_pids;
          decision = p.decision;
        }
            ∷ rs,
        rw (held, e, g, running_of),
        (f, k),
      )
    ]

-- Under the invariant, `getRunning` returns (every running transaction has a status), and no
-- transaction that it returns in a state other than committed names a participant, although the
-- watchdog aborts and commits through these lists: they are read from the status, where only a
-- commit stores them, and not from the prepared transaction.
pub get_running-NoneListed :
    {S : Type 0} (m : Manager S)
    → Inv m
    → (rs : List Running) × (get_running m ≡ some rs) × NoneListed rs
unfolding get_running
get_running-NoneListed m v = running_of-NoneListed m.pid m.status m.prepared (
    All-of_lookup _ m.prepared v.prepared_keys
      (λ id p found. let (s, e, a) = v.known id p found in (s, e, (v.named id s e).unlisted)))
