-- ===== src/Manager/Invariant/Moves.antt =====
-- Every move, and a whole batch, keep the invariant.
use scout.Base.{ℕ, ◌≡◌, ◌≢◌, ◌≤◌, refl, inl, inr, none, some, List}
use scout.Base.{arith, subst, Bool-cases, ◌==◌, if◌then◌else◌, sub_u64}
use scout.Base.Maps.{lookup, insert, insert-IsMap, lookup-insert}
use scout.Txn.{TxnId, TxnId_eq, TxnStatus, State, Prepared}
use scout.Manager.{Env, Manager, TxnBatch, new_status, new_manager}
use scout.Manager.Locks.{release_locks}
use scout.Manager.Batch.{delete_all, stale_ids, cleanup, apply_batch, run_loops, finish}
use scout.Manager.Steps.{Step, Steps, Tracked, done, ◌then◌, fresh_prepared, committed_status}
use scout.Manager.Cleanup.{lookup-delete_all, delete_all-IsMap}
use scout.Manager.Runs.{finish-Steps}
use scout.Manager.Invariant.{
  Inv, Agrees, IsNamed, insert-IsNamed, restatus_known, reentry-Known, both_known,
}

module _ {S : Type 0} {m : Manager S} (v : Inv m) where
  -- The entry that a tracked transaction has agrees with its status.
  pub Tracked-Agrees :
      {st : State} {s : TxnStatus} {p : Prepared} (id : TxnId) → Tracked m id st s p → Agrees id s p
  Tracked-Agrees {s = s} {p = p} id t =
      let (s', e, a) = v.known id p t.entry in
      let same : s' ≡ s = ground (arith, t.status) in subst (λ x. Agrees id x p) same a

  abbrev WithStatus : TxnStatus → Type 0
  WithStatus s = Inv (record m { status = insert s.id s m.status })

  abbrev WithBoth : TxnStatus → Prepared → Type 0
  WithBoth s p =
      Inv (record m { status = insert s.id s m.status; prepared = insert s.id p m.prepared })

  set_status-Inv :
      (s : TxnStatus) (p : Prepared)
      → lookup s.id m.prepared ≡ some p
      → Agrees s.id s p
      → IsNamed s.id s
      → WithStatus s
  set_status-Inv s p e a n = record {
    status_keys = insert-IsMap s.id s m.status v.status_keys;
    prepared_keys = v.prepared_keys;
    known = restatus_known v s p e a;
    named = insert-IsNamed v s n;
  }

  set_both-Inv : (s : TxnStatus) (p : Prepared) → Agrees s.id s p → IsNamed s.id s → WithBoth s p
  set_both-Inv s p a n = record {
    status_keys = insert-IsMap s.id s m.status v.status_keys;
    prepared_keys = insert-IsMap s.id p m.prepared v.prepared_keys;
    known = both_known v s p a;
    named = insert-IsNamed v s n;
  }

  set_prepared-Inv :
      (id : TxnId) (s : TxnStatus) (p : Prepared)
      → lookup id m.status ≡ some s
      → Agrees id s p
      → Inv (record m { prepared = insert id p m.prepared })
  set_prepared-Inv id s p e a = record {
    status_keys = v.status_keys;
    prepared_keys = insert-IsMap id p m.prepared v.prepared_keys;
    known = reentry-Known v s id p e a;
    named = v.named;
  }

  released-Agrees :
      {s t : TxnStatus} {p : Prepared} {id : TxnId}
      → Agrees id s p
      → t.state ≢ State.prepared
      → (t.state ≡ State.decided → s.state ≡ State.decided)
      → Agrees id t (release_locks p)
  unfolding release_locks
  released-Agrees a np d = record {
    own = a.own;
    held = λ h. cc;
    dropped = λ _. refl;
    at_prepare = λ h. absurd (np h);
    at_decide = λ h. a.at_decide (d h);
  }

  -- A new state after prepared or decided, with the entry unchanged.
  restated-Agrees :
      {s t : TxnStatus} {p : Prepared} {id : TxnId}
      → Agrees id s p
      → t.state ≢ State.prepared
      → t.state ≢ State.decided
      → Agrees id t p
  restated-Agrees a np nd = record {
    own = a.own;
    held = a.held;
    dropped = a.dropped;
    at_prepare = λ h. absurd (np h);
    at_decide = λ h. absurd (nd h);
  }

  -- A single status for an identifier that has no entry.
  fresh_known :
      (s : TxnStatus)
      → lookup s.id m.status ≡ none
      → (j : TxnId) (q : Prepared) → lookup j m.prepared ≡ some q
      → (t : TxnStatus) × (lookup j (insert s.id s m.status) ≡ some t) × Agrees j t q
  fresh_known s absent j q found = elim (Bool-cases (s.id == j)) [
    | inr other ↦
        let (t, e, a) = v.known j q found in (t, ground (arith, lookup-insert s.id j s m.status), a)
    | inl same ↦
        let key : s.id ≡ j = (TxnId_eq.beq_iff s.id j).0 same in
        let (t, e, a) = v.known j q found in
        let gone : lookup j m.status ≡ none = subst (λ x. lookup x m.status ≡ none) key absent in cc
  ]

  pub Step-Inv : {n : Manager S} → Step m n → Inv n
  Step-Inv Step.keep = v
  Step-Inv (Step.abort {p = p} i ts t) =
      set_both-Inv (new_status i ts State.aborted) (release_locks p)
        (released-Agrees (Tracked-Agrees i t) (λ h. cc) (λ h. cc))
        (record { named = refl; unlisted = λ _. refl })
  Step-Inv (Step.time_out {p = p} i ts t) =
      set_status-Inv (new_status i ts State.timedout) p t.entry
        (restated-Agrees (Tracked-Agrees i t) (λ h. cc) (λ h. cc))
        (record { named = refl; unlisted = λ _. refl })
  Step-Inv (Step.release {s = s} {p = p} i t) =
      set_prepared-Inv i s (release_locks p) t.status
        (released-Agrees (Tracked-Agrees i t) (λ h. ground (arith, t.state)) (λ h. h))
  Step-Inv (Step.decide {s = s} {p = p} d ts t late) =
      let a = Tracked-Agrees d.id t in
      set_both-Inv (new_status d.id ts State.decided) (record p { decision = some d })
        (record {
          own = a.own;
          held = a.held;
          dropped = a.dropped;
          at_prepare = λ h. cc;
          at_decide =
              λ _. (d, refl, subst (λ x. x ≤ d.commit_timestamp) (a.at_prepare t.state) late);
        })
        (record { named = refl; unlisted = λ _. refl })
  Step-Inv (Step.commit_prepared {p = p} i ts t _) =
      set_status-Inv (committed_status i ts p.txn.participant_pids) p t.entry
        (restated-Agrees (Tracked-Agrees i t) (λ h. cc) (λ h. cc))
        (record { named = refl; unlisted = λ h. absurd (h refl) })
  Step-Inv (Step.commit_decided {p = p} i d t _) =
      set_status-Inv (committed_status i d.commit_timestamp p.txn.participant_pids) p t.entry
        (restated-Agrees (Tracked-Agrees i t) (λ h. cc) (λ h. cc))
        (record { named = refl; unlisted = λ h. absurd (h refl) })
  Step-Inv (Step.autocommit txn ts e _) = record {
    status_keys = insert-IsMap _ _ m.status v.status_keys;
    prepared_keys = v.prepared_keys;
    known = fresh_known (new_status txn.id ts State.committed) e;
    named =
        insert-IsNamed v (new_status txn.id ts State.committed)
          (record { named = refl; unlisted = λ _. refl });
  }
  Step-Inv (Step.prepare txn ts e free) =
      set_both-Inv (new_status txn.id ts State.prepared) (fresh_prepared txn ts)
        (record {
          own = refl;
          held = λ _. refl;
          dropped = λ h. cc;
          at_prepare = λ _. refl;
          at_decide = λ h. cc;
        })
        (record { named = refl; unlisted = λ _. refl })
  Step-Inv (Step.store db) = record {
    status_keys = v.status_keys;
    prepared_keys = v.prepared_keys;
    known = v.known;
    named = v.named;
  }
  Step-Inv (Step.complete {s = s} {p = p} i t) =
      set_prepared-Inv i s (release_locks p) t.status
        (released-Agrees (Tracked-Agrees i t) (λ h. ground (arith, t.state)) (λ h. h))
  Step-Inv (Step.advance ts) = record {
    status_keys = v.status_keys;
    prepared_keys = v.prepared_keys;
    known = v.known;
    named = v.named;
  }

pub Steps-Inv : {S : Type 0} {m n : Manager S} → Steps m n → Inv m → Inv n
Steps-Inv done v = v
Steps-Inv (st then rest) v = Steps-Inv rest (Step-Inv v st)

cleanup-Inv : {S : Type 0} (now : ℕ) (m : Manager S) → Inv m → Inv (cleanup now m)
unfolding cleanup
cleanup-Inv now m v = record {
  status_keys = delete_all-IsMap ids m.status v.status_keys;
  prepared_keys = delete_all-IsMap ids m.prepared v.prepared_keys;
  known = λ id p found. kept_known id p found;
  named = λ id s found. v.named id s (ground (arith, lookup-delete_all ids id m.status));
}
  where
    ids : List TxnId
    ids = stale_ids m.prepared (sub_u64 now m.clean_after) m.status

    kept_known :
        (id : TxnId) (p : Prepared)
        → lookup id (delete_all ids m.prepared) ≡ some p
        → (s : TxnStatus) × (lookup id (delete_all ids m.status) ≡ some s) × Agrees id s p
    kept_known id p found =
        let (s, e, a) = v.known id p (ground (arith, lookup-delete_all ids id m.prepared)) in
        (
          s,
          ground (arith, lookup-delete_all ids id m.prepared, lookup-delete_all ids id m.status),
          a,
        )

pub new_manager-Inv :
    {S : Type 0} (pid : ℕ) (db : S) (clean_after : ℕ) → Inv (new_manager pid db clean_after)
unfolding lookup
new_manager-Inv pid db clean_after = record {
  status_keys = tt;
  prepared_keys = tt;
  known = λ id p found. cc;
  named = λ id s found. cc;
}

-- A batch keeps the invariant: one status and one entry for each identifier, a status for every
-- entry, an entry's locks built from its transaction until they are released, the prepare
-- timestamp in the status of a prepared transaction, and a stored decision that is not before it
-- for a decided one.
pub apply_batch-Inv :
    {S : Type 0} (env : Env S) (now index : ℕ) (m : Manager S) (b : TxnBatch)
    → Inv m
    → Inv (apply_batch env now index m b).0
unfolding apply_batch
apply_batch-Inv env now index m b v =
    cleanup-Inv now (finish env index b (run_loops env m b))
      (Steps-Inv (finish-Steps env m b index) v)
