-- ===== src/Manager/Kept.antt =====
-- The entry of a prepared transaction over later batches: its timestamp stays as long as the
-- manager knows the transaction. `ApplyBatch` of internal/data/server/txn/manager_apply.go.
use scout.Base.{ℕ, ◌≡◌, ◌≢◌, refl, inl, inr, false, none, some, arith}
use scout.Base.{Bool-cases, ◌==◌, sub_u64}
use scout.Base.Maps.{Map, lookup, insert, lookup-insert}
use scout.Txn.{TxnId, TxnId_eq, TxnStatus, Prepared}
use scout.Manager.{Env, Manager, TxnBatch}
use scout.Manager.Batch.{stale_ids, cleanup, run_loops, finish, apply_batch}
use scout.Manager.Locks.{release_locks}
use scout.Manager.Steps.{Step, Steps, fresh_prepared, done, ◌then◌}
use scout.Manager.Cleanup.{names, lookup-delete_all}
use scout.Manager.Runs.{finish-Steps}
use scout.Manager.Invariant.{Inv}
use scout.Manager.Invariant.Moves.{Steps-Inv, apply_batch-Inv}

-- A later state of the manager: after whole batches, after each of which it still knows the
-- transaction, and moves of a last one.
pub data Later {S : Type 0} (env : Env S) (id : TxnId) : Manager S → Manager S → Type 0 where
  within : {m n : Manager S} → Steps m n → Later env id m n
  batch :
      {m n : Manager S} (now index : ℕ) (b : TxnBatch)
      → lookup id (apply_batch env now index m b).0.status ≢ none
      → Later env id (apply_batch env now index m b).0 n
      → Later env id m n

pub Later-Inv :
    {S : Type 0} {env : Env S} {id : TxnId} {m n : Manager S} → Later env id m n → Inv m → Inv n
Later-Inv (Later.within q) v = Steps-Inv q v
Later-Inv {env = env} {m = m} (Later.batch now index b known rest) v =
    Later-Inv rest (apply_batch-Inv env now index m b v)

-- A transaction that is known, and prepared at a timestamp, before and after an insertion.
module _ (id : TxnId) (timestamp : ℕ) where
  abbrev pub KnownIn : Map TxnId TxnStatus → Type 0
  KnownIn m = (s : TxnStatus) × (lookup id m ≡ some s)

  known_after :
      (i : TxnId) (s' : TxnStatus) (m : Map TxnId TxnStatus) → KnownIn m → KnownIn (insert i s' m)
  known_after i s' m (s, e) = elim (Bool-cases (i == id)) [
    | inl b ↦ (s', ground (arith, lookup-insert i id s' m))
    | inr b ↦ (s, ground (arith, lookup-insert i id s' m))
  ]

  abbrev pub HeldAt : Map TxnId Prepared → Type 0
  HeldAt m = (p : Prepared) × (lookup id m ≡ some p) × (p.timestamp ≡ timestamp)

  held_after :
      (i : TxnId) (p p' : Prepared) (m : Map TxnId Prepared)
      → HeldAt m
      → lookup i m ≡ some p
      → p'.timestamp ≡ p.timestamp
      → HeldAt (insert i p' m)
  held_after i p p' m (q, e, t) f u = elim (Bool-cases (i == id)) [
    | inl b ↦
        let key : i ≡ id = (TxnId_eq.beq_iff i id).0 b in
        let at : lookup i m ≡ some q = rw key e in
        (p', ground (arith, lookup-insert i id p' m), ground arith)
    | inr b ↦ (q, ground (arith, lookup-insert i id p' m), t)
  ]

  held_other :
      (i : TxnId) (p' : Prepared) (m : Map TxnId Prepared)
      → HeldAt m
      → (i == id) ≡ false
      → HeldAt (insert i p' m)
  held_other i p' m (q, e, t) b = (q, ground (arith, lookup-insert i id p' m), t)

  abbrev pub Kept : {S : Type 0} → Manager S → Type 0
  Kept m = KnownIn m.status × HeldAt m.prepared

  Step-Kept : {S : Type 0} {m n : Manager S} → Step m n → Kept m → Kept n
  unfolding release_locks
  Step-Kept Step.keep k = k
  Step-Kept {m = m} (Step.abort {s} {p} i ts t) (k, h) =
      (known_after i _ m.status k, held_after i p (release_locks p) m.prepared h t.entry refl)
  Step-Kept {m = m} (Step.time_out i ts t) (k, h) = (known_after i _ m.status k, h)
  Step-Kept {m = m} (Step.release {s} {p} i t) (k, h) =
      (k, held_after i p (release_locks p) m.prepared h t.entry refl)
  Step-Kept {m = m} (Step.decide {s} {p} d ts t _) (k, h) = (
    known_after d.id _ m.status k,
    held_after d.id p (record p { decision = some d }) m.prepared h t.entry refl,
  )
  Step-Kept {m = m} (Step.commit_prepared i ts t _) (k, h) = (known_after i _ m.status k, h)
  Step-Kept {m = m} (Step.commit_decided i d t _) (k, h) = (known_after i _ m.status k, h)
  Step-Kept {m = m} (Step.autocommit txn ts e _) (k, h) = (known_after txn.id _ m.status k, h)
  Step-Kept {m = m} (Step.prepare txn ts e _) (k, h) = (
    known_after txn.id _ m.status k,
    held_other txn.id (fresh_prepared txn ts) m.prepared h (other k),
  )
    where
      other : KnownIn m.status → (txn.id == id) ≡ false
      other (s, f) = elim (Bool-cases (txn.id == id)) [
        | inl b ↦
            let key : txn.id ≡ id = (TxnId_eq.beq_iff txn.id id).0 b in
            let at : lookup txn.id m.status ≡ some s = rw key f in absurd (ground arith)
        | inr b ↦ b
      ]
  Step-Kept (Step.store db) k = k
  Step-Kept {m = m} (Step.complete {s} {p} i t) (k, h) =
      (k, held_after i p (release_locks p) m.prepared h t.entry refl)
  Step-Kept (Step.advance ts) k = k

  Steps-Kept : {S : Type 0} {m n : Manager S} → Steps m n → Kept m → Kept n
  Steps-Kept done k = k
  Steps-Kept (st then rest) k = Steps-Kept rest (Step-Kept st k)

  -- The cleanup forgets the status and the entry together.
  cleanup-Kept :
      {S : Type 0} (now : ℕ) (m : Manager S)
      → lookup id (cleanup now m).status ≢ none
      → Kept m
      → Kept (cleanup now m)
  unfolding cleanup
  cleanup-Kept now m there ((s, e), (p, f, t)) =
      let ids = stale_ids m.prepared (sub_u64 now m.clean_after) m.status in
      elim (Bool-cases (names id ids)) [
        | inl gone ↦ absurd (there (ground (arith, lookup-delete_all ids id m.status)))
        | inr stays ↦ (
          (s, ground (arith, lookup-delete_all ids id m.status)),
          (p, ground (arith, lookup-delete_all ids id m.prepared), t),
        )
      ]

  pub Later-Kept : {S : Type 0} {env : Env S} {m n : Manager S} → Later env id m n → Kept m → Kept n
  unfolding apply_batch
  Later-Kept (Later.within q) k = Steps-Kept q k
  Later-Kept {env = env} {m = m} (Later.batch now index b known rest) k = Later-Kept rest (
      cleanup-Kept now (finish env index b (run_loops env m b)) known
        (Steps-Kept (finish-Steps env m b index) k))
