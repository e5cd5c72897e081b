-- ===== src/Manager/Invariant.antt =====
-- How the two maps of the manager fit together.
pub mod Moves
use scout.Base.{
  ℕ, ◌≡◌, ◌≢◌, ◌≤◌, refl, ◌⊎◌, inl, inr, Bool, true, false, Option, none, some, List, [], ◌∷◌,
}
use scout.Base.{arith, subst, sym, ◌∙◌, Bool-cases, Option-cases, ◌==◌, if◌then◌else◌, beq_refl}
use scout.Base.Maps.{
  Map, lookup, insert, delete, lookup-insert, lookup-insert_self, IsMap, insert-IsMap,
}
use scout.Txn.{TxnId, TxnId_eq, TxnStatus, State, Prepared, Decision}
use scout.Txn.Locks.{build_locks}
use scout.Manager.{Env, Manager, TxnBatch, new_status}
use scout.Manager.Locks.{release_locks}
use scout.Manager.Batch.{delete_all, cleanup, apply_batch}
use scout.Manager.Steps.{Step, Steps, Tracked, done, ◌then◌, fresh_prepared, committed_status}

-- A stored decision that is not before the prepare.
abbrev pub Decided : Prepared → Type 0
Decided p = (d : Decision) × (p.decision ≡ some d) × (p.timestamp ≤ d.commit_timestamp)

-- A status beside the prepared entry of the same transaction.
pub record Agrees (id : TxnId) (s : TxnStatus) (p : Prepared) : Type 0 where
  pub own : p.txn.id ≡ id
  pub held : p.locks_released ≡ false → p.locks ≡ build_locks p.txn
  pub dropped : p.locks_released ≡ true → p.locks ≡ []
  pub at_prepare : s.state ≡ State.prepared → s.timestamp ≡ p.timestamp
  pub at_decide : s.state ≡ State.decided → Decided p

-- The status itself; only a commit records the participants.
pub record IsNamed (id : TxnId) (s : TxnStatus) : Type 0 where
  pub named : s.id ≡ id
  pub unlisted : s.state ≢ State.committed → s.participant_pids ≡ []

abbrev pub Known : {S : Type 0} → Manager S → TxnId → Prepared → Type 0
Known m id p = (s : TxnStatus) × (lookup id m.status ≡ some s) × Agrees id s p

pub record Inv {S : Type 0} (m : Manager S) : Type 0 where
  pub status_keys : IsMap m.status
  pub prepared_keys : IsMap m.prepared
  pub known : (id : TxnId) (p : Prepared) → lookup id m.prepared ≡ some p → Known m id p
  pub named : (id : TxnId) (s : TxnStatus) → lookup id m.status ≡ some s → IsNamed id s

module _ {S : Type 0} {m : Manager S} (v : Inv m) (s : TxnStatus) where
  pub insert-IsNamed :
      IsNamed s.id s
      → (j : TxnId) (t : TxnStatus) → lookup j (insert s.id s m.status) ≡ some t
      → IsNamed j t
  insert-IsNamed new j t found = elim (Bool-cases (s.id == j)) [
    | inl same ↦
        let key : s.id ≡ j = (TxnId_eq.beq_iff s.id j).0 same in
        let value : s ≡ t = ground (arith, lookup-insert s.id j s m.status) in
        subst (λ x. IsNamed x t) key (subst (IsNamed s.id) value new)
    | inr other ↦ v.named j t (ground (arith, lookup-insert s.id j s m.status))
  ]

  -- A new status for the transaction of an entry that stays.
  pub restatus_known :
      (p : Prepared)
      → lookup s.id m.prepared ≡ some p
      → Agrees s.id s p
      → (j : TxnId) (q : Prepared) → lookup j m.prepared ≡ some q
      → (t : TxnStatus) × (lookup j (insert s.id s m.status) ≡ some t) × Agrees j t q
  restatus_known p at new j q found = elim (Bool-cases (s.id == j)) [
    | inl same ↦
        let key : s.id ≡ j = (TxnId_eq.beq_iff s.id j).0 same in
        let value : p ≡ q = ground arith in
        (
          s,
          ground (arith, lookup-insert s.id j s m.status),
          subst (λ x. Agrees x s q) key (subst (Agrees s.id s) value new),
        )
    | inr other ↦
        let (t, e, a) = v.known j q found in (t, ground (arith, lookup-insert s.id j s m.status), a)
  ]

  -- A new entry beside the status that the transaction has.
  pub reentry-Known :
      (id : TxnId) (p : Prepared)
      → lookup id m.status ≡ some s
      → Agrees id s p
      → (j : TxnId) (q : Prepared) → lookup j (insert id p m.prepared) ≡ some q
      → Known m j q
  reentry-Known id p at new j q found = elim (Bool-cases (id == j)) [
    | inl same ↦
        let key : id ≡ j = (TxnId_eq.beq_iff id j).0 same in
        let value : p ≡ q = ground (arith, lookup-insert id j p m.prepared) in
        (s, ground arith, subst (λ x. Agrees x s q) key (subst (Agrees id s) value new))
    | inr other ↦ v.known j q (ground (arith, lookup-insert id j p m.prepared))
  ]

  -- Both at once.
  pub both_known :
      (p : Prepared)
      → Agrees s.id s p
      → (j : TxnId) (q : Prepared) → lookup j (insert s.id p m.prepared) ≡ some q
      → (t : TxnStatus) × (lookup j (insert s.id s m.status) ≡ some t) × Agrees j t q
  both_known p new j q found = elim (Bool-cases (s.id == j)) [
    | inl same ↦
        let key : s.id ≡ j = (TxnId_eq.beq_iff s.id j).0 same in
        let value : p ≡ q = ground (arith, lookup-insert s.id j p m.prepared) in
        (
          s,
          ground (arith, lookup-insert s.id j s m.status),
          subst (λ x. Agrees x s q) key (subst (Agrees s.id s) value new),
        )
    | inr other ↦
        let (t, e, a) = v.known j q (ground (arith, lookup-insert s.id j p m.prepared)) in
        (t, ground (arith, lookup-insert s.id j s m.status), a)
  ]
