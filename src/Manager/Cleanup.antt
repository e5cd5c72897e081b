-- ===== src/Manager/Cleanup.antt =====
-- What a batch does to the life of each transaction: the moves of Manager/States.antt, and then
-- `cleanup`, which forgets settled transactions only.
use scout.Base.{ℕ, ◌≡◌, refl, ◌⊎◌, inl, inr, Bool, true, false, Option, none, some, List, [], ◌∷◌}
use scout.Base.{arith, subst, Bool-cases, Option-cases, ◌==◌, if◌then◌else◌, sub_u64, ◌∙◌}
use scout.Base.Lists.{All, any}
use scout.Base.Maps.{Map, lookup, delete, lookup-delete, IsMap, insert-IsMap, delete-IsMap}
use scout.Txn.{TxnId, TxnId_eq, TxnStatus, State, Prepared, is_final}
use scout.Manager.{Env, Manager, TxnBatch}
use scout.Manager.Batch.{delete_all, is_stale, stale_ids, cleanup, run_loops, finish, apply_batch}
use scout.Manager.Steps.{Step, Steps, done, ◌then◌}
use scout.Manager.States.{state_of, ◌⟶*◌, Steps-⟶*, final_settled}
use scout.Manager.Runs.{finish-Steps}

abbrev pub names : TxnId → List TxnId → Bool
names id = any (λ i. i == id)

pub lookup-delete_all :
    {V : Type 0} (ids : List TxnId) (id : TxnId) (m : Map TxnId V)
    → lookup id (delete_all ids m) ≡ (if names id ids then none else lookup id m)
unfolding delete_all
lookup-delete_all [] id m = refl
lookup-delete_all (i ∷ ids) id m =
    ground (arith, lookup-delete_all ids id (delete i m), lookup-delete i id m)

names-stale_absent :
    (prepared : Map TxnId Prepared) (oldest : ℕ) (id : TxnId) (m : Map TxnId TxnStatus)
    → All (λ b. (id == b.0) ≡ false) m
    → names id (stale_ids prepared oldest m) ≡ false
unfolding stale_ids
names-stale_absent prepared oldest id [] h = refl
names-stale_absent prepared oldest id ((j, w) ∷ m) h = ground (
  arith,
  names-stale_absent prepared oldest id m h.1,
  TxnId_eq.beq_iff id j,
  TxnId_eq.beq_iff j id,
)

-- A status that the cleanup picks passes its test.
stale_sound :
    (prepared : Map TxnId Prepared) (oldest : ℕ) (id : TxnId) (s : TxnStatus)
    (m : Map TxnId TxnStatus)
    → IsMap m
    → lookup id m ≡ some s
    → names id (stale_ids prepared oldest m) ≡ true
    → is_stale prepared oldest id s ≡ true
unfolding stale_ids lookup
stale_sound prepared oldest id s [] h found picked = cc
stale_sound prepared oldest id s ((j, w) ∷ m) h found picked = elim (Bool-cases (j == id)) [
  | inl same ↦
      let key : j ≡ id = (TxnId_eq.beq_iff j id).0 same in
      let value : w ≡ s = ground arith in
      let absent : names id (stale_ids prepared oldest m) ≡ false =
        subst (λ x. names x (stale_ids prepared oldest m) ≡ false) key
          (names-stale_absent prepared oldest j m h.0) in
      subst (λ x. is_stale prepared oldest x s ≡ true) key
        (subst (λ x. is_stale prepared oldest j x ≡ true) value (ground arith))
  | inr other ↦ ground (arith, stale_sound prepared oldest id s m h.1)
]

is_stale-is_final :
    (prepared : Map TxnId Prepared) (oldest : ℕ) (id : TxnId) (s : TxnStatus)
    → is_stale prepared oldest id s ≡ true
    → is_final s.state ≡ true
unfolding is_stale
is_stale-is_final prepared oldest id s h = ground arith

-- Each identifier has one status throughout a run.
pub Step-IsMap : {S : Type 0} {m n : Manager S} → Step m n → IsMap m.status → IsMap n.status
Step-IsMap (Step.abort i ts t) h = insert-IsMap _ _ _ h
Step-IsMap (Step.time_out i ts t) h = insert-IsMap _ _ _ h
Step-IsMap (Step.decide d ts t _) h = insert-IsMap _ _ _ h
Step-IsMap (Step.commit_prepared i ts t _) h = insert-IsMap _ _ _ h
Step-IsMap (Step.commit_decided i d t _) h = insert-IsMap _ _ _ h
Step-IsMap (Step.autocommit txn ts e _) h = insert-IsMap _ _ _ h
Step-IsMap (Step.prepare txn ts e _) h = insert-IsMap _ _ _ h
Step-IsMap _ h = h

Steps-IsMap : {S : Type 0} {m n : Manager S} → Steps m n → IsMap m.status → IsMap n.status
Steps-IsMap done h = h
Steps-IsMap (st then rest) h = Steps-IsMap rest (Step-IsMap st h)

-- A state that the cleanup may forget.
abbrev pub Settled : Option State → Type 0
Settled none = Unit
Settled (some st) = is_final st ≡ true

cleanup-state :
    {S : Type 0} (now : ℕ) (m : Manager S) (id : TxnId)
    → IsMap m.status
    → (state_of (cleanup now m) id ≡ state_of m id)
      ⊎ ((state_of (cleanup now m) id ≡ none) × Settled (state_of m id))
unfolding cleanup
cleanup-state now m id h = elim (Bool-cases (names id ids)) [
  | inr kept ↦ inl (ground (arith, lookup-delete_all ids id m.status))
  | inl picked ↦ inr (ground (arith, lookup-delete_all ids id m.status), settled picked)
]
  where
    oldest : ℕ
    oldest = sub_u64 now m.clean_after

    ids : List TxnId
    ids = stale_ids m.prepared oldest m.status

    settled : names id ids ≡ true → Settled (state_of m id)
    settled picked = elim (Option-cases (lookup id m.status)) [
      | inl e ↦ subst Settled (let p : none ≡ state_of m id = ground arith in p) tt
      | inr (s, e) ↦ subst Settled (let p : some s.state ≡ state_of m id = ground arith in p) (
          is_stale-is_final m.prepared oldest id s
            (stale_sound m.prepared oldest id s m.status h e picked))
    ]

pub delete_all-IsMap :
    {V : Type 0} (ids : List TxnId) (m : Map TxnId V) → IsMap m → IsMap (delete_all ids m)
unfolding delete_all
delete_all-IsMap [] m h = h
delete_all-IsMap (id ∷ ids) m h = delete_all-IsMap ids (delete id m) (delete-IsMap id m h)

module _ {S : Type 0} (env : Env S) (now index : ℕ) (m : Manager S) (b : TxnBatch) where
  -- A batch keeps one status for each identifier.
  pub apply_batch-IsMap : IsMap m.status → IsMap (apply_batch env now index m b).0.status
  unfolding apply_batch cleanup
  apply_batch-IsMap h = delete_all-IsMap _ _ (Steps-IsMap (finish-Steps env m b index) h)

  pub apply_batch-life :
      (id : TxnId)
      → IsMap m.status
      → (st : Option State) × (state_of m id ⟶* st)
        × ((state_of (apply_batch env now index m b).0 id ≡ st)
            ⊎ ((state_of (apply_batch env now index m b).0 id ≡ none) × Settled st))
  unfolding apply_batch
  apply_batch-life id h =
      let q = finish-Steps env m b index in
      (
        _,
        Steps-⟶* id q,
        cleanup-state now (finish env index b (run_loops env m b)) id (Steps-IsMap q h),
      )

  -- If a manager has one status for each identifier, a transaction that is in a final state before
  -- a batch is in the same state after it, or forgotten.
  pub apply_batch-settled :
      (id : TxnId) (st : State)
      → IsMap m.status
      → state_of m id ≡ some st
      → is_final st ≡ true
      → (state_of (apply_batch env now index m b).0 id ≡ some st)
        ⊎ (state_of (apply_batch env now index m b).0 id ≡ none)
  apply_batch-settled id st h e f =
      let (last, path, after) = apply_batch-life id h in
      let same : last ≡ some st = final_settled st path e f in
      elim after [ inl kept ↦ inl (kept ∙ same) | inr gone ↦ inr gone.0 ]
