-- ===== src/Manager/States.antt =====
-- The life of a transaction identifier on one partition.
use scout.Base.{◌≡◌, refl, ◌⊎◌, inl, inr, true, Option, none, some}
use scout.Base.{arith, Bool-cases, ◌==◌, if◌then◌else◌, subst}
use scout.Base.Maps.{lookup, lookup-insert}
use scout.Txn.{TxnId, TxnId_eq, TxnStatus, State, Prepared, is_final}
use scout.Manager.{Manager}
use scout.Manager.Apply.{set_status}
use scout.Manager.Steps.{Step, Steps, Tracked, done, ◌then◌}

abbrev pub state_of : {S : Type 0} → Manager S → TxnId → Option State
state_of m id = elim (lookup id m.status) [ none ↦ none | some s ↦ some s.state ]

-- The edges of the life cycle; `none` is an identifier that the manager does not know.
infix 40 ◌⟶◌ ◌⟶*◌
pub data ◌⟶◌ : Option State → Option State → Type 0 where
  prepares : none ⟶ some State.prepared
  autocommits : none ⟶ some State.committed
  aborts : some State.prepared ⟶ some State.aborted
  times_out : some State.prepared ⟶ some State.timedout
  decides : some State.prepared ⟶ some State.decided
  follows : some State.prepared ⟶ some State.committed
  commits : some State.decided ⟶ some State.committed

pub data ◌⟶*◌ : Option State → Option State → Type 0 where
  here : {a : Option State} → a ⟶* a
  along : {a b c : Option State} → a ⟶ b → b ⟶* c → a ⟶* c

abbrev Evolves : {S : Type 0} → Manager S → Manager S → TxnId → Type 0
Evolves m n id = (state_of n id ≡ state_of m id) ⊎ (state_of m id ⟶ state_of n id)

set-Evolves :
    {S : Type 0} (m : Manager S) (next : TxnStatus) (id : TxnId) (old : Option State)
    → state_of m next.id ≡ old
    → old ⟶ some next.state
    → Evolves m (set_status m next) id
set-Evolves m next id old e edge = elim (Bool-cases (next.id == id)) [
  | inr other ↦ inl (ground (arith, lookup-insert next.id id next m.status))
  | inl same ↦
      let at : next.id ≡ id = (TxnId_eq.beq_iff next.id id).0 same in
      let before : old ≡ state_of m id = ground arith in
      let after : some next.state ≡ state_of (set_status m next) id =
        ground (arith, lookup-insert next.id id next m.status) in
      inr (subst (λ x. state_of m id ⟶ x) after (subst (λ x. x ⟶ some next.state) before edge))
]

Tracked-state :
    {S : Type 0} {m : Manager S} {st : State} {s : TxnStatus} {p : Prepared} (id : TxnId)
    → Tracked m id st s p
    → state_of m id ≡ some st
Tracked-state {m} id t = ground (arith, t.status, t.state)

absent-state :
    {S : Type 0} (m : Manager S) (id : TxnId) → lookup id m.status ≡ none → state_of m id ≡ none
absent-state m id e = ground arith

-- A move changes the state of an identifier only along an edge.
pub Step-Evolves : {S : Type 0} {m n : Manager S} (id : TxnId) → Step m n → Evolves m n id
Step-Evolves id Step.keep = inl refl
Step-Evolves {m} id (Step.abort i ts t) = set-Evolves m _ id _ (Tracked-state i t) aborts
Step-Evolves {m} id (Step.time_out i ts t) = set-Evolves m _ id _ (Tracked-state i t) times_out
Step-Evolves id (Step.release i t) = inl refl
Step-Evolves {m} id (Step.decide d ts t _) = set-Evolves m _ id _ (Tracked-state d.id t) decides
Step-Evolves {m} id (Step.commit_prepared i ts t _) =
    set-Evolves m _ id _ (Tracked-state i t) follows
Step-Evolves {m} id (Step.commit_decided i d t _) = set-Evolves m _ id _ (Tracked-state i t) commits
Step-Evolves {m} id (Step.autocommit txn ts e _) =
    set-Evolves m _ id _ (absent-state m txn.id e) autocommits
Step-Evolves {m} id (Step.prepare txn ts e _) =
    set-Evolves m _ id _ (absent-state m txn.id e) prepares
Step-Evolves id (Step.store db) = inl refl
Step-Evolves id (Step.complete i t) = inl refl
Step-Evolves id (Step.advance ts) = inl refl

join : {a b c : Option State} → (b ≡ a) ⊎ (a ⟶ b) → b ⟶* c → a ⟶* c
join {c} (inl same) r = subst (λ x. x ⟶* c) same r
join (inr edge) r = along edge r

pub Steps-⟶* :
    {S : Type 0} {m n : Manager S} (id : TxnId) → Steps m n → state_of m id ⟶* state_of n id
Steps-⟶* id done = here
Steps-⟶* id (st then rest) = join (Step-Evolves id st) (Steps-⟶* id rest)

-- No edge leaves a final state.
pub final_settled :
    {a b : Option State} (st : State) → a ⟶* b → a ≡ some st → is_final st ≡ true → b ≡ some st
unfolding is_final
final_settled st here e f = e
final_settled st (along edge rest) e f = absurd (no_exit st edge e f)
  where
    no_exit : (st : State) {a b : Option State} → a ⟶ b → a ≡ some st → is_final st ≡ true → ⊥
    no_exit st prepares e f = cc
    no_exit st autocommits e f = cc
    no_exit st aborts e f = ground arith
    no_exit st times_out e f = ground arith
    no_exit st decides e f = ground arith
    no_exit st follows e f = ground arith
    no_exit st commits e f = ground arith
