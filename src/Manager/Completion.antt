-- ===== src/Manager/Completion.antt =====
-- The transactions that a batch completes are committed, and stay so until the completions run.
use scout.Base.{◌≡◌, refl, inl, inr, Option, none, some, List, [], ◌∷◌}
use scout.Base.{arith, Bool-cases, Option-cases, ◌==◌, nat_eq, ltb, if◌then◌else◌}
use scout.Base.Lists.{All, All-mono}
use scout.Base.Maps.{lookup, lookup-insert, lookup-insert_self}
use scout.Txn.{TxnId, TxnId_eq, TxnStatus, State, Prepared, Result, ok, err, is_final}
use scout.Manager.{Env, Manager, Commit, Autocommit}
use scout.Manager.Apply.{
  Applied, apply_commit, commit_in, commit_prepared, apply_autocommit, autocommit_new, set_prepared,
}
use scout.Manager.Batch.{each, completions_of, complete, complete_all}
use scout.Manager.Steps.{Step, Steps, done, ◌then◌, committed_status}
use scout.Manager.Steps.Commands.{apply_commit-Step}
use scout.Manager.States.{state_of, Steps-⟶*, final_settled}

abbrev pub HasEntry : {S : Type 0} → Manager S → TxnId → Type 0
HasEntry m id = (p : Prepared) × (lookup id m.prepared ≡ some p)

status_of_state :
    {S : Type 0} (m : Manager S) (id : TxnId) {st : State}
    → state_of m id ≡ some st
    → (s : TxnStatus) × (lookup id m.status ≡ some s) × (s.state ≡ st)
status_of_state m id h = elim (Option-cases (lookup id m.status)) [
  | inl e ↦ absurd (ground arith)
  | inr (s, e) ↦ (s, e, ground arith)
]

-- A committed transaction with a prepared entry.
pub record IsCommitted {S : Type 0} (m : Manager S) (id : TxnId) : Type 0 where
  pub state : state_of m id ≡ some State.committed
  pub entry : HasEntry m id

set-HasEntry :
    {S : Type 0} (m : Manager S) (i id : TxnId) (q : Prepared)
    → HasEntry m id
    → HasEntry (set_prepared m i q) id
set-HasEntry m i id q (p, e) = elim (Bool-cases (i == id)) [
  | inl same ↦ (q, ground (arith, lookup-insert i id q m.prepared))
  | inr other ↦ (p, ground (arith, lookup-insert i id q m.prepared))
]

-- No move of a batch drops a prepared entry.
Step-HasEntry :
    {S : Type 0} {m n : Manager S} (id : TxnId) → Step m n → HasEntry m id → HasEntry n id
Step-HasEntry {m} id (Step.abort i ts t) h = set-HasEntry m i id _ h
Step-HasEntry {m} id (Step.release i t) h = set-HasEntry m i id _ h
Step-HasEntry {m} id (Step.decide d ts t _) h = set-HasEntry m d.id id _ h
Step-HasEntry {m} id (Step.prepare txn ts e _) h = set-HasEntry m txn.id id _ h
Step-HasEntry {m} id (Step.complete i t) h = set-HasEntry m i id _ h
Step-HasEntry id _ h = h

Steps-HasEntry :
    {S : Type 0} {m n : Manager S} (id : TxnId) → Steps m n → HasEntry m id → HasEntry n id
Steps-HasEntry id done h = h
Steps-HasEntry id (st then rest) h = Steps-HasEntry id rest (Step-HasEntry id st h)

pub Steps-IsCommitted :
    {S : Type 0} {m n : Manager S} → Steps m n → (id : TxnId) → IsCommitted m id → IsCommitted n id
unfolding is_final
Steps-IsCommitted q id c = record {
  state = final_settled State.committed (Steps-⟶* id q) c.state refl;
  entry = Steps-HasEntry id q c.entry;
}

pub each-Steps :
    {S C R : Type 0} (f : Manager S → C → Manager S × R)
    → ((m : Manager S) (c : C) → Step m (f m c).0)
    → (m : Manager S) (cs : List C) → Steps m (each f m cs).0
unfolding each
each-Steps f step m [] = done
each-Steps f step m (c ∷ cs) = step m c then each-Steps f step (f m c).0 cs

-- What a result promises of the state that it comes with: its completion names a committed
-- transaction.
abbrev PromisesId : {S : Type 0} → Manager S → Option TxnId → Type 0
PromisesId m none = Unit
PromisesId m (some id) = IsCommitted m id

abbrev Promises : {S : Type 0} → Manager S → Result Applied → Type 0
Promises m (err e) = Unit
Promises m (ok a) = PromisesId m a.completion

-- The completion of an autocommit releases nothing.
abbrev Idle : Result Applied → Type 0
Idle (err e) = Unit
Idle (ok a) = a.completion ≡ none

-- A completion is the last part of a commit: the locks of a committed transaction are released.
module _ {S : Type 0} (env : Env S) (m : Manager S) where
  commit_prepared-Promises :
      (cmd : Commit) (p : Prepared)
      → lookup cmd.id m.prepared ≡ some p
      → Promises (commit_prepared env m cmd p).0 (commit_prepared env m cmd p).1
  unfolding commit_prepared
  commit_prepared-Promises cmd p f = record {
    state = ground (
      arith,
      lookup-insert_self cmd.id (committed_status cmd.id cmd.timestamp p.txn.participant_pids)
          m.status,
    );
    entry = (p, f);
  }

  commit_in-Promises :
      (cmd : Commit) (s : TxnStatus) (p : Prepared) (st : State)
      → lookup cmd.id m.prepared ≡ some p
      → Promises (commit_in env st m cmd s p).0 (commit_in env st m cmd s p).1
  unfolding commit_in commit_prepared
  commit_in-Promises cmd s p State.prepared f = elim (Bool-cases (ltb cmd.timestamp s.timestamp)) [
    | inl early ↦ rw early tt
    | inr late ↦ rw late (commit_prepared-Promises cmd p f)
  ]
  commit_in-Promises cmd s p State.decided f = elim (Option-cases p.decision) [
    | inl e ↦ rw e tt
    | inr (d, e) ↦ elim (Bool-cases (cmd.timestamp == d.commit_timestamp)) [
      | inr other ↦ rw (e, other) tt
      | inl same ↦ rw (e, same) (commit_prepared-Promises cmd p f)
    ]
  ]
  commit_in-Promises cmd s p _ f = tt

  apply_commit-Promises :
      (cmd : Commit) → Promises (apply_commit env m cmd).0 (apply_commit env m cmd).1
  unfolding apply_commit
  apply_commit-Promises cmd = elim (Option-cases (lookup cmd.id m.status)) [
    | inl e ↦ rw (e, apply_commit) tt
    | inr (s, e) ↦ elim (Option-cases (lookup cmd.id m.prepared)) [
      | inl f ↦ rw (e, f, apply_commit) tt
      | inr (p, f) ↦ rw (e, f, apply_commit) (commit_in-Promises cmd s p s.state f)
    ]
  ]

  autocommit-Idle : (cmd : Autocommit) → Idle (apply_autocommit env m cmd).1
  unfolding apply_autocommit autocommit_new
  autocommit-Idle cmd = ground arith

-- All completions that a list of results adds.
abbrev AllCommitted : {S : Type 0} → Manager S → List TxnId → Type 0
AllCommitted m = All (IsCommitted m)

completions-cons :
    {S : Type 0} (m n : Manager S) (r : Result Applied) (rs : List (Result Applied))
    → Steps m n
    → Promises m r
    → AllCommitted n (completions_of rs)
    → AllCommitted n (completions_of (r ∷ rs))
unfolding completions_of
completions-cons m n (err e) rs q h k = k
completions-cons m n (ok a) rs q h k = elim (Option-cases a.completion) [
  | inl e ↦ rw (e, completions_of) k
  | inr (id, e) ↦ rw (e, completions_of) (Steps-IsCommitted q id (rw e at h), k)
]

Idle-cons :
    (r : Result Applied) (rs : List (Result Applied))
    → Idle r
    → completions_of rs ≡ []
    → completions_of (r ∷ rs) ≡ []
unfolding completions_of
Idle-cons (err e) rs h k = k
Idle-cons (ok a) rs h k = rw (h, completions_of) k

complete-Step :
    {S : Type 0} (m : Manager S) (id : TxnId) → IsCommitted m id → Step m (complete m id)
unfolding complete
complete-Step m id c =
    let (p, e) = c.entry in
    let (s, f, g) = status_of_state m id c.state in
    rw (e, complete) (Step.complete id (record { status = f; entry = e; state = g }))

module _ {S : Type 0} (env : Env S) where
  pub commits-AllCommitted :
      (m : Manager S) (cs : List Commit)
      → AllCommitted
          (each (apply_commit env) m cs).0
          (completions_of (each (apply_commit env) m cs).1)
  unfolding each completions_of
  commits-AllCommitted m [] = tt
  commits-AllCommitted m (c ∷ cs) =
      completions-cons (apply_commit env m c).0 _ (apply_commit env m c).1 _
        (each-Steps (apply_commit env) (λ n d. apply_commit-Step n env d) (apply_commit env m c).0
          cs)
        (apply_commit-Promises env m c) (commits-AllCommitted (apply_commit env m c).0 cs)

  pub autocommits-Idle :
      (m : Manager S) (cs : List Autocommit)
      → completions_of (each (apply_autocommit env) m cs).1 ≡ []
  unfolding each completions_of
  autocommits-Idle m [] = refl
  autocommits-Idle m (c ∷ cs) =
      Idle-cons (apply_autocommit env m c).1 _ (autocommit-Idle env m c)
        (autocommits-Idle (apply_autocommit env m c).0 cs)

pub complete_all-Steps :
    {S : Type 0} (m : Manager S) (ids : List TxnId)
    → AllCommitted m ids
    → Steps m (complete_all m ids)
unfolding complete_all
complete_all-Steps m [] h = done
complete_all-Steps m (id ∷ ids) h =
    let st = complete-Step m id h.0 in
    st
    then complete_all-Steps (complete m id) ids
        (All-mono (λ i. Steps-IsCommitted (st then done) i) ids h.1)
