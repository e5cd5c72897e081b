-- ===== src/Manager/Exclusion.antt =====
-- Mutual exclusion by locks: the locks that any two prepared transactions hold are compatible.
use scout.Base.{ℕ, ◌≡◌, refl, inl, inr, true, none, some, List, [], ◌∷◌}
use scout.Base.{arith, Bool-cases, if◌then◌else◌}
use scout.Base.Lists.{all, All, Pairwise, All-mono, all-all_comm}
use scout.Base.Maps.{
  Map, lookup, insert, delete, All-delete, All-insert, All-lookup, Pairwise-delete,
  All-delete_of_Pairwise,
}
use scout.Txn.{TxnId, TxnId_eq, Lock, Prepared, Decision}
use scout.Txn.Locks.{compatible_with}
use scout.Txn.Locks.Covers.{compatible_with_comm}
use scout.Manager.{Manager}
use scout.Manager.Locks.{admits, check_lock, check_locks, release_locks}
use scout.Manager.Steps.{Step, Steps, done, ◌then◌, fresh_prepared}

-- No lock of one conflicts with a lock of the other.
abbrev pub Apart : Prepared → Prepared → Type 0
Apart p q = all (λ l. all (compatible_with l) q.locks) p.locks ≡ true

-- What is marked as released holds nothing.
abbrev pub Drops : Prepared → Type 0
Drops p = p.locks_released ≡ true → p.locks ≡ []

pub record IsExclusive (m : Map TxnId Prepared) : Type 0 where
  pub apart : Pairwise (λ a b. Apart a.1 b.1) m
  pub drops : All (λ a. Drops a.1) m

Apart-comm : (p q : Prepared) → Apart p q → Apart q p
Apart-comm p q h = all-all_comm compatible_with compatible_with_comm p.locks q.locks h

insert-IsExclusive :
    (id : TxnId) (p : Prepared) (m : Map TxnId Prepared)
    → IsExclusive m
    → All (λ b. Apart p b.1) (delete id m)
    → Drops p
    → IsExclusive (insert id p m)
unfolding insert
insert-IsExclusive id p m x new drops = record {
  apart = (new, Pairwise-delete Apart id m x.apart);
  drops = All-insert (λ a. Drops a.1) id p m drops x.drops;
}

pub release-IsExclusive :
    (id : TxnId) (p : Prepared) (m : Map TxnId Prepared)
    → IsExclusive m
    → IsExclusive (insert id (release_locks p) m)
unfolding release_locks
release-IsExclusive id p m x =
    insert-IsExclusive id (release_locks p) m x (nothing (delete id m)) (λ _. refl)
  where
    nothing : (r : Map TxnId Prepared) → All (λ b. Apart (release_locks p) b.1) r
    nothing [] = tt
    nothing (b ∷ r) = (refl, nothing r)

decide-IsExclusive :
    (id : TxnId) (p : Prepared) (d : Decision) (m : Map TxnId Prepared)
    → lookup id m ≡ some p
    → IsExclusive m
    → IsExclusive (insert id (record p { decision = some d }) m)
decide-IsExclusive id p d m found x =
    insert-IsExclusive id (record p { decision = some d }) m x
      (All-delete_of_Pairwise Apart Apart-comm id p m found x.apart)
      (All-lookup (λ a. Drops a.1) id p m found x.drops)

-- A lock that `checkLock` grants is compatible with every lock that is held.
check_lock_sound :
    (m : Map TxnId Prepared) (l : Lock)
    → All (λ a. Drops a.1) m
    → check_lock m l ≡ true
    → All (λ b. all (compatible_with l) b.1.locks ≡ true) m
unfolding check_lock admits
check_lock_sound [] l d h = tt
check_lock_sound ((i, p) ∷ m) l d h = elim (Bool-cases p.locks_released) [
  | inl gone ↦
      let empty : p.locks ≡ [] = d.0 gone in
      (rw empty refl, check_lock_sound m l d.1 (ground arith))
  | inr held ↦ (ground arith, check_lock_sound m l d.1 (ground arith))
]

All-cons_locks :
    (l : Lock) (ls : List Lock) (m : Map TxnId Prepared)
    → All (λ b. all (compatible_with l) b.1.locks ≡ true) m
    → All (λ b. all (λ k. all (compatible_with k) b.1.locks) ls ≡ true) m
    → All (λ b. all (λ k. all (compatible_with k) b.1.locks) (l ∷ ls) ≡ true) m
All-cons_locks l ls [] h k = tt
All-cons_locks l ls (b ∷ m) h k = (ground arith, All-cons_locks l ls m h.1 k.1)

pub check_locks_sound :
    (m : Map TxnId Prepared) (id : TxnId) (ts : ℕ) (ls : List Lock)
    → All (λ a. Drops a.1) m
    → check_locks m id ts ls ≡ none
    → All (λ b. all (λ k. all (compatible_with k) b.1.locks) ls ≡ true) m
unfolding check_locks
check_locks_sound m id ts [] d h = All-mono (λ _ _. refl) m d
check_locks_sound m id ts (l ∷ ls) d h =
    All-cons_locks l ls m (check_lock_sound m l d (ground arith))
      (check_locks_sound m id ts ls d (ground arith))

-- Every move keeps the held locks compatible.
pub Step-IsExclusive :
    {S : Type 0} {m n : Manager S} → Step m n → IsExclusive m.prepared → IsExclusive n.prepared
Step-IsExclusive Step.keep x = x
Step-IsExclusive {m} (Step.abort {p = p} i ts t) x = release-IsExclusive i p m.prepared x
Step-IsExclusive (Step.time_out i ts t) x = x
Step-IsExclusive {m} (Step.release {p = p} i t) x = release-IsExclusive i p m.prepared x
Step-IsExclusive {m} (Step.decide {p = p} d ts t _) x =
    decide-IsExclusive d.id p d m.prepared t.entry x
Step-IsExclusive (Step.commit_prepared i ts t _) x = x
Step-IsExclusive (Step.commit_decided i d t _) x = x
Step-IsExclusive (Step.autocommit txn ts e _) x = x
Step-IsExclusive {m} (Step.prepare txn ts e free) x =
    insert-IsExclusive txn.id (fresh_prepared txn ts) m.prepared x
      (All-delete _ txn.id m.prepared (check_locks_sound m.prepared txn.id ts _ x.drops free))
      (λ h. cc)
Step-IsExclusive (Step.store db) x = x
Step-IsExclusive {m} (Step.complete {p = p} i t) x = release-IsExclusive i p m.prepared x
Step-IsExclusive (Step.advance ts) x = x

pub Steps-IsExclusive :
    {S : Type 0} {m n : Manager S} → Steps m n → IsExclusive m.prepared → IsExclusive n.prepared
Steps-IsExclusive done x = x
Steps-IsExclusive (st then rest) x = Steps-IsExclusive rest (Step-IsExclusive st x)
