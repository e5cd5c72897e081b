-- ===== src/Manager/Batch.antt =====
-- `ApplyBatch` and `cleanup` of internal/data/server/txn/manager_apply.go.
use scout.Base.{ℕ, Bool, true, false, not, none, some, List, [], ◌∷◌, ◌++◌}
use scout.Base.{if◌then◌else◌, ltb, sub_u64}
use scout.Base.Maps.{Map, lookup, delete}
use scout.Mvcc.{Record}
use scout.Txn.{TxnId, TxnId_eq, TxnStatus, Prepared, Result, ok, err, is_final}
use scout.Manager.{Env, Manager, TxnBatch}
use scout.Manager.Locks.{release_locks}
use scout.Manager.Apply.{
  Applied, set_prepared, apply_abort, apply_mark_timedout, apply_store_decision, apply_commit,
  apply_autocommit, apply_prepare,
}

-- A loop over the commands of one kind: the state after the last one, and each result.
unfoldable pub each {ℓ} : {M C R : Type ℓ} → (M → C → M × R) → M → List C → M × List R
each f m [] = (m, [])
each f m (c ∷ rest) = let (m1, r) = f m c in let (m2, rs) = each f m1 rest in (m2, r ∷ rs)

-- The records and the completions that the results of commits and autocommits add.
unfoldable pub writes_of : List (Result Applied) → List Record
writes_of [] = []
writes_of (ok a ∷ rest) = a.writes ++ writes_of rest
writes_of (err e ∷ rest) = writes_of rest

unfoldable pub completions_of : List (Result Applied) → List TxnId
completions_of [] = []
completions_of (ok a ∷ rest) = elim a.completion [
  | none ↦ completions_of rest
  | some id ↦ id ∷ completions_of rest
]
completions_of (err e ∷ rest) = completions_of rest

unfoldable pub statuses_of : List (Result Applied) → List (Result TxnStatus)
statuses_of [] = []
statuses_of (ok a ∷ rest) = ok a.status ∷ statuses_of rest
statuses_of (err e ∷ rest) = err e ∷ statuses_of rest

-- The completion of a commit holds a pointer to the entry of `p.prepared`, which nothing replaces
-- between the commit and the completion; here it finds the entry by its key.
unfoldable pub complete : {S : Type 0} → Manager S → TxnId → Manager S
complete m id = elim (lookup id m.prepared) [
  | none ↦ m
  | some p ↦ set_prepared m id (release_locks p)
]

unfoldable pub complete_all : {S : Type 0} → Manager S → List TxnId → Manager S
complete_all m [] = m
complete_all m (id ∷ rest) = complete_all (complete m id) rest

-- The test of `cleanup` on one status.
unfoldable pub is_stale : Map TxnId Prepared → ℕ → TxnId → TxnStatus → Bool
is_stale prepared oldest id s =
    if ltb oldest s.timestamp
    then false
    else if not (is_final s.state)
    then false
    else elim (lookup id prepared) [ none ↦ true | some p ↦ p.locks_released ]

unfoldable pub stale_ids : Map TxnId Prepared → ℕ → Map TxnId TxnStatus → List TxnId
stale_ids prepared oldest [] = []
stale_ids prepared oldest ((id, s) ∷ rest) =
    let later = stale_ids prepared oldest rest in
    if is_stale prepared oldest id s then id ∷ later else later

unfoldable pub delete_all : {V : Type 0} → List TxnId → Map TxnId V → Map TxnId V
delete_all [] m = m
delete_all (id ∷ rest) m = delete_all rest (delete id m)

-- `now` is the wall clock in nanoseconds; the subtraction wraps around as the conversion to uint64
-- does.
unfoldable pub cleanup : {S : Type 0} → ℕ → Manager S → Manager S
cleanup now m =
    let ids = stale_ids m.prepared (sub_u64 now m.clean_after) m.status in
    record m { status = delete_all ids m.status; prepared = delete_all ids m.prepared }

pub record BatchResults : Type 0 where
  pub autocommit : List (Result TxnStatus)
  pub prepare : List (Result TxnStatus)
  pub commit : List (Result TxnStatus)
  pub abort : List (Result TxnStatus)
  pub store_decision : List (Result TxnStatus)
  pub mark_timedout : List (Result TxnStatus)

module _ {S : Type 0} (env : Env S) where
  -- The six loops of `ApplyBatch`, with the records to write and the transactions to complete.
  pub record Loops : Type 0 where
    pub state : Manager S
    pub results : BatchResults
    pub writes : List Record
    pub completions : List TxnId

  unfoldable pub run_loops : Manager S → TxnBatch → Loops
  run_loops m batch =
      let (m1, aborts) = each apply_abort m batch.abort in
      let (m2, timedout) = each apply_mark_timedout m1 batch.mark_timedout in
      let (m3, commits) = each (apply_commit env) m2 batch.commit in
      let (m4, autocommits) = each (apply_autocommit env) m3 batch.autocommit in
      let (m5, prepares) = each (apply_prepare env) m4 batch.prepare in
      let (m6, decisions) = each apply_store_decision m5 batch.store_decision in
      record {
        state = m6;
        results = record {
          autocommit = statuses_of autocommits;
          prepare = prepares;
          commit = statuses_of commits;
          abort = aborts;
          store_decision = decisions;
          mark_timedout = timedout;
        };
        writes = writes_of commits ++ writes_of autocommits;
        completions = completions_of commits ++ completions_of autocommits;
      }

  -- The store is written, then the completions release locks, then the maximal timestamp is set.
  unfoldable pub finish : ℕ → TxnBatch → Loops → Manager S
  finish index batch l =
      let m = l.state in
      let written : Manager S = record m { db = env.put m.db m.pid index l.writes } in
      let done = complete_all written l.completions in
      record done { max_timestamp = batch.max_timestamp }

  unfoldable pub apply_batch : ℕ → ℕ → Manager S → TxnBatch → Manager S × BatchResults
  apply_batch now index m batch =
      let l = run_loops m batch in (cleanup now (finish index batch l), l.results)
