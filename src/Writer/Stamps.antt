-- ===== src/Writer/Stamps.antt =====
-- The timestamps that the writer of internal/data/server/txn/writer.go gives to a batch, and what
-- becomes of the highest timestamp of the partition.
use scout.Base.{
  ℕ, zero, suc, ◌+◌, ◌≤◌, ◌<◌, ◌≡◌, refl, ap, subst, ◌∙◌, max, List, [], ◌∷◌, ◌++◌, map, arith,
}
use scout.Base.Lists.{length, All, All-mono, Pairwise}
use scout.Manager.{
  Env, Manager, Autocommit, Prepare, Commit, Abort, StoreDecision, MarkTimedout, TxnBatch,
}
use scout.Manager.Batch.{apply_batch, finish, cleanup}
use scout.Writer.{stamp, max_commit, last_reading, prepare_batch}

-- The timestamps of the commands that `prepareBatch` stamps, in its order.
abbrev pub stamps : TxnBatch → List ℕ
stamps b =
    map (λ (x : Autocommit). x.timestamp) b.autocommit
    ++ (map (λ (x : Prepare). x.timestamp) b.prepare
        ++ (map (λ (x : Abort). x.timestamp) b.abort
            ++ (map (λ (x : StoreDecision). x.timestamp) b.store_decision
                ++ map (λ (x : MarkTimedout). x.timestamp) b.mark_timedout)))

abbrev pub Ascends : List ℕ → Type 0
Ascends = Pairwise (λ a b. a < b)

-- The readings from one call of `hlc.Now` on.
abbrev readings_from : (ℕ → ℕ) → ℕ → ℕ → List ℕ
readings_from readings n zero = []
readings_from readings n (suc k) = readings n ∷ readings_from readings (suc n) k

readings_from-append :
    (readings : ℕ → ℕ) (n k l : ℕ)
    → readings_from readings n k ++ readings_from readings (n + k) l
      ≡ readings_from readings n (k + l)
readings_from-append readings n zero l =
    let here : n + zero ≡ n = omega arith in
    let rest : zero + l ≡ l = omega arith in rw (here, rest) refl
readings_from-append readings n (suc k) l =
    let here : n + suc k ≡ suc n + k = omega arith in
    let rest : suc k + l ≡ suc (k + l) = omega arith in
    rw (here, rest) (ap (λ xs. readings n ∷ xs) (readings_from-append readings (suc n) k l))

map-stamp :
    {A : Type 0} (get : A → ℕ) (set : ℕ → A → A)
    → ((ts : ℕ) (x : A) → get (set ts x) ≡ ts)
    → (readings : ℕ → ℕ) (n : ℕ) (xs : List A)
    → map get (stamp set readings n xs) ≡ readings_from readings n (length xs)
unfolding stamp
map-stamp get set same readings n [] = refl
map-stamp get set same readings n (x ∷ xs) =
    rw (same (readings n) x, map-stamp get set same readings (suc n) xs) refl

abbrev stamped : TxnBatch → ℕ
stamped b =
    length b.autocommit
    + length b.prepare
    + length b.abort
    + length b.store_decision
    + length b.mark_timedout

joined :
    (readings : ℕ → ℕ) (k1 k2 k3 k4 k5 : ℕ)
    → readings_from readings 0 k1
        ++ (readings_from readings k1 k2
            ++ (readings_from readings (k1 + k2) k3
                ++ (readings_from readings (k1 + k2 + k3) k4
                    ++ readings_from readings (k1 + k2 + k3 + k4) k5)))
      ≡ readings_from readings 0 (k1 + k2 + k3 + k4 + k5)
joined readings k1 k2 k3 k4 k5 =
    let rest = k2 + (k3 + (k4 + k5)) in
    let start : 0 + k1 ≡ k1 = omega arith in
    let first =
      subst
        (λ n.
          readings_from readings 0 k1 ++ readings_from readings n rest
          ≡ readings_from readings 0 (k1 + rest))
        start (readings_from-append readings 0 k1 rest) in
    let sum : k1 + rest ≡ k1 + k2 + k3 + k4 + k5 = omega arith in
    rw
      (
        readings_from-append readings (k1 + k2 + k3) k4 k5,
        readings_from-append readings (k1 + k2) k3 (k4 + k5),
        readings_from-append readings k1 k2 (k3 + (k4 + k5)),
      )
      (first ∙ ap (readings_from readings 0) sum)

stamps-prepare_batch :
    (readings : ℕ → ℕ) (b : TxnBatch)
    → stamps (prepare_batch readings b) ≡ readings_from readings 0 (stamped b)
unfolding prepare_batch
stamps-prepare_batch readings b =
    let k1 = length b.autocommit in
    let k2 = length b.prepare in
    let k3 = length b.abort in
    let k4 = length b.store_decision in
    rw
      (
        map-stamp (λ (x : Autocommit). x.timestamp) (λ ts x. record x { timestamp = ts })
            (λ ts x. refl) readings 0 b.autocommit,
        map-stamp (λ (x : Prepare). x.timestamp) (λ ts x. record x { timestamp = ts })
            (λ ts x. refl) readings k1 b.prepare,
        map-stamp (λ (x : Abort). x.timestamp) (λ ts x. record x { timestamp = ts }) (λ ts x. refl)
            readings (k1 + k2) b.abort,
        map-stamp (λ (x : StoreDecision). x.timestamp) (λ ts x. record x { timestamp = ts })
            (λ ts x. refl) readings (k1 + k2 + k3) b.store_decision,
        map-stamp (λ (x : MarkTimedout). x.timestamp) (λ ts x. record x { timestamp = ts })
            (λ ts x. refl) readings (k1 + k2 + k3 + k4) b.mark_timedout,
      )
      (joined readings k1 k2 k3 k4 (length b.mark_timedout))

module _ (readings : ℕ → ℕ) (ascend : (n : ℕ) → readings n < readings (suc n)) where
  readings_above : (lo n k : ℕ) → lo < readings n → All (λ x. lo < x) (readings_from readings n k)
  readings_above lo n zero h = tt
  readings_above lo n (suc k) h = (h, readings_above lo (suc n) k (omega (arith, h, ascend n)))

  readings_from-Ascends : (n k : ℕ) → Ascends (readings_from readings n k)
  readings_from-Ascends n zero = tt
  readings_from-Ascends n (suc k) =
      (readings_above (readings n) (suc n) k (ascend n), readings_from-Ascends (suc n) k)

  reading-le : (n d : ℕ) → readings n ≤ readings (n + d)
  reading-le n zero = let e : n + zero ≡ n = omega arith in rw e (omega arith)
  reading-le n (suc d) =
      let e : n + suc d ≡ suc (n + d) = omega arith in
      rw e (omega (arith, reading-le n d, ascend (n + d)))

  readings_within :
      (n k : ℕ) → All (λ x. x ≤ last_reading readings (n + k)) (readings_from readings n k)
  readings_within n zero = tt
  readings_within n (suc k) =
      let same : suc n + k ≡ n + suc k = omega arith in
      let top : n + suc k ≡ suc (n + k) = omega arith in
      let head : readings n ≤ last_reading readings (n + suc k) = rw top (reading-le n k) in
      let tail = readings_within (suc n) k in
      (
        head,
        subst (λ j. All (λ x. x ≤ last_reading readings j) (readings_from readings (suc n) k)) same
            tail,
      )

max_commit-le : (ts : ℕ) (xs : List Commit) → ts ≤ max_commit ts xs
unfolding max_commit
max_commit-le ts [] = omega arith
max_commit-le ts (x ∷ xs) = omega (arith, max_commit-le (max ts x.timestamp) xs)

max_commit-All :
    (ts : ℕ) (xs : List Commit) → All (λ (x : Commit). x.timestamp ≤ max_commit ts xs) xs
unfolding max_commit
max_commit-All ts [] = tt
max_commit-All ts (x ∷ xs) =
    (omega (arith, max_commit-le (max ts x.timestamp) xs), max_commit-All (max ts x.timestamp) xs)

max_commit-lt :
    (ts bound : ℕ) (xs : List Commit)
    → ts < bound
    → All (λ (x : Commit). x.timestamp < bound) xs
    → max_commit ts xs < bound
unfolding max_commit
max_commit-lt ts bound [] h k = h
max_commit-lt ts bound (x ∷ xs) h k =
    max_commit-lt (max ts x.timestamp) bound xs (omega (arith, h, k.0)) k.1

-- With a clock whose readings ascend: the timestamps that a batch is given ascend from its
-- autocommits over its prepares, aborts and decisions to its time-outs, and the highest timestamp of
-- the batch is not below any of them, nor below a commit timestamp or a requested update.
pub prepare_batch-Ascends :
    (readings : ℕ → ℕ) (b : TxnBatch)
    → ((n : ℕ) → readings n < readings (suc n))
    → let done = prepare_batch readings b in
      Ascends (stamps done)
      × (All (λ ts. ts ≤ done.max_timestamp) (stamps done)
          × (All (λ (x : Commit). x.timestamp ≤ done.max_timestamp) done.commit
              × (b.max_timestamp ≤ done.max_timestamp)))
unfolding prepare_batch
prepare_batch-Ascends readings b ascend =
    let last = last_reading readings (stamped b) in
    let all_stamps = stamps-prepare_batch readings b in
    let above = max_commit-le last b.commit in
    let start : 0 + stamped b ≡ stamped b = omega arith in
    let within = rw start at (readings_within readings ascend 0 (stamped b)) in
    (
      rw all_stamps (readings_from-Ascends readings ascend 0 (stamped b)),
      (
        rw all_stamps (All-mono (λ x h. omega (arith, h, above)) _ within),
        (All-mono (λ x h. omega (arith, h)) b.commit (max_commit-All last b.commit), omega arith),
      ),
    )

apply_batch-max :
    {S : Type 0} (env : Env S) (now index : ℕ) (m : Manager S) (b : TxnBatch)
    → (apply_batch env now index m b).0.max_timestamp ≡ b.max_timestamp
unfolding apply_batch finish cleanup
apply_batch-max env now index m b = refl

-- A batch of commits alone moves the highest timestamp of the partition back, where it is above
-- their timestamps.
pub commits-lower :
    {S : Type 0} (env : Env S) (now index : ℕ) (m : Manager S) (readings : ℕ → ℕ)
    (commits : List Commit)
    → 0 < m.max_timestamp
    → All (λ (x : Commit). x.timestamp < m.max_timestamp) commits
    → let batch : TxnBatch = record {
      autocommit = [];
      prepare = [];
      commit = commits;
      abort = [];
      store_decision = [];
      mark_timedout = [];
      max_timestamp = 0;
    } in
      (apply_batch env now index m (prepare_batch readings batch)).0.max_timestamp < m.max_timestamp
unfolding prepare_batch
commits-lower env now index m readings commits h k =
    let batch : TxnBatch = record {
      autocommit = [];
      prepare = [];
      commit = commits;
      abort = [];
      store_decision = [];
      mark_timedout = [];
      max_timestamp = 0;
    } in
    let low = max_commit-lt 0 m.max_timestamp commits h k in
    omega (arith, low, apply_batch-max env now index m (prepare_batch readings batch))
