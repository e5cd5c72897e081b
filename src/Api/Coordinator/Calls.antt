-- ===== src/Api/Coordinator/Calls.antt =====
-- The order of the calls that the coordinator of internal/api/server/txn/processor_2pc.go makes.
use mathlib.Core.List.{Permᴰ, append-nil}
use scout.Base.{
  ℕ, ◌≤◌, ◌≡◌, refl, subst, inl, inr, Bool, false, List, [], ◌∷◌, ◌++◌, map, arith, if◌then◌else◌,
  ◌==◌, nat_eq, beq_refl, Bool-cases, Option-cases,
}
use scout.Base.Lists.{All, All-mono, All-unperm, Pairwise}
use scout.Base.Maps.{Map, lookup}
use scout.Txn.{TxnStatus, is_final}
use scout.Api.{
  Transaction, TxnResult, keys, Call, Reply, Run, abort_request, prepare_request, commit_request,
}
use scout.Api.Coordinator.{others, unfinished, abort, process}
use scout.Api.Coordinator.Abort.{to_abort, abort-cases}
use scout.Api.Coordinator.Channel.{Merges}
use scout.Api.Coordinator.Votes.{others_other}
use scout.Api.Coordinator.Protocol.{
  IsShared, votes, commits, store, Protocol, stopped, refused, not_stored, not_decided,
  not_committed, principal_open, committed,
}
use scout.Api.Coordinator.Cases.{process-Protocol}

pub All-map :
    (P : Call → Type 0) (f : ℕ → Call) (pids : List ℕ)
    → All (λ pid. P (f pid)) pids
    → All P (map f pids)
All-map P f [] h = tt
All-map P f (pid ∷ pids) h = (h.0, All-map P f pids h.1)

pub All-every : (P : ℕ → Type 0) (pids : List ℕ) → ((pid : ℕ) → P pid) → All P pids
All-every P [] h = tt
All-every P (pid ∷ pids) h = (h pid, All-every P pids h)

All-unfinished :
    (P : ℕ → Type 0) (status : Map ℕ TxnStatus) (pids : List ℕ)
    → All P pids
    → All P (unfinished status pids)
unfolding unfinished
All-unfinished P status [] h = tt
All-unfinished P status (pid ∷ pids) h = elim (Option-cases (lookup pid status)) [
  | inl e ↦ rw (unfinished, e) (h.0, All-unfinished P status pids h.1)
  | inr (s, e) ↦ elim (Bool-cases (is_final s.state)) [
    | inl ended ↦ rw (unfinished, e, ended) (All-unfinished P status pids h.1)
    | inr going ↦ rw (unfinished, e, going) (h.0, All-unfinished P status pids h.1)
  ]
]

-- The step of the protocol at which a call is made.
abbrev pub phase : ℕ → Call → ℕ
phase principal (Call.prepare r) = if r.participant_pid == principal then 0 else 1
phase principal (Call.store_decision d) = 2
phase principal (Call.commit r) = if r.participant_pid == principal then 4 else 3
phase principal (Call.abort r) = if r.participant_pid == principal then 4 else 3
phase principal (Call.autocommit r) = 5

abbrev pub InOrder : ℕ → List Call → Type 0
InOrder principal calls = Pairwise (λ a b. phase principal a ≤ phase principal b) calls

abbrev From : ℕ → ℕ → List Call → Type 0
From principal n calls = All (λ c. n ≤ phase principal c) calls × InOrder principal calls

-- Calls of one phase before calls of later ones.
From-level :
    (principal n m : ℕ) (calls more : List Call)
    → n ≤ m
    → All (λ c. phase principal c ≡ n) calls
    → From principal m more
    → From principal n (calls ++ more)
From-level principal n m [] more low h (above, sorted) =
    (All-mono (λ c k. omega (arith, k, low)) more above, sorted)
From-level principal n m (c ∷ calls) more low h later =
    let (above, sorted) = From-level principal n m calls more low h.1 later in
    ((omega (arith, h.0), above), (All-mono (λ d k. omega (arith, h.0, k)) _ above, sorted))

From-one : (principal n : ℕ) (c : Call) → phase principal c ≡ n → From principal n (c ∷ [])
From-one principal n c h = ((omega (arith, h), tt), (tt, tt))

module _ (respond : Call → Reply) (order : List ℕ → List ℕ) (arrive : List (List Bool) → List Bool)
    (permutes : (pids : List ℕ) → Permᴰ (order pids) pids)
    (merges : (queues : List (List Bool)) → Merges queues (arrive queues)) (t : Transaction) where
  abbrev p : ℕ
  p = t.id.principal_pid

  other_pids : All (λ pid. (pid == p) ≡ false) (others p (keys t.participant_actions))
  other_pids = others_other p (keys t.participant_actions)

  -- The requests of one phase to the others, before what is left.
  From-others :
      (n m : ℕ) (f : ℕ → Call) (pids : List ℕ) (more : List Call)
      → n ≤ m
      → ((pid : ℕ) → (pid == p) ≡ false → phase p (f pid) ≡ n)
      → All (λ pid. (pid == p) ≡ false) pids
      → From p m more
      → From p n (map f (order pids) ++ more)
  From-others n m f pids more low h different later =
      From-level p n m (map f (order pids)) more low
        (All-map (λ c. phase p c ≡ n) f (order pids)
          (All-mono h (order pids) (All-unperm _ (permutes pids) different)))
        later

  abort-From : (status : Map ℕ TxnStatus) → From p 3 (abort respond order arrive t status).0
  unfolding abort_request
  abort-From status =
      let pids = to_abort t status in
      let last = From-one p 4 (abort_request t.id p) (ground (arith, beq_refl p)) in
      let different = All-unfinished (λ pid. (pid == p) ≡ false) status _ other_pids in
      let request = abort_request t.id in
      elim (abort-cases respond order arrive permutes merges t status) [
        | inl (_, result) ↦ rw result (
            From-others 3 4 request pids (request p ∷ []) (omega arith) (λ pid e. rw e refl)
              different last)
        | inr (_, result) ↦ rw result (
            subst (From p 3) (append-nil (map request (order pids))) (
              From-others 3 4 request pids [] (omega arith) (λ pid e. rw e refl) different
                (tt, tt)))
      ]

  -- The votes, before what is left.
  From-votes : (more : List Call) → From p 2 more → From p 0 (votes respond order arrive t ++ more)
  unfolding prepare_request
  From-votes more later =
      let pids = others p (keys t.participant_actions) in
      let rest =
        From-others 1 2 (prepare_request false t) pids more (omega arith) (λ pid e. rw e refl)
          other_pids later in
      From-level p 0 1 (prepare_request false t p ∷ []) _ (omega arith)
        (ground (arith, beq_refl p), tt) rest

  From-store :
      (n : ℕ) (more : List Call) → From p 3 more → From p 2 (store respond order arrive t n ∷ more)
  From-store n more later =
      From-level p 2 3 (store respond order arrive t n ∷ []) more (omega arith) (refl, tt) later

  From-commits :
      (n : ℕ) (more : List Call)
      → From p 4 more
      → From p 3 (commits respond order arrive t n ++ more)
  unfolding commit_request
  From-commits n more later =
      From-others 3 4 (commit_request false t.id n) (others p (keys t.participant_actions)) more
        (omega arith) (λ pid e. rw e refl) other_pids later

  From-last : (n : ℕ) → From p 4 (commit_request false t.id n p ∷ [])
  unfolding commit_request
  From-last n = From-one p 4 (commit_request false t.id n p) (ground (arith, beq_refl p))

  Protocol-From : {run : Run TxnResult} → Protocol respond order arrive t run → From p 0 run.0
  unfolding prepare_request
  Protocol-From (stopped o _ _) =
      From-one p 0 (prepare_request false t p) (ground (arith, beq_refl p))
  Protocol-From (refused status o _ _) =
      From-votes _ (From-level p 2 3 [] _ (omega arith) tt (abort-From status))
  Protocol-From (not_stored d status o _ _ _) = From-votes _ (From-store d _ (abort-From status))
  Protocol-From (not_decided d o _ _ _) = From-votes _ (From-store d [] (tt, tt))
  Protocol-From (not_committed d o _ _ _ _) = From-votes _ (
      From-store d _ (
        subst (From p 3) (append-nil (commits respond order arrive t d))
          (From-commits d [] (tt, tt))))
  Protocol-From (principal_open d o _ _ _ _) =
      From-votes _ (From-store d _ (From-commits d _ (From-last d)))
  Protocol-From (committed d o _ _ _ _) =
      From-votes _ (From-store d _ (From-commits d _ (From-last d)))

  -- The calls of a transaction of several partitions go through the phases in order: the principal
  -- prepares first, then the others; then the decision is stored; then the others commit or abort,
  -- and the principal commits or aborts last.
  pub process-InOrder : IsShared t → InOrder p (process respond order arrive t).0
  process-InOrder shared =
      (Protocol-From (process-Protocol respond order arrive permutes t shared)).1
