-- ===== src/Api/Coordinator/Justified.antt =====
-- What the calls of the coordinator of internal/api/server/txn/processor_2pc.go rest on.
use mathlib.Core.List.{Permᴰ, append-nil}
use scout.Base.{ℕ, ◌≡◌, refl, subst, ◌⊎◌, inl, inr, Bool, true, false, List, [], ◌∷◌, ◌++◌, nat_eq}
use scout.Base.Lists.{All, All-append}
use scout.Base.Maps.{Map}
use scout.Txn.{TxnStatus}
use scout.Api.{
  Transaction, TxnResult, Call, Reply, Run, abort_request, prepare_request, commit_request,
}
use scout.Api.Coordinator.{abort, process}
use scout.Api.Coordinator.Abort.{to_abort, abort-cases}
use scout.Api.Coordinator.Channel.{Merges}
use scout.Api.Coordinator.Protocol.{
  IsShared, IsDecided, AllPrepared, IsTaken, Stored, votes, commits, store, Protocol, stopped,
  refused, not_stored, not_decided, not_committed, principal_open, committed,
}
use scout.Api.Coordinator.Cases.{process-Protocol}
use scout.Api.Coordinator.Calls.{All-map, All-every}

module _ (respond : Call → Reply) (order : List ℕ → List ℕ) (arrive : List (List Bool) → List Bool)
    (permutes : (pids : List ℕ) → Permᴰ (order pids) pids)
    (merges : (queues : List (List Bool)) → Merges queues (arrive queues)) (t : Transaction) where
  -- A commit rests on a stored decision to commit at its timestamp, which rests on the votes; an
  -- abort rests on a vote that is missing, or on a decision for which no answer came.
  abbrev pub IsJustified : Call → Type 0
  IsJustified (Call.prepare r) = r.txn.id ≡ t.id
  IsJustified (Call.commit r) =
      (r.id ≡ t.id)
      × (IsTaken respond order arrive t r.commit_timestamp
          × Stored respond order arrive t IsDecided r.commit_timestamp)
  IsJustified (Call.abort r) =
      (r.id ≡ t.id)
      × ((AllPrepared respond order arrive t → ⊥)
          ⊎ ((n : ℕ) × IsTaken respond order arrive t n
              × (Stored respond order arrive t (λ _. Unit) n → ⊥)))
  IsJustified (Call.store_decision d) =
      (d.id ≡ t.id) × ((d.commit ≡ true) × IsTaken respond order arrive t d.commit_timestamp)
  IsJustified (Call.autocommit r) = ⊥

  -- The calls of an abort are aborts.
  abort-All :
      (P : Call → Type 0) (status : Map ℕ TxnStatus)
      → ((pid : ℕ) → P (abort_request t.id pid))
      → All P (abort respond order arrive t status).0
  abort-All P status h =
      let pids = order (to_abort t status) in
      let made = All-map P (abort_request t.id) pids (All-every _ pids h) in
      elim (abort-cases respond order arrive permutes merges t status) [
        | inl (_, result) ↦ rw result (All-append P _ _ made (h t.id.principal_pid, tt))
        | inr (_, result) ↦ rw result made
      ]

  votes-IsJustified :
      (more : List Call)
      → All IsJustified more
      → All IsJustified (votes respond order arrive t ++ more)
  unfolding prepare_request
  votes-IsJustified more h = (
    refl,
    All-append IsJustified _ more
        (All-map IsJustified (prepare_request false t) _ (All-every _ _ (λ pid. refl))) h,
  )

  commits-IsJustified :
      (n : ℕ)
      → IsTaken respond order arrive t n
      → Stored respond order arrive t IsDecided n
      → (more : List Call) → All IsJustified more
      → All IsJustified
          (store respond order arrive t n ∷ (commits respond order arrive t n ++ more))
  unfolding commit_request
  commits-IsJustified n taken stored more h = (
    (refl, (refl, taken)),
    All-append IsJustified _ more
        (All-map IsJustified (commit_request false t.id n) _
          (All-every _ _ (λ pid. (refl, (taken, stored)))))
        h,
  )

  abort-IsJustified :
      (status : Map ℕ TxnStatus)
      → (AllPrepared respond order arrive t → ⊥)
        ⊎ ((n : ℕ) × IsTaken respond order arrive t n
            × (Stored respond order arrive t (λ _. Unit) n → ⊥))
      → All IsJustified (abort respond order arrive t status).0
  unfolding abort_request
  abort-IsJustified status why = abort-All IsJustified status (λ pid. (refl, why))

  Protocol-IsJustified :
      {run : Run TxnResult} → Protocol respond order arrive t run → All IsJustified run.0
  unfolding prepare_request commit_request
  Protocol-IsJustified (stopped o _ _) = (refl, tt)
  Protocol-IsJustified (refused status o no_votes _) =
      votes-IsJustified _ (abort-IsJustified status (inl no_votes))
  Protocol-IsJustified (not_stored d status o taken unstored _) =
      votes-IsJustified _
        ((refl, (refl, taken)), abort-IsJustified status (inr (d, taken, unstored)))
  Protocol-IsJustified (not_decided d o taken _ _) = votes-IsJustified _ ((refl, (refl, taken)), tt)
  Protocol-IsJustified (not_committed d o taken stored _ _) = votes-IsJustified _ (
      subst (λ x. All IsJustified (store respond order arrive t d ∷ x))
        (append-nil (commits respond order arrive t d)) (commits-IsJustified d taken stored [] tt))
  Protocol-IsJustified (principal_open d o taken stored _ _) =
      votes-IsJustified _ (commits-IsJustified d taken stored _ ((refl, (taken, stored)), tt))
  Protocol-IsJustified (committed d o taken stored _ _) =
      votes-IsJustified _ (commits-IsJustified d taken stored _ ((refl, (taken, stored)), tt))

  -- A transaction of several partitions: it commits only at a timestamp that is the latest one of the
  -- votes, all of them `Prepared`, and for which the principal has answered that the decision is
  -- stored; it stores no other decision; and it aborts only where a vote is missing or the principal
  -- has not answered the decision.
  pub process-IsJustified : IsShared t → All IsJustified (process respond order arrive t).0
  process-IsJustified shared =
      Protocol-IsJustified (process-Protocol respond order arrive permutes t shared)
