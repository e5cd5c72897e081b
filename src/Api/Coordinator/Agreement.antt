-- ===== src/Api/Coordinator/Agreement.antt =====
-- When the coordinator of internal/api/server/txn/processor_2pc.go commits, and what its calls rest
-- on.
use mathlib.Core.List.{Permᴰ}
use scout.Base.{ℕ, ◌≡◌, sym, subst, ◌↔◌, Bool, List, arith}
use scout.Api.{Transaction, TxnResult, Call, Reply, Outcome, Run}
use scout.Api.Coordinator.{process}
use scout.Api.Coordinator.Protocol.{
  participants, IsShared, IsDecided, IsFailed, CommittedAt, IsTaken, Stored, AllCommitted, Protocol,
  stopped, refused, not_stored, not_decided, not_committed, principal_open, committed,
}
use scout.Api.Coordinator.Cases.{process-Protocol}

module _ (respond : Call → Reply) (order : List ℕ → List ℕ) (arrive : List (List Bool) → List Bool)
    (permutes : (pids : List ℕ) → Permᴰ (order pids) pids) (t : Transaction) where
  abbrev Taken : ℕ → Type 0
  Taken = IsTaken respond order arrive t

  abbrev Decided : ℕ → Type 0
  Decided = Stored respond order arrive t IsDecided

  -- The transaction is committed at the timestamp by every participant.
  abbrev pub IsCommittedAt : ℕ → Type 0
  IsCommittedAt n = Taken n × (Decided n × AllCommitted respond order arrive t n (participants t))

  same_timestamp : (m n : ℕ) → Taken m → Taken n → m ≡ n
  same_timestamp m n a b = omega (arith, a.1.1 n b.1.0, b.1.1 m a.1.0)

  failed_committed : (o : Outcome TxnResult) (n : ℕ) → IsFailed o → CommittedAt n o → ⊥
  failed_committed (Outcome.done r) n h k = ground (arith, h, k.0)
  failed_committed (Outcome.failed e) n h k = k
  failed_committed Outcome.hangs n h k = k

  committed_once : (o : Outcome TxnResult) (m n : ℕ) → CommittedAt m o → CommittedAt n o → m ≡ n
  committed_once (Outcome.done r) m n h k = omega (arith, h.1, k.1)
  committed_once (Outcome.failed e) m n h k = absurd h
  committed_once Outcome.hangs m n h k = absurd h

  Protocol-committed :
      {run : Run TxnResult}
      → Protocol respond order arrive t run
      → (n : ℕ) → CommittedAt n run.1
      → IsCommittedAt n
  Protocol-committed (stopped o _ h) n k = absurd (failed_committed o n h k)
  Protocol-committed (refused status o _ h) n k = absurd (failed_committed o n h k)
  Protocol-committed (not_stored d status o _ _ h) n k = absurd (failed_committed o n h k)
  Protocol-committed (not_decided d o _ _ h) n k = absurd (failed_committed o n h k)
  Protocol-committed (not_committed d o _ _ _ h) n k = absurd (failed_committed o n h k)
  Protocol-committed (principal_open d o _ _ _ h) n k = absurd (failed_committed o n h k)
  Protocol-committed (committed d o taken stored ended h) n k =
      subst IsCommittedAt (committed_once o d n h k) (taken, (stored, ended))

  Protocol-complete :
      {run : Run TxnResult}
      → Protocol respond order arrive t run
      → (n : ℕ) → IsCommittedAt n
      → CommittedAt n run.1
  Protocol-complete (stopped o no_votes _) n (taken, _) = absurd (no_votes taken.0)
  Protocol-complete (refused status o no_votes _) n (taken, _) = absurd (no_votes taken.0)
  Protocol-complete (not_stored d status o here unstored _) n (taken, (stored, _)) =
      let same = same_timestamp n d taken here in
      let (s, answer, _) = subst Decided same stored in absurd (unstored (s, answer, tt))
  Protocol-complete (not_decided d o here unstored _) n (taken, (stored, _)) =
      absurd (unstored (subst Decided (same_timestamp n d taken here) stored))
  Protocol-complete (not_committed d o here _ some_left _) n (taken, (_, ended)) = absurd (
      some_left (
        subst (λ x. AllCommitted respond order arrive t x (participants t))
          (same_timestamp n d taken here) ended))
  Protocol-complete (principal_open d o here _ some_left _) n (taken, (_, ended)) = absurd (
      some_left (
        subst (λ x. AllCommitted respond order arrive t x (participants t))
          (same_timestamp n d taken here) ended))
  Protocol-complete (committed d o here _ _ h) n (taken, _) =
      subst (λ x. CommittedAt x o) (sym (same_timestamp n d taken here)) h

  -- The coordinator of a transaction of several partitions returns a success at a timestamp exactly
  -- where every participant votes `Prepared`, the timestamp is the latest one of the votes, the
  -- principal answers that the decision at that timestamp is stored, and every participant answers
  -- that it has committed at it.
  pub process-CommittedAt :
      IsShared t → (n : ℕ) → CommittedAt n (process respond order arrive t).1 ↔ IsCommittedAt n
  process-CommittedAt shared n =
      let run = process-Protocol respond order arrive permutes t shared in
      (Protocol-committed run n, Protocol-complete run n)
