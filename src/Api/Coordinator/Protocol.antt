-- ===== src/Api/Coordinator/Protocol.antt =====
-- The two-phase commit protocol of internal/api/server/txn/processor_2pc.go as a data type: the ways
-- in which a run of the coordinator can end, each with what the participants have answered.
use scout.Base.{ℕ, ◌≤◌, ◌≡◌, Bool, true, false, List, [], ◌∷◌, ◌++◌, map, nat_eq}
use scout.Base.Lists.{All}
use scout.Base.Maps.{Map}
use scout.Txn.{TxnStatus}
use scout.Api.{
  Transaction, TxnResult, keys, Call, Reply, Outcome, Run, is_decided, prepare_request,
  commit_request,
}
use scout.Api.Coordinator.{others, abort}
use scout.Api.Coordinator.Votes.{Answers, IsPrepared, IsCommitted}

abbrev pub participants : Transaction → List ℕ
participants t = t.id.principal_pid ∷ others t.id.principal_pid (keys t.participant_actions)

-- More than one partition takes part.
abbrev pub IsShared : Transaction → Type 0
IsShared t = others t.id.principal_pid (keys t.participant_actions) ≡ [] → ⊥

abbrev pub IsDecided : TxnStatus → Type 0
IsDecided s = is_decided s.state ≡ true

-- The result of a transaction that is not committed.
abbrev pub IsFailed : Outcome TxnResult → Type 0
IsFailed (Outcome.done r) = r.success ≡ false
IsFailed _ = Unit

abbrev pub CommittedAt : ℕ → Outcome TxnResult → Type 0
CommittedAt n (Outcome.done r) = (r.success ≡ true) × (r.timestamp ≡ n)
CommittedAt n _ = ⊥

module _ (respond : Call → Reply) (order : List ℕ → List ℕ) (arrive : List (List Bool) → List Bool)
    (t : Transaction) where
  abbrev pub vote : ℕ → Reply
  vote pid = respond (prepare_request false t pid)

  abbrev pub AllPrepared : Type 0
  AllPrepared = All (λ pid. Answers IsPrepared (vote pid)) (participants t)

  abbrev pub IsBound : ℕ → Type 0
  IsBound n = All (λ pid. Answers (λ s. s.timestamp ≤ n) (vote pid)) (participants t)

  -- A decision to commit, at the latest timestamp of the votes.
  abbrev pub IsTaken : ℕ → Type 0
  IsTaken d = AllPrepared × (IsBound d × ((n : ℕ) → IsBound n → d ≤ n))

  abbrev pub store : ℕ → Call
  store d = Call.store_decision (record { id = t.id; commit = true; commit_timestamp = d })

  abbrev pub Stored : (TxnStatus → Type 0) → ℕ → Type 0
  Stored P d = Answers P (respond (store d))

  abbrev pub AllCommitted : ℕ → List ℕ → Type 0
  AllCommitted n pids =
      All (λ pid. Answers IsCommitted (respond (commit_request false t.id n pid))) pids

  abbrev pub all_others : List ℕ
  all_others = order (others t.id.principal_pid (keys t.participant_actions))

  abbrev pub votes : List Call
  votes = prepare_request false t t.id.principal_pid ∷ map (prepare_request false t) all_others

  abbrev pub commits : ℕ → List Call
  commits n = map (commit_request false t.id n) all_others

  pub data Protocol : Run TxnResult → Type 0 where
    stopped :
        (o : Outcome TxnResult)
        → (AllPrepared → ⊥)
        → IsFailed o
        → Protocol (prepare_request false t t.id.principal_pid ∷ [], o)
    refused :
        (status : Map ℕ TxnStatus) (o : Outcome TxnResult)
        → (AllPrepared → ⊥)
        → IsFailed o
        → Protocol (votes ++ (abort respond order arrive t status).0, o)
    not_stored :
        (d : ℕ) (status : Map ℕ TxnStatus) (o : Outcome TxnResult)
        → IsTaken d
        → (Stored (λ _. Unit) d → ⊥)
        → IsFailed o
        → Protocol (votes ++ store d ∷ (abort respond order arrive t status).0, o)
    not_decided :
        (d : ℕ) (o : Outcome TxnResult)
        → IsTaken d
        → (Stored IsDecided d → ⊥)
        → IsFailed o
        → Protocol (votes ++ store d ∷ [], o)
    not_committed :
        (d : ℕ) (o : Outcome TxnResult)
        → IsTaken d
        → Stored IsDecided d
        → (AllCommitted d (participants t) → ⊥)
        → IsFailed o
        → Protocol (votes ++ store d ∷ commits d, o)
    principal_open :
        (d : ℕ) (o : Outcome TxnResult)
        → IsTaken d
        → Stored IsDecided d
        → (AllCommitted d (participants t) → ⊥)
        → IsFailed o
        → Protocol (
          votes ++ store d ∷ (commits d ++ commit_request false t.id d t.id.principal_pid ∷ []),
          o,
        )
    committed :
        (d : ℕ) (o : Outcome TxnResult)
        → IsTaken d
        → Stored IsDecided d
        → AllCommitted d (participants t)
        → CommittedAt d o
        → Protocol (
          votes ++ store d ∷ (commits d ++ commit_request false t.id d t.id.principal_pid ∷ []),
          o,
        )
