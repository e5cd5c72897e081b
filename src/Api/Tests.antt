-- ===== src/Api/Tests.antt =====
-- Tests of the transactions of an API server, and the theorems at concrete inputs.
use mathlib.Core.List.{Permᴰ}
use mathlib.Core.List.Permᴰ
use scout.Base.{ℕ, ◌≤◌, ◌↔◌, ◌≡◌, refl, Bool, List, [], ◌∷◌, arith}
use scout.Base.Lists.{All, length}
use scout.Base.Maps.{Map}
use scout.Txn.{TxnId, Action, Payload, TxnStatus, State}
use scout.Api.{
  Transaction, new_transaction, append, Call, Failure, Reply, prepare_request, commit_request,
  abort_request, keys, actions_of,
}
use scout.Api.Append.{IsNumbered, append-IsNumbered}
use scout.Api.Coordinator.{process, abort, others, unfinished}
use scout.Api.Coordinator.Abort.{abort-IsHung_iff, IsHung, AllEnded, to_abort}
use scout.Api.Coordinator.Agreement.{process-CommittedAt, IsCommittedAt}
use scout.Api.Coordinator.Calls.{process-InOrder, InOrder}
use scout.Api.Coordinator.Channel.{concat, concat-Merges, Merges}
use scout.Api.Coordinator.Justified.{process-IsJustified, IsJustified}
use scout.Api.Coordinator.Protocol.{CommittedAt, IsShared}
use scout.Api.Coordinator.Votes.{Answers-only}
use scout.Api.Process.{process_read_only}
use scout.Api.Process.ReadOnly.{process_read_only-CommittedAt, IsReadAt}

abbrev id : TxnId
id = record { principal_pid = 1; server_id = 9; timestamp = 5 }

abbrev status : ℕ → State → TxnStatus
status n state = record {
  id = id;
  timestamp = n;
  state = state;
  action_status = [];
  participant_pids = [];
}

-- Each partition prepares at ten times its number and commits; the principal fails to abort.
abbrev respond : Call → Reply
respond (Call.prepare r) = Reply.answered (status r.participant_pid State.prepared)
respond (Call.commit r) = Reply.answered (status r.commit_timestamp State.committed)
respond (Call.abort r) = Reply.failed Failure.other
respond (Call.store_decision d) = Reply.answered (status d.commit_timestamp State.decided)
respond (Call.autocommit r) = Reply.answered (status 7 State.committed)

abbrev in_turn : List ℕ → List ℕ
in_turn pids = pids

abbrev read_key : Action
read_key = record { id = 0; payload = Payload.read (record { keyspace = 16; key = 1 ∷ [] }) }

abbrev t : Transaction
t = record {
  id = id;
  participant_actions = (1, read_key ∷ []) ∷ (2, read_key ∷ []) ∷ (3, []) ∷ [];
  next_action_id = 2;
  read_timestamp = 0;
}

abbrev principal_only : Transaction
principal_only = record t { participant_actions = (1, []) ∷ [] }

permutes : (pids : List ℕ) → Permᴰ (in_turn pids) pids
permutes pids = Permᴰ.refl pids

merges : (queues : List (List Bool)) → Merges queues (concat queues)
merges = concat-Merges

t-IsShared : IsShared t
unfolding others keys
t-IsShared none_left = cc

process-CommittedAt_example :
    CommittedAt 3 (process respond in_turn concat t).1
    ↔ IsCommittedAt respond in_turn concat permutes t 3
process-CommittedAt_example = process-CommittedAt respond in_turn concat permutes t t-IsShared 3

-- The vote of partition `n` stands at timestamp `n`, so the latest one is 3.
t-IsCommittedAt : IsCommittedAt respond in_turn concat permutes t 3
unfolding prepare_request commit_request others keys actions_of
t-IsCommittedAt = (
  (
    ((_, refl, refl), ((_, refl, refl), ((_, refl, refl), tt))),
    (
      ((_, refl, omega arith), ((_, refl, omega arith), ((_, refl, omega arith), tt))),
      λ m bound. Answers-only {P = λ s. s.timestamp ≤ m} (status 3 State.prepared) refl bound.1.1.0,
    ),
  ),
  ((_, refl, refl), ((_, refl, refl), ((_, refl, refl), ((_, refl, refl), tt)))),
)

succeeds : CommittedAt 3 (process respond in_turn concat t).1
succeeds = (process-CommittedAt respond in_turn concat permutes t t-IsShared 3).1 t-IsCommittedAt

process-IsJustified_example :
    All (IsJustified respond in_turn concat permutes merges t) (process respond in_turn concat t).0
process-IsJustified_example =
    process-IsJustified respond in_turn concat permutes merges t t-IsShared

process-InOrder_example : InOrder 1 (process respond in_turn concat t).0
process-InOrder_example = process-InOrder respond in_turn concat permutes merges t t-IsShared

-- The third participant is final already; the second one fails to abort.
abbrev votes : Map ℕ TxnStatus
votes = (3, status 3 State.failed) ∷ (1, status 1 State.prepared) ∷ []

abort-IsHung_iff_example : IsHung (abort respond in_turn concat t votes).1 ↔ (
    AllEnded respond in_turn concat permutes merges id (to_abort t votes)
    × (respond (abort_request id 1) ≡ Reply.failed Failure.other))
abort-IsHung_iff_example = abort-IsHung_iff respond in_turn concat permutes merges t votes

-- Nobody but the principal is left to abort, and its abort fails: the abort waits for ever.
hung : IsHung (abort respond in_turn concat principal_only []).1
unfolding abort_request unfinished others keys
hung = (abort-IsHung_iff respond in_turn concat permutes merges principal_only []).1 (tt, refl)

process_read_only-CommittedAt_example :
    CommittedAt 3 (process_read_only respond in_turn t).1 ↔ IsReadAt respond in_turn permutes t 3
process_read_only-CommittedAt_example = process_read_only-CommittedAt respond in_turn permutes t 3

new-IsNumbered : IsNumbered new_transaction
new-IsNumbered = (tt, λ k. ground arith)

append-IsNumbered_example :
    IsNumbered (append length 4 9 5 (1 ∷ 2 ∷ []) (read_key ∷ read_key ∷ []) new_transaction)
append-IsNumbered_example =
    append-IsNumbered length 4 9 5 (1 ∷ 2 ∷ []) (read_key ∷ read_key ∷ []) new_transaction
      (omega arith) new-IsNumbered
