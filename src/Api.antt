-- ===== src/Api.antt =====
-- The transactions of an API server: `Txn` of internal/api/server/txn/txn.go (here `Transaction`),
-- its partitioner, and the calls of the data client. A run of a processor returns the calls it
-- makes, in the order in which they are answered, beside its result. What a partition answers is a
-- parameter `respond`, a function of the call, since a processor makes a call once at most.
pub mod Coordinator
pub mod Process
pub mod Append
mod Tests
use scout.Base.{
  ℕ, ◌+◌, ◌%◌, ◌^◌, Bool, true, false, Option, none, some, List, [], ◌∷◌, ◌++◌, if◌then◌else◌, ◌==◌,
  nat_eq,
}
use scout.Base.Lists.{length, all}
use scout.Base.Maps.{Map, lookup, insert}
use scout.Base.Bytes.{Bytes}
use scout.Txn.{
  TxnId, Action, ActionStatus, TxnStatus, State, Decision, is_read_only_action, is_final,
}
use scout.Txn

pub record Transaction : Type 0 where
  pub id : TxnId
  pub participant_actions : Map ℕ (List Action)
  pub next_action_id : ℕ
  pub read_timestamp : ℕ

pub record TxnResult : Type 0 where
  pub id : TxnId
  pub timestamp : ℕ
  pub success : Bool
  pub action_status : Map ℕ ActionStatus

-- `Processor.New`.
abbrev pub new_transaction : Transaction
new_transaction = record {
  id = record { principal_pid = 0; server_id = 0; timestamp = 0 };
  participant_actions = [];
  next_action_id = 0;
  read_timestamp = 0;
}

-- The actions of a participant; a partition that the map does not hold has none.
unfoldable pub actions_of : ℕ → Map ℕ (List Action) → List Action
actions_of pid m = elim (lookup pid m) [ none ↦ [] | some actions ↦ actions ]

-- `getPartition`: `hash` is the xxhash of a key, and a count of zero panics in the code.
unfoldable pub get_partition : (Bytes → ℕ) → ℕ → Bytes → ℕ
get_partition hash partition_count key = (hash key % partition_count) % 2 ^ 32

-- The loop of `Append`.
unfoldable pub append_actions : ℕ → List Action → Transaction → Transaction
append_actions pid [] t = t
append_actions pid (action ∷ actions) t =
    let numbered : Action = record { id = t.next_action_id; payload = action.payload } in
    append_actions pid actions (record t {
      participant_actions =
          insert pid (actions_of pid t.participant_actions ++ numbered ∷ []) t.participant_actions;
      next_action_id = (t.next_action_id + 1) % 2 ^ 32;
    })

-- The first partition is the principal. `now` is what `hlc.Now` reads.
abbrev pub with_id : ℕ → ℕ → ℕ → Transaction → Transaction
with_id pid server_id now t =
    if t.id.timestamp == 0
    then record t { id = record { principal_pid = pid; server_id = server_id; timestamp = now } }
    else t

unfoldable pub append : (Bytes → ℕ) → ℕ → ℕ → ℕ → Bytes → List Action → Transaction → Transaction
append hash partition_count server_id now routing_key actions t =
    let pid = get_partition hash partition_count routing_key in
    append_actions pid actions (with_id pid server_id now t)

abbrev pub participant_count : Transaction → ℕ
participant_count t = length t.participant_actions

unfoldable pub is_read_only : Transaction → Bool
is_read_only t = all (λ (p : ℕ × List Action). all is_read_only_action p.1) t.participant_actions

-- `utils.MakeKeySlice`.
unfoldable pub keys : Map ℕ (List Action) → List ℕ
keys [] = []
keys ((pid, _) ∷ m) = pid ∷ keys m

pub record PrepareRequest : Type 0 where
  pub participant_pid : ℕ
  pub read_only : Bool
  pub txn : Txn.Txn

pub record CommitRequest : Type 0 where
  pub participant_pid : ℕ
  pub id : TxnId
  pub commit_timestamp : ℕ
  pub fetch_results : Bool
  pub read_only : Bool

pub record AbortRequest : Type 0 where
  pub participant_pid : ℕ
  pub id : TxnId

pub record AutocommitRequest : Type 0 where
  pub partition_id : ℕ
  pub read_timestamp : ℕ
  pub txn : Txn.Txn

-- The methods of `DataClient`.
pub data Call : Type 0 where
  prepare : PrepareRequest → Call
  commit : CommitRequest → Call
  abort : AbortRequest → Call
  store_decision : Decision → Call
  autocommit : AutocommitRequest → Call

-- The code tells `errors.NotFound` from every other error.
pub data Failure : Type 0 where
  not_found other : Failure

pub data Reply : Type 0 where
  failed : Failure → Reply
  answered : TxnStatus → Reply

-- What `Process` returns an error about.
pub data Problem : Type 0 where
  principal_failed participants_failed decision_failed not_decided : Problem
  autocommit_failed snapshot_invalid is_empty nil_dereference : Problem

-- A processor returns a value or an error, or waits for ever on a channel.
pub data Outcome (A : Type 0) : Type 0 where
  done : A → Outcome A
  failed : Problem → Outcome A
  hangs : Outcome A

abbrev pub Run : Type 0 → Type 0
Run A = List Call × Outcome A

-- The calls of the first run, and of the second where the first returns a value.
infixl 5 ◌>>=◌
abbrev pub ◌>>=◌ : {A B : Type 0} → Run A → (A → Run B) → Run B
(calls, done a) >>= f = (calls ++ (f a).0, (f a).1)
(calls, failed e) >>= f = (calls, failed e)
(calls, hangs) >>= f = (calls, hangs)

abbrev pub calling : {A : Type 0} → List Call → Run A → Run A
calling calls run = (calls ++ run.0, run.1)

abbrev pub returns : {A : Type 0} → A → Run A
returns a = ([], done a)

abbrev pub fails : {A : Type 0} → Problem → Run A
fails e = ([], failed e)

abbrev pub is_prepared : State → Bool
is_prepared State.prepared = true
is_prepared _ = false

abbrev pub is_committed : State → Bool
is_committed State.committed = true
is_committed _ = false

abbrev pub is_decided : State → Bool
is_decided State.decided = true
is_decided _ = false

unfoldable pub prepare_request : Bool → Transaction → ℕ → Call
prepare_request read_only t pid = Call.prepare (record {
  participant_pid = pid;
  read_only = read_only;
  txn = record {
    id = t.id;
    actions = actions_of pid t.participant_actions;
    participant_pids = if pid == t.id.principal_pid then keys t.participant_actions else [];
  };
})

unfoldable pub commit_request : Bool → TxnId → ℕ → ℕ → Call
commit_request read_only id timestamp pid = Call.commit (record {
  participant_pid = pid;
  id = id;
  commit_timestamp = timestamp;
  fetch_results = true;
  read_only = read_only;
})

unfoldable pub abort_request : TxnId → ℕ → Call
abort_request id pid = Call.abort (record { participant_pid = pid; id = id })

unfoldable pub autocommit_request : Transaction → ℕ → Call
autocommit_request t pid = Call.autocommit (record {
  partition_id = pid;
  read_timestamp = t.read_timestamp;
  txn = record { id = t.id; actions = actions_of pid t.participant_actions; participant_pids = [] };
})
