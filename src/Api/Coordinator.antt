-- ===== src/Api/Coordinator.antt =====
-- The coordinator of the two-phase commit: internal/api/server/txn/processor_2pc.go. `order` is the
-- order in which the results of the goroutines of a phase arrive, and `arrive` merges the messages
-- that the goroutines of an abort send on their channel; a map of statuses leaves out the nil
-- entries, which read as missing.
pub mod Abort
pub mod Channel
pub mod Votes
pub mod Protocol
pub mod Second
pub mod Cases
pub mod Agreement
pub mod Calls
pub mod Justified
use scout.Base.{
  ℕ, zero, suc, ◌+◌, Bool, true, false, not, ◌&&◌, ◌||◌, max, Option, none, some, List, [], ◌∷◌,
  ◌++◌, map, if◌then◌else◌, ltb, ◌==◌, nat_eq,
}
use scout.Base.Lists.{length, any, take, drop}
use scout.Base.Maps.{Map, lookup, insert}
use scout.Txn.{TxnId, ActionStatus, TxnStatus, Decision, is_final}
use scout.Api.{
  Transaction, TxnResult, participant_count, keys, Call, Failure, Reply, Problem, Outcome, Run,
  ◌>>=◌, calling, returns, fails, is_prepared, is_committed, is_decided, prepare_request,
  commit_request, abort_request,
}

-- The local variables `status` and `errs`; of the errors, how many there are.
pub record Gathered : Type 0 where
  pub status : Map ℕ TxnStatus
  pub errs : ℕ

abbrev pub nothing_gathered : Gathered
nothing_gathered = record { status = []; errs = 0 }

abbrev pub one_more : Gathered → Gathered
one_more g = record g { errs = suc g.errs }

-- `handleResult` of `prepare`.
unfoldable pub handle_prepared : Gathered → ℕ → Reply → Gathered
handle_prepared g pid (Reply.failed e) = one_more g
handle_prepared g pid (Reply.answered s) = record g { status = insert pid s g.status }

-- `handleResult` of `commit`.
unfoldable pub handle_committed : Gathered → ℕ → Reply → Gathered
handle_committed g pid (Reply.failed e) = one_more g
handle_committed g pid (Reply.answered s) =
    if is_committed s.state then record g { status = insert pid s g.status } else one_more g

-- The participants that are not the principal.
unfoldable pub others : ℕ → List ℕ → List ℕ
others principal [] = []
others principal (pid ∷ pids) =
    let rest = others principal pids in if pid == principal then rest else pid ∷ rest

-- The loop of `abort` that starts the goroutines: every other participant that is not final.
unfoldable pub unfinished : Map ℕ TxnStatus → List ℕ → List ℕ
unfinished status [] = []
unfinished status (pid ∷ pids) =
    let rest = unfinished status pids in
    elim (lookup pid status) [
      | none ↦ pid ∷ rest
      | some s ↦ if is_final s.state then rest else pid ∷ rest
    ]

-- What `invokeAbort` sends on the channel, `true` for an error.
unfoldable pub abort_messages : Reply → List Bool
abort_messages (Reply.failed Failure.not_found) = false ∷ []
abort_messages (Reply.failed Failure.other) = true ∷ false ∷ []
abort_messages (Reply.answered s) = if not (is_final s.state) then true ∷ [] else false ∷ []

-- The loop of `decide`; `none` is the decision to abort.
unfoldable pub decide_loop : ℕ → Map ℕ TxnStatus → Option ℕ
decide_loop timestamp [] = some timestamp
decide_loop timestamp ((_, s) ∷ status) =
    let rest = decide_loop (max timestamp s.timestamp) status in
    if is_prepared s.state then rest else none

unfoldable pub decide : TxnId → Map ℕ TxnStatus → Decision
decide id status = elim (decide_loop 0 status) [
  | none ↦ record { id = id; commit = false; commit_timestamp = 0 }
  | some timestamp ↦ record { id = id; commit = true; commit_timestamp = timestamp }
]

-- `utils.AppendMap`.
unfoldable pub append_map : Map ℕ ActionStatus → Map ℕ ActionStatus → Map ℕ ActionStatus
append_map m [] = m
append_map m ((k, v) ∷ more) = append_map (insert k v m) more

unfoldable pub all_actions : Map ℕ ActionStatus → Map ℕ TxnStatus → Map ℕ ActionStatus
all_actions m [] = m
all_actions m ((_, s) ∷ status) = all_actions (append_map m s.action_status) status

unfoldable pub aggregate_results : Decision → Map ℕ TxnStatus → TxnResult
aggregate_results decision status = record {
  id = decision.id;
  timestamp = if decision.commit then decision.commit_timestamp else 0;
  success = decision.commit;
  action_status = all_actions [] status;
}

-- The results that arrive, in the order of `pids`, at the answers `reply`.
unfoldable pub gather :
    (Gathered → ℕ → Reply → Gathered) → (ℕ → Reply) → List ℕ → Gathered → Gathered
gather handle reply [] g = g
gather handle reply (pid ∷ pids) g = gather handle reply pids (handle g pid (reply pid))

module _ (respond : Call → Reply) (order : List ℕ → List ℕ)
    (arrive : List (List Bool) → List Bool) where
  -- The channel holds one message, so the principal's second one waits for ever, and so does its
  -- first one where a message of the others was not received.
  unfoldable pub abort : Transaction → Map ℕ TxnStatus → Run (Unit {0})
  abort t status =
      let request = abort_request t.id in
      let principal = t.id.principal_pid in
      let targets = order (unfinished status (others principal (keys t.participant_actions))) in
      let sent = arrive (map (λ pid. abort_messages (respond (request pid))) targets) in
      let unread = drop (length targets) sent in
      let last = abort_messages (respond (request principal)) in
      if any (λ e. e) (take (length targets) sent)
      then (map request targets, Outcome.done tt)
      else if ltb 1 (length unread + length last)
      then (map request targets ++ request principal ∷ [], Outcome.hangs)
      else (map request targets ++ request principal ∷ [], Outcome.done tt)

  -- `prepare` after the principal's answer.
  unfoldable pub prepare_others : Transaction → Gathered → Run (Map ℕ TxnStatus)
  prepare_others t g =
      let request = prepare_request false t in
      let pids = order (others t.id.principal_pid (keys t.participant_actions)) in
      let gathered = gather handle_prepared (λ pid. respond (request pid)) pids g in
      calling (map request pids) (
        if ltb 0 gathered.errs
        then (abort t gathered.status >>= λ _. fails Problem.participants_failed)
        else returns gathered.status)

  -- `prepare` on the principal's answer.
  unfoldable pub prepare_after : Transaction → Reply → Run (Map ℕ TxnStatus)
  prepare_after t reply =
      let principal = t.id.principal_pid in
      let g = handle_prepared nothing_gathered principal reply in
      if ltb 0 g.errs then fails Problem.principal_failed else elim (lookup principal g.status) [
        | none ↦ fails Problem.nil_dereference
        | some s ↦ if not (is_prepared s.state) then returns g.status else prepare_others t g
      ]

  unfoldable pub prepare : Transaction → Run (Map ℕ TxnStatus)
  prepare t =
      let first = prepare_request false t t.id.principal_pid in
      calling (first ∷ []) (prepare_after t (respond first))

  unfoldable pub commit : Decision → Transaction → Run (Map ℕ TxnStatus)
  commit decision t =
      let principal = decision.id.principal_pid in
      let request = commit_request false t.id decision.commit_timestamp in
      let pids = order (others principal (keys t.participant_actions)) in
      let gathered = gather handle_committed (λ pid. respond (request pid)) pids nothing_gathered in
      let last = handle_committed gathered principal (respond (request principal)) in
      calling (map request pids) (
        if ltb 0 gathered.errs
        then fails Problem.participants_failed
        else calling (request principal ∷ [])
            (if ltb 0 last.errs then fails Problem.principal_failed else returns last.status))

  -- `Process` where the decision is to commit.
  unfoldable pub carry_out : Transaction → Decision → Map ℕ TxnStatus → Run TxnResult
  carry_out t decision status =
      calling (Call.store_decision decision ∷ []) (elim (respond (Call.store_decision decision)) [
        | Reply.failed _ ↦ abort t status >>= λ _. fails Problem.decision_failed
        | Reply.answered s ↦
            if not (is_decided s.state)
            then fails Problem.not_decided
            else (commit decision t >>= λ committed. returns (aggregate_results decision committed))
      ])

  -- `Process` after `prepare`.
  unfoldable pub conclude : Transaction → Map ℕ TxnStatus → Run TxnResult
  conclude t status =
      let decision = decide t.id status in
      if length status == 1
      then (elim (lookup t.id.principal_pid status) [
        | none ↦ fails Problem.nil_dereference
        | some s ↦ returns (record {
          id = t.id;
          timestamp = s.timestamp;
          success = false;
          action_status = s.action_status;
        })
      ])
      else if not decision.commit
      then (abort t status >>= λ _. returns (aggregate_results decision status))
      else carry_out t decision status

  unfoldable pub process : Transaction → Run TxnResult
  process t = prepare t >>= conclude t
