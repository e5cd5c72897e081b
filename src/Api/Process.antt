-- ===== src/Api/Process.antt =====
-- `Processor.Process` of internal/api/server/txn/processor.go, which chooses between one partition,
-- the two-phase commit and the two kinds of reads: internal/api/server/txn/processor_read_only.go
-- and internal/api/server/txn/processor_read_snapshot.go. `order` is the order in which the results
-- of the goroutines arrive.
pub mod ReadOnly
use scout.Base.{
  ℕ, zero, suc, Bool, true, false, not, ◌&&◌, Option, none, some, List, [], ◌∷◌, map, if◌then◌else◌,
  ltb, ◌==◌, nat_eq,
}
use scout.Base.Lists.{length}
use scout.Base.Maps.{Map}
use scout.Txn.{Action, TxnStatus}
use scout.Txn
use scout.Api.{
  Transaction, TxnResult, participant_count, is_read_only, keys, Call, Reply, Problem, Run, ◌>>=◌,
  calling, returns, fails, is_committed, prepare_request, commit_request, autocommit_request,
}
use scout.Api.Coordinator.{
  nothing_gathered, gather, handle_prepared, handle_committed, decide, decide_loop,
  aggregate_results, all_actions, process,
}

-- `GetSingleMapKey`: the actions of the first participant.
abbrev single_actions : Map ℕ (List Action) → List Action
single_actions [] = []
single_actions ((_, actions) ∷ _) = actions

module _ (respond : Call → Reply) (order : List ℕ → List ℕ) where
  -- `prepare` of the read-only processor.
  unfoldable pub prepare_reads : Transaction → Run (Map ℕ TxnStatus)
  prepare_reads t =
      let request = prepare_request true t in
      let pids = order (keys t.participant_actions) in
      let gathered = gather handle_prepared (λ pid. respond (request pid)) pids nothing_gathered in
      calling (map request pids)
        (if ltb 0 gathered.errs then fails Problem.participants_failed else returns gathered.status)

  -- `commit` of the read-only processor.
  unfoldable pub commit_reads : ℕ → Transaction → Run (Map ℕ TxnStatus)
  commit_reads timestamp t =
      let request = commit_request true t.id timestamp in
      let pids = order (keys t.participant_actions) in
      let gathered = gather handle_committed (λ pid. respond (request pid)) pids nothing_gathered in
      calling (map request pids)
        (if ltb 0 gathered.errs then fails Problem.participants_failed else returns gathered.status)

  unfoldable pub process_read_only : Transaction → Run TxnResult
  process_read_only t = prepare_reads t >>= λ status.
      let decision = decide t.id status in
      if not decision.commit
      then returns (aggregate_results decision status)
      else (commit_reads decision.commit_timestamp t >>= λ fetched.
          returns (aggregate_results decision fetched))

  unfoldable pub process_read_snapshot : Transaction → Run TxnResult
  process_read_snapshot t =
      let request = autocommit_request t in
      let pids = order (keys t.participant_actions) in
      let gathered = gather handle_prepared (λ pid. respond (request pid)) pids nothing_gathered in
      calling (map request pids) (
        if ltb 0 gathered.errs
        then fails Problem.participants_failed
        else returns (record {
          id = t.id;
          timestamp = t.read_timestamp;
          success = true;
          action_status = all_actions [] gathered.status;
        }))

  unfoldable pub autocommit : Transaction → Run TxnResult
  autocommit t =
      let request = Call.autocommit (record {
        partition_id = t.id.principal_pid;
        read_timestamp = t.read_timestamp;
        txn = record {
          id = t.id;
          actions = single_actions t.participant_actions;
          participant_pids = [];
        };
      }) in
      calling (request ∷ []) (elim (respond request) [
        | Reply.failed _ ↦ fails Problem.autocommit_failed
        | Reply.answered s ↦ returns (record {
          id = t.id;
          timestamp = s.timestamp;
          success = is_committed s.state;
          action_status = s.action_status;
        })
      ])

  module _ (arrive : List (List Bool) → List Bool) where
    -- The `switch` on the number of participants.
    unfoldable pub by_participants : ℕ → Transaction → Run TxnResult
    by_participants zero t = fails Problem.is_empty
    by_participants (suc zero) t = autocommit t
    by_participants (suc (suc _)) t =
        if not (is_read_only t)
        then process respond order arrive t
        else if t.read_timestamp == 0
        then process_read_only t
        else process_read_snapshot t

    unfoldable pub dispatch : Transaction → Run TxnResult
    dispatch t =
        if not (is_read_only t) && not (t.read_timestamp == 0)
        then fails Problem.snapshot_invalid
        else by_participants (participant_count t) t
