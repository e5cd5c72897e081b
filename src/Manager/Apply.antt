-- ===== src/Manager/Apply.antt =====
-- The six transaction commands: internal/data/server/txn/manager_apply.go. Each returns the new
-- state beside its result. `Applied` holds what `applyCommit` and `applyAutocommit` return on
-- success: the records to write, and the transaction whose locks the completion releases. The
-- completion of an autocommit only logs.
use scout.Base.{false, not, Option, none, some, List, [], if◌then◌else◌, ◌==◌}
use scout.Base.{nat_eq, ltb, xor}
use scout.Base.Maps.{lookup, insert}
use scout.Mvcc.{Record}
use scout.Txn.{
  TxnId, TxnId_eq, TxnStatus, State, Prepared, Result, ok, err, invalid_request, permission_denied,
  not_found, failed_precondition, nil_dereference,
}
use scout.Txn.Locks.{build_locks}
use scout.Manager.{
  Env, Manager, Autocommit, Prepare, Commit, Abort, StoreDecision, MarkTimedout, new_status,
}
use scout.Manager.Locks.{check_locks, release_locks}
use scout.Manager.Validate.{validate, build_write_records}

pub record Applied : Type 0 where
  pub status : TxnStatus
  pub writes : List Record
  pub completion : Option TxnId

abbrev pub settled : TxnStatus → Result Applied
settled status = ok (record { status = status; writes = []; completion = none })

abbrev pub set_status : {S : Type 0} → Manager S → TxnStatus → Manager S
set_status m s = record m { status = insert s.id s m.status }

abbrev pub set_prepared : {S : Type 0} → Manager S → TxnId → Prepared → Manager S
set_prepared m id p = record m { prepared = insert id p m.prepared }

module _ {S : Type 0} where
  -- The `switch` of `applyAbort`.
  unfoldable pub abort_in :
      State → Manager S → Abort → TxnStatus → Prepared → Manager S × Result TxnStatus
  abort_in State.aborted m cmd status p = (m, ok status)
  abort_in State.timedout m cmd status p = (m, ok status)
  abort_in State.prepared m cmd status p =
      let next = new_status cmd.id cmd.timestamp State.aborted in
      (set_status (set_prepared m cmd.id (release_locks p)) next, ok next)
  abort_in _ m cmd status p = (m, err failed_precondition)

  unfoldable pub apply_abort : Manager S → Abort → Manager S × Result TxnStatus
  apply_abort m cmd = elim (lookup cmd.id m.status) [
    | none ↦ (m, err not_found)
    | some status ↦ elim (lookup cmd.id m.prepared) [
      | none ↦ (m, err not_found)
      | some p ↦ abort_in status.state m cmd status p
    ]
  ]

  -- The `switch` of `applyMarkTimedout`.
  unfoldable pub mark_in :
      State → Manager S → MarkTimedout → TxnStatus → Prepared → Manager S × Result TxnStatus
  mark_in State.timedout m cmd status p =
      (if cmd.release_locks then set_prepared m cmd.id (release_locks p) else m, ok status)
  mark_in State.prepared m cmd status p =
      let next = new_status cmd.id cmd.timestamp State.timedout in (set_status m next, ok next)
  mark_in _ m cmd status p = (m, err failed_precondition)

  unfoldable pub apply_mark_timedout : Manager S → MarkTimedout → Manager S × Result TxnStatus
  apply_mark_timedout m cmd = elim (lookup cmd.id m.status) [
    | none ↦ (m, err not_found)
    | some status ↦
        if not (cmd.id.principal_pid == m.pid)
        then (m, err permission_denied)
        else elim (lookup cmd.id m.prepared) [
          | none ↦ (m, err not_found)
          | some p ↦ mark_in status.state m cmd status p
        ]
  ]

  -- The `switch` of `applyStoreDecision`.
  unfoldable pub decide_in :
      State → Manager S → StoreDecision → TxnStatus → Prepared → Manager S × Result TxnStatus
  decide_in State.decided m cmd status p = elim p.decision [
    | none ↦ (m, err nil_dereference)
    | some d ↦
        if xor d.commit cmd.decision.commit then (m, err failed_precondition) else (m, ok status)
  ]
  decide_in State.timedout m cmd status p = (m, ok status)
  decide_in State.prepared m cmd status p =
      if ltb cmd.decision.commit_timestamp status.timestamp
      then (m, err invalid_request)
      else let next = new_status cmd.decision.id cmd.timestamp State.decided in
        (
          set_status (set_prepared m cmd.decision.id (record p { decision = some cmd.decision }))
              next,
          ok next,
        )
  decide_in _ m cmd status p = (m, err failed_precondition)

  unfoldable pub apply_store_decision : Manager S → StoreDecision → Manager S × Result TxnStatus
  apply_store_decision m cmd = elim (lookup cmd.decision.id m.status) [
    | none ↦ (m, err not_found)
    | some status ↦
        if not (cmd.decision.id.principal_pid == m.pid)
        then (m, err permission_denied)
        else elim (lookup cmd.decision.id m.prepared) [
          | none ↦ (m, err not_found)
          | some p ↦ decide_in status.state m cmd status p
        ]
  ]

module _ {S : Type 0} (env : Env S) where
  -- What follows the `switch` of `applyCommit`.
  unfoldable pub commit_prepared : Manager S → Commit → Prepared → Manager S × Result Applied
  commit_prepared m cmd p =
      let next = record (new_status cmd.id cmd.timestamp State.committed) {
        participant_pids = p.txn.participant_pids;
      } in
      (
        set_status m next,
        ok (record {
          status = next;
          writes = build_write_records env cmd.timestamp p.txn;
          completion = some cmd.id;
        }),
      )

  -- The `switch` of `applyCommit`.
  unfoldable pub commit_in :
      State → Manager S → Commit → TxnStatus → Prepared → Manager S × Result Applied
  commit_in State.committed m cmd status p = (m, settled status)
  commit_in State.decided m cmd status p = elim p.decision [
    | none ↦ (m, err nil_dereference)
    | some d ↦
        if not (cmd.timestamp == d.commit_timestamp)
        then (m, err invalid_request)
        else commit_prepared m cmd p
  ]
  commit_in State.prepared m cmd status p =
      if ltb cmd.timestamp status.timestamp
      then (m, err invalid_request)
      else commit_prepared m cmd p
  commit_in _ m cmd status p = (m, err failed_precondition)

  unfoldable pub apply_commit : Manager S → Commit → Manager S × Result Applied
  apply_commit m cmd = elim (lookup cmd.id m.status) [
    | none ↦ (m, err not_found)
    | some status ↦ elim (lookup cmd.id m.prepared) [
      | none ↦ (m, err not_found)
      | some p ↦ commit_in status.state m cmd status p
    ]
  ]

  -- `applyAutocommit` for an identifier that has no status.
  unfoldable pub autocommit_new : Manager S → Autocommit → Manager S × Result Applied
  autocommit_new m cmd =
      elim (check_locks m.prepared cmd.txn.id cmd.timestamp (build_locks cmd.txn)) [
        | some locked ↦ (m, settled locked)
        | none ↦ elim (validate env m cmd.txn.id cmd.timestamp cmd.txn) [
          | some invalid ↦ (m, settled invalid)
          | none ↦
              let next = new_status cmd.txn.id cmd.timestamp State.committed in
              (
                set_status m next,
                ok (record {
                  status = next;
                  writes = build_write_records env cmd.timestamp cmd.txn;
                  completion = none;
                }),
              )
        ]
      ]

  unfoldable pub apply_autocommit : Manager S → Autocommit → Manager S × Result Applied
  apply_autocommit m cmd = elim (lookup cmd.txn.id m.status) [
    | none ↦ autocommit_new m cmd
    | some status ↦ elim status.state [
      | State.committed ↦ (m, settled status)
      | State.failed ↦ (m, settled status)
      | _ ↦ (m, err failed_precondition)
    ]
  ]

  -- `applyPrepare` for an identifier that has no status.
  unfoldable pub prepare_new : Manager S → Prepare → Manager S × Result TxnStatus
  prepare_new m cmd = elim (check_locks m.prepared cmd.txn.id cmd.timestamp (build_locks cmd.txn)) [
    | some locked ↦ (m, ok locked)
    | none ↦ elim (validate env m cmd.txn.id cmd.timestamp cmd.txn) [
      | some invalid ↦ (m, ok invalid)
      | none ↦
          let next = new_status cmd.txn.id cmd.timestamp State.prepared in
          let p : Prepared = record {
            txn = cmd.txn;
            timestamp = cmd.timestamp;
            locks = build_locks cmd.txn;
            locks_released = false;
            decision = none;
          } in
          (set_status (set_prepared m cmd.txn.id p) next, ok next)
    ]
  ]

  unfoldable pub apply_prepare : Manager S → Prepare → Manager S × Result TxnStatus
  apply_prepare m cmd = elim (lookup cmd.txn.id m.status) [
    | none ↦ prepare_new m cmd
    | some status ↦ elim status.state [
      | State.prepared ↦ (m, ok status)
      | State.failed ↦ (m, ok status)
      | _ ↦ (m, err failed_precondition)
    ]
  ]
