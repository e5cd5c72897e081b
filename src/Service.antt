-- ===== src/Service.antt =====
-- The transaction service of a partition: internal/data/server/txn/service.go. A request is a call
-- of the data client; its handling gives the command for the writer, if any, what the watchdog is
-- told, and the reply. `Parts` holds what the service calls: `update` is `hlc.Update`, `apply` is
-- `writer.Apply`, and the others are methods of the reader; `none` is an error.
pub mod Guards
mod Tests
use scout.Base.{
  ℕ, ◌≡◌, refl, inl, inr, Bool, true, false, not, Option, none, some, List, [], ◌∷◌, if◌then◌else◌,
  ◌==◌, nat_eq, arith, Bool-cases, Option-cases,
}
use scout.Base.Lists.{All}
use scout.Txn.{TxnId, Txn, TxnStatus, Decision, is_read_only}
use scout.Txn.Validation.{is_snapshot_read}
use scout.Api.{Call, PrepareRequest, CommitRequest, AbortRequest, AutocommitRequest}
use scout.Writer.{Command}

pub data ServiceError : Type 0 where
  invalid_request permission_denied not_leader : ServiceError
  time_out_of_range apply_failed read_failed : ServiceError

pub record Parts : Type 0 where
  pub update : ℕ → Option (Unit {0})
  pub apply : Command → Option TxnStatus
  pub snapshot_read : Txn → ℕ → Option TxnStatus
  pub read_latest : Txn → Option TxnStatus
  pub read_results : Txn → TxnStatus → Option TxnStatus
  pub prepare_read_only : Txn → Option TxnStatus
  pub commit_read_only : TxnId → ℕ → Option TxnStatus
  pub commit_read_write : TxnStatus → Option TxnStatus

-- The arguments of `UpdateStatus`.
pub record Told : Type 0 where
  pub status : TxnStatus
  pub prepared : Option Txn
  pub decision : Option Decision

pub data Replied : Type 0 where
  ok : TxnStatus → Replied
  err : ServiceError → Replied

pub record Handled : Type 0 where
  pub commands : List Command
  pub told : List Told
  pub reply : Replied

abbrev refuses : ServiceError → Handled
refuses e = record { commands = []; told = []; reply = err e }

abbrev answers : Option TxnStatus → ServiceError → Replied
answers none e = err e
answers (some status) e = ok status

abbrev reads : Option TxnStatus → Handled
reads found = record { commands = []; told = []; reply = answers found read_failed }

module _ (parts : Parts) (pid : ℕ) (is_leader : Bool) where
  -- `Apply` with what follows on success.
  unfoldable pub apply_and :
      Command → (TxnStatus → List Told) → (TxnStatus → Option TxnStatus) → Handled
  apply_and cmd tell next = elim (parts.apply cmd) [
    | none ↦ record { commands = cmd ∷ []; told = []; reply = err apply_failed }
    | some status ↦ record {
      commands = cmd ∷ [];
      told = tell status;
      reply = answers (next status) read_failed;
    }
  ]

  -- The watchdog hears of a status.
  abbrev tell : Option Txn → Option Decision → TxnStatus → List Told
  tell prepared decision status =
      record { status = status; prepared = prepared; decision = decision } ∷ []

  unfoldable pub handle_autocommit : AutocommitRequest → Handled
  handle_autocommit r =
      if not (r.partition_id == pid)
      then refuses invalid_request
      else if is_snapshot_read r.read_timestamp r.txn
      then (elim (parts.update r.read_timestamp) [
        | none ↦ refuses time_out_of_range
        | some _ ↦ reads (parts.snapshot_read r.txn r.read_timestamp)
      ])
      else if not is_leader
      then refuses not_leader
      else if is_read_only r.txn
      then reads (parts.read_latest r.txn)
      else apply_and (Command.autocommit (record { txn = r.txn; timestamp = 0 })) (λ _. [])
          (parts.read_results r.txn)

  unfoldable pub handle_prepare : PrepareRequest → Handled
  handle_prepare r =
      if not is_leader
      then refuses not_leader
      else if not (r.participant_pid == pid)
      then refuses invalid_request
      else if r.read_only
      then reads (parts.prepare_read_only r.txn)
      else apply_and (Command.prepare (record { txn = r.txn; timestamp = 0 }))
          (tell (some r.txn) none) some

  unfoldable pub handle_commit : CommitRequest → Handled
  handle_commit r =
      if not is_leader
      then refuses not_leader
      else if not (r.participant_pid == pid)
      then refuses invalid_request
      else elim (parts.update r.commit_timestamp) [
        | none ↦ refuses time_out_of_range
        | some _ ↦
            if r.read_only
            then reads (parts.commit_read_only r.id r.commit_timestamp)
            else apply_and (Command.commit (record { id = r.id; timestamp = r.commit_timestamp }))
                (tell none none)
                (λ status. if r.fetch_results then parts.commit_read_write status else some status)
      ]

  unfoldable pub handle_abort : AbortRequest → Handled
  handle_abort r =
      if not is_leader
      then refuses not_leader
      else if not (r.participant_pid == pid)
      then refuses invalid_request
      else apply_and (Command.abort (record { id = r.id; timestamp = 0 })) (tell none none) some

  unfoldable pub handle_store_decision : Decision → Handled
  handle_store_decision d =
      if not is_leader
      then refuses not_leader
      else if not (d.id.principal_pid == pid)
      then refuses permission_denied
      else if not d.commit
      then refuses invalid_request
      else elim (parts.update d.commit_timestamp) [
        | none ↦ refuses time_out_of_range
        | some _ ↦
            apply_and (Command.store_decision (record { decision = d; timestamp = 0 }))
              (tell none (some d)) some
      ]

  unfoldable pub handle : Call → Handled
  handle (Call.autocommit r) = handle_autocommit r
  handle (Call.prepare r) = handle_prepare r
  handle (Call.commit r) = handle_commit r
  handle (Call.abort r) = handle_abort r
  handle (Call.store_decision d) = handle_store_decision d
