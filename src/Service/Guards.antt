-- ===== src/Service/Guards.antt =====
-- Which commands the service of internal/data/server/txn/service.go gives to the writer.
use scout.Base.{ℕ, ◌≡◌, Bool, true, false, some, ◌==◌, nat_eq}
use scout.Txn.{is_read_only}
use scout.Api.{Call}
use scout.Writer.{Command}
use scout.Service.{Parts}

-- The partition that a call names.
abbrev pub partition_of : Call → ℕ
partition_of (Call.autocommit r) = r.partition_id
partition_of (Call.prepare r) = r.participant_pid
partition_of (Call.commit r) = r.participant_pid
partition_of (Call.abort r) = r.participant_pid
partition_of (Call.store_decision d) = d.id.principal_pid

module _ (parts : Parts) (pid : ℕ) where
  -- The command carries out the call: it is of the same kind, for a write, with the arguments of the
  -- call, and the clock has accepted the timestamp of the call.
  abbrev pub CarriesOut : Call → Command → Type 0
  CarriesOut (Call.autocommit r) (Command.autocommit x) =
      (is_read_only r.txn ≡ false) × (x.txn ≡ r.txn)
  CarriesOut (Call.prepare r) (Command.prepare x) = (r.read_only ≡ false) × (x.txn ≡ r.txn)
  CarriesOut (Call.commit r) (Command.commit x) =
      (r.read_only ≡ false)
      × ((x.id ≡ r.id)
          × ((x.timestamp ≡ r.commit_timestamp) × (parts.update r.commit_timestamp ≡ some tt)))
  CarriesOut (Call.abort r) (Command.abort x) = x.id ≡ r.id
  CarriesOut (Call.store_decision d) (Command.store_decision x) =
      (d.commit ≡ true) × ((x.decision ≡ d) × (parts.update d.commit_timestamp ≡ some tt))
  CarriesOut _ _ = ⊥

  abbrev pub IsGuarded : Bool → Call → Command → Type 0
  IsGuarded is_leader call cmd =
      (is_leader ≡ true) × (((partition_of call == pid) ≡ true) × CarriesOut call cmd)
