-- ===== src/Manager/Order.antt =====
-- The order of effects inside one batch. Commits release their locks, and all writes reach the
-- store, only after every command of the batch was checked.
use scout.Base.{ℕ, ◌≡◌, refl, inl, inr, false, none, some, List, [], ◌∷◌}
use scout.Base.{arith, Option-cases, ◌==◌, nat_eq, ◌∙◌}
use scout.Base.Maps.{lookup, lookup-insert}
use scout.Txn.{TxnId, TxnId_eq, TxnStatus, State, ok, Write, Payload}
use mathlib.Core.List.{head?}
use scout.Txn.Locks.{build_locks}
use scout.Manager.{Env, Manager, TxnBatch, Commit, Prepare, Autocommit, StoreDecision, new_status}
use scout.Manager.Apply.{
  apply_commit, commit_in, commit_prepared, apply_prepare, prepare_new, apply_autocommit,
  autocommit_new,
}
use scout.Manager.Batch.{each, run_loops, apply_batch, statuses_of}
use scout.Manager.Locks.{check_locks}
use scout.Manager.Steps.{committed_status}
use scout.Manager.Validate.{validate, validate_actions, check_action}

-- The insert of one key, as an autocommit.
abbrev pub inserts : TxnId → ℕ → Write → ℕ → Autocommit
inserts id action w timestamp = record {
  txn = record {
    id = id;
    actions = record { id = action; payload = Payload.insert w } ∷ [];
    participant_pids = [];
  };
  timestamp = timestamp;
}

module _ {S : Type 0} (env : Env S) where
  -- A commit touches no prepared entry, and no status of an unknown transaction.
  commit_keeps :
      (m : Manager S) (c : Commit) (id : TxnId)
      → lookup id m.status ≡ none
      → ((apply_commit env m c).0.prepared ≡ m.prepared)
        × (lookup id (apply_commit env m c).0.status ≡ none)
  unfolding apply_commit commit_in commit_prepared
  commit_keeps m c id h = elim (Option-cases (lookup c.id m.prepared)) [
    | inl e ↦ ground arith
    | inr (p, e) ↦ ground (
      arith,
      lookup-insert c.id id (committed_status c.id c.timestamp p.txn.participant_pids) m.status,
      TxnId_eq.beq_iff c.id id,
    )
  ]

  commits_keep :
      (m : Manager S) (cs : List Commit) (id : TxnId)
      → lookup id m.status ≡ none
      → ((each (apply_commit env) m cs).0.prepared ≡ m.prepared)
        × (lookup id (each (apply_commit env) m cs).0.status ≡ none)
  unfolding each
  commits_keep m [] id h = (refl, h)
  commits_keep m (c ∷ cs) id h =
      let (p, e) = commit_keeps m c id h in
      let (q, f) = commits_keep (apply_commit env m c).0 cs id e in (q ∙ p, f)

  prepare_refused :
      (m : Manager S) (q : Prepare) (locked : TxnStatus)
      → lookup q.txn.id m.status ≡ none
      → check_locks m.prepared q.txn.id q.timestamp (build_locks q.txn) ≡ some locked
      → apply_prepare env m q ≡ (m, ok locked)
  unfolding apply_prepare prepare_new
  prepare_refused m q locked unknown blocked = ground (arith, unknown, blocked)

  -- If no transaction is aborted, timed out or autocommitted by a batch, then a prepare that comes
  -- first in it, of an unknown transaction, is refused with the failed status of its lock check
  -- whenever its locks conflict with locks held before the batch, whatever transactions the
  -- batch commits, also the holder of those locks.
  pub prepare_beside_commits :
      (now index : ℕ) (m : Manager S) (commits : List Commit) (q : Prepare) (rest : List Prepare)
      (decisions : List StoreDecision) (max_timestamp : ℕ) (locked : TxnStatus)
      → lookup q.txn.id m.status ≡ none
      → check_locks m.prepared q.txn.id q.timestamp (build_locks q.txn) ≡ some locked
      → let b : TxnBatch = record {
        autocommit = [];
        prepare = q ∷ rest;
        commit = commits;
        abort = [];
        store_decision = decisions;
        mark_timedout = [];
        max_timestamp = max_timestamp;
      } in
        head? (apply_batch env now index m b).1.prepare ≡ some (ok locked)
  unfolding apply_batch run_loops each
  prepare_beside_commits now index m commits q rest decisions ts locked absent held =
      let (same, unknown) = commits_keep m commits q.txn.id absent in
      let blocked : check_locks (each (apply_commit env) m commits).0.prepared q.txn.id q.timestamp
            (build_locks q.txn)
          ≡ some locked =
        rw same held in
      rw (prepare_refused (each (apply_commit env) m commits).0 q locked unknown blocked)

  -- A manager Accepted an autocommit of its own.
  pub record Accepts (m : Manager S) (c : Autocommit) : Type 0 where
    pub unknown : lookup c.txn.id m.status ≡ none
    pub free : check_locks m.prepared c.txn.id c.timestamp (build_locks c.txn) ≡ none
    pub valid : validate env m c.txn.id c.timestamp c.txn ≡ none

  -- Two inserts, also of the same key, that a manager Accepted one by one and that have different
  -- identifiers are both committed when they come in one batch: the second is validated against a
  -- store without the write of the first, and an autocommit holds no lock.
  pub inserts_both_commit :
      (now index : ℕ) (m : Manager S) (i j : TxnId) (k l : ℕ) (w x : Write) (s t : ℕ)
      (max_timestamp : ℕ)
      → (i == j) ≡ false
      → Accepts m (inserts i k w s)
      → Accepts m (inserts j l x t)
      → let b : TxnBatch = record {
        autocommit = inserts i k w s ∷ inserts j l x t ∷ [];
        prepare = [];
        commit = [];
        abort = [];
        store_decision = [];
        mark_timedout = [];
        max_timestamp = max_timestamp;
      } in
        (apply_batch env now index m b).1.autocommit
        ≡ ok (new_status i s State.committed) ∷ ok (new_status j t State.committed) ∷ []
  unfolding apply_batch run_loops each apply_autocommit autocommit_new statuses_of validate
      validate_actions check_action
  inserts_both_commit now index m i j k l w x s t ts ne p q =
      ground
        (arith, p.unknown, q.unknown, lookup-insert i j (new_status i s State.committed) m.status)
