-- ===== src/Service/Tests.antt =====
-- The service of a partition on small data.
use scout.Base.{◌≡◌, refl, true, false, none, some, [], ◌∷◌}
use scout.Txn.{TxnId, TxnStatus, State}
use scout.Api.{commit_request}
use scout.Writer.{Command}
use scout.Service.{Parts, apply_and, handle_commit, handle}

abbrev id : TxnId
id = record { principal_pid = 1; server_id = 2; timestamp = 3 }

abbrev committed : TxnStatus
committed = record {
  id = id;
  timestamp = 8;
  state = State.committed;
  action_status = [];
  participant_pids = [];
}

abbrev parts : Parts
parts = record {
  update = λ ts. some tt;
  apply = λ cmd. some committed;
  snapshot_read = λ txn ts. none;
  read_latest = λ txn. none;
  read_results = λ txn status. some status;
  prepare_read_only = λ txn. none;
  commit_read_only = λ id ts. none;
  commit_read_write = λ status. some status;
}

-- The leader of partition 4 gives the commit to the writer, a follower does not.
commits :
    (handle parts 4 true (commit_request false id 8 4)).commands
    ≡ Command.commit (record { id = id; timestamp = 8 }) ∷ []
unfolding handle handle_commit apply_and commit_request
commits = refl

follows : (handle parts 4 false (commit_request false id 8 4)).commands ≡ []
unfolding handle handle_commit apply_and commit_request
follows = refl
