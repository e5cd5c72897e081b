-- ===== src/Assigner/Tests.antt =====
-- The assigner on two servers and three partitions.
use scout.Base.{ℕ, ◌≡◌, refl, Bool, true, List, [], ◌∷◌, nat_eq, min}
use scout.Base.Lists.{length}
use scout.Base.Maps.{Map, lookup, insert, delete}
use scout.Base.{Option, some, none}
use scout.Assigner.Transition.{panicked}
use scout.Control.{ServerType, ReplicaState, Server, Servers, Replica, Partitions}
use scout.Control.Counts.{with_type}
use scout.Control.Fsm.{UpdateAssignments}
use scout.Assigner.Commands.{
  make_state, place_partitions, place_replicas, place, add_servers, make_update_assignments,
  add_changes, not_in, adds_for, updates_for, removes_for,
}
use scout.Assigner.{add_server, add_partition, add_serving, add_replica}
use scout.Assigner.{
  Config, Members, ReplicaInfo, State, pair_eq, change, add_joining, has_replica, can_add_replica,
  most, least, max_imbalance, insert_by, sort_by, members_at, transition_serving_to_leaving,
}
use scout.Assigner.Transition.{
  Outcome, done, serve_ready, transition_to_serving, remove_ready, remove_all_leaving,
  candidates_for, add_some, add_missing, remove_some, remove_extra, movable, pick_dest, pick_move,
  rebalance, for_partitions, before_moves, next_state,
}
use scout.Assigner.Limits.{Finishes, next_state-Finishes}
use scout.Assigner.Serving.{Keeps, remove_extra-Keeps}

abbrev config : Config
config = record {
  replication_factor = 1;
  max_joining = 3;
  max_joining_for_server = 2;
  max_joining_for_partition = 1;
}

abbrev info : ℕ → ReplicaInfo
info pid = record { pid = pid; name = []; created_time = 7; ready = true }

abbrev set_of : List ℕ → Map ℕ Bool
set_of [] = []
set_of (k ∷ ks) = (k, true) ∷ set_of ks

abbrev members : ℕ → List ℕ → Members
members id serving = record { id = id; serving = set_of serving; joining = []; leaving = [] }

-- Server 1 serves all three partitions, server 2 none.
abbrev uneven : State
uneven = record {
  serv = (1, members 1 (0 ∷ 1 ∷ 2 ∷ [])) ∷ (2, members 2 []) ∷ [];
  part = (0, members 0 (1 ∷ [])) ∷ (1, members 1 (1 ∷ [])) ∷ (2, members 2 (1 ∷ [])) ∷ [];
  replica = ((1, 0), info 0) ∷ ((1, 1), info 1) ∷ ((1, 2), info 2) ∷ [];
  joining = 0;
}

next_state-Finishes_example : Finishes (λ _. 1) config uneven (next_state (λ _. 1) config uneven)
next_state-Finishes_example = next_state-Finishes (λ _. 1) config uneven

joining_of : Outcome → List ℕ
joining_of (done s) = s.joining ∷ length (members_at 2 s.serv).joining ∷ []
joining_of _ = []

-- Two replicas start to join on server 2, so that it has only one less than server 1.
moves_test : joining_of (next_state (λ _. 1) config uneven) ≡ 2 ∷ 2 ∷ []
unfolding joining_of next_state before_moves serve_ready transition_to_serving remove_ready
    remove_all_leaving candidates_for add_some add_missing remove_some remove_extra movable
    pick_dest pick_move rebalance for_partitions change add_joining has_replica can_add_replica most
    least max_imbalance insert_by sort_by lookup insert delete transition_serving_to_leaving
moves_test = refl

-- Partition 0 is served twice.
abbrev doubled : State
doubled = record {
  serv = (1, members 1 (0 ∷ [])) ∷ (2, members 2 (0 ∷ [])) ∷ [];
  part = (0, members 0 (1 ∷ 2 ∷ [])) ∷ [];
  replica = ((1, 0), info 0) ∷ ((2, 0), info 0) ∷ [];
  joining = 0;
}

remove_extra-Keeps_example : Keeps 0 (min 2 1) (remove_extra config doubled 0)
unfolding lookup
remove_extra-Keeps_example = remove_extra-Keeps config doubled 0 ((refl, tt), (tt, tt))

abbrev data_server : ℕ → Server
data_server id = record {
  id = id;
  name = [];
  type = ServerType.data_server;
  tags = [];
  registered_at = 1;
  last_seen = 1;
  last_address = [];
}

abbrev servers : Servers
servers = record {
  version = 1;
  register_version = 1;
  items = (1, data_server 1) ∷ (2, data_server 2) ∷ [];
  last_id = 2;
  tokens = [];
}

abbrev voter : Replica
voter = record {
  name = 97 ∷ [];
  server_id = 1;
  state = ReplicaState.voter;
  created_time = 1;
  state_transition_time = 1;
  last_update = 1;
  applied_index = 1;
  ready = true;
}

abbrev partitions : Partitions
partitions = record {
  version = 1;
  assignments_version = 4;
  items =
      (
        0,
        record {
          id = 0;
          replicas = (97 ∷ [], voter) ∷ [];
          last_replica_id = 1;
          assignments_version = 1;
          leader = [];
          leader_term = 0;
          leader_applied_index = 0;
          commited_index = 0;
        },
      )
      ∷ [];
  max_imbalance = 1;
}

command_of : Option State → Outcome → Option UpdateAssignments
command_of (some curr) (done next) = make_update_assignments 4 curr next
command_of _ _ = none

outcome_of : Option State → Outcome
outcome_of none = panicked
outcome_of (some s) = next_state (λ _. 0) (record config { replication_factor = 2 }) s

-- With a second server, the partition gets the replica that is missing.
command_test :
    command_of (make_state servers partitions) (outcome_of (make_state servers partitions))
    ≡ some (record {
      if_match = 4;
      add = record { partition_id = 0; server_id = 2 } ∷ [];
      update = [];
      remove = [];
      max_imbalance = 0;
    })
unfolding command_of outcome_of make_state place_partitions place_replicas place add_servers
    make_update_assignments add_changes not_in adds_for updates_for removes_for with_type add_server
    add_partition add_serving add_replica next_state before_moves serve_ready transition_to_serving
    remove_ready remove_all_leaving candidates_for add_some add_missing remove_some remove_extra
    movable pick_dest pick_move rebalance for_partitions change add_joining has_replica
    can_add_replica most least max_imbalance insert_by sort_by lookup insert delete
    transition_serving_to_leaving
command_test = refl
