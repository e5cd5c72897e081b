-- ===== src/Control/Fsm/Tests.antt =====
-- Runs of the state machine of the control plane on small clusters.
use scout.Base.{ℕ, ◌≡◌, refl, Bool, true, false, some, List, [], ◌∷◌, arith, nat_eq}
use scout.Base.Lists.{All}
use scout.Base.Maps.{Map, lookup, insert, delete}
use scout.Base.Bytes.{Bytes, bytes_eq, compare_bytes}
use scout.Control.{
  ServerType, ReplicaState, Server, Servers, Replica, Partition, count_if, is_serving, replica_on,
}
use scout.Control.Names.{replica_name, digits, server_name}
use scout.Control.Results.{Result, ok, err, Whenever}
use scout.Control.Fsm.{
  Cluster, Fsm, new_fsm, Bootstrap, Register, Update, UpdateAssignments, bootstrap, register,
  update_status, init_assignments, update_assignments, get_partition, get_replica,
}
use scout.Control.Fsm.Assignments.{
  check_adds, check_updates, check_removes, is_valid_transition, validate_update_assignments,
  add_one, update_one, remove_one, bump_one, each_of, assign_all, apply_update_assignments,
  is_outdated,
}
use scout.Control.Fsm.Invariant.{IsPartition, IsCluster}
use scout.Control.Fsm.Invariant.Run.{Entry, run_log, Ready, run_log-bootstrap}
use scout.Base.{◌<◌}
use scout.Control.Fsm.{InitAssignments}
use scout.Control.Fsm.Members.{bootstrap_partitions}
use scout.Control.Fsm.Assignments.{
  apply_init_assignments, validate_init_assignments, check_init_adds, init_adds,
}
use scout.Control.Fsm.Covered.{Populated, apply_init_assignments-Populated}
use scout.Control.Fsm.Edges.{LegalAdd}
use scout.Control.Fsm.Edges.Turns.{replica_at}
use scout.Control.Fsm.Edges.Fates.{Fate, Joined, Updated, Gone}
use scout.Control.Fsm.Edges.Changes.{apply_update_assignments-Fate}
use scout.Control.Fsm.Edges.Serving.{Served, one_update, update-Served}

abbrev data_server : ℕ → Server
data_server id = record {
  id = id;
  name = server_name ServerType.data_server id;
  type = ServerType.data_server;
  tags = [];
  registered_at = 10;
  last_seen = 10;
  last_address = [];
}

abbrev replica : ℕ → ℕ → ReplicaState → Replica
replica n server_id state = record {
  name = replica_name 0 n;
  server_id = server_id;
  state = state;
  created_time = 20;
  state_transition_time = 20;
  last_update = 0;
  applied_index = 0;
  ready = true;
}

abbrev servers : Servers
servers = record {
  version = 3;
  register_version = 3;
  items = (1, data_server 1) ∷ (2, data_server 2) ∷ (3, data_server 3) ∷ [];
  last_id = 3;
  tokens = (1 ∷ [], 1) ∷ (2 ∷ [], 2) ∷ (3 ∷ [], 3) ∷ [];
}

abbrev part : Partition
part = record {
  id = 0;
  replicas =
      (replica_name 0 1, replica 1 1 ReplicaState.voter)
      ∷ (replica_name 0 2, replica 2 2 ReplicaState.voter)
      ∷ [];
  last_replica_id = 2;
  assignments_version = 1;
  leader = [];
  leader_term = 0;
  leader_applied_index = 0;
  commited_index = 0;
}

abbrev two_replicas : Cluster
two_replicas = record {
  servers = servers;
  partitions = record {
    version = 5;
    assignments_version = 4;
    items = (0, part) ∷ [];
    max_imbalance = 2;
  };
}

part-IsPartition : IsPartition servers 1 (0, part)
unfolding lookup compare_bytes replica_name digits
part-IsPartition = record {
  own = refl;
  below = omega arith;
  keys = ((refl, tt), (tt, tt));
  replicas = (
    record { named = refl; numbered = (1, omega arith, refl); placed = refl },
    (record { named = refl; numbered = (2, omega arith, refl); placed = refl }, tt),
  );
}

two_replicas-IsCluster : IsCluster 1 two_replicas
unfolding lookup
two_replicas-IsCluster = record {
  servers = record {
    ids = ((refl, omega arith), ((refl, omega arith), ((refl, omega arith), tt)));
    tokens = ((λ h. ground (arith, h)), ((λ h. ground (arith, h)), ((λ h. ground (arith, h)), tt)));
  };
  partitions = record { items = (part-IsPartition, tt); dense = λ pid low absent. ground arith };
}

abbrev leave_first : Update
leave_first = record { partition_id = 0; replica = replica_name 0 1; state = ReplicaState.leaving }

update-Served_example :
    Whenever
      (apply_update_assignments 1 30 two_replicas (one_update 4 2 leave_first))
      (λ r. (pid : ℕ) → Served two_replicas.partitions pid → Served r.0.partitions pid)
update-Served_example = update-Served 1 30 4 2 two_replicas leave_first two_replicas-IsCluster

is_ok : {A : Type 0} → Result A → Bool
is_ok (ok _) = true
is_ok (err _) = false

update-Served_test :
    is_ok (apply_update_assignments 1 30 two_replicas (one_update 4 2 leave_first)) ≡ true
unfolding is_ok apply_update_assignments validate_update_assignments check_adds check_updates
    check_removes assign_all each_of add_one update_one remove_one bump_one get_partition
    get_replica lookup insert delete is_valid_transition count_if compare_bytes replica_name digits
update-Served_test = refl

abbrev leave_second : Update
leave_second = record { partition_id = 0; replica = replica_name 0 2; state = ReplicaState.leaving }

-- Every check reads the state before the command, so two updates take both replicas away.
abbrev leave_both : UpdateAssignments
leave_both = record {
  if_match = 0;
  add = [];
  update = leave_first ∷ leave_second ∷ [];
  remove = [];
  max_imbalance = 2;
}

counts : Map ℕ Partition → List ℕ
counts [] = []
counts ((_, p) ∷ rest) = count_if (λ (r : Replica). is_serving r.state) p.replicas ∷ counts rest

serving_counts : Result (Cluster × ℕ) → List ℕ
serving_counts (ok r) = counts r.0.partitions.items
serving_counts (err _) = []

leave_both_test : serving_counts (apply_update_assignments 1 30 two_replicas leave_both) ≡ 0 ∷ []
unfolding serving_counts counts apply_update_assignments validate_update_assignments check_adds
    check_updates check_removes assign_all each_of add_one update_one remove_one bump_one
    get_partition get_replica lookup insert delete is_valid_transition count_if compare_bytes
    replica_name digits
leave_both_test = refl

abbrev add_third : UpdateAssignments
add_third = record {
  if_match = 4;
  add = record { partition_id = 0; server_id = 3 } ∷ [];
  update = [];
  remove = [];
  max_imbalance = 2;
}

-- A replica joins on the third server as the second one leaves.
abbrev replace_second : UpdateAssignments
replace_second = record add_third { update = leave_second ∷ [] }

replace_second_test : is_ok (apply_update_assignments 1 30 two_replicas replace_second) ≡ true
unfolding is_ok apply_update_assignments validate_update_assignments check_adds check_updates
    check_removes assign_all each_of add_one update_one remove_one bump_one get_partition
    get_replica lookup insert delete is_valid_transition count_if compare_bytes replica_name digits
    replica_on
replace_second_test = refl

apply_update_assignments-Fate_example :
    Whenever (apply_update_assignments 1 30 two_replicas replace_second) (λ r.
      ((pid : ℕ) (name : Bytes)
        → Fate replace_second pid name
            (replica_at two_replicas.partitions pid name)
            (replica_at r.0.partitions pid name))
      × All (LegalAdd two_replicas) replace_second.add
      × All (λ x. Joined two_replicas replace_second x r.0.partitions) replace_second.add
      × All (λ x. Updated two_replicas replace_second x r.0.partitions) replace_second.update
      × All (λ x. Gone two_replicas replace_second x r.0.partitions) replace_second.remove
      × (is_outdated two_replicas replace_second ≡ false)
      × (r.1 ≡ 5)
      × (r.0.partitions.assignments_version ≡ r.1))
apply_update_assignments-Fate_example =
    apply_update_assignments-Fate 1 30 two_replicas replace_second two_replicas-IsCluster

abbrev running : Fsm
running = record {
  index = 8;
  version = 7;
  cluster_name = 99 ∷ [];
  created_time = 5;
  partition_count = 1;
  cluster = some two_replicas;
}

abbrev first_bootstrap : Bootstrap
first_bootstrap = record {
  cluster_name = 99 ∷ [];
  servers = record { id = 1; name = 65 ∷ []; address = []; tags = [] } ∷ [];
  partition_count = 1;
}

abbrev new_server : Register
new_server = record { type = ServerType.data_server; token = 7 ∷ []; address = 1 ∷ []; tags = [] }

abbrev entries : List Entry
entries =
    record { index = 2; now = 11; command = record { if_match = 0; payload = register new_server } }
    ∷ record {
      index = 3;
      now = 12;
      command = record {
        if_match = 0;
        payload = init_assignments (record {
          add = record { partition_id = 0; server_id = 2; voter = true } ∷ [];
          max_imbalance = 2;
        });
      };
    }
    ∷ record {
      index = 4;
      now = 13;
      command = record { if_match = 1; payload = update_assignments leave_both };
    }
    ∷ record {
      index = 5;
      now = 14;
      command = record {
        if_match = 0;
        payload = update_status (record {
          servers = [];
          partitions =
              (
                0,
                record {
                  replicas = [];
                  leader = [];
                  leader_term = 1;
                  leader_applied_index = 1;
                  commited_index = 1;
                },
              )
              ∷ [];
        });
      };
    }
    ∷ []

run_log-bootstrap_example :
    (g : Fsm) × (run_log new_fsm (
        record {
          index = 1;
          now = 10;
          command = record { if_match = 0; payload = bootstrap first_bootstrap };
        }
        ∷ entries)
      ≡ some g)
    × Ready 1 g
run_log-bootstrap_example =
    run_log-bootstrap 1 10 first_bootstrap entries refl (tt, (tt, (tt, ((omega arith, tt), tt))))

abbrev empty_cluster : Cluster
empty_cluster = record {
  servers = servers;
  partitions = record {
    version = 0;
    assignments_version = 0;
    items = bootstrap_partitions 2;
    max_imbalance = 0;
  };
}

abbrev two_adds : InitAssignments
two_adds = record {
  add =
      record { partition_id = 1; server_id = 2; voter = true }
      ∷ record { partition_id = 0; server_id = 3; voter = true }
      ∷ [];
  max_imbalance = 1;
}

apply_init_assignments-Populated_example :
    Whenever (apply_init_assignments 2 30 empty_cluster two_adds) (λ r.
      ((k : ℕ) → k < 2 → Populated r.0.partitions k) × (r.0.partitions.assignments_version ≡ 1))
apply_init_assignments-Populated_example =
    apply_init_assignments-Populated 2 30 empty_cluster two_adds

two_adds_test : is_ok (apply_init_assignments 2 30 empty_cluster two_adds) ≡ true
unfolding is_ok apply_init_assignments validate_init_assignments check_init_adds init_adds
    get_partition lookup insert delete bootstrap_partitions compare_bytes replica_name digits
two_adds_test = refl
