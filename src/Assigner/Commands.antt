-- ===== src/Assigner/Commands.antt =====
-- The state of the assigner from the cluster, and the command that leads to the next state:
-- internal/control/server/leader/partitions/update.go. `none` is a panic.
use scout.Base.{ℕ, ◌%◌, Bool, Option, none, some, List, [], ◌∷◌, ◌++◌, if◌then◌else◌, nat_eq}
use scout.Base.Maps.{Map}
use scout.Base.Bytes.{Bytes}
use scout.Control.{ServerType, ReplicaState, Servers, Replica, Partition, Partitions}
use scout.Control.Counts.{for_type}
use scout.Control.Fsm.{Add, Update, Remove, UpdateAssignments}
use scout.Assigner.{
  Members, State, new_state, add_server, add_partition, add_serving, add_joining, add_leaving,
  add_replica, replica_at, members_at, is_in, max_imbalance,
}
use scout.Assigner.Transition.{keys_of, ◌and_then◌}

unfoldable pub add_servers : State → List ℕ → State
add_servers s [] = s
add_servers s (sid ∷ rest) = add_servers (add_server s sid) rest

-- The `switch` of `makeState`.
unfoldable pub place : ReplicaState → State → ℕ → ℕ → Option State
place ReplicaState.voter s sid pid = add_serving s sid pid
place ReplicaState.non_voter s sid pid = add_serving s sid pid
place ReplicaState.joining s sid pid = add_joining s sid pid
place ReplicaState.leaving s sid pid = add_leaving s sid pid
place ReplicaState.stopped s sid pid = none

unfoldable pub place_replicas : State → ℕ → Map Bytes Replica → Option State
place_replicas s pid [] = some s
place_replicas s pid ((name, r) ∷ rest) = place r.state s r.server_id pid and_then (λ t.
    place_replicas
      (add_replica t r.server_id pid
        (record { pid = pid; name = name; created_time = r.created_time; ready = r.ready }))
      pid rest)

unfoldable pub place_partitions : State → Map ℕ Partition → Option State
place_partitions s [] = some s
place_partitions s ((pid, part) ∷ rest) =
    place_replicas (add_partition s pid) pid part.replicas and_then (λ t. place_partitions t rest)

unfoldable pub make_state : Servers → Partitions → Option State
make_state servers p =
    place_partitions (add_servers new_state (keys_of (for_type servers ServerType.data_server)))
      p.items

-- The keys of one set that are not in another.
unfoldable pub not_in : Map ℕ Bool → List ℕ → List ℕ
not_in m [] = []
not_in m (k ∷ ks) = if is_in k m then not_in m ks else k ∷ not_in m ks

unfoldable pub adds_for : ℕ → List ℕ → List Add
adds_for pid [] = []
adds_for pid (sid ∷ rest) = record { partition_id = pid; server_id = sid } ∷ adds_for pid rest

unfoldable pub updates_for : State → ReplicaState → ℕ → List ℕ → Option (List Update)
updates_for next state pid [] = some []
updates_for next state pid (sid ∷ rest) = elim (replica_at next sid pid) [
  | none ↦ none
  | some r ↦ elim (updates_for next state pid rest) [
    | none ↦ none
    | some more ↦ some (record { partition_id = pid; replica = r.name; state = state } ∷ more)
  ]
]

unfoldable pub removes_for : State → ℕ → List ℕ → Option (List Remove)
removes_for next pid [] = some []
removes_for next pid (sid ∷ rest) = elim (replica_at next sid pid) [
  | none ↦ none
  | some r ↦ elim (removes_for next pid rest) [
    | none ↦ none
    | some more ↦ some (record { partition_id = pid; replica = r.name } ∷ more)
  ]
]

-- The loop over the partitions of the next state.
unfoldable pub add_changes :
    State → State → UpdateAssignments → Map ℕ Members → Option UpdateAssignments
add_changes curr next cmd [] = some cmd
add_changes curr next cmd ((pid, to) ∷ rest) =
    let from = members_at pid curr.part in
    elim (updates_for next ReplicaState.voter pid (not_in from.serving (keys_of to.serving))) [
      | none ↦ none
      | some served ↦
          elim (updates_for next ReplicaState.leaving pid
            (not_in from.leaving (keys_of to.leaving))) [
              | none ↦ none
              | some left ↦ elim (removes_for next pid (not_in to.leaving (keys_of from.leaving))) [
                | none ↦ none
                | some gone ↦
                    add_changes curr next
                      (record cmd {
                        add = cmd.add ++ adds_for pid (not_in from.joining (keys_of to.joining));
                        update = cmd.update ++ (served ++ left);
                        remove = cmd.remove ++ gone;
                      })
                      rest
              ]
            ]
    ]

-- `uint32(next.MaxImbalance())`: without servers, the low half of -(2^63 - 1).
abbrev pub imbalance_word : State → ℕ
imbalance_word s = elim s.serv [ [] ↦ 1 | _ ∷ _ ↦ max_imbalance s % 0x100000000 ]

unfoldable pub make_update_assignments : ℕ → State → State → Option UpdateAssignments
make_update_assignments version curr next =
    add_changes curr next
      (record {
        if_match = version;
        add = [];
        update = [];
        remove = [];
        max_imbalance = imbalance_word next;
      })
      next.part
