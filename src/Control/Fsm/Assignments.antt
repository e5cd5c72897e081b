-- ===== src/Control/Fsm/Assignments.antt =====
-- The assignment of replicas: internal/control/server/storage/fsm_init_assignments.go and
-- fsm_update_assignments.go, with the helpers of fsm_helpers.go.
use scout.Base.{
  ℕ, ◌+◌, Bool, true, false, not, ◌&&◌, ◌||◌, none, some, List, [], ◌∷◌, if◌then◌else◌, ◌==◌,
  nat_eq,
}
use scout.Base.Lists.{any, length}
use scout.Base.Maps.{lookup, insert, delete}
use scout.Base.Bytes.{Bytes, bytes_eq}
use scout.Control.{
  ReplicaState, Partition, Partitions, Servers, is_serving, is_leaving, has_assignments,
  replica_for_server, serving_replica_count,
}
use scout.Control.Names.{replica_name}
use scout.Control.Results.{
  Result, ok, ◌>>=◌, ◌>>◌, refuse_if, invalid_request, failed_precondition, is_empty,
  has_invalid_fields, has_duplicate_entries, has_missing_partitions,
  has_replicas_on_the_same_server, has_invalid_state_transition, cannot_remove_last_serving_replica,
  cannot_remove_non_leaving_replica,
}
use scout.Control.Fsm.{
  Cluster, InitAdd, InitAssignments, Add, Update, Remove, UpdateAssignments, is_valid_data_server,
  is_valid_partition_id, get_partition, get_replica,
}

abbrev pub set_partition : Partitions → ℕ → Partition → Partitions
set_partition p pid part = record p { items = insert pid part p.items }

-- A replica that is new, with `nextReplicaName`.
abbrev pub with_replica : ReplicaState → ℕ → ℕ → Partition → Partition
with_replica state now server_id part =
    let n = part.last_replica_id + 1 in
    let name = replica_name part.id n in
    record part {
      last_replica_id = n;
      replicas =
          insert name
            (record {
              name = name;
              server_id = server_id;
              state = state;
              created_time = now;
              state_transition_time = now;
              last_update = 0;
              applied_index = 0;
              ready = false;
            })
            part.replicas;
    }

-- `validateInitAssignments`: the loop, with the pairs and the partitions that were seen.
unfoldable pub check_init_adds :
    ℕ → Servers → List (ℕ × ℕ) → List ℕ → List InitAdd → Result (List ℕ)
check_init_adds count s pairs seen [] = ok seen
check_init_adds count s pairs seen (x ∷ rest) = do
  refuse_if
      (not (is_valid_partition_id count x.partition_id) || not (is_valid_data_server s x.server_id))
      has_invalid_fields
  refuse_if (any (λ (q : ℕ × ℕ). q.0 == x.partition_id && q.1 == x.server_id) pairs)
      has_duplicate_entries
  check_init_adds count s ((x.partition_id, x.server_id) ∷ pairs)
      (if any (λ pid. pid == x.partition_id) seen then seen else x.partition_id ∷ seen) rest

unfoldable pub validate_init_assignments : ℕ → Servers → InitAssignments → Result (Unit {0})
validate_init_assignments count s cmd = do
  seen ← check_init_adds count s [] [] cmd.add
  refuse_if (not (length seen == count)) has_missing_partitions

-- The loop of `applyInitAssignments`.
unfoldable pub init_adds : ℕ → Partitions → List InitAdd → Result Partitions
init_adds now p [] = ok p
init_adds now p (x ∷ rest) = do
  part ← get_partition p x.partition_id
  let state : ReplicaState = if x.voter then ReplicaState.voter else ReplicaState.non_voter
  let next = record (with_replica state now x.server_id part) { assignments_version = 1 }
  init_adds now (set_partition p x.partition_id next) rest

abbrev pub stamp_init : Cluster → InitAssignments → Partitions → Cluster × ℕ
stamp_init c cmd p = (
  record c {
    partitions = record p {
      max_imbalance = cmd.max_imbalance;
      assignments_version = 1;
      version = 1;
    };
  },
  1,
)

unfoldable pub apply_init_assignments : ℕ → ℕ → Cluster → InitAssignments → Result (Cluster × ℕ)
apply_init_assignments count now c cmd = do
  refuse_if (has_assignments c.partitions) invalid_request
  validate_init_assignments count c.servers cmd
  p ← init_adds now c.partitions cmd.add
  ok (stamp_init c cmd p)

-- `isValidReplicaTransition` for a replica that is there.
unfoldable pub is_valid_transition : ReplicaState → ReplicaState → Bool
is_valid_transition ReplicaState.joining ReplicaState.voter = true
is_valid_transition ReplicaState.non_voter ReplicaState.voter = true
is_valid_transition ReplicaState.joining ReplicaState.non_voter = true
is_valid_transition ReplicaState.voter ReplicaState.non_voter = true
is_valid_transition _ ReplicaState.leaving = true
is_valid_transition _ _ = false

-- The three loops of `validateUpdateAssignments`.
unfoldable pub check_adds : ℕ → Cluster → List Add → Result (Unit {0})
check_adds count c [] = ok tt
check_adds count c (x ∷ rest) = do
  refuse_if
      (not (is_valid_partition_id count x.partition_id)
        || not (is_valid_data_server c.servers x.server_id))
      has_invalid_fields
  part ← get_partition c.partitions x.partition_id
  refuse_if (elim (replica_for_server part x.server_id) [ none ↦ false | some _ ↦ true ])
      has_replicas_on_the_same_server
  check_adds count c rest

abbrev pub has_replica : Partition → Bytes → Bool
has_replica part name = elim (lookup name part.replicas) [ none ↦ false | some _ ↦ true ]

unfoldable pub check_updates : ℕ → Cluster → List Update → Result (Unit {0})
check_updates count c [] = ok tt
check_updates count c (x ∷ rest) = do
  refuse_if (not (is_valid_partition_id count x.partition_id)) has_invalid_fields
  part ← get_partition c.partitions x.partition_id
  refuse_if (not (has_replica part x.replica)) has_invalid_fields
  r ← get_replica part x.replica
  refuse_if (not (is_valid_transition r.state x.state)) has_invalid_state_transition
  refuse_if (not (is_serving x.state) && (serving_replica_count part == 1 && is_serving r.state))
      cannot_remove_last_serving_replica
  check_updates count c rest

unfoldable pub check_removes : ℕ → Cluster → List Remove → Result (Unit {0})
check_removes count c [] = ok tt
check_removes count c (x ∷ rest) = do
  refuse_if (not (is_valid_partition_id count x.partition_id)) has_invalid_fields
  part ← get_partition c.partitions x.partition_id
  refuse_if (not (has_replica part x.replica)) has_invalid_fields
  r ← get_replica part x.replica
  refuse_if (not (is_leaving r.state)) cannot_remove_non_leaving_replica
  check_removes count c rest

abbrev pub is_empty_list {ℓ} : {A : Type ℓ} → List A → Bool
is_empty_list [] = true
is_empty_list (_ ∷ _) = false

unfoldable pub validate_update_assignments : ℕ → Cluster → UpdateAssignments → Result (Unit {0})
validate_update_assignments count c cmd = do
  refuse_if (is_empty_list cmd.add && (is_empty_list cmd.update && is_empty_list cmd.remove))
      is_empty
  check_adds count c cmd.add
  check_updates count c cmd.update
  check_removes count c cmd.remove

-- The loops of `applyUpdateAssignments`, one turn and the whole of each.
unfoldable pub add_one : ℕ → Partitions → Add → Result Partitions
add_one now p x = do
  part ← get_partition p x.partition_id
  ok (set_partition p x.partition_id (with_replica ReplicaState.joining now x.server_id part))

unfoldable pub update_one : ℕ → Partitions → Update → Result Partitions
update_one now p x = do
  part ← get_partition p x.partition_id
  r ← get_replica part x.replica
  let next = record r { state = x.state; state_transition_time = now }
  ok (
      set_partition p x.partition_id
        (record part { replicas = insert x.replica next part.replicas }))

unfoldable pub remove_one : Partitions → Remove → Result Partitions
remove_one p x = do
  part ← get_partition p x.partition_id
  ok (set_partition p x.partition_id (record part { replicas = delete x.replica part.replicas }))

unfoldable pub bump_one : Partitions → ℕ → Result Partitions
bump_one p pid = do
  part ← get_partition p pid
  ok (set_partition p pid (record part { assignments_version = part.assignments_version + 1 }))

unfoldable pub each_of {ℓ} :
    {X : Type ℓ} → (Partitions → X → Result Partitions) → Partitions → List X → Result Partitions
each_of turn p [] = ok p
each_of turn p (x ∷ rest) = turn p x >>= λ next. each_of turn next rest

-- `changed`: the partitions of the three lists, each once.
abbrev pub changed_by {ℓ} : {X : Type ℓ} → (X → ℕ) → List X → List ℕ → List ℕ
changed_by pid [] seen = seen
changed_by pid (x ∷ rest) seen =
    changed_by pid rest (if any (λ q. q == pid x) seen then seen else pid x ∷ seen)

abbrev pub changed : UpdateAssignments → List ℕ
changed cmd =
    changed_by (λ (x : Remove). x.partition_id) cmd.remove
      (changed_by (λ (x : Update). x.partition_id) cmd.update
        (changed_by (λ (x : Add). x.partition_id) cmd.add []))

-- The loops of `applyUpdateAssignments`, one after the other.
unfoldable pub assign_all : ℕ → Partitions → UpdateAssignments → Result Partitions
assign_all now p cmd = do
  added ← each_of (add_one now) p cmd.add
  updated ← each_of (update_one now) added cmd.update
  removed ← each_of remove_one updated cmd.remove
  each_of bump_one removed (changed cmd)

-- The new versions, and the response.
abbrev pub stamp_assignments : Cluster → UpdateAssignments → Partitions → Cluster × ℕ
stamp_assignments c cmd p =
    let next = p.assignments_version + 1 in
    (
      record c {
        partitions = record p {
          max_imbalance = cmd.max_imbalance;
          assignments_version = next;
          version = p.version + 1;
        };
      },
      next,
    )

abbrev pub is_outdated : Cluster → UpdateAssignments → Bool
is_outdated c cmd =
    not (cmd.if_match == 0) && not (cmd.if_match == c.partitions.assignments_version)

unfoldable pub apply_update_assignments : ℕ → ℕ → Cluster → UpdateAssignments → Result (Cluster × ℕ)
apply_update_assignments count now c cmd = do
  refuse_if (is_outdated c cmd) failed_precondition
  refuse_if (not (has_assignments c.partitions)) invalid_request
  validate_update_assignments count c cmd
  p ← assign_all now c.partitions cmd
  ok (stamp_assignments c cmd p)
