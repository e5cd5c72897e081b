-- ===== src/Control/Fsm/Edges.antt =====
-- What a change of the assignments satisfies, against the state before it, when it is accepted:
-- internal/control/server/storage/fsm_update_assignments.go.
pub mod Serving
pub mod Turns
pub mod Fates
pub mod Loops
pub mod Changes
use scout.Base.{
  ℕ, ◌≡◌, ◌≢◌, ◌≤◌, ◌<◌, ◌+◌, refl, Bool, true, false, not, ◌&&◌, ◌||◌, Option, none, some, List,
  [], ◌∷◌, arith, inl, inr, Bool-cases, Option-cases, ◌==◌, nat_eq, ltb, if◌then◌else◌, ap, ◌∙◌,
}
use scout.Base.Lists.{All}
use scout.Base.Maps.{lookup, insert, lookup-insert}
use scout.Base.Bytes.{Bytes, bytes_eq}
use scout.Control.{
  ReplicaState, Replica, Partition, Partitions, is_serving, is_leaving, replica_for_server,
  serving_replica_count, has_assignments,
}
use scout.Control.Results.{
  Result, ok, err, Whenever, Whenever-bind, Whenever-mono, Whenever-guard, Whenever-true, ◌>>=◌,
  ◌>>◌, refuse_if, invalid_request, failed_precondition, has_invalid_fields,
  has_replicas_on_the_same_server, is_empty, has_invalid_state_transition,
  cannot_remove_last_serving_replica, cannot_remove_non_leaving_replica,
}
use scout.Control.Fsm.{
  Cluster, Add, Update, Remove, UpdateAssignments, is_valid_data_server, is_valid_partition_id,
  get_partition, get_replica,
}
use scout.Control.Fsm.Assignments.{
  has_replica, check_adds, check_updates, check_removes, is_valid_transition, is_empty_list,
  is_outdated, assign_all, each_of, add_one, update_one, remove_one, bump_one, changed,
  stamp_assignments, validate_update_assignments, apply_update_assignments,
}
use scout.Control.Fsm.Stamps.{SameVersion, assign_all-Whenever}

-- The edges between the states of a replica that is there.
pub data Edge : ReplicaState → ReplicaState → Type 0 where
  promoted : Edge ReplicaState.joining ReplicaState.voter
  joined : Edge ReplicaState.joining ReplicaState.non_voter
  raised : Edge ReplicaState.non_voter ReplicaState.voter
  demoted : Edge ReplicaState.voter ReplicaState.non_voter
  dismissed : (s : ReplicaState) → Edge s ReplicaState.leaving

Edge-of_valid : (s t : ReplicaState) → is_valid_transition s t ≡ true → Edge s t
unfolding is_valid_transition
Edge-of_valid ReplicaState.joining ReplicaState.voter h = promoted
Edge-of_valid ReplicaState.joining ReplicaState.non_voter h = joined
Edge-of_valid ReplicaState.non_voter ReplicaState.voter h = raised
Edge-of_valid ReplicaState.voter ReplicaState.non_voter h = demoted
Edge-of_valid s ReplicaState.leaving h = dismissed s
Edge-of_valid ReplicaState.stopped ReplicaState.stopped h = absurd (ground arith)
Edge-of_valid ReplicaState.stopped ReplicaState.joining h = absurd (ground arith)
Edge-of_valid ReplicaState.stopped ReplicaState.voter h = absurd (ground arith)
Edge-of_valid ReplicaState.stopped ReplicaState.non_voter h = absurd (ground arith)
Edge-of_valid ReplicaState.joining ReplicaState.stopped h = absurd (ground arith)
Edge-of_valid ReplicaState.joining ReplicaState.joining h = absurd (ground arith)
Edge-of_valid ReplicaState.voter ReplicaState.stopped h = absurd (ground arith)
Edge-of_valid ReplicaState.voter ReplicaState.joining h = absurd (ground arith)
Edge-of_valid ReplicaState.voter ReplicaState.voter h = absurd (ground arith)
Edge-of_valid ReplicaState.non_voter ReplicaState.stopped h = absurd (ground arith)
Edge-of_valid ReplicaState.non_voter ReplicaState.joining h = absurd (ground arith)
Edge-of_valid ReplicaState.non_voter ReplicaState.non_voter h = absurd (ground arith)
Edge-of_valid ReplicaState.leaving ReplicaState.stopped h = absurd (ground arith)
Edge-of_valid ReplicaState.leaving ReplicaState.joining h = absurd (ground arith)
Edge-of_valid ReplicaState.leaving ReplicaState.voter h = absurd (ground arith)
Edge-of_valid ReplicaState.leaving ReplicaState.non_voter h = absurd (ground arith)

pub get_partition-Whenever :
    (p : Partitions) (pid : ℕ)
    → Whenever (get_partition p pid) (λ part. lookup pid p.items ≡ some part)
unfolding get_partition
get_partition-Whenever p pid = elim (Option-cases (lookup pid p.items)) [
  | inl e ↦ rw (e, get_partition) tt
  | inr (part, e) ↦ rw (e, get_partition) refl
]

pub get_replica-Whenever :
    (part : Partition) (name : Bytes)
    → Whenever (get_replica part name) (λ r. lookup name part.replicas ≡ some r)
unfolding get_replica
get_replica-Whenever part name = elim (Option-cases (lookup name part.replicas)) [
  | inl e ↦ rw (e, get_replica) tt
  | inr (r, e) ↦ rw (e, get_replica) refl
]

-- The replica that a change names, in the state before the command.
pub record Named (c : Cluster) (pid : ℕ) (name : Bytes) : Type 0 where
  pub part : Partition
  pub there : lookup pid c.partitions.items ≡ some part
  pub replica : Replica
  pub found : lookup name part.replicas ≡ some replica

-- An update goes along an edge, and does not take the only serving replica away.
abbrev pub LegalUpdate : Cluster → Update → Type 0
LegalUpdate c x =
    (n : Named c x.partition_id x.replica) × Edge n.replica.state x.state
    × ((not (is_serving x.state)
          && (serving_replica_count n.part == 1 && is_serving n.replica.state))
        ≡ false)

-- What is removed was leaving.
abbrev pub LegalRemove : Cluster → Remove → Type 0
LegalRemove c x = (n : Named c x.partition_id x.replica) × (is_leaving n.replica.state ≡ true)

-- An addition goes to a server without a replica of the partition.
abbrev pub LegalAdd : Cluster → Add → Type 0
LegalAdd c x =
    (part : Partition) × (lookup x.partition_id c.partitions.items ≡ some part)
    × (replica_for_server part x.server_id ≡ none)

absent_of_test :
    (o : Option Replica) → elim o as (λ _. Bool) [ none ↦ false | some _ ↦ true ] ≡ false → o ≡ none
absent_of_test none h = refl
absent_of_test (some r) h = absurd (ground arith)

module _ (count : ℕ) (c : Cluster) where
  check_adds-Whenever :
      (xs : List Add) → Whenever (check_adds count c xs) (λ _. All (LegalAdd c) xs)
  unfolding check_adds
  check_adds-Whenever [] = tt
  check_adds-Whenever (x ∷ xs) =
      let Q : Unit {0} → Type 0 = λ _. All (LegalAdd c) (x ∷ xs) in
      Whenever-guard Q
        (not (is_valid_partition_id count x.partition_id)
          || not (is_valid_data_server c.servers x.server_id))
        has_invalid_fields _
        (λ valid.
          Whenever-bind _ Q (get_partition c.partitions x.partition_id) _
            (get_partition-Whenever c.partitions x.partition_id)
            (λ part h.
              Whenever-guard Q
                (elim (replica_for_server part x.server_id) [ none ↦ false | some _ ↦ true ])
                has_replicas_on_the_same_server (check_adds count c xs)
                (λ alone.
                  Whenever-mono (λ _. All (LegalAdd c) xs) Q (check_adds count c xs)
                    (check_adds-Whenever xs)
                    (λ _ rest. (
                      (part, h, absent_of_test (replica_for_server part x.server_id) alone),
                      rest,
                    )))))

  check_updates-Whenever :
      (xs : List Update) → Whenever (check_updates count c xs) (λ _. All (LegalUpdate c) xs)
  unfolding check_updates
  check_updates-Whenever [] = tt
  check_updates-Whenever (x ∷ xs) =
      let Q : Unit {0} → Type 0 = λ _. All (LegalUpdate c) (x ∷ xs) in
      let rest = check_updates count c xs in
      Whenever-guard Q (not (is_valid_partition_id count x.partition_id)) has_invalid_fields _
        (λ valid.
          Whenever-bind _ Q (get_partition c.partitions x.partition_id) _
            (get_partition-Whenever c.partitions x.partition_id)
            (λ part h.
              Whenever-guard Q (not (has_replica part x.replica)) has_invalid_fields _ (λ _.
                Whenever-bind _ Q (get_replica part x.replica) _
                  (get_replica-Whenever part x.replica)
                  (λ r found.
                    let last =
                      not (is_serving x.state)
                      && (serving_replica_count part == 1 && is_serving r.state) in
                    Whenever-guard Q (not (is_valid_transition r.state x.state))
                      has_invalid_state_transition
                      (refuse_if last cannot_remove_last_serving_replica >> rest)
                      (λ legal.
                        Whenever-guard Q last cannot_remove_last_serving_replica rest (λ others.
                          Whenever-mono (λ _. All (LegalUpdate c) xs) Q rest
                            (check_updates-Whenever xs)
                            (λ _ later. (
                              (
                                record { part = part; there = h; replica = r; found = found },
                                Edge-of_valid r.state x.state (ground arith),
                                others,
                              ),
                              later,
                            ))))))))

  check_removes-Whenever :
      (xs : List Remove) → Whenever (check_removes count c xs) (λ _. All (LegalRemove c) xs)
  unfolding check_removes
  check_removes-Whenever [] = tt
  check_removes-Whenever (x ∷ xs) =
      let Q : Unit {0} → Type 0 = λ _. All (LegalRemove c) (x ∷ xs) in
      let rest = check_removes count c xs in
      Whenever-guard Q (not (is_valid_partition_id count x.partition_id)) has_invalid_fields _
        (λ valid.
          Whenever-bind _ Q (get_partition c.partitions x.partition_id) _
            (get_partition-Whenever c.partitions x.partition_id)
            (λ part h.
              Whenever-guard Q (not (has_replica part x.replica)) has_invalid_fields _ (λ _.
                Whenever-bind _ Q (get_replica part x.replica) _
                  (get_replica-Whenever part x.replica)
                  (λ r found.
                    Whenever-guard Q (not (is_leaving r.state)) cannot_remove_non_leaving_replica
                      rest
                      (λ left.
                        Whenever-mono (λ _. All (LegalRemove c) xs) Q rest
                          (check_removes-Whenever xs)
                          (λ _ later. (
                            (
                              record { part = part; there = h; replica = r; found = found },
                              ground arith,
                            ),
                            later,
                          )))))))

  pub validate_update-Whenever :
      (cmd : UpdateAssignments)
      → Whenever (validate_update_assignments count c cmd) (λ _.
        All (LegalAdd c) cmd.add × All (LegalUpdate c) cmd.update × All (LegalRemove c) cmd.remove)
  unfolding validate_update_assignments
  validate_update-Whenever cmd =
      let Q : Unit {0} → Type 0 = λ _.
        All (LegalAdd c) cmd.add
        × All (LegalUpdate c) cmd.update
        × All (LegalRemove c) cmd.remove in
      let removes = check_removes count c cmd.remove in
      Whenever-guard Q _ is_empty
        (check_adds count c cmd.add >> (check_updates count c cmd.update >> removes))
        (λ _.
          Whenever-bind _ Q (check_adds count c cmd.add) _ (check_adds-Whenever cmd.add) (λ _ adds.
            Whenever-bind _ Q (check_updates count c cmd.update) _
              (check_updates-Whenever cmd.update)
              (λ _ updates.
                Whenever-mono _ Q removes (check_removes-Whenever cmd.remove)
                  (λ _ gone. (adds, updates, gone)))))
