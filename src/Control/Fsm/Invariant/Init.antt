-- ===== src/Control/Fsm/Invariant/Init.antt =====
-- The first assignment (internal/control/server/storage/fsm_init_assignments.go) keeps the cluster
-- well formed, and leaves no partition without a replica.
use scout.Base.{
  ℕ, ◌≡◌, ◌<◌, refl, true, not, ◌&&◌, ◌||◌, List, [], ◌∷◌, arith, ◌==◌, nat_eq, if◌then◌else◌,
}
use scout.Base.Lists.{All, any, length}
use scout.Control.{ReplicaState, Servers, Partitions, has_assignments}
use scout.Control.Results.{
  ok, Ensures, Ensures-bind, Ensures-mono, Ensures-guard, Ensures-refuse_if, ◌>>=◌, ◌>>◌,
  invalid_request, has_invalid_fields, has_duplicate_entries, has_missing_partitions,
}
use scout.Control.Fsm.{
  Cluster, InitAdd, InitAssignments, is_valid_data_server, is_valid_partition_id, get_partition,
}
use scout.Control.Fsm.Assignments.{
  set_partition, with_replica, stamp_init, check_init_adds, validate_init_assignments, init_adds,
  apply_init_assignments,
}
use scout.Control.Fsm.Invariant.{
  IsPartitions, IsCluster, get_partition-Ensures, set_partition-IsPartitions,
  with_replica-IsPartition, stamped-IsCluster,
}

module _ (count : ℕ) (s : Servers) where
  abbrev GoodInit : InitAdd → Type 0
  GoodInit x = (x.partition_id < count) × (is_valid_data_server s x.server_id ≡ true)

  check_init_adds-Ensures :
      (pairs : List (ℕ × ℕ)) (seen : List ℕ) (xs : List InitAdd)
      → Ensures (check_init_adds count s pairs seen xs) (λ _. All GoodInit xs)
  unfolding check_init_adds
  check_init_adds-Ensures pairs seen [] = tt
  check_init_adds-Ensures pairs seen (x ∷ xs) =
      let Q : List ℕ → Type 0 = λ _. All GoodInit (x ∷ xs) in
      let more = (x.partition_id, x.server_id) ∷ pairs in
      let seen' = if any (λ pid. pid == x.partition_id) seen then seen else x.partition_id ∷ seen in
      Ensures-guard Q
        (not (is_valid_partition_id count x.partition_id)
          || not (is_valid_data_server s x.server_id))
        has_invalid_fields _ refl
        (λ valid.
          Ensures-guard Q (any (λ (q : ℕ × ℕ). q.0 == x.partition_id && q.1 == x.server_id) pairs)
            has_duplicate_entries (check_init_adds count s more seen' xs) refl
            (λ _.
              Ensures-mono (λ _. All GoodInit xs) Q (check_init_adds count s more seen' xs)
                (check_init_adds-Ensures more seen' xs)
                (λ _ rest. ((ground arith, ground arith), rest))))

  init_adds-Ensures :
      (now : ℕ) (p : Partitions) (xs : List InitAdd)
      → IsPartitions s count p
      → All GoodInit xs
      → Ensures (init_adds now p xs) (IsPartitions s count)
  unfolding init_adds
  init_adds-Ensures now p [] v good = v
  init_adds-Ensures now p (x ∷ xs) v good =
      Ensures-bind _ (IsPartitions s count) (get_partition p x.partition_id) _
        (get_partition-Ensures p x.partition_id v good.0.0)
        (λ part h.
          let state : ReplicaState =
            if x.voter then ReplicaState.voter else ReplicaState.non_voter in
          let next = record (with_replica state now x.server_id part) { assignments_version = 1 } in
          let w = with_replica-IsPartition state now x.server_id part h.1 good.0.1 in
          init_adds-Ensures now (set_partition p x.partition_id next) xs
            (set_partition-IsPartitions p x.partition_id next v
              (record { own = w.own; below = w.below; keys = w.keys; replicas = w.replicas }))
            good.1)

  validate_init-Ensures :
      (cmd : InitAssignments)
      → Ensures (validate_init_assignments count s cmd) (λ _. All GoodInit cmd.add)
  unfolding validate_init_assignments
  validate_init-Ensures cmd =
      Ensures-bind (λ _. All GoodInit cmd.add) (λ _. All GoodInit cmd.add)
        (check_init_adds count s [] [] cmd.add) _ (check_init_adds-Ensures [] [] cmd.add)
        (λ seen g.
          Ensures-refuse_if (λ _. All GoodInit cmd.add) (not (length seen == count))
            has_missing_partitions refl (λ _. g))

pub apply_init_assignments-Ensures :
    (count now : ℕ) (c : Cluster) (cmd : InitAssignments)
    → IsCluster count c
    → Ensures (apply_init_assignments count now c cmd) (λ r. IsCluster count r.0)
unfolding apply_init_assignments
apply_init_assignments-Ensures count now c cmd v =
    let Q : Cluster × ℕ → Type 0 = λ r. IsCluster count r.0 in
    let good : Unit {0} → Type 0 = λ _. All (GoodInit count c.servers) cmd.add in
    let finish = init_adds now c.partitions cmd.add >>= λ p. ok (stamp_init c cmd p) in
    Ensures-guard Q (has_assignments c.partitions) invalid_request
      (validate_init_assignments count c.servers cmd >> finish) refl
      (λ _.
        Ensures-bind good Q (validate_init_assignments count c.servers cmd) (λ _. finish)
          (validate_init-Ensures count c.servers cmd)
          (λ _ g.
            Ensures-bind (IsPartitions c.servers count) Q (init_adds now c.partitions cmd.add)
              (λ p. ok (stamp_init c cmd p))
              (init_adds-Ensures count c.servers now c.partitions cmd.add v.partitions g)
              (λ p w. stamped-IsCluster c p _ _ _ v w)))
