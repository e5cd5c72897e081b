-- ===== src/Control/Fsm/Invariant/Assign.antt =====
-- The commands of internal/control/server/storage/fsm_update_assignments.go keep the cluster well
-- formed and read no replica that is not there.
use scout.Base.{
  ℕ, ◌≡◌, ◌∙◌, ◌<◌, refl, true, not, ◌||◌, some, List, [], ◌∷◌, arith, inl, inr, Bool-cases,
  Option-cases, ◌==◌, nat_eq,
}
use scout.Base.Lists.{All, All-mono, any}
use scout.Base.Maps.{lookup, insert, All-insert, All-delete, All-lookup, insert-IsMap, delete-IsMap}
use scout.Base.Bytes.{Bytes, bytes_eq}
use scout.Control.{
  ReplicaState, Servers, Replica, Partition, Partitions, is_leaving, has_assignments,
}
use scout.Control.Results.{
  ok, Ensures, Ensures-bind, Ensures-mono, Ensures-guard, ◌>>=◌, ◌>>◌, refuse_if, invalid_request,
  failed_precondition, is_empty, has_invalid_fields, has_replicas_on_the_same_server,
  has_invalid_state_transition, cannot_remove_last_serving_replica,
  cannot_remove_non_leaving_replica,
}
use scout.Control.Fsm.{
  Cluster, Add, Update, Remove, UpdateAssignments, is_valid_data_server, is_valid_partition_id,
  get_partition, get_replica,
}
use scout.Control.Fsm.Assignments.{
  each_of, has_replica, check_adds, check_updates, check_removes, is_valid_transition, add_one,
  update_one, remove_one, bump_one, changed_by, changed, is_outdated, assign_all, stamp_assignments,
  validate_update_assignments, apply_update_assignments,
}
use scout.Control.Fsm.Invariant.{
  IsReplica, IsPartition, IsPartitions, IsCluster, get_partition-Ensures,
  set_partition-IsPartitions, with_replica-IsPartition, has_in, Keeps, set_partition-Keeps,
  each_of-Ensures, stamped-IsCluster,
}

get_replica-Ensures :
    (part : Partition) (name : Bytes)
    → has_replica part name ≡ true
    → Ensures (get_replica part name) (λ r. lookup name part.replicas ≡ some r)
unfolding get_replica
get_replica-Ensures part name h = elim (Option-cases (lookup name part.replicas)) [
  | inl e ↦ absurd (ground arith)
  | inr (r, e) ↦ rw (e, get_replica) refl
]

-- A replica that keeps its name and its server is as well formed as before.
pub update_replica-IsPartition :
    {s : Servers} {count pid : ℕ} (name : Bytes) (r next : Replica) (part : Partition)
    → IsPartition s count (pid, part)
    → lookup name part.replicas ≡ some r
    → next.name ≡ r.name
    → next.server_id ≡ r.server_id
    → IsPartition s count (pid, record part { replicas = insert name next part.replicas })
update_replica-IsPartition {s} name r next part v found same_name same_server =
    let old =
      All-lookup (IsReplica s part.id part.last_replica_id) name r part.replicas found v.replicas in
    record {
      own = v.own;
      below = v.below;
      keys = insert-IsMap _ _ _ v.keys;
      replicas =
          All-insert (IsReplica s part.id part.last_replica_id) _ _ part.replicas
            (record {
              named = same_name ∙ old.named;
              numbered = old.numbered;
              placed = rw same_server old.placed;
            })
            v.replicas;
    }

module _ (count : ℕ) (c : Cluster) (v : IsCluster count c) where
  abbrev GoodAdd : Add → Type 0
  GoodAdd x = (x.partition_id < count) × (is_valid_data_server c.servers x.server_id ≡ true)

  abbrev GoodUpdate : Update → Type 0
  GoodUpdate x = (x.partition_id < count) × (has_in c.partitions x.partition_id x.replica ≡ true)

  abbrev GoodRemove : Remove → Type 0
  GoodRemove x = x.partition_id < count

  check_adds-Ensures : (xs : List Add) → Ensures (check_adds count c xs) (λ _. All GoodAdd xs)
  unfolding check_adds
  check_adds-Ensures [] = tt
  check_adds-Ensures (x ∷ xs) =
      let invalid =
        not (is_valid_partition_id count x.partition_id)
        || not (is_valid_data_server c.servers x.server_id) in
      Ensures-guard (λ _. All GoodAdd (x ∷ xs)) invalid has_invalid_fields _ refl
        (λ valid.
          Ensures-bind _ (λ _. All GoodAdd (x ∷ xs)) (get_partition c.partitions x.partition_id) _
            (get_partition-Ensures c.partitions x.partition_id v.partitions (ground arith))
            (λ part h.
              Ensures-guard (λ _. All GoodAdd (x ∷ xs)) _ has_replicas_on_the_same_server
                (check_adds count c xs) refl
                (λ _.
                  Ensures-mono (λ _. All GoodAdd xs) _ (check_adds count c xs)
                    (check_adds-Ensures xs) (λ _ rest. ((ground arith, ground arith), rest)))))

  check_updates-Ensures :
      (xs : List Update) → Ensures (check_updates count c xs) (λ _. All GoodUpdate xs)
  unfolding check_updates
  check_updates-Ensures [] = tt
  check_updates-Ensures (x ∷ xs) =
      let Q : Unit {0} → Type 0 = λ _. All GoodUpdate (x ∷ xs) in
      Ensures-guard Q (not (is_valid_partition_id count x.partition_id)) has_invalid_fields _ refl
        (λ valid.
          Ensures-bind _ Q (get_partition c.partitions x.partition_id) _
            (get_partition-Ensures c.partitions x.partition_id v.partitions (ground arith))
            (λ part h.
              Ensures-guard Q (not (has_replica part x.replica)) has_invalid_fields _ refl (λ there.
                Ensures-bind _ Q (get_replica part x.replica) _
                  (get_replica-Ensures part x.replica (ground arith))
                  (λ r _.
                    Ensures-guard Q (not (is_valid_transition r.state x.state))
                      has_invalid_state_transition _ refl
                      (λ _.
                        Ensures-guard Q _ cannot_remove_last_serving_replica
                          (check_updates count c xs) refl
                          (λ _.
                            Ensures-mono (λ _. All GoodUpdate xs) Q (check_updates count c xs)
                              (check_updates-Ensures xs)
                              (λ _ rest.
                                ((ground arith, rw (h.0, has_in) (ground arith)), rest))))))))

  check_removes-Ensures :
      (xs : List Remove) → Ensures (check_removes count c xs) (λ _. All GoodRemove xs)
  unfolding check_removes
  check_removes-Ensures [] = tt
  check_removes-Ensures (x ∷ xs) =
      let Q : Unit {0} → Type 0 = λ _. All GoodRemove (x ∷ xs) in
      Ensures-guard Q (not (is_valid_partition_id count x.partition_id)) has_invalid_fields _ refl
        (λ valid.
          Ensures-bind _ Q (get_partition c.partitions x.partition_id) _
            (get_partition-Ensures c.partitions x.partition_id v.partitions (ground arith))
            (λ part h.
              Ensures-guard Q (not (has_replica part x.replica)) has_invalid_fields _ refl (λ there.
                Ensures-bind _ Q (get_replica part x.replica) _
                  (get_replica-Ensures part x.replica (ground arith))
                  (λ r _.
                    Ensures-guard Q (not (is_leaving r.state)) cannot_remove_non_leaving_replica
                      (check_removes count c xs) refl
                      (λ _.
                        Ensures-mono (λ _. All GoodRemove xs) Q (check_removes count c xs)
                          (check_removes-Ensures xs) (λ _ rest. (ground arith, rest)))))))

  changed_by-below {ℓ} :
      {X : Type ℓ} (pid : X → ℕ) (xs : List X) (seen : List ℕ)
      → All (λ x. pid x < count) xs
      → All (λ q. q < count) seen
      → All (λ q. q < count) (changed_by pid xs seen)
  changed_by-below pid [] seen h k = k
  changed_by-below pid (x ∷ xs) seen h k = elim (Bool-cases (any (λ q. q == pid x) seen)) [
    | inl e ↦ rw e (changed_by-below pid xs seen h.1 k)
    | inr e ↦ rw e (changed_by-below pid xs (pid x ∷ seen) h.1 (h.0, k))
  ]

  changed-below :
      (cmd : UpdateAssignments)
      → All GoodAdd cmd.add
      → All GoodUpdate cmd.update
      → All GoodRemove cmd.remove
      → All (λ q. q < count) (changed cmd)
  changed-below cmd a u r =
      changed_by-below (λ (x : Remove). x.partition_id) cmd.remove _ r
        (changed_by-below (λ (x : Update). x.partition_id) cmd.update _
          (All-mono (λ x h. h.0) cmd.update u)
          (changed_by-below (λ (x : Add). x.partition_id) cmd.add []
            (All-mono (λ x h. h.0) cmd.add a) tt))

  -- The state that the loops build holds the replicas that the validation saw.
  abbrev Grown : Partitions → Type 0
  Grown p = IsPartitions c.servers count p × Keeps c.partitions p

  add_one-Ensures :
      (now : ℕ) (p : Partitions) (x : Add) → Grown p → GoodAdd x → Ensures (add_one now p x) Grown
  unfolding add_one
  add_one-Ensures now p x g good =
      Ensures-bind _ Grown (get_partition p x.partition_id) _
        (get_partition-Ensures p x.partition_id g.0 good.0)
        (λ part h. (
          set_partition-IsPartitions p x.partition_id _ g.0
              (with_replica-IsPartition ReplicaState.joining now x.server_id part h.1 good.1),
          λ pid name there.
              set_partition-Keeps p x.partition_id part _ _ _ h.0 refl pid name
                (g.1 pid name there),
        ))

  update_one-Ensures :
      (now : ℕ) (p : Partitions) (x : Update)
      → Grown p
      → GoodUpdate x
      → Ensures (update_one now p x) Grown
  unfolding update_one
  update_one-Ensures now p x g good =
      Ensures-bind _ Grown (get_partition p x.partition_id) _
        (get_partition-Ensures p x.partition_id g.0 good.0)
        (λ part h.
          let there = g.1 x.partition_id x.replica good.1 in
          Ensures-bind _ Grown (get_replica part x.replica) _
            (get_replica-Ensures part x.replica (ground (arith, h.0, there)))
            (λ r found. (
              set_partition-IsPartitions p x.partition_id _ g.0 (
                  update_replica-IsPartition x.replica r
                    (record r { state = x.state; state_transition_time = now }) part h.1 found refl
                    refl),
              λ pid name k.
                  set_partition-Keeps p x.partition_id part _ _ _ h.0 refl pid name
                    (g.1 pid name k),
            )))

  remove_one-Ensures :
      (p : Partitions) (x : Remove)
      → IsPartitions c.servers count p
      → GoodRemove x
      → Ensures (remove_one p x) (IsPartitions c.servers count)
  unfolding remove_one
  remove_one-Ensures p x g good =
      Ensures-bind _ (IsPartitions c.servers count) (get_partition p x.partition_id) _
        (get_partition-Ensures p x.partition_id g good)
        (λ part h. set_partition-IsPartitions p x.partition_id _ g (record {
          own = h.1.own;
          below = h.1.below;
          keys = delete-IsMap x.replica part.replicas h.1.keys;
          replicas =
              All-delete (IsReplica c.servers part.id part.last_replica_id) x.replica part.replicas
                h.1.replicas;
        }))

  bump_one-Ensures :
      (p : Partitions) (pid : ℕ)
      → IsPartitions c.servers count p
      → pid < count
      → Ensures (bump_one p pid) (IsPartitions c.servers count)
  unfolding bump_one
  bump_one-Ensures p pid g low =
      Ensures-bind _ (IsPartitions c.servers count) (get_partition p pid) _
        (get_partition-Ensures p pid g low)
        (λ part h.
          set_partition-IsPartitions p pid _ g
            (record { own = h.1.own; below = h.1.below; keys = h.1.keys; replicas = h.1.replicas }))

  validate_update-Ensures :
      (cmd : UpdateAssignments)
      → Ensures
          (validate_update_assignments count c cmd)
          (λ _. All GoodAdd cmd.add × All GoodUpdate cmd.update × All GoodRemove cmd.remove)
  unfolding validate_update_assignments
  validate_update-Ensures cmd =
      let Q : Unit {0} → Type 0 =
        λ _. All GoodAdd cmd.add × All GoodUpdate cmd.update × All GoodRemove cmd.remove in
      Ensures-guard Q _ is_empty _ refl (λ _.
        Ensures-bind _ Q (check_adds count c cmd.add) _ (check_adds-Ensures cmd.add) (λ _ adds.
          Ensures-bind _ Q (check_updates count c cmd.update) _ (check_updates-Ensures cmd.update)
            (λ _ updates.
              Ensures-mono _ Q (check_removes count c cmd.remove) (check_removes-Ensures cmd.remove)
                (λ _ removes. (adds, updates, removes)))))

  assign_all-Ensures :
      (now : ℕ) (cmd : UpdateAssignments)
      → All GoodAdd cmd.add
      → All GoodUpdate cmd.update
      → All GoodRemove cmd.remove
      → Ensures (assign_all now c.partitions cmd) (IsPartitions c.servers count)
  unfolding assign_all
  assign_all-Ensures now cmd a u r =
      let Q = IsPartitions c.servers count in
      Ensures-bind Grown Q (each_of (add_one now) c.partitions cmd.add) _
        (each_of-Ensures (add_one now) Grown GoodAdd (add_one-Ensures now) c.partitions cmd.add
          (v.partitions, λ pid name there. there) a)
        (λ added g.
          Ensures-bind Grown Q (each_of (update_one now) added cmd.update) _
            (each_of-Ensures (update_one now) Grown GoodUpdate (update_one-Ensures now) added
              cmd.update g u)
            (λ updated g'.
              Ensures-bind Q Q (each_of remove_one updated cmd.remove) _
                (each_of-Ensures remove_one Q GoodRemove remove_one-Ensures updated cmd.remove g'.0
                  r)
                (λ removed w.
                  each_of-Ensures bump_one Q (λ pid. pid < count) bump_one-Ensures removed
                    (changed cmd) w (changed-below cmd a u r))))

  -- A well-formed cluster stays so, whatever is assigned: no command panics.
  pub apply_update_assignments-Ensures :
      (now : ℕ) (cmd : UpdateAssignments)
      → Ensures (apply_update_assignments count now c cmd) (λ r. IsCluster count r.0)
  unfolding apply_update_assignments
  apply_update_assignments-Ensures now cmd =
      let Q : Cluster × ℕ → Type 0 = λ r. IsCluster count r.0 in
      let finish = assign_all now c.partitions cmd >>= λ p. ok (stamp_assignments c cmd p) in
      let checked = validate_update_assignments count c cmd >> finish in
      Ensures-guard Q (is_outdated c cmd) failed_precondition
        (refuse_if (not (has_assignments c.partitions)) invalid_request >> checked) refl
        (λ _.
          Ensures-guard Q (not (has_assignments c.partitions)) invalid_request checked refl (λ _.
            Ensures-bind _ Q (validate_update_assignments count c cmd) (λ _. finish)
              (validate_update-Ensures cmd)
              (λ _ good.
                Ensures-bind (IsPartitions c.servers count) Q (assign_all now c.partitions cmd)
                  (λ p. ok (stamp_assignments c cmd p))
                  (assign_all-Ensures now cmd good.0 good.1 good.2)
                  (λ p w. stamped-IsCluster c p _ _ _ v w))))
