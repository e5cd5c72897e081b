-- ===== src/Control/Fsm/Edges/Serving.antt =====
-- One accepted update at a time leaves every partition that has a serving replica with one:
-- `cannotRemoveLastServingReplica` of internal/control/server/storage/fsm_update_assignments.go.
use scout.Base.{
  ℕ, suc, ◌≡◌, ◌≢◌, ◌∙◌, ◌+◌, refl, Bool, true, false, not, ◌&&◌, some, [], ◌∷◌, arith, inl, inr,
  Bool-cases, ◌==◌, nat_eq, subst, ap, beq_refl,
}
use scout.Base.Lists.{All}
use scout.Base.Maps.{
  Map, lookup, insert, delete, lookup-insert, lookup-delete, lookup_absent, IsMap, All-lookup,
  delete-IsMap,
}
use scout.Base.Bytes.{Bytes, bytes_eq}
use scout.Control.{
  Replica, Partition, Partitions, is_serving, count_if, serving_replica_count, has_assignments,
}
use scout.Control.Results.{
  ok, Whenever, Whenever-bind, Whenever-guard, ◌>>=◌, ◌>>◌, refuse_if, invalid_request,
  failed_precondition,
}
use scout.Control.Fsm.{Cluster, Update, UpdateAssignments, get_partition, get_replica}
use scout.Control.Fsm.Assignments.{
  set_partition, is_outdated, assign_all, each_of, update_one, bump_one, stamp_assignments,
  validate_update_assignments, apply_update_assignments,
}
use scout.Control.Fsm.Invariant.{IsPartition, IsCluster}
use scout.Control.Fsm.Edges.{
  LegalUpdate, get_partition-Whenever, get_replica-Whenever, validate_update-Whenever,
}

-- Entries of a map whose values pass a test.
module _ (test : Replica → Bool) where
  abbrev pub Passing : Map Bytes Replica → Type 0
  Passing m = (j : Bytes) × (s : Replica) × (lookup j m ≡ some s) × (test s ≡ true)

  count_if-Passing : (m : Map Bytes Replica) → IsMap m → count_if test m ≢ 0 → Passing m
  unfolding count_if lookup
  count_if-Passing [] k h = absurd (h refl)
  count_if-Passing ((j, v) ∷ m) k h = elim (Bool-cases (test v)) [
    | inl e ↦ (j, v, rw (beq_refl j) refl, e)
    | inr e ↦
        let rest = count_if-Passing m k.1 (λ zero. h (rw (e, count_if) zero)) in
        (
          rest.0,
          rest.1,
          ground (arith, rest.2, lookup_absent j m k.0, bytes_eq.beq_iff j rest.0),
          rest.3,
        )
  ]

  delete_absent :
      (k : Bytes) (m : Map Bytes Replica)
      → All (λ (b : Bytes × Replica). (k == b.0) ≡ false) m
      → delete k m ≡ m
  unfolding delete
  delete_absent k [] h = refl
  delete_absent k ((j, v) ∷ m) h =
      let other : (j == k) ≡ false =
        ground (arith, h.0, bytes_eq.beq_iff j k, bytes_eq.beq_iff k j) in
      rw (other, delete_absent k m h.1) refl

  count_if-delete :
      (k : Bytes) (r : Replica) (m : Map Bytes Replica)
      → IsMap m
      → lookup k m ≡ some r
      → test r ≡ true
      → count_if test m ≡ suc (count_if test (delete k m))
  unfolding count_if lookup delete
  count_if-delete k r [] v found pass = absurd (ground arith)
  count_if-delete k r ((j, w) ∷ m) v found pass = elim (Bool-cases (j == k)) [
    | inl same ↦
        let key : j ≡ k = (bytes_eq.beq_iff j k).0 same in
        let value : w ≡ r = ground arith in
        let gone : delete k m ≡ m = subst (λ x. delete x m ≡ m) key (delete_absent j m v.0) in
        let passes : test w ≡ true = rw value pass in rw (same, gone, passes, count_if) refl
    | inr other ↦
        let rest = count_if-delete k r m v.1 (rw other at found) pass in
        elim (Bool-cases (test w)) [
          | inl e ↦ rw (other, e, count_if) (ap suc rest)
          | inr e ↦ rw (other, e, count_if) rest
        ]
  ]

  -- If two pass, one of them stands under another key.
  pub Passing-of_two :
      (k : Bytes) (r : Replica) (m : Map Bytes Replica)
      → IsMap m
      → lookup k m ≡ some r
      → test r ≡ true
      → count_if test m ≢ 1
      → Passing (delete k m)
  Passing-of_two k r m v found pass two =
      count_if-Passing (delete k m) (delete-IsMap k m v)
        (λ zero. two (count_if-delete k r m v found pass ∙ ap suc zero))

-- Some replica of the partition serves.
abbrev pub Serves : Partition → Type 0
Serves part = Passing (λ r. is_serving r.state) part.replicas

abbrev pub Served : Partitions → ℕ → Type 0
Served p pid = (part : Partition) × (lookup pid p.items ≡ some part) × Serves part

set_partition-Served :
    (p : Partitions) (pid q : ℕ) (old part : Partition)
    → lookup pid p.items ≡ some old
    → (Serves old → Serves part)
    → Served p q
    → Served (set_partition p pid part) q
set_partition-Served p pid q old part found keep (was, there, serves) =
    elim (Bool-cases (pid == q)) [
      | inl same ↦
          let key : pid ≡ q = (nat_eq.beq_iff pid q).0 same in
          let equal : was ≡ old =
            ground (arith, subst (λ k. lookup k p.items ≡ some old) key found) in
          (
            part,
            lookup-insert pid q part p.items ∙ (rw same refl),
            keep (subst Serves equal serves),
          )
      | inr other ↦ (was, lookup-insert pid q part p.items ∙ (rw other there), serves)
    ]

-- A replica that changes its state, not as the last one that serves.
updated-Serves :
    (part : Partition) (name : Bytes) (r next : Replica)
    → IsMap part.replicas
    → lookup name part.replicas ≡ some r
    → (not (is_serving next.state) && (serving_replica_count part == 1 && is_serving r.state))
      ≡ false
    → Serves part
    → Serves (record part { replicas = insert name next part.replicas })
updated-Serves part name r next v found others (j, s, there, pass) =
    elim (Bool-cases (is_serving next.state)) [
      | inl e ↦
          (name, next, lookup-insert name name next part.replicas ∙ (rw (beq_refl name) refl), e)
      | inr e ↦ elim (Bool-cases (name == j)) [
        | inr other ↦ (j, s, lookup-insert name j next part.replicas ∙ (rw other there), pass)
        | inl same ↦
            let key : name ≡ j = (bytes_eq.beq_iff name j).0 same in
            let value : s ≡ r =
              ground (arith, subst (λ k. lookup k part.replicas ≡ some r) key found) in
            let serving : is_serving r.state ≡ true =
              subst (λ (x : Replica). is_serving x.state ≡ true) value pass in
            let more : serving_replica_count part ≢ 1 =
              λ one. ground (arith, nat_eq.beq_iff (serving_replica_count part) 1) in
            let (i, w, kept, serves) =
              Passing-of_two (λ x. is_serving x.state) name r part.replicas v found serving more in
            (
              i,
              w,
              ground (
                arith,
                lookup-insert name i next part.replicas,
                lookup-delete name i part.replicas,
              ),
              serves,
            )
      ]
    ]

abbrev KeepsServed : Partitions → Partitions → Type 0
KeepsServed p q = (pid : ℕ) → Served p pid → Served q pid

bump_one-KeepsServed : (p : Partitions) (pid : ℕ) → Whenever (bump_one p pid) (KeepsServed p)
unfolding bump_one
bump_one-KeepsServed p pid =
    Whenever-bind _ (KeepsServed p) (get_partition p pid) _ (get_partition-Whenever p pid)
      (λ part found q s.
        set_partition-Served p pid q part
          (record part { assignments_version = part.assignments_version + 1 }) found (λ k. k) s)

update_one-KeepsServed :
    (count now : ℕ) (c : Cluster) (x : Update)
    → IsCluster count c
    → LegalUpdate c x
    → Whenever (update_one now c.partitions x) (KeepsServed c.partitions)
unfolding update_one
update_one-KeepsServed count now c x v (n, edge, others) =
    let Q = KeepsServed c.partitions in
    Whenever-bind _ Q (get_partition c.partitions x.partition_id) _
      (get_partition-Whenever c.partitions x.partition_id)
      (λ part found.
        Whenever-bind _ Q (get_replica part x.replica) _ (get_replica-Whenever part x.replica)
          (λ r there.
            let equal : n.part ≡ part = ground (arith, n.there) in
            let same : n.replica ≡ r = ground (arith, n.found) in
            let w =
              All-lookup (IsPartition c.servers count) x.partition_id part c.partitions.items found
                v.partitions.items in
            let kept : (not (is_serving x.state)
                  && (serving_replica_count part == 1 && is_serving r.state))
                ≡ false =
              subst
                (λ (y : Replica).
                  (not (is_serving x.state)
                    && (serving_replica_count part == 1 && is_serving y.state))
                  ≡ false)
                same
                (subst
                  (λ y.
                    (not (is_serving x.state)
                      && (serving_replica_count y == 1 && is_serving n.replica.state))
                    ≡ false)
                  equal others) in
            let next = record r { state = x.state; state_transition_time = now } in
            λ q s.
              set_partition-Served c.partitions x.partition_id q part
                (record part { replicas = insert x.replica next part.replicas }) found
                (updated-Serves part x.replica r next w.keys there kept) s))

abbrev pub one_update : ℕ → ℕ → Update → UpdateAssignments
one_update if_match imbalance x = record {
  if_match = if_match;
  add = [];
  update = x ∷ [];
  remove = [];
  max_imbalance = imbalance;
}

assign_one-KeepsServed :
    (count now : ℕ) (c : Cluster) (x : Update)
    → IsCluster count c
    → LegalUpdate c x
    → (if_match imbalance : ℕ)
    → Whenever
        (assign_all now c.partitions (one_update if_match imbalance x))
        (KeepsServed c.partitions)
unfolding assign_all each_of
assign_one-KeepsServed count now c x v legal if_match imbalance =
    let Q = KeepsServed c.partitions in
    Whenever-bind Q Q (update_one now c.partitions x >>= ok) _
      (Whenever-bind Q Q (update_one now c.partitions x) ok
        (update_one-KeepsServed count now c x v legal) (λ q k. k))
      (λ q k.
        Whenever-bind (KeepsServed q) Q (bump_one q x.partition_id) ok
          (bump_one-KeepsServed q x.partition_id) (λ r k' pid s. k' pid (k pid s)))

-- In a well-formed cluster, an accepted command with one update leaves every partition that had a
-- serving replica with a serving replica.
pub update-Served :
    (count now if_match imbalance : ℕ) (c : Cluster) (x : Update)
    → IsCluster count c
    → Whenever
        (apply_update_assignments count now c (one_update if_match imbalance x))
        (λ r. (pid : ℕ) → Served c.partitions pid → Served r.0.partitions pid)
unfolding apply_update_assignments
update-Served count now if_match imbalance c x v =
    let cmd = one_update if_match imbalance x in
    let Q : Cluster × ℕ → Type 0 = λ r. KeepsServed c.partitions r.0.partitions in
    let finish = assign_all now c.partitions cmd >>= λ p. ok (stamp_assignments c cmd p) in
    let checked = validate_update_assignments count c cmd >> finish in
    Whenever-guard Q (is_outdated c cmd) failed_precondition
      (refuse_if (not (has_assignments c.partitions)) invalid_request >> checked)
      (λ _. Whenever-guard Q (not (has_assignments c.partitions)) invalid_request checked (λ _.
        Whenever-bind _ Q (validate_update_assignments count c cmd) (λ _. finish)
          (validate_update-Whenever count c cmd)
          (λ _ legal.
            Whenever-bind (KeepsServed c.partitions) Q (assign_all now c.partitions cmd)
              (λ p. ok (stamp_assignments c cmd p))
              (assign_one-KeepsServed count now c x v legal.1.0 if_match imbalance)
              (λ p kept. kept))))
