-- ===== src/Control/Fsm/Edges/Turns.antt =====
-- The turns of the loops of `applyUpdateAssignments`
-- (internal/control/server/storage/fsm_update_assignments.go): each changes one replica of one
-- partition.
use scout.Base.{
  ℕ, ◌≡◌, ◌≤◌, ◌+◌, refl, false, ◌&&◌, Option, none, some, [], arith, inl, inr, Bool-cases, ◌==◌,
  nat_eq, if◌then◌else◌, subst, sym, ap, ◌∙◌, beq_refl,
}
use scout.Base.Maps.{lookup, lookup-insert, lookup-delete}
use scout.Base.Bytes.{Bytes, bytes_eq}
use scout.Control.{ReplicaState, Replica, Partition, Partitions}
use scout.Control.Names.{replica_name}
use scout.Control.Results.{Whenever, Whenever-bind}
use scout.Control.Fsm.{Add, Update, Remove, get_partition, get_replica}
use scout.Control.Fsm.Assignments.{
  set_partition, with_replica, add_one, update_one, remove_one, bump_one,
}
use scout.Control.Fsm.Edges.{get_partition-Whenever, get_replica-Whenever}

-- The replica of a name, if the partition has it.
abbrev pub replica_at : Partitions → ℕ → Bytes → Option Replica
replica_at p pid name = elim (lookup pid p.items) [
  | none ↦ none
  | some part ↦ lookup name part.replicas
]

-- The number of the last replica of a partition.
abbrev pub last_of : Partitions → ℕ → ℕ
last_of p pid = elim (lookup pid p.items) [ none ↦ 0 | some part ↦ part.last_replica_id ]

-- A turn of a loop: one replica becomes `v`, numbers never fall, partitions keep their own
-- identifiers.
pub record Turn (q r : Partitions) (pid : ℕ) (name : Bytes) (v : Option Replica) : Type 0 where
  pub at :
      (i : ℕ) (k : Bytes)
      → replica_at r i k ≡ (if (pid == i) && (name == k) then v else replica_at q i k)
  pub last : (i : ℕ) → last_of q i ≤ last_of r i
  pub own :
      ((i : ℕ) (part : Partition) → lookup i q.items ≡ some part → part.id ≡ i)
      → (i : ℕ) (part : Partition) → lookup i r.items ≡ some part
      → part.id ≡ i

replica_at-some :
    (p : Partitions) (pid : ℕ) (name : Bytes) (part : Partition)
    → lookup pid p.items ≡ some part
    → replica_at p pid name ≡ lookup name part.replicas
replica_at-some p pid name part e = rw (replica_at, e) refl

replica_at-same :
    (p q : Partitions) (pid : ℕ) (name : Bytes)
    → lookup pid p.items ≡ lookup pid q.items
    → replica_at p pid name ≡ replica_at q pid name
replica_at-same p q pid name e = rw (replica_at, e) refl

set_partition-Turn :
    (q : Partitions) (pid : ℕ) (part next : Partition) (name : Bytes) (v : Option Replica)
    → lookup pid q.items ≡ some part
    → ((k : Bytes) → lookup k next.replicas ≡ (if name == k then v else lookup k part.replicas))
    → part.last_replica_id ≤ next.last_replica_id
    → next.id ≡ part.id
    → Turn q (set_partition q pid next) pid name v
set_partition-Turn q pid part next name v there only grows same = record {
  at = λ i k. elim (Bool-cases (pid == i)) [
    | inl e ↦
        let key : pid ≡ i = (nat_eq.beq_iff pid i).0 e in
        let before : replica_at q i k ≡ lookup k part.replicas =
          subst (λ x. replica_at q x k ≡ lookup k part.replicas) key
            (replica_at-some q pid k part there) in
        let after : replica_at (set_partition q pid next) i k ≡ lookup k next.replicas =
          replica_at-some (set_partition q pid next) i k next
            (lookup-insert pid i next q.items ∙ (rw e refl)) in
        after ∙ (rw (e, before) (only k))
    | inr e ↦ rw (e) (
        replica_at-same (set_partition q pid next) q i k
          (lookup-insert pid i next q.items ∙ (rw e refl)))
  ];
  last = λ i. elim (Bool-cases (pid == i)) [
    | inl e ↦
        let key : pid ≡ i = (nat_eq.beq_iff pid i).0 e in
        let here : lookup i q.items ≡ some part =
          subst (λ x. lookup x q.items ≡ some part) key there in
        ground (arith, here, grows, lookup-insert pid i next q.items)
    | inr e ↦ ground (arith, lookup-insert pid i next q.items)
  ];
  own = λ own i p found. elim (Bool-cases (pid == i)) [
    | inl e ↦
        let key : pid ≡ i = (nat_eq.beq_iff pid i).0 e in
        let mine : part.id ≡ pid = own pid part there in
        let equal : next ≡ p = ground (arith, lookup-insert pid i next q.items) in
        subst (λ (x : Partition). x.id ≡ i) equal (same ∙ (mine ∙ key))
    | inr e ↦ own i p (ground (arith, lookup-insert pid i next q.items))
  ];
}

-- A fact on what stands at a place outlives a turn if it holds of what the turn puts there.
pub at-keep :
    {q r : Partitions} {pid : ℕ} {name : Bytes} {v : Option Replica} (P : Option Replica → Type 0)
    (i : ℕ) (k : Bytes)
    → Turn q r pid name v
    → (pid ≡ i → name ≡ k → P v)
    → P (replica_at q i k)
    → P (replica_at r i k)
at-keep {q} {r} {pid} {name} {v} P i k t hit h = elim (Bool-cases (pid == i)) [
  | inr e ↦ subst P (sym (t.at i k ∙ (rw e refl))) h
  | inl e ↦ elim (Bool-cases (name == k)) [
    | inr f ↦ subst P (sym (t.at i k ∙ (rw (e, f) refl))) h
    | inl f ↦
        subst P (sym (t.at i k ∙ (rw (e, f) refl)))
          (hit ((nat_eq.beq_iff pid i).0 e) ((bytes_eq.beq_iff name k).0 f))
  ]
]

-- What the turn puts at its own place.
pub Turn-own :
    {q r : Partitions} {pid : ℕ} {name : Bytes} {v : Option Replica}
    → Turn q r pid name v
    → replica_at r pid name ≡ v
Turn-own {q} {r} {pid} {name} {v} t = t.at pid name ∙ (rw (beq_refl pid, beq_refl name) refl)

-- The turns of the four loops.
abbrev pub new_name : Partitions → ℕ → Bytes
new_name q pid = replica_name pid (last_of q pid + 1)

abbrev pub Owned : Partitions → Type 0
Owned q = (i : ℕ) (part : Partition) → lookup i q.items ≡ some part → part.id ≡ i

pub add_one-Turn :
    (now : ℕ) (q : Partitions) (x : Add)
    → Owned q
    → Whenever (add_one now q x) (λ r.
      (new : Replica) × Turn q r x.partition_id (new_name q x.partition_id) (some new)
      × (new.state ≡ ReplicaState.joining)
      × (new.server_id ≡ x.server_id)
      × (last_of r x.partition_id ≡ last_of q x.partition_id + 1))
unfolding add_one
add_one-Turn now q x own =
    let pid = x.partition_id in
    Whenever-bind _ Added (get_partition q pid) _ (get_partition-Whenever q pid) (λ part there.
      let next = with_replica ReplicaState.joining now x.server_id part in
      let new : Replica = record {
        name = replica_name part.id (part.last_replica_id + 1);
        server_id = x.server_id;
        state = ReplicaState.joining;
        created_time = now;
        state_transition_time = now;
        last_update = 0;
        applied_index = 0;
        ready = false;
      } in
      let number : last_of q pid ≡ part.last_replica_id = rw (last_of, there) refl in
      let name : replica_name part.id (part.last_replica_id + 1) ≡ new_name q pid =
        rw (own pid part there, number) refl in
      let turn =
        set_partition-Turn q pid part next new.name (some new) there
          (λ k. lookup-insert new.name k new part.replicas) (omega arith) refl in
      (
        new,
        subst (λ n. Turn q (set_partition q pid next) pid n (some new)) name turn,
        refl,
        refl,
        ground (arith, lookup-insert pid pid next q.items, beq_refl pid),
      ))
  where
    Added : Partitions → Type 0
    Added r =
        (new : Replica) × Turn q r x.partition_id (new_name q x.partition_id) (some new)
        × (new.state ≡ ReplicaState.joining)
        × (new.server_id ≡ x.server_id)
        × (last_of r x.partition_id ≡ last_of q x.partition_id + 1)

pub update_one-Turn :
    (now : ℕ) (q : Partitions) (x : Update)
    → Whenever (update_one now q x) (λ r.
      (old : Replica) × (new : Replica) × (replica_at q x.partition_id x.replica ≡ some old)
      × Turn q r x.partition_id x.replica (some new)
      × (new.state ≡ x.state)
      × (new.server_id ≡ old.server_id))
unfolding update_one
update_one-Turn now q x =
    let Q : Partitions → Type 0 = λ r.
      (old : Replica) × (new : Replica) × (replica_at q x.partition_id x.replica ≡ some old)
      × Turn q r x.partition_id x.replica (some new)
      × (new.state ≡ x.state)
      × (new.server_id ≡ old.server_id) in
    Whenever-bind _ Q (get_partition q x.partition_id) _ (get_partition-Whenever q x.partition_id)
      (λ part there.
        Whenever-bind _ Q (get_replica part x.replica) _ (get_replica-Whenever part x.replica)
          (λ old found. (
            old,
            record old { state = x.state; state_transition_time = now },
            replica_at-some q x.partition_id x.replica part there ∙ found,
            set_partition-Turn q x.partition_id part _ x.replica _ there
                (λ k. lookup-insert x.replica k _ part.replicas) (omega arith) refl,
            refl,
            refl,
          )))

pub remove_one-Turn :
    (q : Partitions) (x : Remove)
    → Whenever (remove_one q x) (λ r. Turn q r x.partition_id x.replica none)
unfolding remove_one
remove_one-Turn q x =
    Whenever-bind _ (λ r. Turn q r x.partition_id x.replica none) (get_partition q x.partition_id) _
      (get_partition-Whenever q x.partition_id)
      (λ part there.
        set_partition-Turn q x.partition_id part _ x.replica none there
          (λ k. lookup-delete x.replica k part.replicas) (omega arith) refl)

-- A new version of a partition changes no replica.
pub bump_one-Turn :
    (q : Partitions) (pid : ℕ)
    → Whenever (bump_one q pid) (λ r. Turn q r pid [] (replica_at q pid []))
unfolding bump_one
bump_one-Turn q pid =
    Whenever-bind _ (λ r. Turn q r pid [] (replica_at q pid [])) (get_partition q pid) _
      (get_partition-Whenever q pid)
      (λ part there.
        set_partition-Turn q pid part
          (record part { assignments_version = part.assignments_version + 1 }) []
          (replica_at q pid []) there (bumped part there) (omega arith) refl)
  where
    bumped :
        (part : Partition)
        → lookup pid q.items ≡ some part
        → (k : Bytes)
        → lookup k part.replicas ≡ (if [] == k then replica_at q pid [] else lookup k part.replicas)
    bumped part there k = elim (Bool-cases ([] == k)) [
      | inr e ↦ rw e refl
      | inl e ↦
          let key : [] ≡ k = (bytes_eq.beq_iff [] k).0 e in
          rw e (sym (replica_at-some q pid [] part there ∙ ap (λ n. lookup n part.replicas) key))
    ]
