-- ===== src/Control/Fsm/Invariant.antt =====
-- The well-formed state of a cluster: every partition below the count is there, replicas carry the
-- numbered names of their partition and stand on registered data servers, and servers carry
-- identifiers up to the last one.
pub mod Assign
pub mod Members
pub mod Init
pub mod Register
pub mod Status
pub mod Run
use scout.Base.{
  ℕ, ◌≡◌, ◌≢◌, ◌≤◌, ◌<◌, ◌+◌, refl, Bool, true, false, Option, none, some, List, [], ◌∷◌, arith,
  inl, inr, Bool-cases, Option-cases, ◌==◌, nat_eq, subst, sym, if◌then◌else◌,
}
use scout.Base.Lists.{All, All-mono, Pairwise}
use scout.Base.Maps.{
  Map, lookup, insert, delete, lookup-insert, All-insert, All-delete, All-lookup, IsMap,
  insert-IsMap, delete-IsMap,
}
use scout.Base.Bytes.{Bytes, bytes_eq}
use scout.Control.{ReplicaState, Server, Servers, Replica, Partition, Partitions}
use scout.Control.Names.{replica_name}
use scout.Control.Results.{Result, ok, err, Ensures, Ensures-bind, ◌>>=◌}
use scout.Control.Fsm.{Cluster, Fsm, is_valid_data_server, get_partition, get_replica}
use scout.Control.Fsm.Assignments.{set_partition, with_replica, each_of, has_replica}

pub record IsServers (s : Servers) : Type 0 where
  pub ids : All (λ (e : ℕ × Server). (e.1.id ≡ e.0) × (e.0 ≤ s.last_id)) s.items
  pub tokens : All (λ (e : Bytes × ℕ). lookup e.1 s.items ≢ none) s.tokens

-- A replica of the partition `pid`, whose last number is `last`.
pub record IsReplica (s : Servers) (pid last : ℕ) (e : Bytes × Replica) : Type 0 where
  pub named : e.1.name ≡ e.0
  pub numbered : (n : ℕ) × (n ≤ last) × (e.0 ≡ replica_name pid n)
  pub placed : is_valid_data_server s e.1.server_id ≡ true

pub record IsPartition (s : Servers) (count : ℕ) (e : ℕ × Partition) : Type 0 where
  pub own : e.1.id ≡ e.0
  pub below : e.0 < count
  pub keys : IsMap e.1.replicas
  pub replicas : All (IsReplica s e.1.id e.1.last_replica_id) e.1.replicas

pub record IsPartitions (s : Servers) (count : ℕ) (p : Partitions) : Type 0 where
  pub items : All (IsPartition s count) p.items
  pub dense : (pid : ℕ) → pid < count → lookup pid p.items ≢ none

pub record IsCluster (count : ℕ) (c : Cluster) : Type 0 where
  pub servers : IsServers c.servers
  pub partitions : IsPartitions c.servers count c.partitions

pub get_partition-Ensures :
    {s : Servers} {count : ℕ} (p : Partitions) (pid : ℕ)
    → IsPartitions s count p
    → pid < count
    → Ensures
        (get_partition p pid)
        (λ part. (lookup pid p.items ≡ some part) × IsPartition s count (pid, part))
unfolding get_partition
get_partition-Ensures {s} {count} p pid v low = elim (Option-cases (lookup pid p.items)) [
  | inl e ↦ absurd (v.dense pid low e)
  | inr (part, e) ↦
      rw (e, get_partition) (refl, All-lookup (IsPartition s count) pid part p.items e v.items)
]

pub set_partition-IsPartitions :
    {s : Servers} {count : ℕ} (p : Partitions) (pid : ℕ) (part : Partition)
    → IsPartitions s count p
    → IsPartition s count (pid, part)
    → IsPartitions s count (set_partition p pid part)
set_partition-IsPartitions {s} {count} p pid part v new = record {
  items = All-insert (IsPartition s count) pid part p.items new v.items;
  dense = λ q low absent. v.dense q low (ground (arith, lookup-insert pid q part p.items));
}

pub with_replica-IsPartition :
    {s : Servers} {count pid : ℕ} (state : ReplicaState) (now server_id : ℕ) (part : Partition)
    → IsPartition s count (pid, part)
    → is_valid_data_server s server_id ≡ true
    → IsPartition s count (pid, with_replica state now server_id part)
with_replica-IsPartition {s} state now server_id part v placed = record {
  own = v.own;
  below = v.below;
  keys = insert-IsMap _ _ _ v.keys;
  replicas =
      All-insert (IsReplica s part.id (part.last_replica_id + 1)) _ _ part.replicas
        (record {
          named = refl;
          numbered = (part.last_replica_id + 1, omega arith, refl);
          placed = placed;
        })
        (All-mono
          (λ (e : Bytes × Replica) (r : IsReplica s part.id part.last_replica_id e). record {
            named = r.named;
            numbered = (r.numbered.0, omega (arith, r.numbered.1), r.numbered.2);
            placed = r.placed;
          })
          part.replicas v.replicas);
}

-- Whether a replica is there.
abbrev pub has_in : Partitions → ℕ → Bytes → Bool
has_in p pid name = elim (lookup pid p.items) [ none ↦ false | some part ↦ has_replica part name ]

-- No replica of the first state is missing from the second.
abbrev pub Keeps : Partitions → Partitions → Type 0
Keeps p q = (pid : ℕ) (name : Bytes) → has_in p pid name ≡ true → has_in q pid name ≡ true

pub set_partition-Keeps :
    (p : Partitions) (pid : ℕ) (part : Partition) (key : Bytes) (r : Replica) (next : Partition)
    → lookup pid p.items ≡ some part
    → next.replicas ≡ insert key r part.replicas
    → Keeps p (set_partition p pid next)
set_partition-Keeps p pid part key r next e f q name h = ground (
  arith,
  lookup-insert pid q next p.items,
  lookup-insert key name r part.replicas,
  nat_eq.beq_iff pid q,
)

pub each_of-Ensures {ℓ} :
    {X : Type ℓ} (turn : Partitions → X → Result Partitions) (Q : Partitions → Type 0)
    (R : X → Type 0)
    → ((p : Partitions) (x : X) → Q p → R x → Ensures (turn p x) Q)
    → (p : Partitions) (xs : List X) → Q p
    → All R xs
    → Ensures (each_of turn p xs) Q
unfolding each_of
each_of-Ensures turn Q R keep p [] q r = q
each_of-Ensures turn Q R keep p (x ∷ xs) q r =
    Ensures-bind Q Q (turn p x) (λ next. each_of turn next xs) (keep p x q r.0)
      (λ next q'. each_of-Ensures turn Q R keep next xs q' r.1)

-- The versions and the imbalance play no part.
pub stamped-IsCluster :
    {count : ℕ} (c : Cluster) (p : Partitions) (imbalance assignments version : ℕ)
    → IsCluster count c
    → IsPartitions c.servers count p
    → IsCluster count (record c {
      partitions = record p {
        max_imbalance = imbalance;
        assignments_version = assignments;
        version = version;
      };
    })
stamped-IsCluster c p imbalance assignments version v w = record {
  servers = v.servers;
  partitions = record { items = w.items; dense = w.dense };
}
