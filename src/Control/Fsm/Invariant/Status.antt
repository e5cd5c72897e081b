-- ===== src/Control/Fsm/Invariant/Status.antt =====
-- The reports of status keep the cluster well formed
-- (internal/control/server/storage/fsm_update_status.go).
use scout.Base.{
  ℕ, ◌≡◌, ◌≤◌, ◌<◌, ◌+◌, Bool, true, false, [], ◌∷◌, arith, inl, inr, Option-cases, nat_eq,
  if◌then◌else◌,
}
use scout.Base.Lists.{All, All-mono}
use scout.Base.Maps.{
  Map, lookup, insert, lookup-insert, All-insert, All-lookup, IsMap, insert-IsMap,
}
use scout.Base.Bytes.{Bytes, bytes_eq}
use scout.Control.{Server, Servers, Replica, Partition, Partitions}
use scout.Control.Results.{Ensures, Ensures-bind}
use scout.Control.Fsm.{
  Cluster, ServerStatus, ReplicaStatus, PartitionStatus, UpdateStatus, get_partition,
}
use scout.Control.Fsm.Assignments.{set_partition, is_empty_list}
use scout.Control.Fsm.Members.{
  server_statuses, replica_statuses, partition_statuses, apply_update_status,
}
use scout.Control.Fsm.Invariant.{
  IsServers, IsReplica, IsPartition, IsPartitions, IsCluster, get_partition-Ensures,
  set_partition-IsPartitions,
}
use scout.Control.Fsm.Invariant.Members.{Extends, IsPartitions-mono, present-of_Extends}

abbrev GoodId : Servers → ℕ × Server → Type 0
GoodId s p = (p.1.id ≡ p.0) × (p.0 ≤ s.last_id)

-- Entries keep their numbers and types, and none is lost.
server_statuses-keep :
    (s : Servers) (items : Map ℕ Server) (xs : Map ℕ ServerStatus)
    → All (GoodId s) items
    → All (GoodId s) (server_statuses items xs) × Extends items (server_statuses items xs)
unfolding server_statuses
server_statuses-keep s items [] v = (v, λ k t h. h)
server_statuses-keep s items ((id, u) ∷ xs) v = elim (Option-cases (lookup id items)) [
  | inl e ↦ rw e (server_statuses-keep s items xs v)
  | inr (server, e) ↦
      let next =
        insert id (record server { last_seen = u.last_seen; last_address = u.last_address })
          items in
      let rest =
        server_statuses-keep s next xs
          (All-insert (GoodId s) id _ items (All-lookup (GoodId s) id server items e v) v) in
      rw e (
        rest.0,
        λ k t h. rest.1 k t (
            ground (
              arith,
              lookup-insert id k
                  (record server { last_seen = u.last_seen; last_address = u.last_address }) items,
              nat_eq.beq_iff id k,
            )),
      )
]

replica_statuses-keep :
    (s : Servers) (pid last : ℕ) (replicas : Map Bytes Replica) (xs : Map Bytes ReplicaStatus)
    → IsMap replicas
    → All (IsReplica s pid last) replicas
    → IsMap (replica_statuses replicas xs)
      × All (IsReplica s pid last) (replica_statuses replicas xs)
unfolding replica_statuses
replica_statuses-keep s pid last replicas [] k v = (k, v)
replica_statuses-keep s pid last replicas ((name, u) ∷ xs) k v =
    elim (Option-cases (lookup name replicas)) [
      | inl e ↦ rw e (replica_statuses-keep s pid last replicas xs k v)
      | inr (r, e) ↦
          let old = All-lookup (IsReplica s pid last) name r replicas e v in
          let next =
            insert name
              (record r {
                last_update = u.last_update;
                applied_index = u.applied_index;
                ready = u.ready;
              })
              replicas in
          let good : All (IsReplica s pid last) next =
            All-insert (IsReplica s pid last) name _ replicas
              (record { named = old.named; numbered = old.numbered; placed = old.placed }) v in
          rw e (replica_statuses-keep s pid last next xs (insert-IsMap _ _ _ k) good)
    ]

abbrev reported : Partition → PartitionStatus → Partition
reported part u = record part {
  leader = u.leader;
  leader_term = u.leader_term;
  leader_applied_index = u.leader_applied_index;
  commited_index = u.commited_index;
  replicas = replica_statuses part.replicas u.replicas;
}

partition_statuses-Ensures :
    (s : Servers) (count : ℕ) (p : Partitions) (xs : Map ℕ PartitionStatus)
    → IsPartitions s count p
    → All (λ (x : ℕ × PartitionStatus). x.0 < count) xs
    → Ensures (partition_statuses p xs) (IsPartitions s count)
unfolding partition_statuses
partition_statuses-Ensures s count p [] v h = v
partition_statuses-Ensures s count p ((pid, u) ∷ xs) v h =
    Ensures-bind _ (IsPartitions s count) (get_partition p pid) _
      (get_partition-Ensures p pid v h.0)
      (λ part w.
        let kept =
          replica_statuses-keep s part.id part.last_replica_id part.replicas u.replicas w.1.keys
            w.1.replicas in
        let good : IsPartition s count (pid, reported part u) = record {
          own = w.1.own;
          below = w.1.below;
          keys = kept.0;
          replicas = kept.1;
        } in
        partition_statuses-Ensures s count (set_partition p pid (reported part u)) xs
          (set_partition-IsPartitions p pid (reported part u) v good) h.1)

stamped_if-IsCluster :
    {count : ℕ} (a b : Bool) (s : Servers) (p : Partitions)
    → IsServers s
    → IsPartitions s count p
    → IsCluster count (record {
      servers = if a then s else record s { version = s.version + 1 };
      partitions = if b then p else record p { version = p.version + 1 };
    })
stamped_if-IsCluster true true s p v w = record { servers = v; partitions = w }
stamped_if-IsCluster true false s p v w = record {
  servers = v;
  partitions = record { items = w.items; dense = w.dense };
}
stamped_if-IsCluster false true s p v w = record {
  servers = record { ids = v.ids; tokens = v.tokens };
  partitions = IsPartitions-mono s (record s { version = s.version + 1 }) p (λ k t h. h) w;
}
stamped_if-IsCluster false false s p v w =
    let t = record s { version = s.version + 1 } in
    let w' = IsPartitions-mono s t p (λ k t h. h) w in
    record {
      servers = record { ids = v.ids; tokens = v.tokens };
      partitions = record { items = w'.items; dense = w'.dense };
    }

-- The reports name partitions of the cluster.
abbrev pub Reports : ℕ → UpdateStatus → Type 0
Reports count x = All (λ (e : ℕ × PartitionStatus). e.0 < count) x.partitions

pub apply_update_status-Ensures :
    (count : ℕ) (c : Cluster) (cmd : UpdateStatus)
    → IsCluster count c
    → Reports count cmd
    → Ensures (apply_update_status c cmd) (IsCluster count)
unfolding apply_update_status
apply_update_status-Ensures count c cmd v h =
    let s = record c.servers { items = server_statuses c.servers.items cmd.servers } in
    Ensures-bind (IsPartitions c.servers count) (IsCluster count)
      (partition_statuses c.partitions cmd.partitions) _
      (partition_statuses-Ensures c.servers count c.partitions cmd.partitions v.partitions h)
      (λ p w.
        let kept = server_statuses-keep c.servers c.servers.items cmd.servers v.servers.ids in
        let servers : IsServers s = record {
          ids = kept.0;
          tokens =
              All-mono
                (λ (e : Bytes × ℕ) there.
                  present-of_Extends e.1 c.servers.items s.items kept.1 there)
                c.servers.tokens v.servers.tokens;
        } in
        let partitions : IsPartitions s count p = IsPartitions-mono c.servers s p kept.1 w in
        stamped_if-IsCluster (is_empty_list cmd.servers) (is_empty_list cmd.partitions) s p servers
          partitions)
