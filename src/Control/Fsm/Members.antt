-- ===== src/Control/Fsm/Members.antt =====
-- The bootstrap, the registration of servers and the reports of their status:
-- internal/control/server/storage/fsm_bootstrap.go, fsm_register.go and fsm_update_status.go.
use scout.Base.{
  ℕ, ◌≡◌, refl, zero, suc, ◌+◌, ◌*◌, Bool, true, false, not, none, some, List, [], ◌∷◌,
  if◌then◌else◌, nat_eq, ltb, max,
}
use scout.Base.Maps.{Map, lookup, insert}
use scout.Base.Bytes.{Bytes, bytes_eq}
use scout.Control.{ServerType, Server, Servers, Replica, Partition, Partitions}
use scout.Control.Names.{server_name}
use scout.Control.Results.{Result, ok, err, ◌>>=◌, token_expired, panic}
use scout.Control.Fsm.{
  Cluster, Fsm, BootstrapServer, Bootstrap, Register, ServerStatus, ReplicaStatus, PartitionStatus,
  UpdateStatus, get_partition,
}
use scout.Control.Fsm.Assignments.{set_partition, is_empty_list}

-- The loop over the servers of `applyBootstrap`, one turn and the whole.
abbrev pub with_server : ℕ → Servers → BootstrapServer → Servers
with_server now s x = record s {
  last_id = max s.last_id x.id;
  items =
      insert x.id
        (record {
          id = x.id;
          name = x.name;
          type = ServerType.control_server;
          tags = x.tags;
          registered_at = now;
          last_seen = now;
          last_address = x.address;
        })
        s.items;
}

unfoldable pub bootstrap_servers : ℕ → Servers → List BootstrapServer → Servers
bootstrap_servers now s [] = s
bootstrap_servers now s (x ∷ rest) = bootstrap_servers now (with_server now s x) rest

abbrev pub new_partition : ℕ → Partition
new_partition pid = record {
  id = pid;
  replicas = [];
  last_replica_id = 0;
  assignments_version = 0;
  leader = [];
  leader_term = 0;
  leader_applied_index = 0;
  commited_index = 0;
}

-- The loop over the partitions below `n`.
unfoldable pub bootstrap_partitions : ℕ → Map ℕ Partition
bootstrap_partitions zero = []
bootstrap_partitions (suc pid) = insert pid (new_partition pid) (bootstrap_partitions pid)

-- The new state, and whether the cluster was bootstrapped by this command.
unfoldable pub apply_bootstrap : ℕ → Fsm → Bootstrap → Fsm × Bool
apply_bootstrap now f cmd = if not (is_empty_list f.cluster_name) then (f, false) else (
  record f {
    cluster_name = cmd.cluster_name;
    created_time = now;
    partition_count = cmd.partition_count;
    cluster = some (record {
      servers =
          bootstrap_servers now
            (record { version = 1; register_version = 1; items = []; last_id = 0; tokens = [] })
            cmd.servers;
      partitions = record {
        version = 0;
        assignments_version = 0;
        items = bootstrap_partitions cmd.partition_count;
        max_imbalance = 0;
      };
    });
  },
  true,
)

-- 2 days, in nanoseconds.
abbrev pub token_validity_window : ℕ
token_validity_window = 2 * 24 * 3600 * 1000000000

-- `registeredAt.Before(appendedAt.Add(-tokenValidityWindow))`.
abbrev pub is_expired : ℕ → Server → Bool
is_expired now server = ltb (server.registered_at + token_validity_window) now

unfoldable pub apply_register : ℕ → Servers → Register → Result (Servers × ℕ × Bytes)
apply_register now s cmd = elim (lookup cmd.token s.tokens) [
  | some id ↦ elim (lookup id s.items) [
    | none ↦ err panic
    | some server ↦ if is_expired now server then err token_expired else ok (s, id, server.name)
  ]
  | none ↦
      let id = s.last_id + 1 in
      let name = server_name cmd.type id in
      ok (
        record s {
          last_id = id;
          items =
              insert id
                (record {
                  id = id;
                  name = name;
                  type = cmd.type;
                  tags = cmd.tags;
                  registered_at = now;
                  last_seen = now;
                  last_address = cmd.address;
                })
                s.items;
          tokens = insert cmd.token id s.tokens;
          register_version = s.register_version + 1;
          version = s.version + 1;
        },
        id,
        name,
      )
]

-- The loop over the servers of `applyUpdateStatus`.
unfoldable pub server_statuses : Map ℕ Server → Map ℕ ServerStatus → Map ℕ Server
server_statuses items [] = items
server_statuses items ((id, u) ∷ rest) =
    server_statuses
      (elim (lookup id items) [
        | none ↦ items
        | some server ↦
            insert id (record server { last_seen = u.last_seen; last_address = u.last_address })
              items
      ])
      rest

unfoldable pub replica_statuses : Map Bytes Replica → Map Bytes ReplicaStatus → Map Bytes Replica
replica_statuses replicas [] = replicas
replica_statuses replicas ((name, u) ∷ rest) =
    replica_statuses
      (elim (lookup name replicas) [
        | none ↦ replicas
        | some r ↦
            insert name
              (record r {
                last_update = u.last_update;
                applied_index = u.applied_index;
                ready = u.ready;
              })
              replicas
      ])
      rest

-- The loop over the partitions: a partition that is not there is written through a nil pointer.
unfoldable pub partition_statuses : Partitions → Map ℕ PartitionStatus → Result Partitions
partition_statuses p [] = ok p
partition_statuses p ((pid, u) ∷ rest) = do
  part ← get_partition p pid
  partition_statuses
      (set_partition p pid (record part {
        leader = u.leader;
        leader_term = u.leader_term;
        leader_applied_index = u.leader_applied_index;
        commited_index = u.commited_index;
        replicas = replica_statuses part.replicas u.replicas;
      }))
      rest

unfoldable pub apply_update_status : Cluster → UpdateStatus → Result Cluster
apply_update_status c cmd = do
  p ← partition_statuses c.partitions cmd.partitions
  let s = record c.servers { items = server_statuses c.servers.items cmd.servers }
  ok (record {
    servers = if is_empty_list cmd.servers then s else record s { version = s.version + 1 };
    partitions = if is_empty_list cmd.partitions then p else record p { version = p.version + 1 };
  })

-- Only the first bootstrap has an effect.
pub apply_bootstrap_named :
    (now : ℕ) (f : Fsm) (cmd : Bootstrap)
    → is_empty_list f.cluster_name ≡ false
    → apply_bootstrap now f cmd ≡ (f, false)
unfolding apply_bootstrap
apply_bootstrap_named now f cmd h = rw (h, apply_bootstrap) refl
