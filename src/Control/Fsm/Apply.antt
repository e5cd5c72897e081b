-- ===== src/Control/Fsm/Apply.antt =====
-- `Apply`, `applyCommand`, `Restore` and `Cluster` of internal/control/server/storage/fsm.go.
use scout.Base.{ℕ, ◌+◌, not, ◌&&◌, Option, none, some, if◌then◌else◌, ◌==◌, nat_eq}
use scout.Base.Bytes.{Bytes}
use scout.Control.Results.{
  Result, ok, err, ◌>>=◌, ◌>>◌, refuse_if, failed_precondition, panic, is_panic,
}
use scout.Control.Fsm.{
  Cluster, Fsm, UpdateStatus, Command, Payload, bootstrap, register, update_status,
  init_assignments, update_assignments, Response, bootstrapped, registered, updated, status_updated,
}
use scout.Control.Fsm.Assignments.{apply_init_assignments, apply_update_assignments, is_empty_list}
use scout.Control.Fsm.Members.{apply_bootstrap, apply_register, apply_update_status}

-- A command that needs the cluster reads it through a nil pointer before the bootstrap.
abbrev pub get_cluster : Fsm → Result Cluster
get_cluster f = elim f.cluster [ none ↦ err panic | some c ↦ ok c ]

-- A report about nothing touches no field of the cluster.
unfoldable pub status_command : Fsm → UpdateStatus → Result Fsm
status_command f x =
    if is_empty_list x.servers && is_empty_list x.partitions
    then ok f
    else (get_cluster f >>= λ c.
        apply_update_status c x >>= λ next. ok (record f { cluster = some next }))

-- The `switch` of `applyCommand`.
unfoldable pub apply_payload : ℕ → Fsm → Payload → Result (Fsm × Response)
apply_payload now f (bootstrap x) =
    let (next, success) = apply_bootstrap now f x in ok (next, bootstrapped success)
apply_payload now f (register x) = do
  c ← get_cluster f
  (s, id, name) ← apply_register now c.servers x
  ok (record f { cluster = some (record c { servers = s }) }, registered id name)
apply_payload now f (update_status x) = do next ← status_command f x; ok (next, status_updated)
apply_payload now f (init_assignments x) = do
  c ← get_cluster f
  (next, version) ← apply_init_assignments f.partition_count now c x
  ok (record f { cluster = some next }, updated version)
apply_payload now f (update_assignments x) = do
  c ← get_cluster f
  (next, version) ← apply_update_assignments f.partition_count now c x
  ok (record f { cluster = some next }, updated version)

unfoldable pub apply_command : ℕ → Fsm → Command → Result (Fsm × Response)
apply_command now f cmd = do
  refuse_if (not (cmd.if_match == 0) && not (cmd.if_match == f.version)) failed_precondition
  (next, response) ← apply_payload now f cmd.payload
  ok (record next { version = next.version + 1 }, response)

-- `Apply` of a command that can be decoded: a refused command changes the index only; `none` is a
-- panic.
unfoldable pub apply : ℕ → ℕ → Fsm → Command → Option (Fsm × Result Response)
apply index now f cmd = elim (apply_command now f cmd) [
  | ok (next, response) ↦ some (record next { index = index }, ok response)
  | err e ↦ if is_panic e then none else some (record f { index = index }, err e)
]

-- What `Cluster` returns and `Snapshot` writes; `Restore` takes its fields back.
pub record Snapshot : Type 0 where
  pub index : ℕ
  pub version : ℕ
  pub name : Bytes
  pub created_time : ℕ
  pub cluster : Option Cluster
  pub partition_count : ℕ

unfoldable pub snapshot : Fsm → Snapshot
snapshot f = record {
  index = f.index;
  version = f.version;
  name = f.cluster_name;
  created_time = f.created_time;
  cluster = f.cluster;
  partition_count = f.partition_count;
}

unfoldable pub restore : Fsm → Snapshot → Fsm
restore f c = record f {
  version = c.version;
  index = c.index;
  cluster_name = c.name;
  created_time = c.created_time;
  cluster = c.cluster;
  partition_count = c.partition_count;
}
