-- ===== src/Control/Fsm.antt =====
-- The state machine of the control plane: internal/control/server/storage/fsm.go and the commands of
-- internal/control/server/storage/storage.proto. `FSM.servers` and `FSM.partitions` are set together,
-- so they are one field `cluster`, which is `none` before the bootstrap. The meters, the lock and the
-- notification of the store are left out.
pub mod Assignments
pub mod Members
pub mod Apply
pub mod Invariant
pub mod Versions
pub mod Covered
pub mod Stamps
pub mod Edges
pub mod Repeats
mod Tests
use scout.Base.{ℕ, Bool, Option, none, some, List, [], ◌∷◌, ◌==◌, nat_eq, ltb, if◌then◌else◌, false}
use scout.Base.Maps.{Map, lookup}
use scout.Base.Bytes.{Bytes, bytes_eq}
use scout.Control.{ServerType, ReplicaState, Servers, Partitions, Partition, Replica, is_data_type}
use scout.Control.Results.{Result, ok, err, panic}

pub record Cluster : Type 0 where
  pub servers : Servers
  pub partitions : Partitions

pub record Fsm : Type 0 where
  pub index : ℕ
  pub version : ℕ
  pub cluster_name : Bytes
  pub created_time : ℕ
  pub partition_count : ℕ
  pub cluster : Option Cluster

abbrev pub new_fsm : Fsm
new_fsm = record {
  index = 0;
  version = 0;
  cluster_name = [];
  created_time = 0;
  partition_count = 0;
  cluster = none;
}

pub record BootstrapServer : Type 0 where
  pub id : ℕ
  pub name : Bytes
  pub address : Bytes
  pub tags : List Bytes

pub record Bootstrap : Type 0 where
  pub cluster_name : Bytes
  pub servers : List BootstrapServer
  pub partition_count : ℕ

pub record Register : Type 0 where
  pub type : ServerType
  pub token : Bytes
  pub address : Bytes
  pub tags : List Bytes

pub record ServerStatus : Type 0 where
  pub last_seen : ℕ
  pub last_address : Bytes

pub record ReplicaStatus : Type 0 where
  pub last_update : ℕ
  pub applied_index : ℕ
  pub ready : Bool

pub record PartitionStatus : Type 0 where
  pub replicas : Map Bytes ReplicaStatus
  pub leader : Bytes
  pub leader_term : ℕ
  pub leader_applied_index : ℕ
  pub commited_index : ℕ

pub record UpdateStatus : Type 0 where
  pub servers : Map ℕ ServerStatus
  pub partitions : Map ℕ PartitionStatus

pub record InitAdd : Type 0 where
  pub partition_id : ℕ
  pub server_id : ℕ
  pub voter : Bool

pub record InitAssignments : Type 0 where
  pub add : List InitAdd
  pub max_imbalance : ℕ

pub record Add : Type 0 where
  pub partition_id : ℕ
  pub server_id : ℕ

pub record Update : Type 0 where
  pub partition_id : ℕ
  pub replica : Bytes
  pub state : ReplicaState

pub record Remove : Type 0 where
  pub partition_id : ℕ
  pub replica : Bytes

pub record UpdateAssignments : Type 0 where
  pub if_match : ℕ
  pub add : List Add
  pub update : List Update
  pub remove : List Remove
  pub max_imbalance : ℕ

pub data Payload : Type 0 where
  bootstrap : Bootstrap → Payload
  register : Register → Payload
  update_status : UpdateStatus → Payload
  init_assignments : InitAssignments → Payload
  update_assignments : UpdateAssignments → Payload

pub record Command : Type 0 where
  pub if_match : ℕ
  pub payload : Payload

-- The results of the commands: whether the bootstrap was the first, the identifier and the name of
-- a server, the new version of the assignments, and nothing.
pub data Response : Type 0 where
  bootstrapped : Bool → Response
  registered : ℕ → Bytes → Response
  updated : ℕ → Response
  status_updated : Response

-- `isValidDataServer` and `isValidPartitionID`.
abbrev pub is_valid_data_server : Servers → ℕ → Bool
is_valid_data_server s server_id = elim (lookup server_id s.items) [
  | none ↦ false
  | some server ↦ is_data_type server.type
]

abbrev pub is_valid_partition_id : ℕ → ℕ → Bool
is_valid_partition_id count pid = ltb pid count

-- `f.partitions.Items[pid]`, before a field of it is read or written.
unfoldable pub get_partition : Partitions → ℕ → Result Partition
get_partition p pid = elim (lookup pid p.items) [ none ↦ err panic | some part ↦ ok part ]

-- `getReplica`, before a field of it is read or written.
unfoldable pub get_replica : Partition → Bytes → Result Replica
get_replica part name = elim (lookup name part.replicas) [ none ↦ err panic | some r ↦ ok r ]
