-- ===== src/Control.antt =====
-- The state of the cluster that the control plane keeps: the messages of
-- internal/control/control.proto, and their counters in internal/control/control.go. Counters of 64
-- bits grow by one for each command and are numbers without a bound here. Times are nanoseconds.
pub mod Results
pub mod Names
pub mod Counts
pub mod Fsm
pub mod Messages
use scout.Base.{
  ℕ, suc, Bool, true, false, ◌||◌, Option, none, some, List, [], ◌∷◌, if◌then◌else◌, ◌==◌, nat_eq,
  ltb,
}
use scout.Base.Maps.{Map}
use scout.Base.Bytes.{Bytes}

pub data ServerType : Type 0 where
  unknown control_server data_server api_server : ServerType

pub data ReplicaState : Type 0 where
  stopped joining voter non_voter leaving : ReplicaState

pub record Server : Type 0 where
  pub id : ℕ
  pub name : Bytes
  pub type : ServerType
  pub tags : List Bytes
  pub registered_at : ℕ
  pub last_seen : ℕ
  pub last_address : Bytes

pub record Servers : Type 0 where
  pub version : ℕ
  pub register_version : ℕ
  pub items : Map ℕ Server
  pub last_id : ℕ
  pub tokens : Map Bytes ℕ

pub record Replica : Type 0 where
  pub name : Bytes
  pub server_id : ℕ
  pub state : ReplicaState
  pub created_time : ℕ
  pub state_transition_time : ℕ
  pub last_update : ℕ
  pub applied_index : ℕ
  pub ready : Bool

pub record Partition : Type 0 where
  pub id : ℕ
  pub replicas : Map Bytes Replica
  pub last_replica_id : ℕ
  pub assignments_version : ℕ
  pub leader : Bytes
  pub leader_term : ℕ
  pub leader_applied_index : ℕ
  pub commited_index : ℕ

pub record Partitions : Type 0 where
  pub version : ℕ
  pub assignments_version : ℕ
  pub items : Map ℕ Partition
  pub max_imbalance : ℕ

abbrev pub is_serving : ReplicaState → Bool
is_serving ReplicaState.voter = true
is_serving ReplicaState.non_voter = true
is_serving _ = false

abbrev pub is_leaving : ReplicaState → Bool
is_leaving ReplicaState.leaving = true
is_leaving _ = false

abbrev pub is_data_type : ServerType → Bool
is_data_type ServerType.data_server = true
is_data_type _ = false

abbrev pub has_assignments : Partitions → Bool
has_assignments p = ltb 0 p.assignments_version

-- `ReplicaForServer`: some replica on the server, of a map's entries in any order.
unfoldable pub replica_on : ℕ → Map Bytes Replica → Option Replica
replica_on server_id [] = none
replica_on server_id ((_, r) ∷ rest) =
    let later = replica_on server_id rest in if r.server_id == server_id then some r else later

abbrev pub replica_for_server : Partition → ℕ → Option Replica
replica_for_server p server_id = replica_on server_id p.replicas

-- The number of entries of a map whose value passes a test.
unfoldable pub count_if {ℓ} : {K V : Type ℓ} → (V → Bool) → Map K V → ℕ
count_if test [] = 0
count_if test ((_, v) ∷ rest) = if test v then suc (count_if test rest) else count_if test rest

abbrev pub serving_replica_count : Partition → ℕ
serving_replica_count p = count_if (λ (r : Replica). is_serving r.state) p.replicas
