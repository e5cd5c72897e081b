-- ===== src/Control/Counts.antt =====
-- Selections and counts of servers and replicas: internal/control/control.go. Two server types are
-- compared by their numbers in the enum.
use scout.Base.{
  ℕ, suc, ◌≡◌, ◌+◌, refl, Bool, Option, none, some, [], ◌∷◌, if◌then◌else◌, ◌==◌, nat_eq, ap,
  Bool-cases, inl, inr, arith,
}
use scout.Base.Lists.{length}
use scout.Base.Maps.{Map}
use scout.Base.Bytes.{Bytes, bytes_eq}
use scout.Control.{
  ServerType, ReplicaState, Server, Servers, Replica, Partition, Partitions, count_if,
  serving_replica_count,
}

abbrev pub type_number : ServerType → ℕ
type_number ServerType.unknown = 0
type_number ServerType.control_server = 1
type_number ServerType.data_server = 2
type_number ServerType.api_server = 3

abbrev pub state_number : ReplicaState → ℕ
state_number ReplicaState.stopped = 0
state_number ReplicaState.joining = 1
state_number ReplicaState.voter = 2
state_number ReplicaState.non_voter = 3
state_number ReplicaState.leaving = 4

abbrev pub has_type : ServerType → Server → Bool
has_type t s = type_number s.type == type_number t

unfoldable pub with_type : ServerType → Map ℕ Server → Map ℕ Server
with_type t [] = []
with_type t ((id, s) ∷ rest) = if has_type t s then (id, s) ∷ with_type t rest else with_type t rest

abbrev pub for_type : Servers → ServerType → Map ℕ Server
for_type s t = with_type t s.items

abbrev pub count_for_type : Servers → ServerType → ℕ
count_for_type s t = count_if (has_type t) s.items

unfoldable pub with_name : Bytes → Map ℕ Server → Option Server
with_name name [] = none
with_name name ((_, s) ∷ rest) =
    let later = with_name name rest in if s.name == name then some s else later

abbrev pub for_name : Servers → Bytes → Option Server
for_name s name = with_name name s.items

unfoldable pub sum_of : (Partition → ℕ) → Map ℕ Partition → ℕ
sum_of count [] = 0
sum_of count ((_, p) ∷ rest) = count p + sum_of count rest

abbrev pub replica_count_for_state : ReplicaState → Partition → ℕ
replica_count_for_state state p =
    count_if (λ (r : Replica). state_number r.state == state_number state) p.replicas

-- `ReplicaCount`, `ServingReplicaCount` and `ReplicaCountForState` of all partitions.
abbrev pub total_replica_count : Partitions → ℕ
total_replica_count p = sum_of (λ (x : Partition). length x.replicas) p.items

abbrev pub total_serving_replica_count : Partitions → ℕ
total_serving_replica_count p = sum_of serving_replica_count p.items

abbrev pub total_replica_count_for_state : ReplicaState → Partitions → ℕ
total_replica_count_for_state state p = sum_of (replica_count_for_state state) p.items

count_if-with_type :
    (t : ServerType) (m : Map ℕ Server) → count_if (has_type t) m ≡ length (with_type t m)
unfolding count_if with_type
count_if-with_type t [] = refl
count_if-with_type t ((id, s) ∷ m) = elim (Bool-cases (has_type t s)) [
  | inl e ↦ rw (e, count_if, with_type) (ap suc (count_if-with_type t m))
  | inr e ↦ rw (e, count_if, with_type) (count_if-with_type t m)
]

-- The count for a type is the number of servers selected for it.
pub count_for_type-for_type :
    (s : Servers) (t : ServerType) → count_for_type s t ≡ length (for_type s t)
count_for_type-for_type s t = count_if-with_type t s.items

-- A partition's serving replicas are its voters and its non-voters.
count_if-serving :
    (m : Map Bytes Replica)
    → count_if (λ (r : Replica). scout.Control.is_serving r.state) m
      ≡ count_if (λ (r : Replica). state_number r.state == 2) m
        + count_if (λ (r : Replica). state_number r.state == 3) m
unfolding count_if
count_if-serving [] = refl
count_if-serving ((_, r) ∷ m) = ground (arith, count_if-serving m)
