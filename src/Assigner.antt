-- ===== src/Assigner.antt =====
-- The partition assigner of the control leader: state.go and transition.go of
-- internal/control/server/leader/partitions. Sizes and limits are numbers; `Joining` counts the
-- joining replicas, so it is above 0 when one of them starts to serve. `none` is a panic: a write
-- through the nil map of a server or a partition that is not there, or a read of a missing replica.
pub mod Transition
pub mod Rebalance
pub mod Limits
pub mod Serving
pub mod Commands
mod Tests
use scout.Base.{
  ℕ, zero, suc, ◌+◌, ◌-◌, ◌%◌, Bool, true, false, not, ◌&&◌, ◌||◌, Option, none, some, List, [],
  ◌∷◌, ◌++◌, if◌then◌else◌, ltb, leb, ◌==◌, nat_eq, min, max, Eq, arith, ◌≡◌, ◌↔◌,
}
use scout.Base.Lists.{length}
use scout.Base.Maps.{Map, lookup, insert, delete}
use scout.Base.Bytes.{Bytes}

-- `config.Partitions`, as far as the transition reads it.
pub record Config : Type 0 where
  pub replication_factor : ℕ
  pub max_joining : ℕ
  pub max_joining_for_server : ℕ
  pub max_joining_for_partition : ℕ

-- `ServerState` and `PartitionState`: the partitions of a server, the servers of a partition.
pub record Members : Type 0 where
  pub id : ℕ
  pub serving : Map ℕ Bool
  pub joining : Map ℕ Bool
  pub leaving : Map ℕ Bool

pub record ReplicaInfo : Type 0 where
  pub pid : ℕ
  pub name : Bytes
  pub created_time : ℕ
  pub ready : Bool

pub pair_beq_iff : (a b : ℕ × ℕ) → ((a.0 == b.0 && a.1 == b.1) ≡ true) ↔ (a ≡ b)
pair_beq_iff a b = ground (arith, nat_eq.beq_iff a.0 b.0, nat_eq.beq_iff a.1 b.1)

-- `replicaKey`: a server and a partition.
instance abbrev pub pair_eq : Eq (ℕ × ℕ)
pair_eq = record { beq = λ a b. a.0 == b.0 && a.1 == b.1; beq_iff = pair_beq_iff }

pub record State : Type 0 where
  pub serv : Map ℕ Members
  pub part : Map ℕ Members
  pub replica : Map (ℕ × ℕ) ReplicaInfo
  pub joining : ℕ

abbrev pub new_state : State
new_state = record { serv = []; part = []; replica = []; joining = 0 }

abbrev pub no_members : ℕ → Members
no_members id = record { id = id; serving = []; joining = []; leaving = [] }

unfoldable pub add_server : State → ℕ → State
add_server s sid = elim (lookup sid s.serv) [
  | none ↦ record s { serv = insert sid (no_members sid) s.serv }
  | some _ ↦ s
]

unfoldable pub add_partition : State → ℕ → State
add_partition s pid = elim (lookup pid s.part) [
  | none ↦ record s { part = insert pid (no_members pid) s.part }
  | some _ ↦ s
]

-- One change to the server's entry and the same to the partition's.
unfoldable pub change : (ℕ → Members → Members) → State → ℕ → ℕ → Option State
change f s sid pid = elim (lookup sid s.serv) [
  | none ↦ none
  | some server ↦ elim (lookup pid s.part) [
    | none ↦ none
    | some part ↦ some (record s {
      serv = insert sid (f pid server) s.serv;
      part = insert pid (f sid part) s.part;
    })
  ]
]

abbrev pub serve : ℕ → Members → Members
serve k m = record m { serving = insert k true m.serving; joining = delete k m.joining }

abbrev pub join : ℕ → Members → Members
join k m = record m { joining = insert k true m.joining }

abbrev pub leave : ℕ → Members → Members
leave k m = record m { leaving = insert k true m.leaving; serving = delete k m.serving }

abbrev pub part_ways : ℕ → Members → Members
part_ways k m = record m { leaving = delete k m.leaving }

unfoldable pub add_serving : State → ℕ → ℕ → Option State
add_serving s sid pid = change (λ k m. record m { serving = insert k true m.serving }) s sid pid

unfoldable pub add_leaving : State → ℕ → ℕ → Option State
add_leaving s sid pid = change (λ k m. record m { leaving = insert k true m.leaving }) s sid pid

unfoldable pub add_replica : State → ℕ → ℕ → ReplicaInfo → State
add_replica s sid pid r = record s { replica = insert (sid, pid) r s.replica }

unfoldable pub add_joining : State → ℕ → ℕ → Option State
add_joining s sid pid = elim (change join s sid pid) [
  | none ↦ none
  | some t ↦ some (record t { joining = t.joining + 1 })
]

unfoldable pub transition_joining_to_serving : State → ℕ → ℕ → Option State
transition_joining_to_serving s sid pid = elim (change serve s sid pid) [
  | none ↦ none
  | some t ↦ some (record t { joining = t.joining - 1 })
]

unfoldable pub transition_serving_to_leaving : State → ℕ → ℕ → Option State
transition_serving_to_leaving s sid pid = change leave s sid pid

-- `delete` on the nil map of an entry that is not there does nothing.
unfoldable pub adjust : (Members → Members) → ℕ → Map ℕ Members → Map ℕ Members
adjust f k m = elim (lookup k m) [ none ↦ m | some x ↦ insert k (f x) m ]

unfoldable pub remove_leaving : State → ℕ → ℕ → State
remove_leaving s sid pid = record s {
  serv = adjust (part_ways pid) sid s.serv;
  part = adjust (part_ways sid) pid s.part;
}

abbrev pub replica_at : State → ℕ → ℕ → Option ReplicaInfo
replica_at s sid pid = lookup (sid, pid) s.replica

abbrev pub total_count : Members → ℕ
total_count m = length m.joining + length m.serving

-- `s.Serv[sid]` and `s.Part[pid]`, whose zero value has no members.
abbrev pub members_at : ℕ → Map ℕ Members → Members
members_at k m = elim (lookup k m) [ none ↦ no_members 0 | some x ↦ x ]

abbrev pub is_in : ℕ → Map ℕ Bool → Bool
is_in k m = elim (lookup k m) [ none ↦ false | some b ↦ b ]

abbrev pub is_there {ℓ} : {A : Type ℓ} → Option A → Bool
is_there none = false
is_there (some _) = true

unfoldable pub has_replica : State → ℕ → ℕ → Bool
has_replica s sid pid =
    let part = members_at pid s.part in
    is_there (replica_at s sid pid)
    || (is_in sid part.joining || (is_in sid part.serving || is_in sid part.leaving))

unfoldable pub can_add_replica : Config → State → ℕ → ℕ → Bool
can_add_replica c s sid pid =
    ltb s.joining c.max_joining
    && (ltb (length (members_at sid s.serv).joining) c.max_joining_for_server
        && (ltb (length (members_at pid s.part).joining) c.max_joining_for_partition
            && not (has_replica s sid pid)))

-- The greatest and the least number of replicas of a server; `math.MaxInt` stands for none.
unfoldable pub most : Map ℕ Members → ℕ
most [] = 0
most ((_, m) ∷ rest) = max (total_count m) (most rest)

unfoldable pub least : Map ℕ Members → ℕ
least [] = 0x7fffffffffffffff
least ((_, m) ∷ rest) = min (total_count m) (least rest)

-- `MaxImbalance`, where it is not negative: without servers the source gets a negative number.
unfoldable pub max_imbalance : State → ℕ
max_imbalance s = most s.serv - least s.serv

-- `slices.SortFunc` with a test for "stands before".
unfoldable pub insert_by {ℓ} : {A : Type ℓ} → (A → A → Bool) → A → List A → List A
insert_by less x [] = x ∷ []
insert_by less x (y ∷ ys) = if less y x then y ∷ insert_by less x ys else x ∷ y ∷ ys

unfoldable pub sort_by {ℓ} : {A : Type ℓ} → (A → A → Bool) → List A → List A
sort_by less [] = []
sort_by less (x ∷ xs) = insert_by less x (sort_by less xs)
