-- ===== src/Control/Messages/Dense.antt =====
-- What a data client relies on in a routing table that `DataServers.Validate` of
-- internal/control/control.go accepts.
use scout.Base.{
  ℕ, ◌≡◌, ◌≢◌, ◌⊎◌, ◌<◌, refl, Bool, true, false, not, ◌&&◌, ◌||◌, Option, none, some, List, [],
  ◌∷◌, ltb, ◌==◌, nat_eq, arith, inl, inr, Bool-cases, Option-cases,
}
use scout.Base.Lists.{length, all, any, All, All-mono}
use scout.Base.Maps.{Map, lookup, IsMap, All-lookup}
use scout.Base.Distinct.{Distinct, Distinct-any}
use scout.Control.Messages.{
  Refusal, RoutedPartition, DataServers, ◌or_next◌, unless, is_known, is_present, missing_fields,
  count_does_not_match, id_does_not_match, invalid_id, server_not_found, first_error,
  validate_servers, validate_routed, validate_data_servers,
}

abbrev pub keys : {V : Type 0} → Map ℕ V → List ℕ
keys [] = []
keys ((k, _) ∷ m) = k ∷ keys m

or_next-left : (a b : Option Refusal) → (a or_next b) ≡ none → a ≡ none
or_next-left none b h = refl
or_next-left (some e) b h = absurd (ground arith)

or_next-right : (a b : Option Refusal) → (a or_next b) ≡ none → b ≡ none
or_next-right none b h = h
or_next-right (some e) b h = absurd (ground arith)

true-of_unless : (b : Bool) (e : Refusal) → unless b e ≡ none → b ≡ true
true-of_unless b e h = ground arith

first_error-All :
    {V : Type 0} (check : ℕ → V → Option Refusal) (m : Map ℕ V)
    → first_error check m ≡ none
    → All (λ (e : ℕ × V). check e.0 e.1 ≡ none) m
unfolding first_error
first_error-All check [] h = tt
first_error-All check ((k, v) ∷ m) h =
    (or_next-left (check k v) _ h, first_error-All check m (or_next-right (check k v) _ h))

-- A partition under its own identifier, whose servers are in the table.
pub record IsRouted (x : DataServers) (e : ℕ × RoutedPartition) : Type 0 where
  pub own : e.1.id ≡ e.0
  pub below : e.0 < x.partition_count
  pub leader : (e.1.leader_server_id ≡ 0) ⊎ (is_known x.servers e.1.leader_server_id ≡ true)
  pub replicas : all (is_known x.servers) e.1.replica_server_ids ≡ true

validate_routed-IsRouted :
    (x : DataServers) (e : ℕ × RoutedPartition)
    → validate_routed x.partition_count x.servers e.0 e.1 ≡ none
    → IsRouted x e
unfolding validate_routed
validate_routed-IsRouted x e h =
    let first = true-of_unless (e.0 == e.1.id) id_does_not_match (or_next-left _ _ h) in
    let later = or_next-right (unless (e.0 == e.1.id) id_does_not_match) _ h in
    let second = true-of_unless (ltb e.0 x.partition_count) invalid_id (or_next-left _ _ later) in
    let last = or_next-right (unless (ltb e.0 x.partition_count) invalid_id) _ later in
    let third =
      true-of_unless (e.1.leader_server_id == 0 || is_known x.servers e.1.leader_server_id)
        server_not_found (or_next-left _ _ last) in
    record {
      own = ground arith;
      below = ground arith;
      leader = elim (Bool-cases (e.1.leader_server_id == 0)) [
        | inl zero_id ↦ inl ((nat_eq.beq_iff e.1.leader_server_id 0).0 zero_id)
        | inr other ↦ inr (rw other at third)
      ];
      replicas = true-of_unless (all (is_known x.servers) e.1.replica_server_ids) server_not_found (
          or_next-right
            (unless (e.1.leader_server_id == 0 || is_known x.servers e.1.leader_server_id)
              server_not_found)
            _ last);
    }

keys-All {κ} :
    {V : Type 0} (P : ℕ → Type κ) (m : Map ℕ V) → All (λ (e : ℕ × V). P e.0) m → All P (keys m)
keys-All P [] h = tt
keys-All P ((k, v) ∷ m) h = (h.0, keys-All P m h.1)

keys-Distinct : {V : Type 0} (m : Map ℕ V) → IsMap m → Distinct (keys m)
keys-Distinct [] h = tt
keys-Distinct ((k, v) ∷ m) h = (keys-All (λ b. (k == b) ≡ false) m h.0, keys-Distinct m h.1)

length-keys : {V : Type 0} (m : Map ℕ V) → length (keys m) ≡ length m
length-keys [] = refl
length-keys ((k, v) ∷ m) = ground (arith, length-keys m)

lookup_of_any :
    {V : Type 0} (k : ℕ) (m : Map ℕ V) → any (λ x. x == k) (keys m) ≡ true → lookup k m ≢ none
unfolding lookup
lookup_of_any k [] h absent = ground arith
lookup_of_any k ((j, v) ∷ m) h absent = elim (Bool-cases (j == k)) [
  | inl e ↦ ground arith
  | inr e ↦ lookup_of_any k m (ground arith) (rw e at absent)
]

-- A routing table that is accepted has every partition below the count, each under its own
-- identifier, and knows the servers of its replicas and, where it has one, of its leader.
pub validate_data_servers-IsRouted :
    (x : DataServers) (pid : ℕ)
    → IsMap x.partitions
    → validate_data_servers (some x) ≡ none
    → pid < x.partition_count
    → (part : RoutedPartition) × (lookup pid x.partitions ≡ some part) × IsRouted x (pid, part)
unfolding validate_data_servers
validate_data_servers-IsRouted x pid v h low =
    let rest =
      or_next-right
        (unless
          (is_present x.e_tag
            && (not (length x.servers == 0)
                && (not (length x.partitions == 0)
                    && (not (x.partition_count == 0) && is_present x.service_config_json))))
          missing_fields)
        _ h in
    let rest2 = or_next-right (validate_servers x.servers) _ rest in
    let full =
      true-of_unless (length x.partitions == x.partition_count) count_does_not_match
        (or_next-left _ _ rest2) in
    let turns =
      or_next-right (unless (length x.partitions == x.partition_count) count_does_not_match) _
        rest2 in
    let routed : All (IsRouted x) x.partitions =
      All-mono (λ e k. validate_routed-IsRouted x e k) x.partitions
        (first_error-All (validate_routed x.partition_count x.servers) x.partitions turns) in
    let seen =
      Distinct-any x.partition_count pid (keys x.partitions) (keys-Distinct x.partitions v)
        (keys-All (λ k. k < x.partition_count) x.partitions
          (All-mono {Q = λ (e : ℕ × RoutedPartition). e.0 < x.partition_count} (λ e k. k.below)
            x.partitions routed))
        (ground (arith, length-keys x.partitions)) low in
    elim (Option-cases (lookup pid x.partitions)) [
      | inl absent ↦ absurd (lookup_of_any pid x.partitions seen absent)
      | inr (part, there) ↦
          (part, there, All-lookup (IsRouted x) pid part x.partitions there routed)
    ]
