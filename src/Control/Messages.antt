-- ===== src/Control/Messages.antt =====
-- The messages between the control plane and the servers, and their `Validate` methods:
-- internal/control/control.proto and internal/control/control.go. A pointer that can be nil is an
-- Option, as is an enum with a value that has no name; the values of maps and lists are never nil.
-- `none` is a message that is accepted. Timestamps and their `IsValid` are parameters.
pub mod Dense
mod Tests
use scout.Base.{
  ℕ, Bool, true, false, not, ◌&&◌, ◌||◌, Option, none, some, List, [], ◌∷◌, if◌then◌else◌, ltb, leb,
  ◌==◌, nat_eq, ◌^◌,
}
use scout.Base.Lists.{length, all}
use scout.Base.Maps.{Map, lookup}
use scout.Base.Bytes.{Bytes}
use scout.Control.{ServerType, ReplicaState}

pub data Refusal : Type 0 where
  is_nil missing_fields invalid_fields invalid_type payload_is_nil status_is_nil : Refusal
  id_does_not_match invalid_partition invalid_replica invalid_server : Refusal
  count_does_not_match invalid_id server_not_found : Refusal

-- `if err := a; err != nil { return err }` before `b`.
infixr 20 ◌or_next◌
abbrev pub ◌or_next◌ : Option Refusal → Option Refusal → Option Refusal
(some e) or_next b = some e
none or_next b = b

abbrev pub unless : Bool → Refusal → Option Refusal
unless b e = if b then none else some e

-- `errors.Wrap(err, ...)`, or another error in the place of `err`.
abbrev pub wrapped : Refusal → Option Refusal → Option Refusal
wrapped e none = none
wrapped e (some _) = some e

abbrev pub is_present : Bytes → Bool
is_present [] = false
is_present (_ ∷ _) = true

-- `IsValidClusterName`, `IsValidAddress`, `IsValidToken` and `IsValidTag` with their limits.
abbrev pub has_length : ℕ → Bytes → Bool
has_length most value = is_present value && leb (length value) most

abbrev pub is_valid_cluster_name : Bytes → Bool
is_valid_cluster_name value = has_length 100 value

abbrev pub is_valid_address : Bytes → Bool
is_valid_address value = has_length 128 value

abbrev pub is_valid_token : Bytes → Bool
is_valid_token value = has_length 1024 value

abbrev pub is_valid_tag : Bytes → Bool
is_valid_tag value = has_length 128 value

abbrev pub is_valid_tags : List Bytes → Bool
is_valid_tags values = all is_valid_tag values

abbrev pub is_valid_partition_count : ℕ → Bool
is_valid_partition_count value = ltb 0 value && leb value (2 ^ 16)

pub record DiscoverResponse : Type 0 where
  pub servers : List (Bytes × Bool)
  pub service_config_json : Bytes

pub record RegisterRequest : Type 0 where
  pub token : Bytes
  pub address : Bytes
  pub type : Option ServerType
  pub tags : List Bytes

pub record RegisterResponse : Type 0 where
  pub server_id : ℕ
  pub server_name : Bytes

pub record HelloRequest : Type 0 where
  pub server_id : ℕ
  pub address : Bytes

pub record HelloResponse : Type 0 where
  pub hlc_timestamp : ℕ

pub record ConfigReplica : Type 0 where
  pub name : Bytes
  pub server_id : ℕ
  pub state : Option ReplicaState

pub record ConfigPartition : Type 0 where
  pub e_tag : Bytes
  pub id : ℕ
  pub replicas : Map Bytes ConfigReplica

pub record DataServerConfig : Type 0 where
  pub e_tag : Bytes
  pub partitions : Map ℕ ConfigPartition

pub record ApiServerConfig : Type 0 where
  pub e_tag : Bytes
  pub partition_count : ℕ

-- `DataServers.Server` and `ApiServers.Server`.
pub record Endpoint : Type 0 where
  pub id : ℕ
  pub address : Bytes

pub record RoutedPartition : Type 0 where
  pub e_tag : Bytes
  pub id : ℕ
  pub leader_server_id : ℕ
  pub replica_server_ids : List ℕ

pub record DataServers : Type 0 where
  pub e_tag : Bytes
  pub servers : Map ℕ Endpoint
  pub partitions : Map ℕ RoutedPartition
  pub partition_count : ℕ
  pub service_config_json : Bytes

pub record ApiServers : Type 0 where
  pub e_tag : Bytes
  pub servers : Map ℕ Endpoint
  pub service_config_json : Bytes

pub record StatusReplica : Type 0 where
  pub name : Bytes
  pub is_leader : Bool
  pub leader_term : ℕ
  pub commited_index : ℕ
  pub applied_index : ℕ
  pub ready : Bool

pub data Status : Type 0 where
  control_server_status : Option (Unit {0}) → Status
  data_server_status : Option (Map ℕ StatusReplica) → Status
  api_server_status : Option (Unit {0}) → Status

pub record Heartbeat : Type 0 where
  pub config_e_tag : Bytes
  pub status : Option Status

unfoldable pub validate_discover : Option DiscoverResponse → Option Refusal
validate_discover none = some is_nil
validate_discover (some x) =
    unless (not (length x.servers == 0) && is_present x.service_config_json) missing_fields

unfoldable pub validate_register_request : Option RegisterRequest → Option Refusal
validate_register_request none = some is_nil
validate_register_request (some x) =
    unless (is_valid_address x.address && (is_valid_token x.token && is_valid_tags x.tags))
      invalid_fields
    or_next (elim x.type [ none ↦ some invalid_type | some _ ↦ none ])

unfoldable pub validate_register_response : Option RegisterResponse → Option Refusal
validate_register_response none = some is_nil
validate_register_response (some x) =
    unless (not (x.server_id == 0) && is_present x.server_name) missing_fields

unfoldable pub validate_hello_request : Option HelloRequest → Option Refusal
validate_hello_request none = some is_nil
validate_hello_request (some x) =
    unless (not (x.server_id == 0) && is_present x.address) missing_fields

unfoldable pub validate_hello_response : Option HelloResponse → Option Refusal
validate_hello_response none = some is_nil
validate_hello_response (some x) = unless (not (x.hlc_timestamp == 0)) missing_fields

unfoldable pub validate_config_replica : ConfigReplica → Option Refusal
validate_config_replica x =
    unless (is_present x.name && not (x.server_id == 0)) missing_fields
    or_next (elim x.state [ none ↦ some invalid_type | some _ ↦ none ])

-- A loop over the entries of a map that returns the first error.
unfoldable pub first_error {ℓ} :
    {K V : Type ℓ} → (K → V → Option Refusal) → Map K V → Option Refusal
first_error check [] = none
first_error check ((k, v) ∷ rest) = check k v or_next first_error check rest

unfoldable pub validate_config_partition : ConfigPartition → Option Refusal
validate_config_partition x =
    unless (is_present x.e_tag) missing_fields
    or_next first_error (λ _ r. wrapped invalid_replica (validate_config_replica r)) x.replicas

unfoldable pub validate_data_server_config : Option DataServerConfig → Option Refusal
validate_data_server_config none = some is_nil
validate_data_server_config (some x) =
    unless (is_present x.e_tag) missing_fields
    or_next first_error
        (λ id (part : ConfigPartition).
          unless (id == part.id) id_does_not_match
          or_next wrapped invalid_partition (validate_config_partition part))
        x.partitions

unfoldable pub validate_api_server_config : Option ApiServerConfig → Option Refusal
validate_api_server_config none = some is_nil
validate_api_server_config (some x) = unless (is_present x.e_tag) missing_fields

unfoldable pub validate_endpoint : Endpoint → Option Refusal
validate_endpoint x = unless (not (x.id == 0) && is_present x.address) missing_fields

-- The loop over the servers.
unfoldable pub validate_servers : Map ℕ Endpoint → Option Refusal
validate_servers servers =
    first_error
      (λ id (server : Endpoint).
        wrapped invalid_server (validate_endpoint server)
        or_next unless (id == server.id) id_does_not_match)
      servers

abbrev pub is_known : Map ℕ Endpoint → ℕ → Bool
is_known servers id = elim (lookup id servers) [ none ↦ false | some _ ↦ true ]

-- One turn of the loop over the partitions; `Validate` of a partition that is there accepts it.
unfoldable pub validate_routed : ℕ → Map ℕ Endpoint → ℕ → RoutedPartition → Option Refusal
validate_routed count servers id part =
    unless (id == part.id) id_does_not_match
    or_next unless (ltb id count) invalid_id
    or_next unless (part.leader_server_id == 0 || is_known servers part.leader_server_id)
        server_not_found
    or_next unless (all (is_known servers) part.replica_server_ids) server_not_found

unfoldable pub validate_data_servers : Option DataServers → Option Refusal
validate_data_servers none = some is_nil
validate_data_servers (some x) =
    unless
      (is_present x.e_tag
        && (not (length x.servers == 0)
            && (not (length x.partitions == 0)
                && (not (x.partition_count == 0) && is_present x.service_config_json))))
      missing_fields
    or_next validate_servers x.servers
    or_next unless (length x.partitions == x.partition_count) count_does_not_match
    or_next first_error (validate_routed x.partition_count x.servers) x.partitions

unfoldable pub validate_api_servers : Option ApiServers → Option Refusal
validate_api_servers none = some is_nil
validate_api_servers (some x) =
    unless (is_present x.e_tag && (not (length x.servers == 0) && is_present x.service_config_json))
      missing_fields
    or_next validate_servers x.servers

-- The `Validate` methods that ask only for a message that is there.
abbrev pub validate_present {ℓ} : {A : Type ℓ} → Option A → Option Refusal
validate_present none = some is_nil
validate_present (some _) = none

unfoldable pub validate_status : Status → Option Refusal
validate_status (control_server_status x) = validate_present x
validate_status (data_server_status x) = validate_present x
validate_status (api_server_status x) = validate_present x

unfoldable pub validate_heartbeat : Option Heartbeat → Option Refusal
validate_heartbeat none = some is_nil
validate_heartbeat (some x) =
    unless (is_present x.config_e_tag) missing_fields
    or_next (elim x.status [ none ↦ some status_is_nil | some s ↦ validate_status s ])

pub data SessionIn (Time : Type 0) : Type 0 where
  hello : Option HelloRequest → SessionIn Time
  heartbeat : Option Heartbeat → SessionIn Time
  get_data_servers : Option Bytes → SessionIn Time
  get_api_servers : Option Bytes → SessionIn Time
  timestamp_response : Option (Time × Time) → SessionIn Time

pub data SessionOut (Time : Type 0) : Type 0 where
  hello : Option HelloResponse → SessionOut Time
  data_server_config : Option DataServerConfig → SessionOut Time
  api_server_config : Option ApiServerConfig → SessionOut Time
  data_servers : Option DataServers → SessionOut Time
  api_servers : Option ApiServers → SessionOut Time
  timestamp_request : Option Time → SessionOut Time

module _ {Time : Type 0} (is_valid : Time → Bool) where
  unfoldable pub validate_timestamp_request : Option Time → Option Refusal
  validate_timestamp_request none = some is_nil
  validate_timestamp_request (some x) = unless (is_valid x) missing_fields

  unfoldable pub validate_timestamp_response : Option (Time × Time) → Option Refusal
  validate_timestamp_response none = some is_nil
  validate_timestamp_response (some x) = unless (is_valid x.0 && is_valid x.1) missing_fields

  -- A message with its payload, which may be unset.
  unfoldable pub validate_session_in : Option (Option (SessionIn Time)) → Option Refusal
  validate_session_in none = some is_nil
  validate_session_in (some none) = some payload_is_nil
  validate_session_in (some (some (SessionIn.hello x))) = validate_hello_request x
  validate_session_in (some (some (SessionIn.heartbeat x))) = validate_heartbeat x
  validate_session_in (some (some (SessionIn.get_data_servers x))) = validate_present x
  validate_session_in (some (some (SessionIn.get_api_servers x))) = validate_present x
  validate_session_in (some (some (SessionIn.timestamp_response x))) = validate_timestamp_response x

  unfoldable pub validate_session_out : Option (Option (SessionOut Time)) → Option Refusal
  validate_session_out none = some is_nil
  validate_session_out (some none) = some payload_is_nil
  validate_session_out (some (some (SessionOut.hello x))) = validate_hello_response x
  validate_session_out (some (some (SessionOut.data_server_config x))) =
      validate_data_server_config x
  validate_session_out (some (some (SessionOut.api_server_config x))) = validate_api_server_config x
  validate_session_out (some (some (SessionOut.data_servers x))) = validate_data_servers x
  validate_session_out (some (some (SessionOut.api_servers x))) = validate_api_servers x
  validate_session_out (some (some (SessionOut.timestamp_request x))) = validate_timestamp_request x
