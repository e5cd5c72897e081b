-- ===== src/Control/Messages/Tests.antt =====
-- Messages that are accepted and refused.
use scout.Base.{ℕ, ◌≡◌, refl, true, none, some, [], ◌∷◌, arith, nat_eq}
use scout.Base.Maps.{lookup}
use scout.Control.{ServerType}
use scout.Control.Messages.{
  RoutedPartition, DataServers, data_server_status, SessionIn, validate_endpoint, first_error,
  validate_servers, validate_routed, validate_data_servers, validate_register_request,
  validate_heartbeat, validate_status, validate_session_in, invalid_fields, count_does_not_match,
}
use scout.Control.Messages.Dense.{IsRouted, validate_data_servers-IsRouted}

abbrev routed : ℕ → RoutedPartition
routed id = record {
  e_tag = 1 ∷ [];
  id = id;
  leader_server_id = 0;
  replica_server_ids = 4 ∷ 5 ∷ [];
}

abbrev table : DataServers
table = record {
  e_tag = 1 ∷ [];
  servers =
      (4, record { id = 4; address = 97 ∷ [] }) ∷ (5, record { id = 5; address = 98 ∷ [] }) ∷ [];
  partitions = (1, record (routed 1) { leader_server_id = 5 }) ∷ (0, routed 0) ∷ [];
  partition_count = 2;
  service_config_json = 123 ∷ [];
}

table_lem : validate_data_servers (some table) ≡ none
unfolding validate_data_servers validate_servers validate_endpoint first_error validate_routed
    lookup
table_lem = refl

validate_data_servers-IsRouted_example :
    (part : RoutedPartition) × (lookup 1 table.partitions ≡ some part) × IsRouted table (1, part)
validate_data_servers-IsRouted_example =
    validate_data_servers-IsRouted table 1 ((refl, tt), (tt, tt)) table_lem (omega arith)

missing_partition_test :
    validate_data_servers (some (record table { partitions = (1, routed 1) ∷ [] }))
    ≡ some count_does_not_match
unfolding validate_data_servers validate_servers validate_endpoint first_error
missing_partition_test = refl

empty_tag_test :
    validate_register_request (
      some (record {
        token = 1 ∷ [];
        address = 1 ∷ [];
        type = some ServerType.api_server;
        tags = [] ∷ [];
      }))
    ≡ some invalid_fields
unfolding validate_register_request
empty_tag_test = refl

heartbeat_test :
    validate_session_in {Time = ℕ}
      (λ _. true)
      (some (
        some (
          SessionIn.heartbeat (
            some
              (record { config_e_tag = 1 ∷ []; status = some (data_server_status (some [])) })))))
    ≡ none
unfolding validate_session_in validate_heartbeat validate_status
heartbeat_test = refl
