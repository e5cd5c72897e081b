-- ===== src/Tests.antt =====
-- Locks, the encoding of values and the validation of requests on small data.
use scout.Base.{◌≡◌, refl, true, false, [], ◌∷◌, ◌↔◌, some}
use scout.Base.Bytes.{compare_bytes}
use scout.Base.{none}
use scout.Txn.{TxnId, Txn, Payload, is_read_only, is_read_only_action}
use scout.Txn.Validation.{validate_id, validate_payload, validate_actions, validate_txn}
use scout.Manager.{Env}
use scout.Txn.{Lock, key_lock, range_lock}
use scout.Txn.Locks.{compatible_with}
use scout.Txn.Locks.Covers.{conflict_iff, Clash}

abbrev key_of_range : Lock
key_of_range = record {
  action_id = 1;
  payload = key_lock (record { keyspace = 100; key = 7 ∷ 1 ∷ []; exclusive = true });
}

abbrev range : Lock
range = record {
  action_id = 2;
  payload =
      range_lock
        (record { keyspace = 100; start_key = 7 ∷ []; end_key = 8 ∷ []; exclusive = false });
}

conflict_iff_example : (compatible_with key_of_range range ≡ false) ↔ Clash key_of_range range
unfolding compare_bytes
conflict_iff_example = conflict_iff key_of_range range tt refl

abbrev id : TxnId
id = record { principal_pid = 1; server_id = 2; timestamp = 9 }

abbrev upsert_and_read : Txn
upsert_and_read = record {
  id = id;
  actions =
      record {
        id = 1;
        payload = Payload.upsert (record { keyspace = 16; key = 1 ∷ []; value = 2 ∷ [] });
      }
      ∷ record { id = 2; payload = Payload.read (record { keyspace = 17; key = 3 ∷ [] }) }
      ∷ [];
  participant_pids = [];
}

abbrev read_one : Txn
read_one = record upsert_and_read {
  actions = record { id = 2; payload = Payload.read (record { keyspace = 17; key = 3 ∷ [] }) } ∷ [];
}

abbrev fixed : Env Unit
fixed = record {
  exists = λ _ _ _ _. true;
  exists_in_range = λ _ _ _ _ _. true;
  put = λ db _ _ _. db;
  marshal_value = λ v. v;
}

txn_valid : validate_txn (some upsert_and_read) ≡ none
unfolding validate_txn validate_id validate_actions validate_payload
txn_valid = refl

read_one_lem : is_read_only read_one ≡ true
unfolding is_read_only is_read_only_action
read_one_lem = refl

id_valid : validate_id (some id) ≡ none
unfolding validate_id
id_valid = refl
