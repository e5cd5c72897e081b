-- ===== src/Mvcc/Emulated.antt =====
-- The multi-version store over a key-value store: internal/data/server/storage/mvcc/emulated.go. The
-- key-value store is a record `KvDb`. `none` is an error of the store, or the panic on a record with
-- no bytes; an iterator that fails after its first records is not modelled.
pub mod Reads
pub mod Stored
mod Tests
use scout.Base.{
  ℕ, Bool, true, false, not, ◌&&◌, ◌||◌, Option, none, some, List, [], ◌∷◌, if◌then◌else◌, ltb, leb,
  ◌==◌, nat_eq, max_u64,
}
use scout.Base.Bytes.{Bytes, eq_bytes, le_bytes, compare_bytes}
use scout.Mvcc.{Address, Record, is_tombstone, encode_data, decode_data}
use scout.Kv.{KvAddress, KvRecord, last_address_for_key, next}

-- `kv.DB`: the records of a partition from a start up to an end, and the writing of records.
pub record KvDb (S : Type 0) : Type 0 where
  pub get_range : S → ℕ → KvAddress → KvAddress → Option (List KvRecord)
  pub put : S → ℕ → ℕ → List KvRecord → Option S

-- What an iterator yields, one record after the other; `fault` is a panic.
pub data Stream : Type 0 where
  nil fault : Stream
  yields : Record → Stream → Stream

abbrev pub kv_address : Address → ℕ → KvAddress
kv_address a timestamp = record { keyspace = a.keyspace; key = a.key; timestamp = timestamp }

abbrev pub record_of : KvRecord → Bytes → ℕ → Record
record_of p value flags = record {
  address = record { keyspace = p.address.keyspace; key = p.address.key };
  timestamp = p.address.timestamp;
  value = value;
  flags = flags;
}

-- Timestamp 0 stands for the latest.
abbrev pub or_latest : ℕ → ℕ
or_latest timestamp = if timestamp == 0 then max_u64 else timestamp

-- The loop of `GetRange`, with `skipKey`.
unfoldable pub visit : ℕ → Address → Bytes → List KvRecord → Stream
visit timestamp end skip_key [] = nil
visit timestamp end skip_key (p ∷ rest) = elim (decode_data p.content) [
  | none ↦ fault
  | some (value, flags) ↦
      let visible = leb p.address.timestamp timestamp in
      let tombstone = is_tombstone flags in
      let skipped = eq_bytes p.address.key skip_key in
      let yielded = visible && (not tombstone && not skipped) in
      let next_skip = if visible && (tombstone || not skipped) then p.address.key else skip_key in
      let later = visit timestamp end next_skip rest in
      if ltb end.keyspace p.address.keyspace || le_bytes end.key p.address.key
      then nil
      else if yielded
      then yields (record_of p value flags) later
      else later
]

-- What `getFirst` and `Get` take from one record.
unfoldable pub first_of : List KvRecord → Option (Option Record)
first_of [] = some none
first_of (p ∷ _) = elim (decode_data p.content) [
  | none ↦ none
  | some (value, flags) ↦ some (some (record_of p value flags))
]

module _ {S : Type 0} (db : KvDb S) where
  unfoldable pub get_first : S → ℕ → ℕ → Address → Option (Option Record)
  get_first s pid timestamp a =
      elim (db.get_range s pid (kv_address a (or_latest timestamp))
        (next (last_address_for_key a.keyspace a.key))) [
          | none ↦ none
          | some records ↦ first_of records
        ]

  -- One turn of the loop of `Get`.
  unfoldable pub get_one : S → ℕ → ℕ → Address → Option (Option Record)
  get_one s pid timestamp a = elim (get_first s pid timestamp a) [
    | none ↦ none
    | some none ↦ some none
    | some (some r) ↦ if is_tombstone r.flags then some none else some (some r)
  ]

  unfoldable pub get : S → ℕ → ℕ → List Address → Option (List (Option Record))
  get s pid timestamp [] = some []
  get s pid timestamp (a ∷ rest) = elim (get_one s pid timestamp a) [
    | none ↦ none
    | some r ↦ elim (get s pid timestamp rest) [ none ↦ none | some rs ↦ some (r ∷ rs) ]
  ]

  unfoldable pub get_range : S → ℕ → ℕ → Address → Address → Option Stream
  get_range s pid timestamp start end =
      let at = or_latest timestamp in
      elim (db.get_range s pid (kv_address start at) (kv_address end at)) [
        | none ↦ none
        | some records ↦ some (visit at end [] records)
      ]

  unfoldable pub exists : S → ℕ → ℕ → Address → Option Bool
  exists s pid timestamp a = elim (get_one s pid timestamp a) [
    | none ↦ none
    | some none ↦ some false
    | some (some _) ↦ some true
  ]

  unfoldable pub exists_in_range : S → ℕ → ℕ → Address → Address → Option Bool
  exists_in_range s pid timestamp start end = elim (get_range s pid timestamp start end) [
    | none ↦ none
    | some stream ↦ elim stream [ nil ↦ some false | fault ↦ none | yields _ _ ↦ some true ]
  ]

  -- The loop of `Put`; `none` is the error on a record with no timestamp.
  unfoldable pub kv_records : List Record → Option (List KvRecord)
  kv_records [] = some []
  kv_records (r ∷ rest) = if r.timestamp == 0 then none else elim (kv_records rest) [
    | none ↦ none
    | some later ↦ some (
        record { address = kv_address r.address r.timestamp; content = encode_data r.value r.flags }
        ∷ later)
  ]

  unfoldable pub put : S → ℕ → ℕ → List Record → Option S
  put s pid index records = elim (kv_records records) [
    | none ↦ none
    | some kv ↦ db.put s pid index kv
  ]
