-- ===== src/Kv.antt =====
-- Addresses of the key-value store: internal/data/server/storage/kv/address.go. Keyspaces are 32-bit
-- words, timestamps 64-bit words, and keys are byte strings.
pub mod Order
pub mod Next
pub mod Inmem
use scout.Base.{
  ℕ, ◌+◌, ◌%◌, Bool, true, false, Option, none, some, List, [], ◌∷◌, if◌then◌else◌, ◌==◌, nat_eq,
  compare, Ordering, max_u64, sub_u64,
}
use scout.Base.Bytes.{Bytes, compare_bytes, flip, is_lt}

pub record KvAddress : Type 0 where
  pub keyspace : ℕ
  pub key : Bytes
  pub timestamp : ℕ

pub record KvRecord : Type 0 where
  pub address : KvAddress
  pub content : Bytes

-- `if x != 0 { return x }` before `rest`.
abbrev pub or_else : Ordering → Ordering → Ordering
or_else Ordering.eq rest = rest
or_else x rest = x

-- `Compare`: ascending by keyspace and key, descending by timestamp; `lt`, `eq` and `gt` stand for
-- a negative number, 0 and a positive one.
unfoldable pub compare_address : KvAddress → KvAddress → Ordering
compare_address a b =
    or_else (compare a.keyspace b.keyspace)
      (or_else (compare_bytes a.key b.key) (compare b.timestamp a.timestamp))

abbrev pub before : KvAddress → KvAddress → Bool
before a b = is_lt (compare_address a b)

abbrev pub last_address_for_key : ℕ → Bytes → KvAddress
last_address_for_key keyspace key = record { keyspace = keyspace; key = key; timestamp = 0 }

abbrev pub first_address_for_key : ℕ → Bytes → KvAddress
first_address_for_key keyspace key = record { keyspace = keyspace; key = key; timestamp = max_u64 }

abbrev pub first_address : ℕ → KvAddress
first_address keyspace = first_address_for_key keyspace []

-- The loop over the bytes of a key in `Next` and `NextKey`, from the first byte: the new key, and
-- whether every byte has wrapped around.
unfoldable pub increment : Bytes → Bytes × Bool
increment [] = ([], true)
increment (b ∷ rest) =
    let (later, wrapped) = increment rest in
    if (b + 1) % 256 == 0 then (0 ∷ later, wrapped) else ((b + 1) % 256 ∷ rest, false)

unfoldable pub next_key : KvAddress → KvAddress
next_key a =
    let (key, wrapped) = increment a.key in
    record {
      keyspace = if wrapped then (a.keyspace + 1) % 0x100000000 else a.keyspace;
      key = key;
      timestamp = max_u64;
    }

unfoldable pub next : KvAddress → KvAddress
next a =
    let timestamp = sub_u64 a.timestamp 1 in
    if timestamp == max_u64
    then record (next_key a) { timestamp = timestamp }
    else record a { timestamp = timestamp }
