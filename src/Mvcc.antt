-- ===== src/Mvcc.antt =====
-- The multi-version records of internal/data/server/storage/mvcc (db.go, value.go).
pub mod Emulated
use scout.Base.{ℕ, ◌%◌, ◌<◌, ◌≡◌, Bool, not, ◌==◌, nat_eq}
use scout.Base.{Option, none, some, [], ◌∷◌, ◌++◌, arith}
use scout.Base.Bytes.{Bytes}

pub record Address : Type 0 where
  pub keyspace : ℕ
  pub key : Bytes

-- `FlagEmpty` and `FlagTombstone`, as values of a byte.
abbrev pub flag_empty : ℕ
flag_empty = 0

abbrev pub flag_tombstone : ℕ
flag_tombstone = 1

pub record Record : Type 0 where
  pub address : Address
  pub timestamp : ℕ
  pub value : Bytes
  pub flags : ℕ

-- `(f & FlagTombstone) != 0`.
unfoldable pub is_tombstone : ℕ → Bool
is_tombstone f = not (f % 2 == 0)

unfoldable pub encode_data : Bytes → ℕ → Bytes
encode_data value flags = value ++ flags % 256 ∷ []

-- `none` is the panic of an index out of range, on data with no byte.
unfoldable pub decode_data : Bytes → Option (Bytes × ℕ)
decode_data [] = none
decode_data (b ∷ []) = some ([], b)
decode_data (b ∷ c ∷ rest) = elim (decode_data (c ∷ rest)) [
  | none ↦ none
  | some (value, flags) ↦ some (b ∷ value, flags)
]

-- Decoding gives back the value and the flag byte that were encoded.
pub decode_data-encode_data :
    (value : Bytes) (flags : ℕ)
    → flags < 256
    → decode_data (encode_data value flags) ≡ some (value, flags)
unfolding decode_data encode_data
decode_data-encode_data [] flags h = ground arith
decode_data-encode_data (b ∷ []) flags h = ground arith
decode_data-encode_data (b ∷ c ∷ rest) flags h =
    ground (arith, decode_data-encode_data (c ∷ rest) flags h)
