-- ===== src/Kv/Inmem/Tests.antt =====
-- The in-memory store on a few records.
use scout.Base.{ℕ, ◌≡◌, ◌≢◌, refl, false, none, some, List, [], ◌∷◌, ◌++◌, arith, ◌==◌, nat_eq, max}
use scout.Base.Maps.{lookup}
use scout.Base.Bytes.{Bytes, compare_bytes}
use scout.Kv.{KvAddress, KvRecord, compare_address}
use scout.Kv.Inmem.{
  Part, Inmem, key_overwrite, missing_timestamp, got, at, search, find_first, get, put_one, put_all,
  put,
}
use scout.Kv.Inmem.Search.{Sorted, scan}
use scout.Kv.Inmem.Writes.{Fresh, put-get}

abbrev record_at : ℕ → ℕ → Bytes → KvRecord
record_at key timestamp content = record {
  address = record { keyspace = 1; key = key ∷ []; timestamp = timestamp };
  content = content;
}

abbrev two : List KvRecord
two = record_at 5 9 (1 ∷ []) ∷ record_at 7 9 (2 ∷ []) ∷ []

abbrev part : Part
part = record { index = 3; records = two }

two-Sorted : Sorted two
unfolding compare_address compare_bytes
two-Sorted = ((refl, tt), (tt, tt))

abbrev new_records : List KvRecord
new_records = record_at 6 12 (3 ∷ []) ∷ record_at 4 12 (4 ∷ []) ∷ []

apart :
    (key other timestamp later : ℕ) (a b : Bytes)
    → key ≢ other
    → (record_at key timestamp a).address ≢ (record_at other later b).address
apart key other timestamp later a b h e = h (ground arith)

new_records-Fresh : Fresh two new_records
new_records-Fresh = (
  (λ e. omega arith),
  (apart 5 6 9 12 [] [] (λ e. omega arith), (apart 7 6 9 12 [] [] (λ e. omega arith), tt)),
  (
    (λ e. omega arith),
    (
      apart 5 4 9 12 [] [] (λ e. omega arith),
      (apart 7 4 9 12 [] [] (λ e. omega arith), (apart 6 4 12 12 [] [] (λ e. omega arith), tt)),
    ),
    tt,
  ),
)

put-get_example :
    (e : Inmem) × (rs : List KvRecord) × (put ((1, part) ∷ []) 1 8 new_records ≡ (e, none))
    × (lookup 1 e ≡ some (record { index = max 3 8; records = rs }))
    × Sorted rs
    × ((a : KvAddress) → get e 1 a ≡ got (scan a (two ++ new_records)))
    × ((q : ℕ) → (1 == q) ≡ false → lookup q e ≡ lookup q ((1, part) ∷ []))
unfolding lookup
put-get_example = put-get ((1, part) ∷ []) 1 8 part new_records refl two-Sorted new_records-Fresh

-- A batch is searched before it is sorted: behind a new smaller key, the old record is not found, and
-- the same address gets a second value.
overwritten_test :
    (put_all (record_at 5 9 (1 ∷ []) ∷ []) (record_at 4 9 [] ∷ record_at 5 9 (2 ∷ []) ∷ [])).1
    ≡ none
unfolding put_all put_one find_first search at compare_address compare_bytes
overwritten_test = refl

-- Alone, it is refused.
refused_test :
    (put_all (record_at 5 9 (1 ∷ []) ∷ []) (record_at 5 9 (2 ∷ []) ∷ [])).1 ≡ some key_overwrite
unfolding put_all put_one find_first search at compare_address compare_bytes
refused_test = refl

-- A failed `Put` leaves what it has appended, out of order.
half_put_test :
    (put_all (record_at 5 9 (1 ∷ []) ∷ []) (record_at 4 9 [] ∷ record_at 6 0 [] ∷ []))
    ≡ (record_at 5 9 (1 ∷ []) ∷ record_at 4 9 [] ∷ [], some missing_timestamp)
unfolding put_all put_one find_first search at compare_address compare_bytes
half_put_test = refl
