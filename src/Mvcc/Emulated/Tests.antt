-- ===== src/Mvcc/Emulated/Tests.antt =====
-- The emulated store over a list of records in the order of their addresses.
use scout.Base.{
  ℕ, ◌≡◌, ◌≢◌, refl, subst, inl, inr, Bool, true, false, not, ◌&&◌, some, List, [], ◌∷◌, ◌++◌,
  if◌then◌else◌, Bool-cases, arith,
}
use scout.Base.Lists.{All, Pairwise}
use scout.Base.Bytes.{Bytes, compare_bytes}
use scout.Mvcc.{Address, Record, decode_data, is_tombstone}
use scout.Kv.{
  KvAddress, KvRecord, before, compare_address, increment, next_key, next, last_address_for_key,
}
use scout.Kv.Next.{next_skips}
use scout.Mvcc.Emulated.{
  KvDb, nil, yields, kv_address, or_latest, visit, first_of, get_first, get_one, get_range, exists,
}
use scout.Mvcc.Emulated.Reads.{newest, KeyOrder, get_range-newest, IsBounded, get_first_misses}
use scout.Base.{nat_eq}
use scout.Base.Maps.{lookup}
use scout.Kv.Inmem.{Inmem}
use scout.Kv.Inmem.Search.{Sorted}
use scout.Kv.Inmem.Reads.{in_range, select}
use scout.Mvcc.Emulated.Stored.{inmem_db, get_range-newest_stored}

abbrev within : KvAddress → KvAddress → KvRecord → Bool
within start end p = not (before p.address start) && before p.address end

abbrev between : KvAddress → KvAddress → List KvRecord → List KvRecord
between start end [] = []
between start end (p ∷ rest) =
    if within start end p then p ∷ between start end rest else between start end rest

abbrev demo : KvDb (List KvRecord)
demo = record {
  get_range = λ s _ start end. some (between start end s);
  put = λ s _ _ rs. some (rs ++ s);
}

between-bounded :
    (start end : KvAddress) (s : List KvRecord)
    → All
        (λ (p : KvRecord). (before p.address start ≡ false) × (before p.address end ≡ true))
        (between start end s)
between-bounded start end [] = tt
between-bounded start end (p ∷ rest) = elim (Bool-cases (within start end p)) [
  | inr out ↦ rw out (between-bounded start end rest)
  | inl inside ↦ rw inside ((ground arith, ground arith), between-bounded start end rest)
]

demo-IsBounded : IsBounded demo
demo-IsBounded s pid start end records e =
    subst (All (λ (p : KvRecord). (before p.address start ≡ false) × (before p.address end ≡ true)))
      (let same : between start end s ≡ records = ground arith in same)
      (between-bounded start end s)

abbrev version : Bytes → ℕ → Bytes → KvRecord
version key timestamp content = record {
  address = record { keyspace = 16; key = key; timestamp = timestamp };
  content = content;
}

-- Two versions of the key 97 98, a tombstone over 97 99, and one version of 255 1.
abbrev store : List KvRecord
store =
    version (97 ∷ 98 ∷ []) 30 (3 ∷ 0 ∷ [])
    ∷ version (97 ∷ 98 ∷ []) 20 (2 ∷ 0 ∷ [])
    ∷ version (97 ∷ 99 ∷ []) 25 (1 ∷ [])
    ∷ version (97 ∷ 99 ∷ []) 10 (1 ∷ 0 ∷ [])
    ∷ version (97 ∷ 100 ∷ []) 12 (4 ∷ 0 ∷ [])
    ∷ version (255 ∷ 1 ∷ []) 12 (5 ∷ 0 ∷ [])
    ∷ []

abbrev from : Address
from = record { keyspace = 16; key = 97 ∷ [] }

abbrev to : Address
to = record { keyspace = 16; key = 98 ∷ [] }

abbrev found : Bytes → ℕ → ℕ → Record
found key timestamp value = record {
  address = record { keyspace = 16; key = key };
  timestamp = timestamp;
  value = value ∷ [];
  flags = 0;
}

-- At 26 the tombstone hides its key; at 15 it does not.
program : Unit {0}
unfolding get_range get_first get_one exists visit first_of decode_data is_tombstone compare_address
    compare_bytes increment next_key next
program = tt

reads :
    (get_range demo store 1 26 from to
      ≡ some (yields (found (97 ∷ 98 ∷ []) 20 2) (yields (found (97 ∷ 100 ∷ []) 12 4) nil)))
    × (get_range demo store 1 15 from to
        ≡ some (yields (found (97 ∷ 99 ∷ []) 10 1) (yields (found (97 ∷ 100 ∷ []) 12 4) nil)))
unfolding program
reads = (refl, refl)

-- At 5 the key 97 99 has no version, and `Get` returns a record of 97 100; and it does not find the
-- record of 255 1.
misread :
    (get_one demo store 1 5 (record { keyspace = 16; key = 97 ∷ 99 ∷ [] })
      ≡ some (some (found (97 ∷ 100 ∷ []) 12 4)))
    × (exists demo store 1 15 (record { keyspace = 16; key = 255 ∷ 1 ∷ [] }) ≡ some false)
unfolding program
misread = (refl, refl)

store_lem :
    demo.get_range store 1 (kv_address from (or_latest 26)) (kv_address to (or_latest 26))
    ≡ some (between (kv_address from 26) (kv_address to 26) store)
store_lem = refl

store_order : Pairwise KeyOrder (between (kv_address from 26) (kv_address to 26) store)
unfolding program
store_order = (
  (refl, (refl, (refl, (refl, tt)))),
  ((refl, (refl, (refl, tt))), ((refl, (refl, tt)), ((refl, tt), (tt, tt)))),
)

store_keys :
    All
      (λ (p : KvRecord). p.address.key ≢ [])
      (between (kv_address from 26) (kv_address to 26) store)
unfolding program
store_keys = (λ e. cc, (λ e. cc, (λ e. cc, (λ e. cc, (λ e. cc, tt)))))

get_range-newest_example :
    get_range demo store 1 26 from to
    ≡ some (newest 26 to [] (between (kv_address from 26) (kv_address to 26) store))
get_range-newest_example =
    get_range-newest demo store 1 26 from to (between (kv_address from 26) (kv_address to 26) store)
      store_lem store_order store_keys

get_first_misses_example :
    get_first demo store 1 15 (record { keyspace = 16; key = 255 ∷ 1 ∷ [] })
    ≢ some (some (found (255 ∷ 1 ∷ []) 12 5))
get_first_misses_example =
    get_first_misses demo store 1 15 16 1 [] (found (255 ∷ 1 ∷ []) 12 5) demo-IsBounded
      (omega arith)

abbrev latest : KvAddress
latest = record { keyspace = 16; key = 97 ∷ 98 ∷ []; timestamp = 30 }

abbrev older : KvAddress
older = record latest { timestamp = 20 }

latest_first : before latest older ≡ true
unfolding compare_address compare_bytes
latest_first = refl

second_first : before older (record latest { key = 97 ∷ 99 ∷ [] }) ≡ true
unfolding compare_address compare_bytes
second_first = refl

next_skips_example :
    let a = last_address_for_key 16 (97 ∷ 98 ∷ []) in
    let other : KvAddress = record { keyspace = 16; key = 97 ∷ 99 ∷ []; timestamp = 25 } in
    (before a other ≡ true) × (before other (next a) ≡ true)
next_skips_example = next_skips 16 25 97 98 [] (omega arith)

abbrev stored : Inmem
stored = (1, record { index = 7; records = store }) ∷ []

store-Sorted : Sorted store
unfolding compare_address compare_bytes
store-Sorted = (
  (refl, (refl, (refl, (refl, (refl, tt))))),
  (
    (refl, (refl, (refl, (refl, tt)))),
    ((refl, (refl, (refl, tt))), ((refl, (refl, tt)), ((refl, tt), (tt, tt)))),
  ),
)

stored_keys : All (λ (p : KvRecord). p.address.key ≢ []) store
stored_keys = ((λ e. cc), ((λ e. cc), ((λ e. cc), ((λ e. cc), ((λ e. cc), ((λ e. cc), tt))))))

get_range-newest_stored_example :
    get_range inmem_db stored 1 26 from to
    ≡ some
        (newest 26 to [] (select (in_range (kv_address from 26) (some (kv_address to 26))) store))
unfolding lookup
get_range-newest_stored_example =
    get_range-newest_stored stored 1 26 (record { index = 7; records = store }) from to refl
      store-Sorted stored_keys refl
