-- ===== src/Kv/Inmem.antt =====
-- The in-memory key-value store: internal/data/server/storage/inmem/inmem.go. A partition is reached
-- through a pointer, so what a failed `Put` has appended stays. The lock is left out.
pub mod Search
pub mod Reads
pub mod Writes
mod Tests
use scout.Base.{
  ℕ, zero, suc, ◌+◌, ◌/◌, Bool, true, false, not, ◌&&◌, Option, none, some, List, [], ◌∷◌, ◌++◌,
  if◌then◌else◌, ltb, ◌==◌, nat_eq, max, Ordering,
}
use scout.Base.Lists.{length}
use scout.Base.Maps.{Map, lookup, insert, delete}
use scout.Base.Bytes.{Bytes, eq_bytes, compare_bytes, is_eq}
use scout.Kv.{KvAddress, KvRecord, compare_address, before}

pub record Part : Type 0 where
  pub index : ℕ
  pub records : List KvRecord

abbrev pub Inmem : Type 0
Inmem = Map ℕ Part

-- `errors.NotFound` and the two messages.
pub data KvError : Type 0 where
  not_found missing_timestamp key_overwrite : KvError

pub data Reply {ℓ} (A : Type ℓ) : Type ℓ where
  got : A → Reply A
  failed : KvError → Reply A

abbrev pub empty_part : Part
empty_part = record { index = 0; records = [] }

abbrev pub new_inmem : Inmem
new_inmem = []

unfoldable pub init_partition : Inmem → ℕ → Inmem
init_partition d pid = elim (lookup pid d) [ none ↦ insert pid empty_part d | some _ ↦ d ]

unfoldable pub drop_partition : Inmem → ℕ → Inmem
drop_partition d pid = delete pid d

-- `p.records[i]`.
unfoldable pub at : List KvRecord → ℕ → Option KvRecord
at [] i = none
at (r ∷ rs) zero = some r
at (r ∷ rs) (suc i) = at rs i

-- The argument of `sort.Find`, which asks only for indices below the length.
abbrev pub compare_at : KvAddress → List KvRecord → ℕ → Ordering
compare_at a rs i = elim (at rs i) [ none ↦ Ordering.lt | some r ↦ compare_address a r.address ]

abbrev pub is_gt : Ordering → Bool
is_gt Ordering.gt = true
is_gt _ = false

-- The loop of `sort.Find`, with fuel for its turns.
unfoldable pub search : ℕ → (ℕ → Ordering) → ℕ → ℕ → ℕ
search zero cmp i j = i
search (suc fuel) cmp i j =
    let h = (i + j) / 2 in
    let right = search fuel cmp (h + 1) j in
    let left = search fuel cmp i h in if ltb i j then (if is_gt (cmp h) then right else left) else i

-- The interval loses an element in each turn.
unfoldable pub find_first : List KvRecord → KvAddress → ℕ × Bool
find_first rs a =
    let n = length rs in
    let i = search n (compare_at a rs) 0 n in (i, ltb i n && is_eq (compare_at a rs i))

abbrev pub part_of : Inmem → ℕ → Reply Part
part_of d pid = elim (lookup pid d) [ none ↦ failed not_found | some part ↦ got part ]

unfoldable pub get_index : Inmem → ℕ → Reply ℕ
get_index d pid = elim (part_of d pid) [ got part ↦ got part.index | failed e ↦ failed e ]

-- `&part.records[i]` if it was found.
unfoldable pub get_record : List KvRecord → KvAddress → Option KvRecord
get_record rs a = let (i, found) = find_first rs a in if found then at rs i else none

unfoldable pub get : Inmem → ℕ → KvAddress → Reply (Option KvRecord)
get d pid a = elim (part_of d pid) [
  | got part ↦ got (get_record part.records a)
  | failed e ↦ failed e
]

unfoldable pub from : ℕ → List KvRecord → List KvRecord
from zero rs = rs
from (suc i) [] = []
from (suc i) (r ∷ rs) = from i rs

-- The loop of the iterator, to the end of the records or to `end`.
unfoldable pub until : Option KvAddress → List KvRecord → List KvRecord
until end [] = []
until end (r ∷ rs) =
    let rest = r ∷ until end rs in
    elim end [ none ↦ rest | some e ↦ if before r.address e then rest else [] ]

unfoldable pub range_of : List KvRecord → KvAddress → Option KvAddress → List KvRecord
range_of rs start end = until end (from (find_first rs start).0 rs)

unfoldable pub get_range : Inmem → ℕ → KvAddress → Option KvAddress → Reply (List KvRecord)
get_range d pid start end = elim (part_of d pid) [
  | got part ↦ got (range_of part.records start end)
  | failed e ↦ failed e
]

unfoldable pub get_stream : Inmem → ℕ → KvAddress → Reply (List KvRecord)
get_stream d pid start = get_range d pid start none

-- The records after the call, and its error.
unfoldable pub put_one : List KvRecord → KvRecord → List KvRecord × Option KvError
put_one rs r =
    let (i, found) = find_first rs r.address in
    elim (if found then at rs i else none) [
      | none ↦ (rs ++ r ∷ [], none)
      | some old ↦ if eq_bytes r.content old.content then (rs, none) else (rs, some key_overwrite)
    ]

unfoldable pub put_all : List KvRecord → List KvRecord → List KvRecord × Option KvError
put_all rs [] = (rs, none)
put_all rs (r ∷ more) =
    let (next, fault) = put_one rs r in
    let rest = put_all next more in
    if r.address.timestamp == 0
    then (rs, some missing_timestamp)
    else elim fault [ none ↦ rest | some e ↦ (next, some e) ]

-- `sort.Sort` by `Less`.
unfoldable pub insert_sorted : KvRecord → List KvRecord → List KvRecord
insert_sorted r [] = r ∷ []
insert_sorted r (x ∷ rs) = if before x.address r.address then x ∷ insert_sorted r rs else r ∷ x ∷ rs

unfoldable pub sort_records : List KvRecord → List KvRecord
sort_records [] = []
sort_records (r ∷ rs) = insert_sorted r (sort_records rs)

unfoldable pub put : Inmem → ℕ → ℕ → List KvRecord → Inmem × Option KvError
put d pid index more = elim (part_of d pid) [
  | failed e ↦ (d, some e)
  | got part ↦
      let (rs, fault) = put_all part.records more in
      elim fault [
        | some e ↦ (insert pid (record part { records = rs }) d, some e)
        | none ↦ (
          insert pid (record { index = max part.index index; records = sort_records rs }) d,
          none,
        )
      ]
]
