-- ===== src/Kv/Inmem/Reads.antt =====
-- A range of the in-memory store is the records between its ends, as the emulated multi-version
-- store relies on.
use scout.Base.{
  ◌≡◌, ◌∙◌, refl, Bool, true, false, not, ◌&&◌, Option, none, some, List, [], ◌∷◌, if◌then◌else◌,
  nat_eq, arith, inl, inr, Bool-cases, sym, ap,
}
use scout.Base.Lists.{All, All-mono}
use scout.Kv.{KvAddress, KvRecord, before}
use scout.Kv.Order.{before_trans}
use scout.Kv.Inmem.{from, until, range_of}
use scout.Kv.Inmem.Search.{Precedes, Sorted, rank, find_first-rank}

-- The test of a half-open range; no end is an open one.
abbrev pub in_range : KvAddress → Option KvAddress → KvRecord → Bool
in_range start end r =
    not (before r.address start) && elim end [ none ↦ true | some e ↦ before r.address e ]

unfoldable pub select : (KvRecord → Bool) → List KvRecord → List KvRecord
select test [] = []
select test (r ∷ rs) = if test r then r ∷ select test rs else select test rs

select_none :
    (test : KvRecord → Bool) (rs : List KvRecord)
    → All (λ r. test r ≡ false) rs
    → select test rs ≡ []
unfolding select
select_none test [] h = refl
select_none test (r ∷ rs) h = rw (h.0, select) (select_none test rs h.1)

later_outside :
    (r x : KvRecord) (start e : KvAddress)
    → Precedes r x
    → before r.address e ≡ false
    → in_range start (some e) x ≡ false
later_outside r x start e k outside = elim (Bool-cases (before x.address e)) [
  | inl inside ↦ absurd (let no = before_trans r.address x.address e k inside in cc)
  | inr h ↦ ground arith
]

after :
    (r x : KvRecord) (start : KvAddress)
    → Precedes r x
    → before r.address start ≡ false
    → before x.address start ≡ false
after r x start k h = elim (Bool-cases (before x.address start)) [
  | inl inside ↦ absurd (let no = before_trans r.address x.address start k inside in cc)
  | inr e ↦ e
]

-- Past the start, the loop stops at the end of the range.
until-select :
    (start : KvAddress) (end : Option KvAddress) (rs : List KvRecord)
    → Sorted rs
    → All (λ (r : KvRecord). before r.address start ≡ false) rs
    → until end rs ≡ select (in_range start end) rs
unfolding until select
until-select start end [] v h = refl
until-select start none (r ∷ rs) v h =
    rw (h.0, until, select) (ap (λ x. r ∷ x) (until-select start none rs v.1 h.1))
until-select start (some e) (r ∷ rs) v h = elim (Bool-cases (before r.address e)) [
  | inl inside ↦
      rw (h.0, inside, until, select) (ap (λ x. r ∷ x) (until-select start (some e) rs v.1 h.1))
  | inr outside ↦
      let gone =
        All-mono (λ (x : KvRecord) (k : Precedes r x). later_outside r x start e k outside) rs
          v.0 in
      rw (h.0, outside, until, select) (sym (select_none (in_range start (some e)) rs gone))
]

from_rank :
    (start : KvAddress) (end : Option KvAddress) (rs : List KvRecord)
    → Sorted rs
    → until end (from (rank start rs) rs) ≡ select (in_range start end) rs
unfolding from rank until select
from_rank start end [] v = refl
from_rank start end (r ∷ rs) v = elim (Bool-cases (before r.address start)) [
  | inl h ↦ rw (h, rank, from, select) (from_rank start end rs v.1)
  | inr h ↦
      let later = All-mono (λ (x : KvRecord) (k : Precedes r x). after r x start k h) rs v.0 in
      let first : rank start (r ∷ rs) ≡ 0 = rw (h, rank) refl in
      ap (λ i. until end (from i (r ∷ rs))) first ∙ until-select start end (r ∷ rs) v (h, later)
]

-- On sorted records, a range is the records from its start to its end, in their order.
pub range_of-select :
    (rs : List KvRecord) (start : KvAddress) (end : Option KvAddress)
    → Sorted rs
    → range_of rs start end ≡ select (in_range start end) rs
unfolding range_of
range_of-select rs start end v =
    rw (find_first-rank rs start v, range_of) (from_rank start end rs v)
