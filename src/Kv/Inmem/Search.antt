-- ===== src/Kv/Inmem/Search.antt =====
-- The binary search of internal/data/server/storage/inmem/inmem.go finds what a scan finds, if the
-- records are sorted.
use scout.Base.{
  ℕ, zero, suc, ◌≡◌, ◌∙◌, ◌≤◌, ◌<◌, ◌+◌, ◌/◌, refl, true, false, ◌&&◌, Option, none, some, List, [],
  ◌∷◌, if◌then◌else◌, ltb, nat_eq, arith, inl, inr, Bool-cases, subst,
}
use scout.Base.Lists.{length, All, All-mono, Pairwise}
use scout.Base.Bytes.{is_eq}
use scout.Kv.{KvAddress, KvRecord, compare_address, before}
use scout.Kv.Order.{compare_address_swap, before_trans}
use scout.Kv.Inmem.{at, compare_at, is_gt, search, find_first, get_record}

abbrev pub Precedes : KvRecord → KvRecord → Type 0
Precedes p q = before p.address q.address ≡ true

-- Strictly ascending addresses.
abbrev pub Sorted : List KvRecord → Type 0
Sorted rs = Pairwise Precedes rs

-- The number of records before an address.
unfoldable pub rank : KvAddress → List KvRecord → ℕ
rank a [] = 0
rank a (r ∷ rs) = if before r.address a then suc (rank a rs) else 0

pub before_gt : (a b : KvAddress) → is_gt (compare_address a b) ≡ before b a
before_gt a b = ground (arith, compare_address_swap a b)

pub rank-le-length : (a : KvAddress) (rs : List KvRecord) → rank a rs ≤ length rs
unfolding rank
rank-le-length a [] = omega arith
rank-le-length a (r ∷ rs) = ground (arith, rank-le-length a rs)

-- What follows a record that does not come before an address does not either.
later_before_none :
    (a : KvAddress) (r : KvRecord) (rs : List KvRecord)
    → before r.address a ≡ false
    → All (Precedes r) rs
    → All (λ (x : KvRecord). before x.address a ≡ false) rs
later_before_none a r rs h later =
    All-mono (λ (x : KvRecord) (k : Precedes r x). after x k) rs later
  where
    after : (x : KvRecord) → Precedes r x → before x.address a ≡ false
    after x k = elim (Bool-cases (before x.address a)) [
      | inr e ↦ e
      | inl e ↦ absurd (let no = before_trans r.address x.address a k e in cc)
    ]

pub at-All {κ} :
    (P : KvRecord → Type κ) (rs : List KvRecord) (i : ℕ) (r : KvRecord)
    → at rs i ≡ some r
    → All P rs
    → P r
unfolding at
at-All P [] i r e h = absurd (ground arith)
at-All P (x ∷ rs) zero r e h = subst P (ground arith) h.0
at-All P (x ∷ rs) (suc i) r e h = at-All P rs i r e h.1

-- The records below the rank come before the address, and no others do.
at-rank :
    (a : KvAddress) (rs : List KvRecord) (i : ℕ) (r : KvRecord)
    → Sorted rs
    → at rs i ≡ some r
    → before r.address a ≡ ltb i (rank a rs)
unfolding at rank
at-rank a [] i r v e = absurd (ground arith)
at-rank a (x ∷ rs) zero r v e = ground arith
at-rank a (x ∷ rs) (suc i) r v e = elim (Bool-cases (before x.address a)) [
  | inl h ↦ rw (h, rank) (ground (arith, at-rank a rs i r v.1 e))
  | inr h ↦
      let no =
        at-All (λ (y : KvRecord). before y.address a ≡ false) rs i r e
          (later_before_none a x rs h v.0) in
      rw (h, rank) (ground arith)
]

at_below : (rs : List KvRecord) (i : ℕ) → i < length rs → (r : KvRecord) × (at rs i ≡ some r)
unfolding at
at_below [] i h = absurd (omega arith)
at_below (r ∷ rs) zero h = (r, refl)
at_below (r ∷ rs) (suc i) h = at_below rs i (omega arith)

compare_at_gt :
    (a : KvAddress) (rs : List KvRecord) (h : ℕ)
    → Sorted rs
    → h < length rs
    → is_gt (compare_at a rs h) ≡ ltb h (rank a rs)
compare_at_gt a rs h v low =
    let (r, e) = at_below rs h low in
    rw (e, compare_at) (before_gt a r.address ∙ at-rank a rs h r v e)

-- On sorted records, from an interval around the number of records before the address, and with as
-- much fuel as the interval is long, the search ends at that number.
pub search-rank :
    (fuel : ℕ) (a : KvAddress) (rs : List KvRecord) (i j : ℕ)
    → Sorted rs
    → i ≤ rank a rs
    → rank a rs ≤ j
    → j ≤ length rs
    → j ≤ i + fuel
    → search fuel (compare_at a rs) i j ≡ rank a rs
unfolding search
search-rank zero a rs i j v low high bound enough = omega arith
search-rank (suc fuel) a rs i j v low high bound enough = elim (Bool-cases (ltb i j)) [
  | inr e ↦ rw (e, search) (ground arith)
  | inl e ↦
      let h = (i + j) / 2 in
      let mid : (i ≤ h) × (h < j) = (ground arith, ground arith) in
      let step = compare_at_gt a rs h v (omega (arith, mid.1)) in
      elim (Bool-cases (ltb h (rank a rs))) [
        | inl right ↦
            rw (e, step, right, search)
              (search-rank fuel a rs (h + 1) j v (ground arith) high bound (omega (arith, mid.0)))
        | inr left ↦
            rw (e, step, left, search)
              (search-rank fuel a rs i h v low (ground arith) (omega (arith, mid.1))
                (omega (arith, mid.1)))
      ]
]

pub find_first-rank :
    (rs : List KvRecord) (a : KvAddress) → Sorted rs → (find_first rs a).0 ≡ rank a rs
unfolding find_first
find_first-rank rs a v =
    search-rank (length rs) a rs 0 (length rs) v (omega arith) (rank-le-length a rs) (omega arith)
      (omega arith)

-- The reference: a scan for the address.
unfoldable pub scan : KvAddress → List KvRecord → Option KvRecord
scan a [] = none
scan a (r ∷ rs) = if is_eq (compare_address a r.address) then some r else scan a rs

scan_later :
    (a : KvAddress) (rs : List KvRecord)
    → All (λ (x : KvRecord). before a x.address ≡ true) rs
    → scan a rs ≡ none
unfolding scan
scan_later a [] h = refl
scan_later a (r ∷ rs) h = ground (arith, scan_later a rs h.1)

-- What stands at the rank, if it has the address.
unfoldable at_address : KvAddress → List KvRecord → ℕ → Option KvRecord
at_address a rs i = if ltb i (length rs) && is_eq (compare_at a rs i) then at rs i else none

at_address-rank :
    (a : KvAddress) (rs : List KvRecord) → Sorted rs → at_address a rs (rank a rs) ≡ scan a rs
unfolding at_address rank scan at
at_address-rank a [] v = refl
at_address-rank a (r ∷ rs) v = elim (Bool-cases (before r.address a)) [
  | inl h ↦
      let other : is_eq (compare_address a r.address) ≡ false =
        ground (arith, compare_address_swap a r.address) in
      rw (h, other, rank, scan, at_address) (ground (arith, at_address-rank a rs v.1))
  | inr h ↦ elim (Bool-cases (is_eq (compare_address a r.address))) [
    | inl same ↦ rw (h, rank, same, scan, at_address) (ground arith)
    | inr other ↦
        let first : before a r.address ≡ true = ground (arith, compare_address_swap a r.address) in
        let later =
          All-mono (λ (x : KvRecord) (k : Precedes r x). before_trans a r.address x.address first k)
            rs v.0 in
        rw (h, rank, other, scan, at_address) (ground (arith, scan_later a rs later))
  ]
]

-- `Get` on sorted records finds what a scan finds.
pub get_record-scan : (rs : List KvRecord) (a : KvAddress) → Sorted rs → get_record rs a ≡ scan a rs
unfolding get_record find_first at_address
get_record-scan rs a v =
    rw
      (
        search-rank (length rs) a rs 0 (length rs) v (omega arith) (rank-le-length a rs)
            (omega arith) (omega arith),
        get_record,
      )
      (at_address-rank a rs v)
