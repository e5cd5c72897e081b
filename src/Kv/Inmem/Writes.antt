-- ===== src/Kv/Inmem/Writes.antt =====
-- A `Put` of records under new addresses is read back by `Get`
-- (internal/data/server/storage/inmem/inmem.go).
use scout.Base.{
  ℕ, ◌≡◌, ◌≢◌, ◌∙◌, refl, true, false, ◌&&◌, none, some, List, [], ◌∷◌, ◌++◌, if◌then◌else◌, ltb,
  ◌==◌, nat_eq, arith, inl, inr, Bool-cases, Option-cases, sym, ap, max, beq_ne, subst,
}
use scout.Base.Lists.{length, All, All-mono, Pairwise}
use scout.Base.Maps.{lookup, insert, lookup-insert, lookup-insert_self}
use scout.Base.Bytes.{is_eq}
use scout.Kv.{KvAddress, KvRecord, compare_address, before}
use scout.Kv.Order.{compare_address_swap, compare_address_iff, before_trans}
use scout.Kv.Inmem.{
  Part, Inmem, got, at, compare_at, find_first, get, put_one, put_all, insert_sorted, sort_records,
  put,
}
use scout.Kv.Inmem.Search.{Precedes, Sorted, at-All, scan, get_record-scan}

abbrev pub Apart : KvRecord → KvRecord → Type 0
Apart p q = p.address ≢ q.address

-- New records: with a timestamp, under addresses that are not there and differ from each other.
abbrev pub Fresh : List KvRecord → List KvRecord → Type 0
Fresh rs [] = Unit
Fresh rs (r ∷ more) =
    (r.address.timestamp ≢ 0) × All (λ (x : KvRecord). Apart x r) rs × Fresh (rs ++ r ∷ []) more

absent_at :
    (rs : List KvRecord) (a : KvAddress) (i : ℕ)
    → All (λ (x : KvRecord). x.address ≢ a) rs
    → (ltb i (length rs) && is_eq (compare_at a rs i)) ≡ false
absent_at rs a i h = elim (Option-cases (at rs i)) [
  | inl e ↦ rw (e, compare_at) (ground arith)
  | inr (r, e) ↦ elim (Bool-cases (is_eq (compare_address a r.address))) [
    | inr other ↦ rw (e, compare_at, other) (ground arith)
    | inl same ↦
        let equal : a ≡ r.address = (compare_address_iff a r.address).0 (ground arith) in
        absurd (at-All (λ (x : KvRecord). x.address ≢ a) rs i r e h (sym equal))
  ]
]

-- Whatever the order of the records, what is found has the address.
find_first_absent :
    (rs : List KvRecord) (a : KvAddress)
    → All (λ (x : KvRecord). x.address ≢ a) rs
    → (find_first rs a).1 ≡ false
unfolding find_first
find_first_absent rs a h = absent_at rs a (find_first rs a).0 h

put_one_fresh :
    (rs : List KvRecord) (r : KvRecord)
    → All (λ (x : KvRecord). Apart x r) rs
    → put_one rs r ≡ (rs ++ r ∷ [], none)
unfolding put_one
put_one_fresh rs r h = rw (find_first_absent rs r.address h, put_one) refl

append-cons :
    (rs : List KvRecord) (r : KvRecord) (more : List KvRecord)
    → (rs ++ r ∷ []) ++ more ≡ rs ++ r ∷ more
append-cons [] r more = refl
append-cons (x ∷ rs) r more = ap (λ t. x ∷ t) (append-cons rs r more)

append_nil : (rs : List KvRecord) → rs ≡ rs ++ []
append_nil [] = refl
append_nil (x ∷ rs) = ap (λ t. x ∷ t) (append_nil rs)

put_all-Fresh : (rs more : List KvRecord) → Fresh rs more → put_all rs more ≡ (rs ++ more, none)
unfolding put_all
put_all-Fresh rs [] h = ap (λ x. (x, none)) (append_nil rs)
put_all-Fresh rs (r ∷ more) h =
    let named = beq_ne r.address.timestamp 0 h.0 in
    rw (named, put_all, put_one_fresh rs r h.1, ap (λ q. q.0) (put_one_fresh rs r h.1))
      (put_all-Fresh (rs ++ r ∷ []) more h.2 ∙ ap (λ x. (x, none)) (append-cons rs r more))

insert_sorted-All {κ} :
    (P : KvRecord → Type κ) (r : KvRecord) (rs : List KvRecord)
    → P r
    → All P rs
    → All P (insert_sorted r rs)
unfolding insert_sorted
insert_sorted-All P r [] p h = (p, tt)
insert_sorted-All P r (x ∷ rs) p h = elim (Bool-cases (before x.address r.address)) [
  | inl e ↦ rw e (h.0, insert_sorted-All P r rs p h.1)
  | inr e ↦ rw e (p, h)
]

insert_sorted-Sorted :
    (r : KvRecord) (rs : List KvRecord)
    → Sorted rs
    → All (λ (x : KvRecord). Apart x r) rs
    → Sorted (insert_sorted r rs)
unfolding insert_sorted
insert_sorted-Sorted r [] v h = (tt, tt)
insert_sorted-Sorted r (x ∷ rs) v h = elim (Bool-cases (before x.address r.address)) [
  | inl e ↦ rw e (insert_sorted-All (Precedes x) r rs e v.0, insert_sorted-Sorted r rs v.1 h.1)
  | inr e ↦
      let first : Precedes r x = ground (
        arith,
        h.0,
        compare_address_swap x.address r.address,
        compare_address_iff x.address r.address,
      ) in
      rw e (
        (
          first,
          All-mono
              (λ (y : KvRecord) (k : Precedes x y).
                before_trans r.address x.address y.address first k)
              rs v.0,
        ),
        v,
      )
]

sort_records-All {κ} :
    (P : KvRecord → Type κ) (rs : List KvRecord) → All P rs → All P (sort_records rs)
unfolding sort_records
sort_records-All P [] h = tt
sort_records-All P (r ∷ rs) h =
    insert_sorted-All P r (sort_records rs) h.0 (sort_records-All P rs h.1)

sort_records-Sorted : (rs : List KvRecord) → Pairwise Apart rs → Sorted (sort_records rs)
unfolding sort_records
sort_records-Sorted [] v = tt
sort_records-Sorted (r ∷ rs) v =
    insert_sorted-Sorted r (sort_records rs) (sort_records-Sorted rs v.1) (
      sort_records-All (λ (x : KvRecord). Apart x r) rs
        (All-mono {Q = λ (x : KvRecord). Apart x r} (λ (x : KvRecord) (k : Apart r x) e. k (sym e))
          rs v.0))

swapped :
    (a : KvAddress) (r x : KvRecord) (rs more : List KvRecord)
    → before x.address r.address ≡ true
    → scan a more ≡ scan a (r ∷ rs)
    → scan a (x ∷ more) ≡ scan a (r ∷ x ∷ rs)
unfolding scan
swapped a r x rs more e h = elim (Bool-cases (is_eq (compare_address a x.address))) [
  | inr other ↦ rw (other, scan) h
  | inl here ↦
      let equal : a ≡ x.address = (compare_address_iff a x.address).0 (ground arith) in
      let apart : is_eq (compare_address a r.address) ≡ false = rw equal (ground arith) in
      rw (here, apart, scan) refl
]

scan-insert_sorted :
    (a : KvAddress) (r : KvRecord) (rs : List KvRecord)
    → scan a (insert_sorted r rs) ≡ scan a (r ∷ rs)
unfolding insert_sorted scan
scan-insert_sorted a r [] = refl
scan-insert_sorted a r (x ∷ rs) = elim (Bool-cases (before x.address r.address)) [
  | inr e ↦ rw (e, insert_sorted) refl
  | inl e ↦
      rw (e, insert_sorted) (swapped a r x rs (insert_sorted r rs) e (scan-insert_sorted a r rs))
]

scan-sort_records : (a : KvAddress) (rs : List KvRecord) → scan a (sort_records rs) ≡ scan a rs
unfolding sort_records scan
scan-sort_records a [] = refl
scan-sort_records a (r ∷ rs) =
    scan-insert_sorted a r (sort_records rs)
    ∙ ap (λ o. if is_eq (compare_address a r.address) then some r else o) (scan-sort_records a rs)

module _ {κ} (P : KvRecord → Type κ) where
  All-snoc : (rs : List KvRecord) (r : KvRecord) → All P rs → P r → All P (rs ++ r ∷ [])
  All-snoc [] r h p = (p, tt)
  All-snoc (x ∷ rs) r h p = (h.0, All-snoc rs r h.1 p)

Pairwise-snoc :
    (rs : List KvRecord) (r : KvRecord)
    → Pairwise Apart rs
    → All (λ (x : KvRecord). Apart x r) rs
    → Pairwise Apart (rs ++ r ∷ [])
Pairwise-snoc [] r v h = (tt, tt)
Pairwise-snoc (x ∷ rs) r v h = (All-snoc (Apart x) rs r v.0 h.0, Pairwise-snoc rs r v.1 h.1)

Fresh-Pairwise :
    (rs more : List KvRecord) → Pairwise Apart rs → Fresh rs more → Pairwise Apart (rs ++ more)
Fresh-Pairwise rs [] v h = subst (λ x. Pairwise Apart x) (append_nil rs) v
Fresh-Pairwise rs (r ∷ more) v h =
    subst (λ x. Pairwise Apart x) (append-cons rs r more)
      (Fresh-Pairwise (rs ++ r ∷ []) more (Pairwise-snoc rs r v h.1) h.2)

Sorted-Pairwise : (rs : List KvRecord) → Sorted rs → Pairwise Apart rs
Sorted-Pairwise [] v = tt
Sorted-Pairwise (r ∷ rs) v = (
  All-mono {Q = Apart r}
      (λ (x : KvRecord) (k : Precedes r x) same.
        ground (arith, compare_address_iff r.address x.address))
      rs v.0,
  Sorted-Pairwise rs v.1,
)

-- `Put` of new records into a sorted partition succeeds and leaves it sorted, with the greater of the
-- two indices; a `Get` then finds the new records and the old ones, and the other partitions are as
-- before.
pub put-get :
    (d : Inmem) (pid index : ℕ) (part : Part) (more : List KvRecord)
    → lookup pid d ≡ some part
    → Sorted part.records
    → Fresh part.records more
    → (e : Inmem) × (rs : List KvRecord) × (put d pid index more ≡ (e, none))
      × (lookup pid e ≡ some (record { index = max part.index index; records = rs }))
      × Sorted rs
      × ((a : KvAddress) → get e pid a ≡ got (scan a (part.records ++ more)))
      × ((q : ℕ) → (pid == q) ≡ false → lookup q e ≡ lookup q d)
unfolding put get
put-get d pid index part more there v fresh =
    let rs = sort_records (part.records ++ more) in
    let next : Part = record { index = max part.index index; records = rs } in
    let e = insert pid next d in
    let sorted : Sorted rs =
      sort_records-Sorted (part.records ++ more)
        (Fresh-Pairwise part.records more (Sorted-Pairwise part.records v) fresh) in
    let found : lookup pid e ≡ some next = lookup-insert_self pid next d in
    (
      e,
      rs,
      rw
          (
            there,
            put,
            put_all-Fresh part.records more fresh,
            ap (λ q. q.0) (put_all-Fresh part.records more fresh),
          )
          refl,
      found,
      sorted,
      (λ a.
          rw (found, get)
            (ap got (get_record-scan rs a sorted ∙ scan-sort_records a (part.records ++ more)))),
      (λ q other. lookup-insert pid q next d ∙ (rw other refl)),
    )
