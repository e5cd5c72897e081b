-- ===== src/Mvcc/Emulated/Stored.antt =====
-- The emulated multi-version store (internal/data/server/storage/mvcc/emulated.go) over the in-memory
-- key-value store (internal/data/server/storage/inmem/inmem.go).
use scout.Base.{
  ℕ, ◌≡◌, ◌≢◌, ◌∙◌, refl, Bool, true, none, some, List, [], ◌∷◌, arith, inl, inr, Bool-cases, ap,
  sym, nat_eq,
}
use scout.Base.Lists.{All, Pairwise}
use scout.Base.Maps.{lookup}
use scout.Mvcc.{Address}
use scout.Kv.{KvAddress, KvRecord, compare_address, before}
use scout.Kv.Inmem.{Part, Inmem, Reply, got, failed, KvError, range_of}
use scout.Kv.Inmem.Search.{Precedes, Sorted}
use scout.Kv.Inmem.Reads.{in_range, select, range_of-select}
use scout.Mvcc.Emulated.{KvDb, kv_address, or_latest, get_range}
use scout.Mvcc.Emulated.Reads.{newest, KeyOrder, get_range-newest}

-- The in-memory store behind the interface `kv.DB`.
abbrev pub inmem_db : KvDb Inmem
inmem_db = record {
  get_range = λ d pid start end. elim (scout.Kv.Inmem.get_range d pid start (some end)) [
    | got records ↦ some records
    | failed _ ↦ none
  ];
  put = λ d pid index records. elim (scout.Kv.Inmem.put d pid index records).1 [
    | none ↦ some (scout.Kv.Inmem.put d pid index records).0
    | some _ ↦ none
  ];
}

select-All {κ} :
    (P : KvRecord → Type κ) (test : KvRecord → Bool) (rs : List KvRecord)
    → All P rs
    → All P (select test rs)
unfolding select
select-All P test [] h = tt
select-All P test (r ∷ rs) h = elim (Bool-cases (test r)) [
  | inl e ↦ rw e (h.0, select-All P test rs h.1)
  | inr e ↦ rw e (select-All P test rs h.1)
]

-- Addresses between two of one keyspace are in that keyspace.
keyspace_between :
    (k : ℕ) (start end : Address) (timestamp : ℕ) (r : KvRecord)
    → start.keyspace ≡ k
    → end.keyspace ≡ k
    → in_range (kv_address start timestamp) (some (kv_address end timestamp)) r ≡ true
    → r.address.keyspace ≡ k
unfolding compare_address
keyspace_between k start end timestamp r s e h = ground arith

key_order : (p q : KvRecord) → p.address.keyspace ≡ q.address.keyspace → Precedes p q → KeyOrder p q
unfolding compare_address
key_order p q same h = ground arith

ordered :
    (k : ℕ) (r : KvRecord) (rs : List KvRecord)
    → r.address.keyspace ≡ k
    → All (λ (x : KvRecord). x.address.keyspace ≡ k) rs
    → All (Precedes r) rs
    → All (KeyOrder r) rs
ordered k r [] here same later = tt
ordered k r (x ∷ rs) here same later =
    (key_order r x (here ∙ sym same.0) later.0, ordered k r rs here same.1 later.1)

select-KeyOrder :
    (k : ℕ) (start end : Address) (timestamp : ℕ) (rs : List KvRecord)
    → start.keyspace ≡ k
    → end.keyspace ≡ k
    → Sorted rs
    → let test = in_range (kv_address start timestamp) (some (kv_address end timestamp)) in
      All (λ (r : KvRecord). r.address.keyspace ≡ k) (select test rs)
      × Pairwise KeyOrder (select test rs)
unfolding select
select-KeyOrder k start end timestamp [] s e v = (tt, tt)
select-KeyOrder k start end timestamp (r ∷ rs) s e v =
    let test = in_range (kv_address start timestamp) (some (kv_address end timestamp)) in
    let rest = select-KeyOrder k start end timestamp rs s e v.1 in
    elim (Bool-cases (test r)) [
      | inr out ↦ rw out rest
      | inl inside ↦
          let here : r.address.keyspace ≡ k = keyspace_between k start end timestamp r s e inside in
          let later = select-All (Precedes r) test rs v.0 in
          rw inside ((here, rest.0), (ordered k r (select test rs) here rest.0 later, rest.1))
    ]

-- Over the in-memory store, whose partition is sorted and has no empty keys, `GetRange` within a
-- keyspace yields what the reference makes of the records between the two addresses: of each key, the
-- newest version that the reader sees, unless it is a tombstone.
pub get_range-newest_stored :
    (d : Inmem) (pid timestamp : ℕ) (part : Part) (start end : Address)
    → lookup pid d ≡ some part
    → Sorted part.records
    → All (λ (r : KvRecord). r.address.key ≢ []) part.records
    → start.keyspace ≡ end.keyspace
    → let at = or_latest timestamp in
      get_range inmem_db d pid timestamp start end
      ≡ some (
          newest at end []
            (select (in_range (kv_address start at) (some (kv_address end at))) part.records))
unfolding scout.Kv.Inmem.get_range
get_range-newest_stored d pid timestamp part start end there v keys same =
    let at = or_latest timestamp in
    let test = in_range (kv_address start at) (some (kv_address end at)) in
    get_range-newest inmem_db d pid timestamp start end (select test part.records)
      (rw (there, inmem_db)
        (ap some (range_of-select part.records (kv_address start at) (some (kv_address end at)) v)))
      (select-KeyOrder end.keyspace start end at part.records same refl v).1
      (select-All (λ (r : KvRecord). r.address.key ≢ []) test part.records keys)
