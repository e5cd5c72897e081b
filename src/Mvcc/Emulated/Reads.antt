-- ===== src/Mvcc/Emulated/Reads.antt =====
-- What `GetRange` and `Get` of the emulated multi-version store return.
use scout.Base.{
  ℕ, ◌≡◌, ◌≢◌, ◌<◌, ◌+◌, refl, sym, ap, Bool, true, false, not, ◌&&◌, ◌||◌, none, some, List, [],
  ◌∷◌, if◌then◌else◌, ltb, leb, arith, inl, inr, Option-cases,
}
use scout.Base.Lists.{All, All-mono, All-both, Pairwise, any}
use scout.Base.Bytes.{
  Bytes, eq_bytes, le_bytes, compare_bytes, eq_bytes_iff, compare_bytes_refl, compare_bytes_swap,
}
use scout.Mvcc.{Address, Record, is_tombstone, decode_data}
use scout.Kv.{
  KvAddress, KvRecord, before, compare_address, increment, next_key, next, last_address_for_key,
}
use scout.Kv.Order.{before_trans}
use scout.Mvcc.Emulated.{
  KvDb, Stream, nil, fault, yields, kv_address, record_of, or_latest, visit, first_of, get_first,
  get_range,
}

-- Whether a version of the key that the reader sees is in a list.
abbrev pub seen : ℕ → List KvRecord → Bytes → Bool
seen timestamp earlier key =
    any (λ (q : KvRecord). eq_bytes key q.address.key && leb q.address.timestamp timestamp) earlier

-- The reference: up to the end, every record that the reader sees, that is no tombstone, and such
-- that no earlier record is a version of its key that the reader sees.
unfoldable pub newest : ℕ → Address → List KvRecord → List KvRecord → Stream
newest timestamp end earlier [] = nil
newest timestamp end earlier (p ∷ rest) = elim (decode_data p.content) [
  | none ↦ fault
  | some (value, flags) ↦
      let later = newest timestamp end (p ∷ earlier) rest in
      if ltb end.keyspace p.address.keyspace || le_bytes end.key p.address.key
      then nil
      else if leb p.address.timestamp timestamp
          && (not (is_tombstone flags) && not (seen timestamp earlier p.address.key))
      then yields (record_of p value flags) later
      else later
]

abbrev pub KeyOrder : KvRecord → KvRecord → Type 0
KeyOrder p q = le_bytes p.address.key q.address.key ≡ true

-- `skipKey` says of each later record whether a version of its key was seen, and is not above it.
abbrev Skips : ℕ → Bytes → List KvRecord → KvRecord → Type 0
Skips timestamp skip_key earlier q =
    (eq_bytes q.address.key skip_key ≡ seen timestamp earlier q.address.key)
    × (le_bytes skip_key q.address.key ≡ true)

abbrev next_skip : ℕ → Bytes → KvRecord → (flags : ℕ) → Bytes
next_skip timestamp skip_key p flags =
    if leb p.address.timestamp timestamp
      && (is_tombstone flags || not (eq_bytes p.address.key skip_key))
    then p.address.key
    else skip_key

Skips-next :
    (timestamp : ℕ) (skip_key : Bytes) (earlier : List KvRecord) (p q : KvRecord) (flags : ℕ)
    → Skips timestamp skip_key earlier p
    → KeyOrder p q
    → Skips timestamp skip_key earlier q
    → Skips timestamp (next_skip timestamp skip_key p flags) (p ∷ earlier) q
Skips-next timestamp skip_key earlier p q flags here order there = ground (
  arith,
  eq_bytes_iff q.address.key skip_key,
  eq_bytes_iff q.address.key p.address.key,
  eq_bytes_iff p.address.key skip_key,
  compare_bytes_refl p.address.key,
  compare_bytes_refl q.address.key,
  compare_bytes_swap p.address.key skip_key,
  compare_bytes_swap p.address.key q.address.key,
)

-- What `visit` does with a record that it decodes, given the stream of the later ones.
abbrev continued : ℕ → Address → Bytes → KvRecord → Bytes → ℕ → Stream → Stream
continued timestamp end skip_key p value flags later =
    if ltb end.keyspace p.address.keyspace || le_bytes end.key p.address.key
    then nil
    else if leb p.address.timestamp timestamp
        && (not (is_tombstone flags) && not (eq_bytes p.address.key skip_key))
    then yields (record_of p value flags) later
    else later

visit-newest :
    (timestamp : ℕ) (end : Address) (skip_key : Bytes) (earlier records : List KvRecord)
    → Pairwise KeyOrder records
    → All (Skips timestamp skip_key earlier) records
    → visit timestamp end skip_key records ≡ newest timestamp end earlier records
unfolding visit newest
visit-newest timestamp end skip_key earlier [] order skips = refl
visit-newest timestamp end skip_key earlier (p ∷ rest) order skips =
    elim (Option-cases (decode_data p.content)) [
      | inl e ↦ rw (e, visit, newest) refl
      | inr ((value, flags), e) ↦
          let later =
            visit-newest timestamp end (next_skip timestamp skip_key p flags) (p ∷ earlier) rest
              order.1
              (All-mono (λ q h. Skips-next timestamp skip_key earlier p q flags skips.0 h.0 h.1)
                rest
                (All-both (KeyOrder p) (Skips timestamp skip_key earlier) rest order.0 skips.1)) in
          let same : eq_bytes p.address.key skip_key ≡ seen timestamp earlier p.address.key =
            skips.0.0 in
          rw (e, sym same, visit, newest)
            (ap (continued timestamp end skip_key p value flags) later)
    ]

start-Skips :
    (timestamp : ℕ) (records : List KvRecord)
    → All (λ (p : KvRecord). p.address.key ≢ []) records
    → All (Skips timestamp [] []) records
unfolding compare_bytes
start-Skips timestamp [] h = tt
start-Skips timestamp (p ∷ rest) h = (first p.address.key h.0, start-Skips timestamp rest h.1)
  where
    first : (key : Bytes) → key ≢ [] → (eq_bytes key [] ≡ false) × (le_bytes [] key ≡ true)
    first [] empty = absurd (empty refl)
    first (b ∷ key) _ = (refl, refl)

-- If the key-value store gives the records of a range in the order of their keys, and no key is
-- empty, then `GetRange` yields what the reference does: of each key up to the end, the first
-- version that the reader sees, unless it is a tombstone.
pub get_range-newest :
    {S : Type 0} (db : KvDb S) (s : S) (pid timestamp : ℕ) (start end : Address)
    (records : List KvRecord)
    → db.get_range s pid
        (kv_address start (or_latest timestamp))
        (kv_address end (or_latest timestamp))
      ≡ some records
    → Pairwise KeyOrder records
    → All (λ (p : KvRecord). p.address.key ≢ []) records
    → get_range db s pid timestamp start end ≡ some (newest (or_latest timestamp) end [] records)
unfolding get_range
get_range-newest db s pid timestamp start end records found order keys =
    rw (found, get_range)
      (ap some (
        visit-newest (or_latest timestamp) end [] [] records order
          (start-Skips (or_latest timestamp) records keys)))

-- A store that returns records between the bounds of a range only.
abbrev pub IsBounded : {S : Type 0} → KvDb S → Type 0
IsBounded {S} db =
    (s : S) (pid : ℕ) (start end : KvAddress) (records : List KvRecord)
    → db.get_range s pid start end ≡ some records
    → All (λ (p : KvRecord). (before p.address start ≡ false) × (before p.address end ≡ true))
        records

no_records :
    (start end : KvAddress) (records : List KvRecord)
    → before end start ≡ true
    → All
        (λ (p : KvRecord). (before p.address start ≡ false) × (before p.address end ≡ true))
        records
    → records ≡ []
no_records start end [] reversed h = refl
no_records start end (p ∷ rest) reversed h =
    let early : before p.address start ≡ true = before_trans p.address end start h.0.1 reversed in
    absurd (ground arith)

reversed_range :
    (keyspace timestamp c : ℕ) (rest : Bytes)
    → c + 1 < 256
    → before
        (next (last_address_for_key keyspace (255 ∷ c ∷ rest)))
        (record { keyspace = keyspace; key = 255 ∷ c ∷ rest; timestamp = timestamp })
      ≡ true
unfolding next next_key increment compare_address compare_bytes
reversed_range keyspace timestamp c rest low = ground arith

-- On a store whose ranges stay between their bounds, `getFirst` never returns a record for a key
-- that starts with the greatest byte followed by a smaller one.
pub get_first_misses :
    {S : Type 0} (db : KvDb S) (s : S) (pid timestamp keyspace c : ℕ) (rest : Bytes) (r : Record)
    → IsBounded db
    → c + 1 < 256
    → get_first db s pid timestamp (record { keyspace = keyspace; key = 255 ∷ c ∷ rest })
      ≢ some (some r)
unfolding get_first first_of
get_first_misses db s pid timestamp keyspace c rest r bounded low found =
    let a : Address = record { keyspace = keyspace; key = 255 ∷ c ∷ rest } in
    let start = kv_address a (or_latest timestamp) in
    let end = next (last_address_for_key keyspace (255 ∷ c ∷ rest)) in
    elim (Option-cases (db.get_range s pid start end)) [
      | inl e ↦ ground arith
      | inr (records, e) ↦
          let none_there : records ≡ [] =
            no_records start end records (reversed_range keyspace (or_latest timestamp) c rest low)
              (bounded s pid start end records e) in
          ground arith
    ]
