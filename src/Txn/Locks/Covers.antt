-- ===== src/Txn/Locks/Covers.antt =====
-- What `CompatibleWith` decides: two locks conflict exactly when they share a key and one of them
-- is exclusive.
use scout.Base.{ℕ, ◌≡◌, refl, Bool, true, false, ◌&&◌, ◌||◌, arith, ◌==◌}
use scout.Base.{inl, inr, Bool-cases, nat_eq, ◌↔◌}
use scout.Base.Bytes.{
  Bytes, eq_bytes, le_bytes, lt_bytes, compare_bytes_swap, eq_bytes_iff, compare_bytes_refl,
  le_lt_bytes_trans,
}
use scout.Txn.{Lock, LockPayload, key_lock, range_lock}
use scout.Txn.Locks.{compatible_with}

payload_covers : LockPayload → ℕ → Bytes → Bool
payload_covers (key_lock l) ks k = l.keyspace == ks && eq_bytes l.key k
payload_covers (range_lock l) ks k =
    l.keyspace == ks && (le_bytes l.start_key k && lt_bytes k l.end_key)

-- The keys that a lock protects: a range holds its start and not its end.
pub covers : Lock → ℕ → Bytes → Bool
unfolding payload_covers
covers l = payload_covers l.payload

abbrev is_exclusive_payload : LockPayload → Bool
is_exclusive_payload (key_lock l) = l.exclusive
is_exclusive_payload (range_lock l) = l.exclusive

abbrev pub is_exclusive : Lock → Bool
is_exclusive l = is_exclusive_payload l.payload

-- A range that holds a key.
abbrev IsProperPayload : LockPayload → Type 0
IsProperPayload (key_lock l) = Unit
IsProperPayload (range_lock l) = lt_bytes l.start_key l.end_key ≡ true

abbrev pub IsProper : Lock → Type 0
IsProper l = IsProperPayload l.payload

payloads_comm :
    (a b : Lock) (p q : LockPayload)
    → a.payload ≡ p
    → b.payload ≡ q
    → compatible_with a b ≡ compatible_with b a
unfolding compatible_with
payloads_comm a b (key_lock x) (key_lock y) p q = ground (arith, compare_bytes_swap x.key y.key)
payloads_comm a b (key_lock x) (range_lock y) p q = ground arith
payloads_comm a b (range_lock x) (key_lock y) p q = ground arith
payloads_comm a b (range_lock x) (range_lock y) p q =
    ground
      (arith, compare_bytes_swap x.end_key y.start_key, compare_bytes_swap x.start_key y.end_key)

-- The order in which two locks are compared does not matter.
pub compatible_with_comm : (a b : Lock) → compatible_with a b ≡ compatible_with b a
compatible_with_comm a b = payloads_comm a b a.payload b.payload refl refl

-- A key that two locks share, if one of them is exclusive.
abbrev pub Clash : Lock → Lock → Type 0
Clash a b =
    (ks : ℕ) × (k : Bytes) × (covers a ks k ≡ true)
    × (covers b ks k ≡ true)
    × (is_exclusive a || is_exclusive b ≡ true)

conflict_of_shared :
    (a b : Lock) (p q : LockPayload) (ks : ℕ) (k : Bytes)
    → a.payload ≡ p
    → b.payload ≡ q
    → covers a ks k ≡ true
    → covers b ks k ≡ true
    → is_exclusive a || is_exclusive b ≡ true
    → compatible_with a b ≡ false
unfolding compatible_with covers
conflict_of_shared a b (key_lock x) (key_lock y) ks k p q ca cb e =
    ground (arith, eq_bytes_iff x.key k, eq_bytes_iff y.key k, compare_bytes_refl k)
conflict_of_shared a b (key_lock x) (range_lock y) ks k p q ca cb e =
    ground (arith, eq_bytes_iff x.key k, compare_bytes_swap y.start_key k)
conflict_of_shared a b (range_lock x) (key_lock y) ks k p q ca cb e =
    ground (arith, eq_bytes_iff y.key k, compare_bytes_swap x.start_key k)
conflict_of_shared a b (range_lock x) (range_lock y) ks k p q ca cb e = ground (
  arith,
  compare_bytes_swap x.end_key y.start_key,
  compare_bytes_swap x.start_key y.end_key,
  le_lt_bytes_trans x.start_key k y.end_key,
  le_lt_bytes_trans y.start_key k x.end_key,
)

Clash-of_conflict :
    (a b : Lock) (p q : LockPayload)
    → a.payload ≡ p
    → b.payload ≡ q
    → IsProper a
    → IsProper b
    → compatible_with a b ≡ false
    → Clash a b
unfolding compatible_with covers
Clash-of_conflict a b (key_lock x) (key_lock y) p q _ _ h = (
  x.keyspace,
  x.key,
  ground (arith, compare_bytes_refl x.key),
  ground (arith, compare_bytes_refl x.key, compare_bytes_swap x.key y.key),
  ground arith,
)
Clash-of_conflict a b (key_lock x) (range_lock y) p q _ _ h = (
  x.keyspace,
  x.key,
  ground (arith, compare_bytes_refl x.key),
  ground (arith, compare_bytes_swap x.key y.start_key),
  ground arith,
)
Clash-of_conflict a b (range_lock x) (key_lock y) p q _ _ h = (
  y.keyspace,
  y.key,
  ground (arith, compare_bytes_swap y.key x.start_key),
  ground (arith, compare_bytes_refl y.key),
  ground arith,
)
Clash-of_conflict a b (range_lock x) (range_lock y) p q u v h =
    elim (Bool-cases (le_bytes x.start_key y.start_key)) [
      | inl le ↦ (
        x.keyspace,
        y.start_key,
        ground (arith, compare_bytes_swap x.end_key y.start_key),
        ground (arith, compare_bytes_refl y.start_key),
        ground arith,
      )
      | inr gt ↦ (
        x.keyspace,
        x.start_key,
        ground (arith, compare_bytes_refl x.start_key),
        ground (arith, compare_bytes_swap x.start_key y.start_key),
        ground arith,
      )
    ]

-- Locks whose ranges hold a key conflict exactly when some key is covered by both of them and one
-- of the two is exclusive.
pub conflict_iff :
    (a b : Lock) → IsProper a → IsProper b → (compatible_with a b ≡ false) ↔ Clash a b
conflict_iff a b u v = (
  Clash-of_conflict a b a.payload b.payload refl refl u v,
  λ c. conflict_of_shared a b a.payload b.payload c.0 c.1 refl refl c.2 c.3 c.4,
)
