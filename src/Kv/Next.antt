-- ===== src/Kv/Next.antt =====
-- `Next` as a successor, and where it is none: the key is incremented from its first byte, while
-- `Compare` weighs the first byte most.
use scout.Base.{
  ℕ, ◌≡◌, refl, true, false, ◌<◌, ◌≤◌, ◌+◌, ◌-◌, ◌∷◌, ◌==◌, nat_eq, arith, max_u64, sub_u64,
}
use scout.Base.Bytes.{Bytes, compare_bytes, compare_bytes_refl, compare_bytes_swap, eq_bytes_iff}
use scout.Kv.{KvAddress, compare_address, before, last_address_for_key, increment, next_key, next}

next_version :
    (a : KvAddress)
    → 0 < a.timestamp
    → a.timestamp ≤ max_u64
    → next a ≡ record a { timestamp = a.timestamp - 1 }
unfolding next
next_version a pos word =
    let wrapped : sub_u64 a.timestamp 1 ≡ a.timestamp - 1 = omega arith in
    let inner : (a.timestamp - 1 == max_u64) ≡ false = ground arith in rw (wrapped, inner) refl

-- The next address after a timestamp above 0 comes after it, and no address lies between them.
pub next-adjacent :
    (a b : KvAddress)
    → 0 < a.timestamp
    → a.timestamp ≤ max_u64
    → before a b ≡ true
    → (before a (next a) ≡ true) × (before b (next a) ≡ false)
unfolding compare_address
next-adjacent a b pos word h = rw (next_version a pos word) (
  ground (arith, compare_bytes_refl a.key),
  ground
      (arith, eq_bytes_iff a.key b.key, compare_bytes_refl a.key, compare_bytes_swap a.key b.key),
)

-- After the last version of a key of two bytes or more, the next address skips the keys that
-- differ from it in the second byte alone: they lie between the two.
pub next_skips :
    (keyspace timestamp b c : ℕ) (rest : Bytes)
    → b + 1 < 256
    → let a = last_address_for_key keyspace (b ∷ c ∷ rest) in
      let other : KvAddress = record {
        keyspace = keyspace;
        key = b ∷ (c + 1) ∷ rest;
        timestamp = timestamp;
      } in
      (before a other ≡ true) × (before other (next a) ≡ true)
unfolding next next_key increment compare_address compare_bytes
next_skips keyspace timestamp b c rest h = (ground arith, ground arith)

-- After the last version of a key that starts with the greatest byte, followed by a smaller one,
-- the next address comes before it.
pub next_goes_back :
    (keyspace c : ℕ) (rest : Bytes)
    → c + 1 < 256
    → let a = last_address_for_key keyspace (255 ∷ c ∷ rest) in before (next a) a ≡ true
unfolding next next_key increment compare_address compare_bytes
next_goes_back keyspace c rest h = ground arith
