-- ===== src/Kv/Order.antt =====
-- `Compare` is a total order of addresses.
use scout.Base.{◌≡◌, true, ◌↔◌, Ordering, arith}
use scout.Base.Bytes.{flip, compare_bytes_swap, compare_bytes_refl, eq_bytes_iff, lt_le_bytes_trans}
use scout.Kv.{KvAddress, compare_address, before}

pub compare_address_swap : (a b : KvAddress) → compare_address b a ≡ flip (compare_address a b)
unfolding compare_address
compare_address_swap a b = ground (arith, compare_bytes_swap a.key b.key)

pub compare_address_iff : (a b : KvAddress) → (compare_address a b ≡ Ordering.eq) ↔ (a ≡ b)
unfolding compare_address
compare_address_iff a b =
    (λ h. ground (arith, eq_bytes_iff a.key b.key), λ p. ground (arith, compare_bytes_refl a.key))

-- What comes before an address that comes before another comes before the other.
pub before_trans : (a b c : KvAddress) → before a b ≡ true → before b c ≡ true → before a c ≡ true
unfolding compare_address
before_trans a b c h k = ground (
  arith,
  eq_bytes_iff a.key b.key,
  eq_bytes_iff b.key c.key,
  eq_bytes_iff a.key c.key,
  lt_le_bytes_trans a.key b.key c.key,
)
