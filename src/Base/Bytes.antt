-- ===== src/Base/Bytes.antt =====
-- Byte strings and `bytes.Compare`, the lexicographic order.
use Prim.Native.Nat.{ℕ, compare, Ordering}
use mathlib.Core.Path.{◌≡◌, refl}
use mathlib.Core.Logic.{◌↔◌}
use mathlib.Core.Bool.{Bool, true, false}
use mathlib.Core.List.{List, [], ◌∷◌}
use native.Mathlib.Omega.{arith}
use scout.Base.Tests.{Eq}

abbrev pub Bytes : Type 0
Bytes = List ℕ

-- `bytes.Compare`; `lt`, `eq` and `gt` stand for -1, 0 and 1.
unfoldable pub compare_bytes : Bytes → Bytes → Ordering
compare_bytes [] [] = Ordering.eq
compare_bytes [] (y ∷ ys) = Ordering.lt
compare_bytes (x ∷ xs) [] = Ordering.gt
compare_bytes (x ∷ xs) (y ∷ ys) =
    let rest = compare_bytes xs ys in
    elim (compare x y) [
      | Ordering.lt ↦ Ordering.lt
      | Ordering.eq ↦ rest
      | Ordering.gt ↦ Ordering.gt
    ]

abbrev pub is_eq : Ordering → Bool
is_eq Ordering.eq = true
is_eq _ = false

abbrev pub is_lt : Ordering → Bool
is_lt Ordering.lt = true
is_lt _ = false

-- `x <= 0`.
abbrev pub is_le : Ordering → Bool
is_le Ordering.gt = false
is_le _ = true

abbrev pub lt_bytes : Bytes → Bytes → Bool
lt_bytes a b = is_lt (compare_bytes a b)

abbrev pub le_bytes : Bytes → Bytes → Bool
le_bytes a b = is_le (compare_bytes a b)

-- `bytes.Equal`.
abbrev pub eq_bytes : Bytes → Bytes → Bool
eq_bytes a b = is_eq (compare_bytes a b)

pub compare_bytes_refl : (a : Bytes) → compare_bytes a a ≡ Ordering.eq
unfolding compare_bytes
compare_bytes_refl [] = refl
compare_bytes_refl (x ∷ xs) = ground (arith, compare_bytes_refl xs)

eq_of_compare : (a b : Bytes) → compare_bytes a b ≡ Ordering.eq → a ≡ b
unfolding compare_bytes
eq_of_compare [] [] h = refl
eq_of_compare [] (y ∷ ys) h = cc
eq_of_compare (x ∷ xs) [] h = cc
eq_of_compare (x ∷ xs) (y ∷ ys) h = ground (arith, eq_of_compare xs ys)

pub eq_bytes_iff : (a b : Bytes) → (eq_bytes a b ≡ true) ↔ (a ≡ b)
eq_bytes_iff a b =
    (λ h. eq_of_compare a b (ground arith), λ p. ground (arith, compare_bytes_refl a))

instance abbrev pub bytes_eq : Eq Bytes
bytes_eq = record { beq = eq_bytes; beq_iff = eq_bytes_iff }

abbrev pub flip : Ordering → Ordering
flip Ordering.lt = Ordering.gt
flip Ordering.eq = Ordering.eq
flip Ordering.gt = Ordering.lt

pub compare_bytes_swap : (a b : Bytes) → compare_bytes b a ≡ flip (compare_bytes a b)
unfolding compare_bytes
compare_bytes_swap [] [] = refl
compare_bytes_swap [] (y ∷ ys) = refl
compare_bytes_swap (x ∷ xs) [] = refl
compare_bytes_swap (x ∷ xs) (y ∷ ys) = ground (arith, compare_bytes_swap xs ys)

pub lt_le_bytes_trans :
    (a b c : Bytes) → lt_bytes a b ≡ true → le_bytes b c ≡ true → lt_bytes a c ≡ true
unfolding compare_bytes
lt_le_bytes_trans [] [] c h k = cc
lt_le_bytes_trans [] (y ∷ ys) [] h k = cc
lt_le_bytes_trans [] (y ∷ ys) (z ∷ zs) h k = refl
lt_le_bytes_trans (x ∷ xs) [] c h k = cc
lt_le_bytes_trans (x ∷ xs) (y ∷ ys) [] h k = cc
lt_le_bytes_trans (x ∷ xs) (y ∷ ys) (z ∷ zs) h k = ground (arith, lt_le_bytes_trans xs ys zs)

pub le_bytes_trans :
    (a b c : Bytes) → le_bytes a b ≡ true → le_bytes b c ≡ true → le_bytes a c ≡ true
unfolding compare_bytes
le_bytes_trans [] b [] h k = refl
le_bytes_trans [] b (z ∷ zs) h k = refl
le_bytes_trans (x ∷ xs) [] c h k = cc
le_bytes_trans (x ∷ xs) (y ∷ ys) [] h k = cc
le_bytes_trans (x ∷ xs) (y ∷ ys) (z ∷ zs) h k = ground (arith, le_bytes_trans xs ys zs)

pub le_lt_bytes_trans :
    (a b c : Bytes) → le_bytes a b ≡ true → lt_bytes b c ≡ true → lt_bytes a c ≡ true
unfolding compare_bytes
le_lt_bytes_trans [] [] c h k = k
le_lt_bytes_trans [] (y ∷ ys) [] h k = cc
le_lt_bytes_trans [] (y ∷ ys) (z ∷ zs) h k = refl
le_lt_bytes_trans (x ∷ xs) [] c h k = cc
le_lt_bytes_trans (x ∷ xs) (y ∷ ys) [] h k = cc
le_lt_bytes_trans (x ∷ xs) (y ∷ ys) (z ∷ zs) h k = ground (arith, le_lt_bytes_trans xs ys zs)
