-- ===== src/Base/Distinct.antt =====
-- Lists of different numbers below a bound: as many as the bound leave none out.
use Prim.Native.Nat.{ℕ, zero, suc, ◌≤◌, ◌<◌}
use mathlib.Core.Path.{◌≡◌, refl, subst}
use mathlib.Core.Logic.{inl, inr}
use mathlib.Core.Bool.{true, false}
use mathlib.Core.List.{List, [], ◌∷◌}
use native.Mathlib.Omega.{arith}
use scout.Base.Tests.{◌==◌, nat_eq, if◌then◌else◌, Bool-cases}
use scout.Base.Lists.{length, All, Pairwise, any}

abbrev pub Distinct : List ℕ → Type 0
Distinct xs = Pairwise (λ a b. (a == b) ≡ false) xs

unfoldable remove : ℕ → List ℕ → List ℕ
remove n [] = []
remove n (x ∷ xs) = let rest = remove n xs in if x == n then rest else x ∷ rest

remove-All {κ} : (P : ℕ → Type κ) (n : ℕ) (xs : List ℕ) → All P xs → All P (remove n xs)
unfolding remove
remove-All P n [] h = tt
remove-All P n (x ∷ xs) h = elim (Bool-cases (x == n)) [
  | inl e ↦ rw e (remove-All P n xs h.1)
  | inr e ↦ rw e (h.0, remove-All P n xs h.1)
]

remove-Distinct : (n : ℕ) (xs : List ℕ) → Distinct xs → Distinct (remove n xs)
unfolding remove
remove-Distinct n [] h = tt
remove-Distinct n (x ∷ xs) h = elim (Bool-cases (x == n)) [
  | inl e ↦ rw e (remove-Distinct n xs h.1)
  | inr e ↦ rw e (remove-All (λ b. (x == b) ≡ false) n xs h.0, remove-Distinct n xs h.1)
]

remove_below : (n : ℕ) (xs : List ℕ) → All (λ x. x < suc n) xs → All (λ x. x < n) (remove n xs)
unfolding remove
remove_below n [] h = tt
remove_below n (x ∷ xs) h = elim (Bool-cases (x == n)) [
  | inl e ↦ rw e (remove_below n xs h.1)
  | inr e ↦ rw e (ground (arith, h.0), remove_below n xs h.1)
]

remove_absent : (n : ℕ) (xs : List ℕ) → All (λ b. (n == b) ≡ false) xs → remove n xs ≡ xs
unfolding remove
remove_absent n [] h = refl
remove_absent n (x ∷ xs) h =
    let other : (x == n) ≡ false = ground (arith, h.0) in rw (other, remove_absent n xs h.1) refl

length-remove : (n : ℕ) (xs : List ℕ) → Distinct xs → length xs ≤ suc (length (remove n xs))
unfolding remove
length-remove n [] h = omega arith
length-remove n (x ∷ xs) h = elim (Bool-cases (x == n)) [
  | inl e ↦
      let key : x ≡ n = (nat_eq.beq_iff x n).0 e in
      let same : remove n xs ≡ xs = subst (λ k. remove k xs ≡ xs) key (remove_absent x xs h.0) in
      rw (e, same) (omega arith)
  | inr e ↦ rw e (omega (arith, length-remove n xs h.1))
]

pub Distinct-length : (n : ℕ) (xs : List ℕ) → Distinct xs → All (λ x. x < n) xs → length xs ≤ n
Distinct-length zero [] d h = omega arith
Distinct-length zero (x ∷ xs) d h = absurd (omega (arith, h.0))
Distinct-length (suc n) xs d h =
    let rest = Distinct-length n (remove n xs) (remove-Distinct n xs d) (remove_below n xs h) in
    omega (arith, length-remove n xs d)

pub absent_none :
    (k : ℕ) (xs : List ℕ) → any (λ x. x == k) xs ≡ false → All (λ b. (k == b) ≡ false) xs
absent_none k [] h = tt
absent_none k (x ∷ xs) h = (ground (arith, h), absent_none k xs (ground arith))

-- As many different numbers below `n` are all of them.
pub Distinct-any :
    (n k : ℕ) (xs : List ℕ)
    → Distinct xs
    → All (λ x. x < n) xs
    → length xs ≡ n
    → k < n
    → any (λ x. x == k) xs ≡ true
Distinct-any n k xs d h full low = elim (Bool-cases (any (λ x. x == k) xs)) [
  | inl e ↦ e
  | inr e ↦
      let more = Distinct-length n (k ∷ xs) (absent_none k xs e, d) (low, h) in absurd (omega arith)
]
