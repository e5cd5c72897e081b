-- ===== src/Base/Lists.antt =====
-- Lists: predicates by recursion, lengths over the native numbers, tests over a list.
use Prim.Native.Nat.{ℕ, zero, suc, ◌+◌}
use mathlib.Core.Path.{◌≡◌, refl, sym, subst}
use mathlib.Core.Bool.{Bool, true, false, ◌&&◌, ◌||◌}
use mathlib.Core.List.{List, [], ◌∷◌, ◌++◌, Permᴰ}
use native.Mathlib.Omega.{arith}

module _ {ℓ} {A : Type ℓ} where
  abbrev pub length : List A → ℕ
  length [] = 0
  length (x ∷ xs) = suc (length xs)

  abbrev pub all : (A → Bool) → List A → Bool
  all p [] = true
  all p (x ∷ xs) = p x && all p xs

  abbrev pub any : (A → Bool) → List A → Bool
  any p [] = false
  any p (x ∷ xs) = p x || any p xs

  abbrev pub All {κ} : (A → Type κ) → List A → Type κ
  All P [] = Unit
  All P (x ∷ xs) = P x × All P xs

  -- Each entry stands in `R` to every later one.
  abbrev pub Pairwise {κ} : (A → A → Type κ) → List A → Type κ
  Pairwise R [] = Unit
  Pairwise R (x ∷ xs) = All (R x) xs × Pairwise R xs

  unfoldable pub take : ℕ → List A → List A
  take zero xs = []
  take (suc n) [] = []
  take (suc n) (x ∷ xs) = x ∷ take n xs

  unfoldable pub drop : ℕ → List A → List A
  drop zero xs = xs
  drop (suc n) [] = []
  drop (suc n) (x ∷ xs) = drop n xs

  pub length-append : (xs ys : List A) → length (xs ++ ys) ≡ length xs + length ys
  length-append [] ys = omega arith
  length-append (x ∷ xs) ys = omega (arith, length-append xs ys)

  pub All-mono {κ μ} :
      {P : A → Type κ} {Q : A → Type μ} (f : (x : A) → P x → Q x) (xs : List A)
      → All P xs
      → All Q xs
  All-mono f [] h = tt
  All-mono f (x ∷ xs) h = (f x h.0, All-mono f xs h.1)

  pub All-both {κ μ} :
      (P : A → Type κ) (Q : A → Type μ) (xs : List A)
      → All P xs
      → All Q xs
      → All (λ x. P x × Q x) xs
  All-both P Q [] h k = tt
  All-both P Q (x ∷ xs) h k = ((h.0, k.0), All-both P Q xs h.1 k.1)

  pub All-append {κ} : (P : A → Type κ) (xs ys : List A) → All P xs → All P ys → All P (xs ++ ys)
  All-append P [] ys h k = k
  All-append P (x ∷ xs) ys h k = (h.0, All-append P xs ys h.1 k)

  pub All-perm {κ} : (P : A → Type κ) {xs ys : List A} → Permᴰ xs ys → All P xs → All P ys
  All-perm P Permᴰ.nil h = tt
  All-perm P (Permᴰ.cons e d) h = (subst P e h.0, All-perm P d h.1)
  All-perm P (Permᴰ.swap e k) h = (subst P k h.1.0, (subst P e h.0, h.1.1))
  All-perm P (Permᴰ.trans d e) h = All-perm P e (All-perm P d h)

  pub All-unperm {κ} : (P : A → Type κ) {xs ys : List A} → Permᴰ xs ys → All P ys → All P xs
  All-unperm P Permᴰ.nil h = tt
  All-unperm P (Permᴰ.cons e d) h = (subst P (sym e) h.0, All-unperm P d h.1)
  All-unperm P (Permᴰ.swap e k) h = (subst P (sym e) h.1.0, (subst P (sym k) h.0, h.1.1))
  All-unperm P (Permᴰ.trans d e) h = All-unperm P d (All-unperm P e h)

  pub all-true : (p : A → Bool) (xs : List A) → ((x : A) → p x ≡ true) → all p xs ≡ true
  all-true p [] h = refl
  all-true p (x ∷ xs) h = ground (arith, h x, all-true p xs h)

  all_zip :
      (p q : A → Bool) (xs : List A)
      → all p xs ≡ true
      → all q xs ≡ true
      → all (λ x. p x && q x) xs ≡ true
  all_zip p q [] h k = refl
  all_zip p q (x ∷ xs) h k = ground (arith, all_zip p q xs)

  all_ext :
      (p q : A → Bool) (xs : List A) → ((x : A) → p x ≡ q x) → all p xs ≡ true → all q xs ≡ true
  all_ext p q [] e h = refl
  all_ext p q (x ∷ xs) e h = ground (arith, e x, all_ext p q xs e)

  -- A symmetric test of every pair of two lists can be made from either list.
  pub all-all_comm :
      (r : A → A → Bool)
      → ((x y : A) → r x y ≡ r y x)
      → (xs ys : List A) → all (λ x. all (r x) ys) xs ≡ true
      → all (λ y. all (r y) xs) ys ≡ true
  all-all_comm r symm [] ys h = all-true (λ y. true) ys (λ y. refl)
  all-all_comm r symm (x ∷ xs) ys h =
      all_zip (λ y. r y x) (λ y. all (r y) xs) ys
        (all_ext (r x) (λ y. r y x) ys (symm x) (ground arith))
        (all-all_comm r symm xs ys (ground arith))
