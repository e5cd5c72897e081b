-- ===== src/Base/Maps.antt =====
-- Go's `map[K]V` as an association list. An insertion drops the old entry of its key, so a map
-- that is built by `insert` and `delete` holds a key once.
use mathlib.Core.Bool.{false}
use mathlib.Core.Path.{◌≡◌}
use mathlib.Core.Option.{Option, none, some}
use mathlib.Core.List.{List, [], ◌∷◌}
use native.Mathlib.Omega.{arith}
use mathlib.Core.Path.{subst, refl}
use mathlib.Core.Logic.{inl, inr}
use scout.Base.Lists.{All, Pairwise}
use scout.Base.Tests.{Eq, ◌==◌, if◌then◌else◌, Bool-cases, beq_refl}

abbrev pub Map {ℓ} : Type ℓ → Type ℓ → Type ℓ
Map K V = List (K × V)

module _ {ℓ} {K V : Type ℓ} ⦃e : Eq K⦄ where
  unfoldable pub lookup : K → Map K V → Option V
  lookup k [] = none
  lookup k ((j, v) ∷ m) = if j == k then some v else lookup k m

  unfoldable pub delete : K → Map K V → Map K V
  delete k [] = []
  delete k ((j, v) ∷ m) = let rest = delete k m in if j == k then rest else (j, v) ∷ rest

  unfoldable pub insert : K → V → Map K V → Map K V
  insert k v m = (k, v) ∷ delete k m

  pub lookup-delete :
      (k j : K) (m : Map K V) → lookup j (delete k m) ≡ (if k == j then none else lookup j m)
  unfolding lookup delete
  lookup-delete k j [] = ground arith
  lookup-delete k j ((i, v) ∷ m) =
      ground (arith, e.beq_iff i k, e.beq_iff i j, e.beq_iff k j, lookup-delete k j m)

  pub lookup-insert :
      (k j : K) (v : V) (m : Map K V)
      → lookup j (insert k v m) ≡ (if k == j then some v else lookup j m)
  unfolding lookup insert
  lookup-insert k j v m = ground (arith, lookup-delete k j m)

  pub lookup-insert_self : (k : K) (v : V) (m : Map K V) → lookup k (insert k v m) ≡ some v
  lookup-insert_self k v m = ground (arith, lookup-insert k k v m, beq_refl k)

  module _ {κ} (P : K × V → Type κ) where
    pub All-delete : (k : K) (m : Map K V) → All P m → All P (delete k m)
    unfolding delete
    All-delete k [] h = tt
    All-delete k ((j, v) ∷ m) h = elim (Bool-cases (j == k)) [
      | inl same ↦ rw same (All-delete k m h.1)
      | inr other ↦ rw other (h.0, All-delete k m h.1)
    ]

    pub All-insert : (k : K) (v : V) (m : Map K V) → P (k, v) → All P m → All P (insert k v m)
    unfolding insert
    All-insert k v m new h = (new, All-delete k m h)

    pub All-lookup : (k : K) (v : V) (m : Map K V) → lookup k m ≡ some v → All P m → P (k, v)
    unfolding lookup
    All-lookup k v [] found h = cc
    All-lookup k v ((j, w) ∷ m) found h = elim (Bool-cases (j == k)) [
      | inl same ↦
          let key : j ≡ k = (e.beq_iff j k).0 same in
          let value : w ≡ v = ground arith in
          subst (λ x. P (k, x)) value (subst (λ x. P (x, w)) key h.0)
      | inr other ↦ All-lookup k v m (rw other at found) h.1
    ]

  module _ {κ} (R : V → V → Type κ) where
    abbrev Related : K × V → K × V → Type κ
    Related a b = R a.1 b.1

    pub Pairwise-delete : (k : K) (m : Map K V) → Pairwise Related m → Pairwise Related (delete k m)
    unfolding delete
    Pairwise-delete k [] h = tt
    Pairwise-delete k ((j, v) ∷ m) h = elim (Bool-cases (j == k)) [
      | inl same ↦ rw same (Pairwise-delete k m h.1)
      | inr other ↦ rw other (All-delete (Related (j, v)) k m h.0, Pairwise-delete k m h.1)
    ]

    -- What is related to every other entry, in one order or the other, is related to all of them.
    pub All-delete_of_Pairwise :
        ((v w : V) → R v w → R w v)
        → (k : K) (v : V) (m : Map K V) → lookup k m ≡ some v
        → Pairwise Related m
        → All (λ b. R v b.1) (delete k m)
    unfolding lookup delete
    All-delete_of_Pairwise symm k v [] found h = cc
    All-delete_of_Pairwise symm k v ((j, w) ∷ m) found h = elim (Bool-cases (j == k)) [
      | inl same ↦ rw same (
          let value : w ≡ v = ground arith in
          subst (λ x. All (λ b. R x b.1) (delete k m)) value (All-delete (λ b. R w b.1) k m h.0))
      | inr other ↦
          let later : lookup k m ≡ some v = rw other at found in
          rw other (
            symm w v (All-lookup (λ b. R w b.1) k v m later h.0),
            All-delete_of_Pairwise symm k v m later h.1,
          )
    ]

  -- A map holds each key once.
  abbrev pub IsMap : Map K V → Type 0
  IsMap m = Pairwise (λ (a b : K × V). (a.0 == b.0) ≡ false) m

  pub delete_gone : (k : K) (m : Map K V) → All (λ (b : K × V). (k == b.0) ≡ false) (delete k m)
  unfolding delete
  delete_gone k [] = tt
  delete_gone k ((j, v) ∷ m) = elim (Bool-cases (j == k)) [
    | inl same ↦ rw same (delete_gone k m)
    | inr other ↦ rw other (ground (arith, e.beq_iff j k, e.beq_iff k j), delete_gone k m)
  ]

  pub delete-IsMap : (k : K) (m : Map K V) → IsMap m → IsMap (delete k m)
  unfolding delete
  delete-IsMap k [] h = tt
  delete-IsMap k ((j, v) ∷ m) h = elim (Bool-cases (j == k)) [
    | inl same ↦ rw same (delete-IsMap k m h.1)
    | inr other ↦ rw other (All-delete _ k m h.0, delete-IsMap k m h.1)
  ]

  pub insert-IsMap : (k : K) (v : V) (m : Map K V) → IsMap m → IsMap (insert k v m)
  unfolding insert
  insert-IsMap k v m h = (delete_gone k m, delete-IsMap k m h)

  pub lookup_absent :
      (k : K) (m : Map K V) → All (λ (b : K × V). (k == b.0) ≡ false) m → lookup k m ≡ none
  unfolding lookup
  lookup_absent k [] h = refl
  lookup_absent k ((j, v) ∷ m) h =
      ground (arith, lookup_absent k m h.1, e.beq_iff j k, e.beq_iff k j)

  -- What holds of all that a lookup finds holds of all entries.
  pub All-of_lookup {κ} :
      (P : K × V → Type κ) (m : Map K V)
      → IsMap m
      → ((k : K) (v : V) → lookup k m ≡ some v → P (k, v))
      → All P m
  unfolding lookup
  All-of_lookup P [] h f = tt
  All-of_lookup P ((j, v) ∷ m) h f = (
    f j v (ground (arith, beq_refl j)),
    All-of_lookup P m h.1 (λ k w found. f k w (elim (Bool-cases (j == k)) [
      | inr other ↦ rw other found
      | inl same ↦
          let key : j ≡ k = (e.beq_iff j k).0 same in
          let gone : lookup k m ≡ none =
            subst (λ x. lookup x m ≡ none) key (lookup_absent j m h.0) in
          cc
    ])),
  )
