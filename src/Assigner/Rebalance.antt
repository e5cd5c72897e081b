-- ===== src/Assigner/Rebalance.antt =====
-- The loop of `rebalance` in internal/control/server/leader/partitions/transition.go ends.
use scout.Base.{
  ℕ, zero, suc, ◌≡◌, ◌≤◌, ◌<◌, ◌+◌, true, none, some, List, [], ◌∷◌, leb, arith, inl, inr,
  Bool-cases, Option-cases, max, subst,
}
use scout.Base.Lists.{All}
use scout.Assigner.{Config, Members, State, change, join, add_joining, can_add_replica, total_count}
use scout.Assigner.Transition.{
  Outcome, done, panicked, exhausted, keys_of, element, shuffled_first, movable, pick_dest,
  backwards, pick_move, by_total, rebalance,
}

pub change-joining :
    (f : ℕ → Members → Members) (s : State) (sid pid : ℕ) (t : State)
    → change f s sid pid ≡ some t
    → t.joining ≡ s.joining
unfolding change
change-joining f s sid pid t h = ground arith

pub add_joining-joining :
    (s : State) (sid pid : ℕ) (t : State)
    → add_joining s sid pid ≡ some t
    → t.joining ≡ s.joining + 1
unfolding add_joining
add_joining-joining s sid pid t h = elim (Option-cases (change join s sid pid)) [
  | inl e ↦ absurd (ground arith)
  | inr (u, e) ↦ ground (arith, change-joining join s sid pid u e)
]

pub can_add_replica-joining :
    (c : Config) (s : State) (sid pid : ℕ)
    → can_add_replica c s sid pid ≡ true
    → s.joining < c.max_joining
unfolding can_add_replica
can_add_replica-joining c s sid pid h = ground arith

module _ (choose : List ℕ → ℕ) where
  element-All :
      (P : ℕ → Type 0) (first i : ℕ) (xs : List ℕ)
      → P first
      → All P xs
      → P (element choose first i xs)
  element-All P first i [] h k = h
  element-All P first zero (x ∷ xs) h k = k.0
  element-All P first (suc i) (x ∷ xs) h k = element-All P first i xs h k.1

  shuffled_first-All :
      (P : ℕ → Type 0) (xs : List ℕ) (x : ℕ) → shuffled_first choose xs ≡ some x → All P xs → P x
  shuffled_first-All P [] x h k = absurd (ground arith)
  shuffled_first-All P (y ∷ ys) x h k =
      let same : element choose y (choose (y ∷ ys)) (y ∷ ys) ≡ x = ground arith in
      subst P same (element-All P y (choose (y ∷ ys)) (y ∷ ys) k.0 k)

  movable-All :
      (c : Config) (s : State) (dest : ℕ) (xs : List ℕ)
      → All (λ pid. can_add_replica c s dest pid ≡ true) (movable choose c s dest xs)
  unfolding movable
  movable-All c s dest [] = tt
  movable-All c s dest (x ∷ xs) = elim (Bool-cases (can_add_replica c s dest x)) [
    | inl e ↦ rw (e, movable) (e, movable-All c s dest xs)
    | inr e ↦ rw (e, movable) (movable-All c s dest xs)
  ]

  pick_dest_allowed :
      (c : Config) (s : State) (src : Members) (ds : List Members) (x : ℕ × ℕ)
      → pick_dest choose c s src ds ≡ some x
      → can_add_replica c s x.0 x.1 ≡ true
  unfolding pick_dest
  pick_dest_allowed c s src [] x h = absurd (ground arith)
  pick_dest_allowed c s src (d ∷ ds) x h =
      elim (Bool-cases (leb (total_count src) (total_count d + 1))) [
        | inl e ↦ absurd (ground (arith, rw (e, pick_dest) at h))
        | inr e ↦
            elim (Option-cases
              (shuffled_first choose (movable choose c s d.id (keys_of src.serving)))) [
                | inl gone ↦ pick_dest_allowed c s src ds x (rw (e, gone, pick_dest) at h)
                | inr (pid, found) ↦
                    let same : some (d.id, pid) ≡ some x = rw (e, found, pick_dest) at h in
                    let good =
                      shuffled_first-All (λ q. can_add_replica c s d.id q ≡ true)
                        (movable choose c s d.id (keys_of src.serving)) pid found
                        (movable-All c s d.id (keys_of src.serving)) in
                    subst (λ (y : ℕ × ℕ). can_add_replica c s y.0 y.1 ≡ true)
                      (let p : (d.id, pid) ≡ x = ground arith in p) good
              ]
      ]

  pick_move_allowed :
      (c : Config) (s : State) (servers : List Members) (x : ℕ × ℕ)
      → pick_move choose c s servers ≡ some x
      → can_add_replica c s x.0 x.1 ≡ true
  unfolding pick_move
  pick_move_allowed c s [] x h = absurd (ground arith)
  pick_move_allowed c s (src ∷ rest) x h =
      elim (Option-cases (pick_dest choose c s src (backwards choose rest))) [
        | inl e ↦ pick_move_allowed c s rest x (rw (e, pick_move) at h)
        | inr (y, e) ↦
            pick_dest_allowed c s src (backwards choose rest) x
              (let p : some y ≡ some x = rw (e, pick_move) at h in ground arith)
      ]

  -- Fuel for one turn more than replicas may still join is enough, and the loop stops where no move
  -- is allowed, with no more joining replicas than allowed or than there were.
  abbrev pub Ends : Config → State → Outcome → Type 0
  Ends c s (done t) =
      (pick_move choose c t (by_total choose t) ≡ none) × (t.joining ≤ max s.joining c.max_joining)
  Ends c s panicked = Unit
  Ends c s exhausted = ⊥

  Ends-later :
      (c : Config) (s t : State) (o : Outcome)
      → t.joining ≡ s.joining + 1
      → s.joining < c.max_joining
      → Ends c t o
      → Ends c s o
  Ends-later c s t (done u) more room h = (h.0, ground (arith, h.1))
  Ends-later c s t panicked more room h = tt
  Ends-later c s t exhausted more room h = h

  pub rebalance-Ends :
      (fuel : ℕ) (c : Config) (s : State)
      → 0 < fuel
      → c.max_joining < s.joining + fuel
      → Ends c s (rebalance choose fuel c s)
  unfolding rebalance
  rebalance-Ends zero c s some_fuel enough = absurd (omega arith)
  rebalance-Ends (suc fuel) c s some_fuel enough =
      elim (Option-cases (pick_move choose c s (by_total choose s))) [
        | inl e ↦ rw (e, rebalance) (e, ground arith)
        | inr (x, e) ↦ elim (Option-cases (add_joining s x.0 x.1)) [
          | inl gone ↦ rw (e, gone, rebalance) tt
          | inr (t, joined) ↦
              let more = add_joining-joining s x.0 x.1 t joined in
              let room =
                can_add_replica-joining c s x.0 x.1
                  (pick_move_allowed c s (by_total choose s) x e) in
              rw (e, joined, rebalance)
                (Ends-later c s t (rebalance choose fuel c t) more room
                  (rebalance-Ends fuel c t (omega arith) (omega arith)))
        ]
      ]
