-- ===== src/Assigner/Transition.antt =====
-- The next state of the assignments: internal/control/server/leader/partitions/transition.go. A map
-- is visited in the order of its list, and `choose` says which element a shuffle puts first.
use scout.Base.{
  ℕ, zero, suc, ◌+◌, ◌-◌, Bool, ◌&&◌, ◌||◌, Option, none, some, List, [], ◌∷◌, ◌++◌, if◌then◌else◌,
  ltb, leb, ◌==◌, nat_eq, min,
}
use scout.Base.Lists.{length}
use scout.Base.Maps.{Map}
use scout.Assigner.{
  Config, Members, State, pair_eq, add_joining, transition_joining_to_serving,
  transition_serving_to_leaving, remove_leaving, replica_at, total_count, members_at, has_replica,
  can_add_replica, max_imbalance, sort_by,
}

abbrev pub keys_of : {A : Type 0} → Map ℕ A → List ℕ
keys_of [] = []
keys_of ((k, _) ∷ m) = k ∷ keys_of m

abbrev pub values_of : {A : Type 0} → Map ℕ A → List A
values_of [] = []
values_of ((_, v) ∷ m) = v ∷ values_of m

-- How the loop of `rebalance` ends: a state, a panic, or no fuel left.
pub data Outcome : Type 0 where
  done : State → Outcome
  panicked exhausted : Outcome

infixl 5 ◌and_then◌
abbrev pub ◌and_then◌ : Option State → (State → Option State) → Option State
none and_then f = none
(some s) and_then f = f s

-- The loops of `transitionToServing`, over the servers and over the joining replicas of one.
unfoldable pub serve_ready : State → ℕ → List ℕ → Option State
serve_ready s sid [] = some s
serve_ready s sid (pid ∷ rest) = elim (replica_at s sid pid) [
  | none ↦ none
  | some r ↦
      (if r.ready then transition_joining_to_serving s sid pid else some s)
      and_then (λ t. serve_ready t sid rest)
]

unfoldable pub transition_to_serving : State → List Members → Option State
transition_to_serving s [] = some s
transition_to_serving s (server ∷ rest) =
    serve_ready s server.id (keys_of server.joining) and_then (λ t. transition_to_serving t rest)

-- The loops of `removeLeaving`.
unfoldable pub remove_ready : State → ℕ → List ℕ → Option State
remove_ready s sid [] = some s
remove_ready s sid (pid ∷ rest) = elim (replica_at s sid pid) [
  | none ↦ none
  | some r ↦ remove_ready (if r.ready then remove_leaving s sid pid else s) sid rest
]

unfoldable pub remove_all_leaving : State → List Members → Option State
remove_all_leaving s [] = some s
remove_all_leaving s (server ∷ rest) =
    remove_ready s server.id (keys_of server.leaving) and_then (λ t. remove_all_leaving t rest)

-- Servers with fewer replicas first, then those with fewer joining ones.
abbrev pub is_emptier : State → ℕ → ℕ → Bool
is_emptier s i j =
    let a = members_at i s.serv in
    let b = members_at j s.serv in
    ltb (total_count a) (total_count b)
    || (total_count a == total_count b && ltb (length a.joining) (length b.joining))

unfoldable pub candidates_for : State → ℕ → List ℕ → List ℕ
candidates_for s pid [] = []
candidates_for s pid (sid ∷ rest) =
    if has_replica s sid pid then candidates_for s pid rest else sid ∷ candidates_for s pid rest

-- The last loop of `addMissing`: as many as are missing, of the candidates that may join.
unfoldable pub add_some : Config → State → ℕ → List ℕ → ℕ → Option State
add_some c s pid [] count = some s
add_some c s pid (sid ∷ rest) zero = some s
add_some c s pid (sid ∷ rest) (suc count) =
    if can_add_replica c s sid pid
    then (add_joining s sid pid and_then (λ t. add_some c t pid rest count))
    else add_some c s pid rest (suc count)

unfoldable pub add_missing : Config → State → ℕ → Option State
add_missing c s pid =
    let part = members_at pid s.part in
    let count =
      min (c.replication_factor - total_count part)
        (c.max_joining_for_partition - length part.joining) in
    add_some c s pid (sort_by (is_emptier s) (candidates_for s pid (keys_of s.serv))) count

-- Servers with more replicas first, then the older replica; a serving replica has an entry, so that
-- its time is there.
abbrev pub created_at : State → ℕ → ℕ → ℕ
created_at s sid pid = elim (replica_at s sid pid) [ none ↦ 0 | some r ↦ r.created_time ]

abbrev pub is_fuller : State → ℕ → ℕ → ℕ → Bool
is_fuller s pid i j =
    let a = members_at i s.serv in
    let b = members_at j s.serv in
    ltb (total_count b) (total_count a)
    || (total_count a == total_count b && ltb (created_at s i pid) (created_at s j pid))

-- The last loop of `removeExtra`.
unfoldable pub remove_some : State → ℕ → List ℕ → ℕ → Option State
remove_some s pid [] count = some s
remove_some s pid (sid ∷ rest) zero = some s
remove_some s pid (sid ∷ rest) (suc count) =
    transition_serving_to_leaving s sid pid and_then (λ t. remove_some t pid rest count)

unfoldable pub remove_extra : Config → State → ℕ → Option State
remove_extra c s pid =
    let part = members_at pid s.part in
    remove_some s pid (sort_by (is_fuller s pid) (keys_of part.serving))
      (length part.serving - c.replication_factor)

module _ (choose : List ℕ → ℕ) where
  abbrev pub element : ℕ → ℕ → List ℕ → ℕ
  element first i [] = first
  element first zero (x ∷ xs) = x
  element first (suc i) (x ∷ xs) = element first i xs

  -- `ShuffleSlice(candidates)` and `candidates[0]`.
  abbrev pub shuffled_first : List ℕ → Option ℕ
  shuffled_first [] = none
  shuffled_first (x ∷ xs) = some (element x (choose (x ∷ xs)) (x ∷ xs))

  unfoldable pub movable : Config → State → ℕ → List ℕ → List ℕ
  movable c s dest [] = []
  movable c s dest (pid ∷ rest) =
      if can_add_replica c s dest pid then pid ∷ movable c s dest rest else movable c s dest rest

  -- The loop over the destinations, from the emptiest server.
  unfoldable pub pick_dest : Config → State → Members → List Members → Option (ℕ × ℕ)
  pick_dest c s src [] = none
  pick_dest c s src (dest ∷ rest) =
      let later = pick_dest c s src rest in
      if leb (total_count src) (total_count dest + 1)
      then none
      else elim (shuffled_first (movable c s dest.id (keys_of src.serving))) [
        | none ↦ later
        | some pid ↦ some (dest.id, pid)
      ]

  abbrev pub backwards : List Members → List Members
  backwards [] = []
  backwards (x ∷ xs) = backwards xs ++ x ∷ []

  -- The loop over the sources, from the fullest server.
  unfoldable pub pick_move : Config → State → List Members → Option (ℕ × ℕ)
  pick_move c s [] = none
  pick_move c s (src ∷ rest) =
      let later = pick_move c s rest in
      elim (pick_dest c s src (backwards rest)) [ none ↦ later | some x ↦ some x ]

  abbrev pub by_total : State → List Members
  by_total s = sort_by (λ (a b : Members). ltb (total_count b) (total_count a)) (values_of s.serv)

  -- The outer loop of `rebalance`, with fuel for its turns.
  unfoldable pub rebalance : ℕ → Config → State → Outcome
  rebalance zero c s = exhausted
  rebalance (suc fuel) c s = elim (pick_move c s (by_total s)) [
    | none ↦ done s
    | some (sid, pid) ↦ elim (add_joining s sid pid) [
      | none ↦ panicked
      | some t ↦ rebalance fuel c t
    ]
  ]

  unfoldable pub for_partitions : (State → ℕ → Option State) → State → ℕ → ℕ → Option State
  for_partitions f s pid zero = some s
  for_partitions f s pid (suc n) = f s pid and_then (λ t. for_partitions f t (pid + 1) n)

  -- The steps of `Next` before the moves; `range` over a permutation counts its indices, from 0.
  unfoldable pub before_moves : Config → State → Option State
  before_moves c s =
      let n = length s.part in
      remove_all_leaving s (values_of s.serv)
      and_then (λ t. transition_to_serving t (values_of t.serv))
      and_then (λ t. for_partitions (add_missing c) t 0 n)
      and_then (λ t. for_partitions (remove_extra c) t 0 n)

  unfoldable pub next_state : Config → State → Outcome
  next_state c s = elim (before_moves c s) [
    | none ↦ panicked
    | some t ↦ if ltb 1 (max_imbalance t) then rebalance (suc c.max_joining) c t else done t
  ]
