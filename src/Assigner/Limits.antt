-- ===== src/Assigner/Limits.antt =====
-- The next state of internal/control/server/leader/partitions/transition.go keeps the limit of
-- joining replicas.
use scout.Base.{
  ℕ, zero, suc, ◌≡◌, ◌⊎◌, ◌≤◌, ◌+◌, refl, Option, none, some, List, [], ◌∷◌, ltb, arith, inl, inr,
  Bool-cases, Option-cases, max,
}
use scout.Base.Lists.{length}
use scout.Assigner.{
  Config, Members, State, change, serve, leave, add_joining, transition_joining_to_serving,
  transition_serving_to_leaving, remove_leaving, replica_at, can_add_replica, max_imbalance,
  pair_eq,
}
use scout.Assigner.Transition.{
  Outcome, done, panicked, exhausted, keys_of, values_of, ◌and_then◌, serve_ready,
  transition_to_serving, remove_ready, remove_all_leaving, add_some, add_missing, remove_some,
  remove_extra, pick_move, by_total, rebalance, for_partitions, before_moves, next_state,
}
use scout.Assigner.Rebalance.{
  change-joining, add_joining-joining, can_add_replica-joining, Ends, rebalance-Ends,
}

-- Unless it panics, a step leaves at most `b` joining replicas.
abbrev Within : ℕ → Option State → Type 0
Within b none = Unit
Within b (some t) = t.joining ≤ b

Within-and_then :
    (b : ℕ) (m : Option State) (f : State → Option State)
    → Within b m
    → ((t : State) → t.joining ≤ b → Within b (f t))
    → Within b (m and_then f)
Within-and_then b none f h k = tt
Within-and_then b (some t) f h k = k t h

change-Within :
    (b : ℕ) (f : ℕ → Members → Members) (s : State) (sid pid : ℕ)
    → s.joining ≤ b
    → Within b (change f s sid pid)
change-Within b f s sid pid h = elim (Option-cases (change f s sid pid)) [
  | inl e ↦ rw e tt
  | inr (t, e) ↦ rw e (let same = change-joining f s sid pid t e in omega arith)
]

serve-Within :
    (b : ℕ) (s : State) (sid pid : ℕ)
    → s.joining ≤ b
    → Within b (transition_joining_to_serving s sid pid)
unfolding transition_joining_to_serving
serve-Within b s sid pid h = elim (Option-cases (change serve s sid pid)) [
  | inl e ↦ rw (e, transition_joining_to_serving) tt
  | inr (t, e) ↦
      rw (e, transition_joining_to_serving)
        (let same = change-joining serve s sid pid t e in omega arith)
]

serve_ready-Within :
    (b : ℕ) (s : State) (sid : ℕ) (pids : List ℕ)
    → s.joining ≤ b
    → Within b (serve_ready s sid pids)
unfolding serve_ready
serve_ready-Within b s sid [] h = h
serve_ready-Within b s sid (pid ∷ rest) h = elim (Option-cases (replica_at s sid pid)) [
  | inl e ↦ rw (e, serve_ready) tt
  | inr (r, e) ↦
      rw (e, serve_ready)
        (Within-and_then b _ (λ t. serve_ready t sid rest)
          (elim (Bool-cases r.ready) [
            | inl now ↦ rw now (serve-Within b s sid pid h)
            | inr later ↦ rw later h
          ])
          (λ t k. serve_ready-Within b t sid rest k))
]

transition_to_serving-Within :
    (b : ℕ) (s : State) (servers : List Members)
    → s.joining ≤ b
    → Within b (transition_to_serving s servers)
unfolding transition_to_serving
transition_to_serving-Within b s [] h = h
transition_to_serving-Within b s (server ∷ rest) h =
    Within-and_then b (serve_ready s server.id (keys_of server.joining))
      (λ t. transition_to_serving t rest)
      (serve_ready-Within b s server.id (keys_of server.joining) h)
      (λ t k. transition_to_serving-Within b t rest k)

remove_ready-Within :
    (b : ℕ) (s : State) (sid : ℕ) (pids : List ℕ)
    → s.joining ≤ b
    → Within b (remove_ready s sid pids)
unfolding remove_ready remove_leaving
remove_ready-Within b s sid [] h = h
remove_ready-Within b s sid (pid ∷ rest) h = elim (Option-cases (replica_at s sid pid)) [
  | inl e ↦ rw (e, remove_ready) tt
  | inr (r, e) ↦
      rw (e, remove_ready)
        (elim (Bool-cases r.ready) [
          | inl now ↦ rw now (remove_ready-Within b (remove_leaving s sid pid) sid rest h)
          | inr later ↦ rw later (remove_ready-Within b s sid rest h)
        ])
]

remove_all_leaving-Within :
    (b : ℕ) (s : State) (servers : List Members)
    → s.joining ≤ b
    → Within b (remove_all_leaving s servers)
unfolding remove_all_leaving
remove_all_leaving-Within b s [] h = h
remove_all_leaving-Within b s (server ∷ rest) h =
    Within-and_then b (remove_ready s server.id (keys_of server.leaving))
      (λ t. remove_all_leaving t rest)
      (remove_ready-Within b s server.id (keys_of server.leaving) h)
      (λ t k. remove_all_leaving-Within b t rest k)

module _ (c : Config) (b : ℕ) (limit : c.max_joining ≤ b) where
  add_some-Within :
      (s : State) (pid : ℕ) (sids : List ℕ) (count : ℕ)
      → s.joining ≤ b
      → Within b (add_some c s pid sids count)
  unfolding add_some
  add_some-Within s pid [] count h = h
  add_some-Within s pid (sid ∷ rest) zero h = h
  add_some-Within s pid (sid ∷ rest) (suc count) h =
      elim (Bool-cases (can_add_replica c s sid pid)) [
        | inr e ↦ rw (e, add_some) (add_some-Within s pid rest (suc count) h)
        | inl e ↦
            rw (e, add_some)
              (elim (Option-cases (add_joining s sid pid)) [
                | inl gone ↦ rw gone tt
                | inr (t, joined) ↦ rw joined (
                    let more = add_joining-joining s sid pid t joined in
                    let room = can_add_replica-joining c s sid pid e in
                    add_some-Within t pid rest count (omega arith))
              ])
      ]

  remove_some-Within :
      (s : State) (pid : ℕ) (sids : List ℕ) (count : ℕ)
      → s.joining ≤ b
      → Within b (remove_some s pid sids count)
  unfolding remove_some transition_serving_to_leaving
  remove_some-Within s pid [] count h = h
  remove_some-Within s pid (sid ∷ rest) zero h = h
  remove_some-Within s pid (sid ∷ rest) (suc count) h =
      Within-and_then b (change leave s sid pid) (λ t. remove_some t pid rest count)
        (change-Within b leave s sid pid h) (λ t k. remove_some-Within t pid rest count k)

  for_partitions-Within :
      (choose : List ℕ → ℕ) (f : State → ℕ → Option State)
      → ((s : State) (pid : ℕ) → s.joining ≤ b → Within b (f s pid))
      → (s : State) (pid n : ℕ) → s.joining ≤ b
      → Within b (for_partitions choose f s pid n)
  unfolding for_partitions
  for_partitions-Within choose f keep s pid zero h = h
  for_partitions-Within choose f keep s pid (suc n) h =
      Within-and_then b (f s pid) (λ t. for_partitions choose f t (pid + 1) n) (keep s pid h)
        (λ t k. for_partitions-Within choose f keep t (pid + 1) n k)

before_moves-Within :
    (choose : List ℕ → ℕ) (c : Config) (s : State)
    → Within (max s.joining c.max_joining) (before_moves choose c s)
unfolding before_moves add_missing remove_extra
before_moves-Within choose c s =
    let b = max s.joining c.max_joining in
    let n = length s.part in
    let limit : c.max_joining ≤ b = omega arith in
    let first = remove_all_leaving s (values_of s.serv) in
    let second = first and_then (λ t. transition_to_serving t (values_of t.serv)) in
    let third = second and_then (λ t. for_partitions choose (add_missing c) t 0 n) in
    Within-and_then b third (λ t. for_partitions choose (remove_extra c) t 0 n)
      (Within-and_then b second (λ t. for_partitions choose (add_missing c) t 0 n)
        (Within-and_then b first (λ t. transition_to_serving t (values_of t.serv))
          (remove_all_leaving-Within b s (values_of s.serv) (omega arith))
          (λ t h. transition_to_serving-Within b t (values_of t.serv) h))
        (λ t h.
          for_partitions-Within c b limit choose (add_missing c)
            (λ u pid k. add_some-Within c b limit u pid _ _ k) t 0 n h))
      (λ t h.
        for_partitions-Within c b limit choose (remove_extra c)
          (λ u pid k. remove_some-Within c b limit u pid _ _ k) t 0 n h)

-- A state that is balanced, or in which no replica may move, within the limit of joining replicas.
abbrev pub Settled : (List ℕ → ℕ) → Config → State → State → Type 0
Settled choose c s t =
    ((max_imbalance t ≤ 1) ⊎ (pick_move choose c t (by_total choose t) ≡ none))
    × (t.joining ≤ max s.joining c.max_joining)

abbrev pub Finishes : (List ℕ → ℕ) → Config → State → Outcome → Type 0
Finishes choose c s (done t) = Settled choose c s t
Finishes choose c s panicked = Unit
Finishes choose c s exhausted = ⊥

Finishes-of_Ends :
    (choose : List ℕ → ℕ) (c : Config) (s t : State) (o : Outcome)
    → t.joining ≤ max s.joining c.max_joining
    → Ends choose c t o
    → Finishes choose c s o
Finishes-of_Ends choose c s t (done u) h k = (inr k.0, omega (arith, k.1))
Finishes-of_Ends choose c s t panicked h k = tt
Finishes-of_Ends choose c s t exhausted h k = k

-- Whatever the shuffles choose, the computation of the next state ends: its moves need at most one
-- turn more than replicas may join. Unless it panics, the servers then differ by at most one replica
-- or no move between them is allowed, and no more replicas are joining than the limit allows or than
-- there were.
pub next_state-Finishes :
    (choose : List ℕ → ℕ) (c : Config) (s : State) → Finishes choose c s (next_state choose c s)
unfolding next_state
next_state-Finishes choose c s =
    finish (before_moves choose c s) refl (before_moves-Within choose c s)
  where
    finish :
        (m : Option State)
        → before_moves choose c s ≡ m
        → Within (max s.joining c.max_joining) m
        → Finishes choose c s (next_state choose c s)
    finish none e h = rw (e, next_state) tt
    finish (some t) e h = elim (Bool-cases (ltb 1 (max_imbalance t))) [
      | inl far ↦
          rw (e, far, next_state)
            (Finishes-of_Ends choose c s t (rebalance choose (suc c.max_joining) c t) h
              (rebalance-Ends choose (suc c.max_joining) c t (omega arith) (omega arith)))
      | inr near ↦ rw (e, near, next_state) (inl (ground arith), h)
    ]
