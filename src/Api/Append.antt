-- ===== src/Api/Append.antt =====
-- The numbering of the actions of a transaction: `Append` of internal/api/server/txn/txn.go.
use scout.Base.{
  ℕ, ◌+◌, ◌%◌, ◌^◌, ◌<◌, ◌≡◌, refl, subst, inl, inr, true, false, List, [], ◌∷◌, ◌++◌, arith,
  if◌then◌else◌, ltb, ◌==◌, nat_eq, Bool-cases,
}
use scout.Base.Lists.{length, All}
use scout.Base.Maps.{Map, lookup, insert, delete, IsMap, insert-IsMap}
use scout.Base.Bytes.{Bytes}
use scout.Txn.{Action}
use scout.Api.{Transaction, actions_of, append_actions, append}

-- How many actions have the number.
abbrev pub count_ids : ℕ → List Action → ℕ
count_ids k [] = 0
count_ids k (a ∷ actions) = (if a.id == k then 1 else 0) + count_ids k actions

abbrev pub count_all : ℕ → Map ℕ (List Action) → ℕ
count_all k [] = 0
count_all k ((_, actions) ∷ m) = count_ids k actions + count_all k m

count-append :
    (k : ℕ) (xs ys : List Action) → count_ids k (xs ++ ys) ≡ count_ids k xs + count_ids k ys
count-append k [] ys = omega arith
count-append k (x ∷ xs) ys = omega (arith, count-append k xs ys)

delete_absent :
    (pid : ℕ) (m : Map ℕ (List Action))
    → All (λ (b : ℕ × List Action). (pid == b.0) ≡ false) m
    → delete pid m ≡ m
unfolding delete
delete_absent pid [] h = refl
delete_absent pid ((j, v) ∷ m) h =
    let other : (j == pid) ≡ false = ground (arith, h.0) in rw (other, delete_absent pid m h.1) refl

actions_of-nil : (pid : ℕ) (k : ℕ) → count_ids k (actions_of pid []) ≡ 0
unfolding actions_of lookup
actions_of-nil pid k = refl

actions_of-here :
    (pid j : ℕ) (v : List Action) (m : Map ℕ (List Action))
    → (j == pid) ≡ true
    → actions_of pid ((j, v) ∷ m) ≡ v
unfolding actions_of lookup
actions_of-here pid j v m e = rw (actions_of, e) refl

actions_of-there :
    (pid j : ℕ) (v : List Action) (m : Map ℕ (List Action))
    → (j == pid) ≡ false
    → actions_of pid ((j, v) ∷ m) ≡ actions_of pid m
unfolding actions_of lookup
actions_of-there pid j v m e = rw (actions_of, e) refl

count-delete :
    (k pid : ℕ) (m : Map ℕ (List Action))
    → IsMap m
    → count_all k (delete pid m) + count_ids k (actions_of pid m) ≡ count_all k m
unfolding delete
count-delete k pid [] h = omega (arith, actions_of-nil pid k)
count-delete k pid ((j, v) ∷ m) h = elim (Bool-cases (j == pid)) [
  | inl e ↦
      let key : j ≡ pid = (nat_eq.beq_iff j pid).0 e in
      let gone : delete pid m ≡ m = subst (λ x. delete x m ≡ m) key (delete_absent j m h.0) in
      rw (e, gone, actions_of-here pid j v m e) (omega arith)
  | inr e ↦ rw (e, actions_of-there pid j v m e) (omega (arith, count-delete k pid m h.1))
]

count-insert :
    (k pid : ℕ) (a : Action) (m : Map ℕ (List Action))
    → IsMap m
    → count_all k (insert pid (actions_of pid m ++ a ∷ []) m)
      ≡ count_all k m + (if a.id == k then 1 else 0)
unfolding insert
count-insert k pid a m once =
    omega (arith, count-delete k pid m once, count-append k (actions_of pid m) (a ∷ []))

-- The actions of all participants are numbered from zero to below the next number, each number once.
abbrev pub IsNumbered : Transaction → Type 0
IsNumbered t =
    IsMap t.participant_actions
    × ((k : ℕ) → count_all k t.participant_actions ≡ (if ltb k t.next_action_id then 1 else 0))

append_actions-IsNumbered :
    (pid : ℕ) (actions : List Action) (t : Transaction)
    → t.next_action_id + length actions < 2 ^ 32
    → IsNumbered t
    → IsNumbered (append_actions pid actions t)
unfolding append_actions
append_actions-IsNumbered pid [] t low h = h
append_actions-IsNumbered pid (a ∷ actions) t low (once, counts) =
    let numbered : Action = record { id = t.next_action_id; payload = a.payload } in
    let held = actions_of pid t.participant_actions in
    let next : Transaction = record t {
      participant_actions = insert pid (held ++ numbered ∷ []) t.participant_actions;
      next_action_id = (t.next_action_id + 1) % 2 ^ 32;
    } in
    let up : (t.next_action_id + 1) % 2 ^ 32 ≡ t.next_action_id + 1 = omega (arith, low) in
    append_actions-IsNumbered pid actions next (omega (arith, low, up)) (
      insert-IsMap pid (held ++ numbered ∷ []) t.participant_actions once,
      λ k. rw up (ground (arith, counts k, count-insert k pid numbered t.participant_actions once)),
    )

-- Whatever is appended, as long as the numbers fit in 32 bits: the actions of all participants are
-- numbered from zero to below the next number, each number once.
pub append-IsNumbered :
    (hash : Bytes → ℕ) (partition_count server_id now : ℕ) (routing_key : Bytes)
    (actions : List Action) (t : Transaction)
    → t.next_action_id + length actions < 2 ^ 32
    → IsNumbered t
    → IsNumbered (append hash partition_count server_id now routing_key actions t)
unfolding append
append-IsNumbered hash partition_count server_id now routing_key actions t low h =
    elim (Bool-cases (t.id.timestamp == 0)) [
      | inl e ↦ rw e (append_actions-IsNumbered _ actions _ low h)
      | inr e ↦ rw e (append_actions-IsNumbered _ actions t low h)
    ]
