-- ===== src/Assigner/Serving.antt =====
-- `removeExtra` of internal/control/server/leader/partitions/transition.go takes no more serving
-- replicas away than there are above the replication factor.
use scout.Base.{
  ℕ, zero, suc, ◌≡◌, ◌≤◌, ◌+◌, ◌-◌, refl, Bool, false, Option, none, some, List, [], ◌∷◌, arith,
  inl, inr, Bool-cases, Option-cases, min, ◌==◌, nat_eq, subst, sym, ap, ◌∙◌,
}
use scout.Base.Lists.{length, All}
use scout.Base.Maps.{Map, lookup, insert, delete, lookup-insert_self, IsMap, delete-IsMap}
use scout.Assigner.{Config, State, change, leave, transition_serving_to_leaving, members_at}
use scout.Assigner.Transition.{remove_some, remove_extra}

delete_absent :
    (k : ℕ) (m : Map ℕ Bool)
    → All (λ (b : ℕ × Bool). (k == b.0) ≡ false) m
    → length (delete k m) ≡ length m
unfolding delete
delete_absent k [] h = refl
delete_absent k ((j, v) ∷ m) h =
    let other : (j == k) ≡ false = ground (arith, h.0) in
    rw other (ground (arith, delete_absent k m h.1))

length-delete : (k : ℕ) (m : Map ℕ Bool) → IsMap m → length m ≤ suc (length (delete k m))
unfolding delete
length-delete k [] h = omega arith
length-delete k ((j, v) ∷ m) h = elim (Bool-cases (j == k)) [
  | inr e ↦ rw e (omega (arith, length-delete k m h.1))
  | inl e ↦
      let key : j ≡ k = (nat_eq.beq_iff j k).0 e in
      let same : length (delete k m) ≡ length m =
        subst (λ x. length (delete x m) ≡ length m) key (delete_absent j m h.0) in
      rw e (omega arith)
]

abbrev serving_at : State → ℕ → Map ℕ Bool
serving_at s pid = (members_at pid s.part).serving

change-leave :
    (s : State) (sid pid : ℕ) (t : State)
    → change leave s sid pid ≡ some t
    → serving_at t pid ≡ delete sid (serving_at s pid)
unfolding change
change-leave s sid pid t h = elim (Option-cases (lookup sid s.serv)) [
  | inl e ↦ absurd (ground (arith, rw (e, change) at h))
  | inr (server, e) ↦ elim (Option-cases (lookup pid s.part)) [
    | inl f ↦ absurd (ground (arith, rw (e, f, change) at h))
    | inr (part, f) ↦
        let same : some (record s {
          serv = insert sid (leave pid server) s.serv;
          part = insert pid (leave sid part) s.part;
        })
            ≡ some t =
          rw (e, f, change) at h in
        let parts : t.part ≡ insert pid (leave sid part) s.part = ground arith in
        let found : lookup pid t.part ≡ some (leave sid part) =
          ap (λ m. lookup pid m) parts ∙ lookup-insert_self pid (leave sid part) s.part in
        let after : serving_at t pid ≡ delete sid part.serving =
          rw (found, serving_at, members_at) refl in
        let before_it : serving_at s pid ≡ part.serving = rw (f, serving_at, members_at) refl in
        after ∙ ap (λ m. delete sid m) (sym before_it)
  ]
]

-- What is left of the serving replicas, unless it panics.
abbrev pub Keeps : ℕ → ℕ → Option State → Type 0
Keeps pid least none = Unit
Keeps pid least (some t) = least ≤ length (members_at pid t.part).serving

remove_some-Keeps :
    (s : State) (pid least : ℕ) (sids : List ℕ) (count : ℕ)
    → IsMap (serving_at s pid)
    → least + count ≤ length (serving_at s pid)
    → Keeps pid least (remove_some s pid sids count)
unfolding remove_some transition_serving_to_leaving
remove_some-Keeps s pid least [] count v h = omega arith
remove_some-Keeps s pid least (sid ∷ rest) zero v h = omega arith
remove_some-Keeps s pid least (sid ∷ rest) (suc count) v h =
    elim (Option-cases (change leave s sid pid)) [
      | inl e ↦ rw (e, remove_some) tt
      | inr (t, e) ↦
          let same = change-leave s sid pid t e in
          let fewer = length-delete sid (serving_at s pid) v in
          rw (e, remove_some)
            (remove_some-Keeps t pid least rest count
              (subst (λ m. IsMap m) (sym same) (delete-IsMap sid (serving_at s pid) v))
              (subst (λ m. least + count ≤ length m) (sym same) (omega arith)))
    ]

-- `removeExtra` leaves a partition with at least as many serving replicas as the replication factor
-- asks for, or with all that it had.
pub remove_extra-Keeps :
    (c : Config) (s : State) (pid : ℕ)
    → IsMap (members_at pid s.part).serving
    → Keeps pid
        (min (length (members_at pid s.part).serving) c.replication_factor)
        (remove_extra c s pid)
unfolding remove_extra
remove_extra-Keeps c s pid v =
    let n = length (serving_at s pid) in
    remove_some-Keeps s pid (min n c.replication_factor) _ (n - c.replication_factor) v
      (omega arith)
