-- ===== src/Control/Fsm/Edges/Loops.antt =====
-- The loops of `applyUpdateAssignments` (internal/control/server/storage/fsm_update_assignments.go),
-- one after the other.
use scout.Base.{
  ℕ, ◌≡◌, ◌+◌, refl, true, Option, none, some, List, [], ◌∷◌, arith, nat_eq, subst, sym, ◌∙◌,
}
use mathlib.Core.List.{Memᴰ}
use scout.Base.Lists.{All, All-mono}
use scout.Base.Maps.{All-lookup}
use scout.Base.Bytes.{Bytes, bytes_eq}
use scout.Control.{ReplicaState, Replica, Partitions, is_leaving}
use scout.Control.Names.{replica_name, replica_name-injective}
use scout.Control.Results.{Whenever, Whenever-bind, Whenever-mono}
use scout.Control.Fsm.{Cluster, Add, Update, Remove, UpdateAssignments}
use scout.Control.Fsm.Assignments.{
  each_of, add_one, update_one, remove_one, bump_one, changed, assign_all,
}
use scout.Control.Fsm.Invariant.{IsPartition, IsCluster}
use scout.Control.Fsm.Edges.{Named, LegalUpdate, LegalRemove}
use scout.Control.Fsm.Edges.Turns.{
  replica_at, last_of, Turn, at-keep, Turn-own, new_name, add_one-Turn, update_one-Turn,
  remove_one-Turn, bump_one-Turn,
}
use scout.Control.Fsm.Edges.Fates.{
  Fate, each_of-All, All-Memᴰ, SameServer, Fate-SameServer, Good, Turn-Good, IsJoined, Joined,
  IsUpdated, Updated, Gone, Joined-keep, Joined-elsewhere, Named-before, unused,
}

All-Unit : {X : Type 0} (xs : List X) → All (λ _. Unit {0}) xs
All-Unit [] = tt
All-Unit (x ∷ xs) = (tt, All-Unit xs)

leaving_of_test : (s : ReplicaState) → is_leaving s ≡ true → s ≡ ReplicaState.leaving
leaving_of_test s h = ground arith

put_back :
    (q : Partitions) (P : Option Replica → Type 0) {pid i : ℕ} {name k : Bytes}
    → pid ≡ i
    → name ≡ k
    → P (replica_at q i k)
    → P (replica_at q pid name)
put_back q P {pid} {i} {name} {k} e f h =
    subst (λ j. P (replica_at q j name)) (sym e) (subst (λ b. P (replica_at q i b)) (sym f) h)

module _ (count now : ℕ) (c : Cluster) (cmd : UpdateAssignments) where
  add_one-Good :
      IsCluster count c
      → (q : Partitions) (x : Add) → Good c cmd q
      → Memᴰ x cmd.add
      → Whenever
          (add_one now q x)
          (λ r. Good c cmd r × Joined c cmd x r × ((y : Add) → Joined c cmd y q → Joined c cmd y r))
  add_one-Good valid q x g m =
      Whenever-mono _
        (λ r. Good c cmd r × Joined c cmd x r × ((y : Add) → Joined c cmd y q → Joined c cmd y r))
        (add_one now q x) (add_one-Turn now q x g.own)
        (λ r (new, t, joining, placed, grows).
          let pid = x.partition_id in
          let free : replica_at c.partitions pid (new_name q pid) ≡ none =
            unused c cmd count valid pid (last_of q pid + 1) (omega (arith, g.grown pid)) in
          (
            Turn-Good c cmd t
                (subst (λ o. Fate cmd pid (new_name q pid) o (some new)) (sym free)
                  (Fate.joined x m refl joining placed))
                g,
            (last_of q pid + 1, omega (arith, grows), free, (new, Turn-own t, joining, placed)),
            λ y. Joined-keep c cmd y t (λ n e f low _ _.
                let name : replica_name y.partition_id (last_of q y.partition_id + 1)
                    ≡ replica_name y.partition_id n =
                  subst (λ i. replica_name i (last_of q i + 1) ≡ replica_name y.partition_id n) e
                    f in
                let same = replica_name-injective y.partition_id _ n name in
                absurd (omega (arith, low, same))),
          ))

  -- The state of the loops once the additions are done, then the updates, then the removals.
  unfoldable pub AfterAdds : Partitions → Type 0
  AfterAdds q = Good c cmd q × All (λ y. Joined c cmd y q) cmd.add

  unfoldable pub AfterUpdates : Partitions → Type 0
  AfterUpdates q = AfterAdds q × All (λ y. Updated c cmd y q) cmd.update

  unfoldable pub AfterRemoves : Partitions → Type 0
  AfterRemoves q = AfterUpdates q × All (λ y. Gone c cmd y q) cmd.remove

  -- A turn at a replica of the state before the command.
  Turn-AfterAdds :
      {q r : Partitions} {pid : ℕ} {name : Bytes} {v : Option Replica} (n : Named c pid name)
      → Turn q r pid name v
      → Fate cmd pid name (some n.replica) v
      → AfterAdds q
      → AfterAdds r
  unfolding AfterAdds
  Turn-AfterAdds {q} {r} {pid} {name} {v} n t f (g, joined) =
      let there = Named-before c cmd n in
      (
        Turn-Good c cmd t (subst (λ o. Fate cmd pid name o v) (sym there) f) g,
        All-mono (λ y. Joined-elsewhere c cmd y t there) cmd.add joined,
      )

  update_one-AfterAdds :
      (q : Partitions) (x : Update)
      → AfterAdds q
      → LegalUpdate c x × Memᴰ x cmd.update
      → Whenever (update_one now q x) (λ r.
        AfterAdds r × Updated c cmd x r × ((y : Update) → Updated c cmd y q → Updated c cmd y r))
  unfolding AfterAdds SameServer
  update_one-AfterAdds q x a ((n, edge, _), m) =
      Whenever-mono _
        (λ r.
          AfterAdds r × Updated c cmd x r × ((y : Update) → Updated c cmd y q → Updated c cmd y r))
        (update_one now q x) (update_one-Turn now q x)
        (λ r (old, new, found, t, state, placed).
          let so_far : Fate cmd x.partition_id x.replica (some n.replica) (some old) =
            subst (λ o. Fate cmd x.partition_id x.replica o (some old)) (Named-before c cmd n)
              (subst
                (Fate cmd x.partition_id x.replica
                  (replica_at c.partitions x.partition_id x.replica))
                found (a.0.fate x.partition_id x.replica)) in
          (
            Turn-AfterAdds n t
                (Fate.moved x m refl refl edge state (placed ∙ Fate-SameServer so_far)) a,
            subst (IsUpdated c cmd x) (sym (Turn-own t)) (x, m, refl, refl, state),
            λ y.
                at-keep (IsUpdated c cmd y) y.partition_id y.replica t (λ e f. (x, m, e, f, state)),
          ))

  remove_one-AfterUpdates :
      (q : Partitions) (x : Remove)
      → AfterUpdates q
      → LegalRemove c x × Memᴰ x cmd.remove
      → Whenever
          (remove_one q x)
          (λ r. AfterUpdates r × Gone c cmd x r × ((y : Remove) → Gone c cmd y q → Gone c cmd y r))
  unfolding AfterUpdates
  remove_one-AfterUpdates q x (a, updated) ((n, left), m) =
      Whenever-mono _
        (λ r. AfterUpdates r × Gone c cmd x r × ((y : Remove) → Gone c cmd y q → Gone c cmd y r))
        (remove_one q x) (remove_one-Turn q x)
        (λ r t. (
          (
            Turn-AfterAdds n t (Fate.left x m refl refl (leaving_of_test n.replica.state left)) a,
            All-mono (λ y. at-keep (IsUpdated c cmd y) y.partition_id y.replica t (λ e f. tt))
                cmd.update updated,
          ),
          Turn-own t,
          λ y. at-keep (λ o. o ≡ none) y.partition_id y.replica t (λ e f. refl),
        ))

  -- A turn that puts back what is there keeps every fact on what stands at a place.
  same-keep :
      {q r : Partitions} {pid : ℕ} {name : Bytes} (P : Option Replica → Type 0) (i : ℕ) (k : Bytes)
      → Turn q r pid name (replica_at q pid name)
      → P (replica_at q i k)
      → P (replica_at r i k)
  same-keep {q} {r} {pid} {name} P i k t h = at-keep P i k t (λ e f. put_back q P e f h) h

  bump_one-AfterRemoves :
      (q : Partitions) (pid : ℕ)
      → AfterRemoves q
      → Unit {0}
      → Whenever (bump_one q pid) (λ r. AfterRemoves r × Unit {0} × (ℕ → Unit {0} → Unit {0}))
  unfolding AfterRemoves AfterUpdates AfterAdds
  bump_one-AfterRemoves q pid (((g, joined), updated), gone) _ =
      Whenever-mono _ (λ r. AfterRemoves r × Unit {0} × (ℕ → Unit {0} → Unit {0})) (bump_one q pid)
        (bump_one-Turn q pid)
        (λ r t. (
          (
            (
              (
                Turn-Good c cmd t (g.fate pid []) g,
                All-mono
                    (λ y.
                      Joined-keep c cmd y t
                        (λ n e f _ _ there. put_back q (IsJoined c cmd y) e f there))
                    cmd.add joined,
              ),
              All-mono (λ y. same-keep (IsUpdated c cmd y) y.partition_id y.replica t) cmd.update
                  updated,
            ),
            All-mono (λ y. same-keep (λ o. o ≡ none) y.partition_id y.replica t) cmd.remove gone,
          ),
          tt,
          λ y d. d,
        ))

  begin : IsCluster count c → Good c cmd c.partitions
  begin valid = record {
    own = λ i part found.
        (All-lookup (IsPartition c.servers count) i part c.partitions.items found
          valid.partitions.items).own;
    grown = λ i. omega arith;
    fate = λ i k. Fate.stays (replica_at c.partitions i k);
  }

  All-pair :
      {X : Type 0} (P Q : X → Type 0) (xs : List X) → All P xs → All Q xs → All (λ x. P x × Q x) xs
  All-pair P Q [] p q = tt
  All-pair P Q (x ∷ xs) p q = ((p.0, q.0), All-pair P Q xs p.1 q.1)

  pub assign_all-AfterRemoves :
      IsCluster count c
      → All (LegalUpdate c) cmd.update
      → All (LegalRemove c) cmd.remove
      → Whenever (assign_all now c.partitions cmd) AfterRemoves
  unfolding assign_all AfterAdds AfterUpdates AfterRemoves
  assign_all-AfterRemoves valid updates removes =
      Whenever-bind _ AfterRemoves (each_of (add_one now) c.partitions cmd.add) _
        (each_of-All (add_one now) (Good c cmd) (λ x. Memᴰ x cmd.add) (Joined c cmd)
          (add_one-Good valid) c.partitions cmd.add (begin valid) (All-Memᴰ cmd.add))
        (λ added (g, joined, _).
          Whenever-bind _ AfterRemoves (each_of (update_one now) added cmd.update) _
            (each_of-All (update_one now) AfterAdds (λ x. LegalUpdate c x × Memᴰ x cmd.update)
              (Updated c cmd) update_one-AfterAdds added cmd.update (g, joined)
              (All-pair (LegalUpdate c) _ cmd.update updates (All-Memᴰ cmd.update)))
            (λ moved (a, updated, _).
              Whenever-bind _ AfterRemoves (each_of remove_one moved cmd.remove) _
                (each_of-All remove_one AfterUpdates (λ x. LegalRemove c x × Memᴰ x cmd.remove)
                  (Gone c cmd) remove_one-AfterUpdates moved cmd.remove (a, updated)
                  (All-pair (LegalRemove c) _ cmd.remove removes (All-Memᴰ cmd.remove)))
                (λ removed (b, gone, _).
                  Whenever-mono _ AfterRemoves (each_of bump_one removed (changed cmd))
                    (each_of-All bump_one AfterRemoves (λ _. Unit {0}) (λ _ _. Unit {0})
                      bump_one-AfterRemoves removed (changed cmd) (b, gone)
                      (All-Unit (changed cmd)))
                    (λ p done. done.0))))
