-- ===== src/Control/Fsm/Stamps.antt =====
-- The loops of `applyUpdateAssignments` (internal/control/server/storage/fsm_update_assignments.go)
-- leave the version of the assignments to the end of the command.
use scout.Base.{ℕ, ◌≡◌, refl, List, [], ◌∷◌, nat_eq, ◌∙◌}
use scout.Base.Bytes.{bytes_eq}
use scout.Control.{Partition, Partitions}
use scout.Control.Results.{Result, Whenever, Whenever-bind, Whenever-mono, Whenever-true, ◌>>=◌}
use scout.Control.Fsm.{UpdateAssignments, get_partition, get_replica}
use scout.Control.Fsm.Assignments.{
  assign_all, each_of, add_one, update_one, remove_one, bump_one, changed,
}

abbrev pub SameVersion : Partitions → Partitions → Type 0
SameVersion p q = q.assignments_version ≡ p.assignments_version

each_of-Whenever {ℓ} :
    {X : Type ℓ} (turn : Partitions → X → Result Partitions)
    → ((p : Partitions) (x : X) → Whenever (turn p x) (SameVersion p))
    → (p : Partitions) (xs : List X) → Whenever (each_of turn p xs) (SameVersion p)
unfolding each_of
each_of-Whenever turn keep p [] = refl
each_of-Whenever turn keep p (x ∷ xs) =
    Whenever-bind (SameVersion p) (SameVersion p) (turn p x) (λ next. each_of turn next xs)
      (keep p x)
      (λ next same.
        Whenever-mono (SameVersion next) (SameVersion p) (each_of turn next xs)
          (each_of-Whenever turn keep next xs) (λ q e. e ∙ same))

in_partition-Whenever :
    (p : Partitions) (pid : ℕ) (f : Partition → Result Partitions)
    → ((part : Partition) → Whenever (f part) (SameVersion p))
    → Whenever (get_partition p pid >>= f) (SameVersion p)
in_partition-Whenever p pid f h =
    Whenever-bind (λ _. Unit {0}) (SameVersion p) (get_partition p pid) f
      (Whenever-true (get_partition p pid)) (λ part _. h part)

pub assign_all-Whenever :
    (now : ℕ) (p : Partitions) (cmd : UpdateAssignments)
    → Whenever (assign_all now p cmd) (SameVersion p)
unfolding assign_all add_one update_one remove_one bump_one
assign_all-Whenever now p cmd =
    let Q = SameVersion p in
    Whenever-bind Q Q (each_of (add_one now) p cmd.add) _
      (each_of-Whenever (add_one now)
        (λ q x. in_partition-Whenever q x.partition_id _ (λ part. refl)) p cmd.add)
      (λ a e.
        Whenever-bind Q Q (each_of (update_one now) a cmd.update) _
          (Whenever-mono (SameVersion a) Q _
            (each_of-Whenever (update_one now)
              (λ q x. in_partition-Whenever q x.partition_id _ (λ part.
                Whenever-bind (λ _. Unit {0}) (SameVersion q) (get_replica part x.replica) _
                  (Whenever-true (get_replica part x.replica)) (λ r _. refl)))
              a cmd.update)
            (λ b e'. e' ∙ e))
          (λ b e'.
            Whenever-bind Q Q (each_of remove_one b cmd.remove) _
              (Whenever-mono (SameVersion b) Q _
                (each_of-Whenever remove_one
                  (λ q x. in_partition-Whenever q x.partition_id _ (λ part. refl)) b cmd.remove)
                (λ d e''. e'' ∙ e'))
              (λ d e''.
                Whenever-mono (SameVersion d) Q _
                  (each_of-Whenever bump_one (λ q pid. in_partition-Whenever q pid _ (λ part. refl))
                    d (changed cmd))
                  (λ g k. k ∙ e''))))
