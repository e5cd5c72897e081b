-- ===== src/Control/Fsm/Edges/Changes.antt =====
-- What an accepted change of the assignments makes of each replica: the whole of
-- `applyUpdateAssignments` of internal/control/server/storage/fsm_update_assignments.go.
use scout.Base.{ℕ, ◌≡◌, ◌+◌, refl, false, not, nat_eq, ap}
use scout.Base.Lists.{All}
use scout.Base.Bytes.{Bytes, bytes_eq}
use scout.Control.{has_assignments}
use scout.Control.Results.{
  Result, ok, Whenever, Whenever-bind, Whenever-guard, Whenever-both, ◌>>=◌, ◌>>◌, refuse_if,
  invalid_request, failed_precondition,
}
use scout.Control.Fsm.{Cluster, UpdateAssignments}
use scout.Control.Fsm.Assignments.{
  assign_all, is_outdated, stamp_assignments, validate_update_assignments, apply_update_assignments,
}
use scout.Control.Fsm.Invariant.{IsCluster}
use scout.Control.Fsm.Stamps.{assign_all-Whenever}
use scout.Control.Fsm.Edges.{LegalAdd, validate_update-Whenever}
use scout.Control.Fsm.Edges.Turns.{replica_at}
use scout.Control.Fsm.Edges.Fates.{Fate, Joined, Updated, Gone}
use scout.Control.Fsm.Edges.Loops.{AfterAdds, AfterUpdates, AfterRemoves, assign_all-AfterRemoves}

module _ (count now : ℕ) (c : Cluster) (cmd : UpdateAssignments) where
  -- If a well-formed cluster accepts a change of the assignments, then over the whole command every
  -- replica of every partition either stays as it was, or goes to the state of an update of the
  -- command along one of the edges joining to voter or non-voter, voter to non-voter and back, and
  -- any state to leaving, on the same server, or is new, joining, on the server of an addition of
  -- the command, or is gone, was leaving, and is named by a removal of the command. For each
  -- addition there is such a new replica; what an update names and is still there has the state of an update of
  -- the same replica; and what a removal names is gone. The server of an addition had no replica of
  -- the partition before the command. The change was asked of the present version of the
  -- assignments or of none, and counts one version more.
  pub apply_update_assignments-Fate :
      IsCluster count c
      → Whenever (apply_update_assignments count now c cmd) (λ r.
        ((pid : ℕ) (name : Bytes)
          → Fate cmd pid name
              (replica_at c.partitions pid name)
              (replica_at r.0.partitions pid name))
        × All (LegalAdd c) cmd.add
        × All (λ x. Joined c cmd x r.0.partitions) cmd.add
        × All (λ x. Updated c cmd x r.0.partitions) cmd.update
        × All (λ x. Gone c cmd x r.0.partitions) cmd.remove
        × (is_outdated c cmd ≡ false)
        × (r.1 ≡ c.partitions.assignments_version + 1)
        × (r.0.partitions.assignments_version ≡ r.1))
  unfolding apply_update_assignments AfterAdds AfterUpdates AfterRemoves
  apply_update_assignments-Fate valid =
      Whenever-guard Q (is_outdated c cmd) failed_precondition
        (refuse_if (not (has_assignments c.partitions)) invalid_request >> checked)
        (λ current.
          Whenever-guard Q (not (has_assignments c.partitions)) invalid_request checked (λ _.
            Whenever-bind _ Q (validate_update_assignments count c cmd) (λ _. finish)
              (validate_update-Whenever count c cmd)
              (λ _ legal.
                Whenever-bind _ Q (assign_all now c.partitions cmd)
                  (λ p. ok (stamp_assignments c cmd p))
                  (Whenever-both _ (AfterRemoves count now c cmd) (assign_all now c.partitions cmd)
                    (assign_all-Whenever now c.partitions cmd)
                    (assign_all-AfterRemoves count now c cmd valid legal.1 legal.2))
                  (λ p (same, (((g, joined), updated), gone)). (
                    g.fate,
                    legal.0,
                    joined,
                    updated,
                    gone,
                    current,
                    ap (λ n. n + 1) same,
                    refl,
                  )))))
    where
      finish : Result (Cluster × ℕ)
      finish = assign_all now c.partitions cmd >>= λ p. ok (stamp_assignments c cmd p)

      checked : Result (Cluster × ℕ)
      checked = validate_update_assignments count c cmd >> finish

      Q : Cluster × ℕ → Type 0
      Q r =
          ((pid : ℕ) (name : Bytes)
            → Fate cmd pid name (replica_at c.partitions pid name)
                (replica_at r.0.partitions pid name))
          × All (LegalAdd c) cmd.add
          × All (λ x. Joined c cmd x r.0.partitions) cmd.add
          × All (λ x. Updated c cmd x r.0.partitions) cmd.update
          × All (λ x. Gone c cmd x r.0.partitions) cmd.remove
          × (is_outdated c cmd ≡ false)
          × (r.1 ≡ c.partitions.assignments_version + 1)
          × (r.0.partitions.assignments_version ≡ r.1)
