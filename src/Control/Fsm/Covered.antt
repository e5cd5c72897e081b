-- ===== src/Control/Fsm/Covered.antt =====
-- The first assignment leaves no partition without a replica:
-- internal/control/server/storage/fsm_init_assignments.go.
use scout.Base.{
  ℕ, ◌≡◌, ◌≢◌, ◌⊎◌, ◌<◌, refl, Bool, true, not, ◌&&◌, ◌||◌, some, List, [], ◌∷◌, arith, inl, inr,
  Bool-cases, ◌==◌, nat_eq, if◌then◌else◌, ◌∙◌,
}
use scout.Base.Lists.{All, any, length}
use scout.Base.Maps.{lookup, insert, lookup-insert}
use scout.Base.Bytes.{bytes_eq}
use scout.Base.Distinct.{Distinct, Distinct-any, absent_none}
use scout.Control.{ReplicaState, Servers, Partition, Partitions, has_assignments}
use scout.Control.Results.{
  ok, Whenever, Whenever-bind, Whenever-mono, Whenever-guard, Whenever-refuse_if, ◌>>=◌, ◌>>◌,
  refuse_if, invalid_request, has_invalid_fields, has_duplicate_entries, has_missing_partitions,
}
use scout.Control.Fsm.{
  Cluster, InitAdd, InitAssignments, is_valid_data_server, is_valid_partition_id, get_partition,
}
use scout.Control.Fsm.Assignments.{
  set_partition, with_replica, check_init_adds, validate_init_assignments, init_adds, stamp_init,
  apply_init_assignments,
}
use scout.Control.Fsm.Edges.{get_partition-Whenever}

abbrev names : ℕ → List InitAdd → Bool
names k xs = any (λ (x : InitAdd). x.partition_id == k) xs

-- Different partitions below the count, each seen before or named by an addition.
abbrev IsSeen : ℕ → List ℕ → List InitAdd → List ℕ → Type 0
IsSeen count seen xs out =
    Distinct out
    × All (λ k. k < count) out
    × ((k : ℕ) → any (λ q. q == k) out ≡ true → any (λ q. q == k) seen || names k xs ≡ true)

check_init_adds-IsSeen :
    (count : ℕ) (s : Servers) (pairs : List (ℕ × ℕ)) (seen : List ℕ) (xs : List InitAdd)
    → Distinct seen
    → All (λ k. k < count) seen
    → Whenever (check_init_adds count s pairs seen xs) (IsSeen count seen xs)
unfolding check_init_adds
check_init_adds-IsSeen count s pairs seen [] d low = (d, low, λ k h. ground arith)
check_init_adds-IsSeen count s pairs seen (x ∷ xs) d low =
    let pid = x.partition_id in
    let Q = IsSeen count seen (x ∷ xs) in
    let more = (pid, x.server_id) ∷ pairs in
    let double = any (λ (q : ℕ × ℕ). q.0 == pid && q.1 == x.server_id) pairs in
    let next = if any (λ q. q == pid) seen then seen else pid ∷ seen in
    let rest = check_init_adds count s more next xs in
    Whenever-guard Q
      (not (is_valid_partition_id count pid) || not (is_valid_data_server s x.server_id))
      has_invalid_fields (refuse_if double has_duplicate_entries >> rest)
      (λ valid. Whenever-guard Q double has_duplicate_entries rest (λ _.
        elim (Bool-cases (any (λ q. q == pid) seen)) [
          | inl e ↦ rw e (
              Whenever-mono (IsSeen count seen xs) Q (check_init_adds count s more seen xs)
                (check_init_adds-IsSeen count s more seen xs d low)
                (λ out h. (h.0, h.1, λ k there. ground (arith, h.2 k there))))
          | inr e ↦ rw e (
              Whenever-mono (IsSeen count (pid ∷ seen) xs) Q
                (check_init_adds count s more (pid ∷ seen) xs)
                (check_init_adds-IsSeen count s more (pid ∷ seen) xs (absent_none pid seen e, d)
                  (ground arith, low))
                (λ out h. (h.0, h.1, λ k there. ground (arith, h.2 k there))))
        ]))

-- A partition that is there, with a replica.
abbrev pub Populated : Partitions → ℕ → Type 0
Populated p k = (part : Partition) × (lookup k p.items ≡ some part) × (part.replicas ≢ [])

init_adds-Populated :
    (now : ℕ) (p : Partitions) (xs : List InitAdd)
    → Whenever
        (init_adds now p xs)
        (λ q. (k : ℕ) → (names k xs ≡ true) ⊎ Populated p k → Populated q k)
unfolding init_adds insert
init_adds-Populated now p [] = (λ k h. elim h [ inl e ↦ absurd (ground arith) | inr there ↦ there ])
init_adds-Populated now p (x ∷ xs) =
    let pid = x.partition_id in
    let Q : Partitions → Type 0 =
      λ q. (k : ℕ) → (names k (x ∷ xs) ≡ true) ⊎ Populated p k → Populated q k in
    Whenever-bind _ Q (get_partition p pid) _ (get_partition-Whenever p pid) (λ part found.
      let state : ReplicaState = if x.voter then ReplicaState.voter else ReplicaState.non_voter in
      let next = record (with_replica state now x.server_id part) { assignments_version = 1 } in
      let p' = set_partition p pid next in
      Whenever-mono _ Q (init_adds now p' xs) (init_adds-Populated now p' xs) (λ q keep k h.
        elim (Bool-cases (pid == k)) [
          | inl same ↦
              let here : lookup k p'.items ≡ some next =
                lookup-insert pid k next p.items ∙ (rw same refl) in
              keep k (inr (next, here, λ e. ground arith))
          | inr other ↦ elim h [
            | inl named ↦ keep k (inl (ground arith))
            | inr (old, there, full) ↦
                keep k (inr (old, lookup-insert pid k next p.items ∙ (rw other there), full))
          ]
        ]))

validate_init-IsSeen :
    (count : ℕ) (s : Servers) (cmd : InitAssignments)
    → Whenever
        (validate_init_assignments count s cmd)
        (λ _. (k : ℕ) → k < count → names k cmd.add ≡ true)
unfolding validate_init_assignments
validate_init-IsSeen count s cmd =
    let Q : Unit {0} → Type 0 = λ _. (k : ℕ) → k < count → names k cmd.add ≡ true in
    Whenever-bind (IsSeen count [] cmd.add) Q (check_init_adds count s [] [] cmd.add) _
      (check_init_adds-IsSeen count s [] [] cmd.add tt tt)
      (λ seen h.
        Whenever-refuse_if Q (not (length seen == count)) has_missing_partitions (λ full k low.
          h.2 k (
            Distinct-any count k seen h.0 h.1 (ground (arith, nat_eq.beq_iff (length seen) count))
              low)))

-- After an accepted first assignment, every partition below the count is there and has a replica,
-- and the assignments have version 1.
pub apply_init_assignments-Populated :
    (count now : ℕ) (c : Cluster) (cmd : InitAssignments)
    → Whenever (apply_init_assignments count now c cmd) (λ r.
      ((k : ℕ) → k < count → Populated r.0.partitions k) × (r.0.partitions.assignments_version ≡ 1))
unfolding apply_init_assignments
apply_init_assignments-Populated count now c cmd =
    let Q : Cluster × ℕ → Type 0 = λ r.
      ((k : ℕ) → k < count → Populated r.0.partitions k)
      × (r.0.partitions.assignments_version ≡ 1) in
    let finish = init_adds now c.partitions cmd.add >>= λ p. ok (stamp_init c cmd p) in
    Whenever-guard Q (has_assignments c.partitions) invalid_request
      (validate_init_assignments count c.servers cmd >> finish)
      (λ _.
        Whenever-bind _ Q (validate_init_assignments count c.servers cmd) (λ _. finish)
          (validate_init-IsSeen count c.servers cmd)
          (λ _ named.
            Whenever-bind _ Q (init_adds now c.partitions cmd.add) (λ p. ok (stamp_init c cmd p))
              (init_adds-Populated now c.partitions cmd.add)
              (λ p keep. ((λ k low. keep k (inl (named k low))), refl))))
