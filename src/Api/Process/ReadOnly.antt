-- ===== src/Api/Process/ReadOnly.antt =====
-- When a read of several partitions succeeds:
-- internal/api/server/txn/processor_read_only.go.
use mathlib.Core.List.{Permᴰ}
use scout.Base.{
  ℕ, ◌≤◌, ◌≡◌, refl, sym, ◌∙◌, subst, inl, inr, ◌↔◌, true, some, List, [], ◌∷◌, arith, ltb, nat_eq,
  Bool-cases, Option-cases,
}
use scout.Base.Lists.{All, All-mono, All-perm, All-unperm}
use scout.Base.Maps.{Map, All-lookup}
use scout.Txn.{TxnStatus}
use scout.Api.{Transaction, keys, Call, Reply, ◌>>=◌, returns, prepare_request, commit_request}
use scout.Api.Coordinator.{
  nothing_gathered, gather, handle_prepared, handle_committed, decide_loop, aggregate_results,
}
use scout.Api.Coordinator.Votes.{
  Answers, IsPrepared, IsCommitted, Known, voted-Known, voted-All, confirmed-errs, decide_loop-some,
  decide_loop-All, decide_loop-least, decide-none, decide-some,
}
use scout.Api.Coordinator.Protocol.{CommittedAt}
use scout.Api.Process.{process_read_only, prepare_reads, commit_reads}

-- Every participant is prepared, and the number is the latest of their timestamps.
abbrev pub IsLatest : (ℕ → Reply) → List ℕ → ℕ → Type 0
IsLatest reply pids n =
    All (λ pid. Answers IsPrepared (reply pid)) pids
    × (All (λ pid. Answers (λ s. s.timestamp ≤ n) (reply pid)) pids
        × ((m : ℕ) → All (λ pid. Answers (λ s. s.timestamp ≤ m) (reply pid)) pids → n ≤ m))

latest_once :
    (reply : ℕ → Reply) (pids : List ℕ) (m n : ℕ)
    → IsLatest reply pids m
    → IsLatest reply pids n
    → m ≡ n
latest_once reply pids m n a b = omega (arith, a.1.1 n b.1.0, b.1.1 m a.1.0)

module _ (reply : ℕ → Reply) (order : List ℕ → List ℕ)
    (permutes : (pids : List ℕ) → Permᴰ (order pids) pids) (pids : List ℕ) where
  Known-All :
      (P : TxnStatus → Type 0) (status : Map ℕ TxnStatus)
      → All (λ (b : ℕ × TxnStatus). P b.1) status
      → (some_pids : List ℕ) → All (Known reply status) some_pids
      → All (λ pid. Answers P (reply pid)) some_pids
  Known-All P status held [] h = tt
  Known-All P status held (pid ∷ rest) ((s, answer, found), h) = (
    (s, answer, All-lookup (λ (b : ℕ × TxnStatus). P b.1) pid s status found held),
    Known-All P status held rest h,
  )

  voted-IsLatest :
      (n : ℕ)
      → let gathered = gather handle_prepared reply (order pids) nothing_gathered in
        gathered.errs ≡ 0 → decide_loop 0 gathered.status ≡ some n → IsLatest reply pids n
  voted-IsLatest n clean e =
      let gathered = gather handle_prepared reply (order pids) nothing_gathered in
      let (_, (known, _)) = voted-Known reply (order pids) nothing_gathered clean in
      let (low, within) = decide_loop-All 0 n gathered.status e in
      let back : (P : TxnStatus → Type 0)
          → All (λ (b : ℕ × TxnStatus). P b.1) gathered.status
          → All (λ pid. Answers P (reply pid)) pids =
        λ P held.
          All-perm _ (permutes pids) (Known-All P gathered.status held (order pids) known) in
      (
        back IsPrepared (All-mono (λ b h. h.0) gathered.status within),
        (
          back (λ s. s.timestamp ≤ n) (All-mono (λ b h. h.1) gathered.status within),
          λ m bound.
              decide_loop-least 0 n m gathered.status e (omega arith)
                (voted-All reply (λ s. s.timestamp ≤ m) (order pids) nothing_gathered
                  (All-unperm _ (permutes pids) bound) tt).1,
        ),
      )

  IsLatest-voted :
      (n : ℕ)
      → IsLatest reply pids n
      → let gathered = gather handle_prepared reply (order pids) nothing_gathered in
        (gathered.errs ≡ 0) × (decide_loop 0 gathered.status ≡ some n)
  IsLatest-voted n latest =
      let gathered = gather handle_prepared reply (order pids) nothing_gathered in
      let (clean, held) =
        voted-All reply IsPrepared (order pids) nothing_gathered
          (All-unperm _ (permutes pids) latest.0) tt in
      let (m, e) = decide_loop-some 0 gathered.status held in
      let same : m ≡ n = latest_once reply pids m n (voted-IsLatest m clean e) latest in
      (clean, e ∙ rw same refl)

module _ (respond : Call → Reply) (order : List ℕ → List ℕ)
    (permutes : (pids : List ℕ) → Permᴰ (order pids) pids) (t : Transaction) where
  -- The timestamp is the latest one at which the participants can serve the reads, and every
  -- participant answers the results of a read at it.
  abbrev pub IsReadAt : ℕ → Type 0
  IsReadAt n =
      IsLatest (λ pid. respond (prepare_request true t pid)) (keys t.participant_actions) n
      × All (λ pid. Answers IsCommitted (respond (commit_request true t.id n pid)))
          (keys t.participant_actions)

  fetched :
      (n : ℕ)
      → let gathered =
          gather handle_committed
            (λ pid. respond (commit_request true t.id n pid))
            (order (keys t.participant_actions))
            nothing_gathered in
        (gathered.errs ≡ 0)
        ↔ All
            (λ pid. Answers IsCommitted (respond (commit_request true t.id n pid)))
            (keys t.participant_actions)
  fetched n =
      let errs =
        confirmed-errs (λ pid. respond (commit_request true t.id n pid))
          (order (keys t.participant_actions)) nothing_gathered in
      (λ h. All-perm _ (permutes _) (errs.0 h).1, λ h. errs.1 (refl, All-unperm _ (permutes _) h))

  -- After the decision.
  read_at :
      (n m : ℕ)
      → IsLatest (λ pid. respond (prepare_request true t pid)) (keys t.participant_actions) m
      → CommittedAt n
          (commit_reads respond order m t >>= λ status. returns (
            aggregate_results (record { id = t.id; commit = true; commit_timestamp = m }) status)).1
        ↔ IsReadAt n
  unfolding commit_reads aggregate_results
  read_at n m latest =
      let reply : ℕ → Reply = λ pid. respond (prepare_request true t pid) in
      let pids = keys t.participant_actions in
      let gathered =
        gather handle_committed (λ pid. respond (commit_request true t.id m pid)) (order pids)
          nothing_gathered in
      let once : IsReadAt n → m ≡ n = λ h. latest_once reply pids m n latest h.0 in
      elim (Bool-cases (ltb 0 gathered.errs)) [
        | inl e ↦ rw e (
          λ h. absurd h,
          λ h.
              let clean = (fetched m).1 ((subst IsReadAt (sym (once h)) h).1) in
              absurd (ground (arith, e, clean)),
        )
        | inr e ↦
            let ended : IsReadAt m = (latest, (fetched m).0 (ground (arith, e))) in
            rw e (λ h. subst IsReadAt h.1 ended, λ h. (refl, once h))
      ]

  -- A read of several partitions succeeds at a timestamp exactly where every participant answers
  -- that it can serve the read, the timestamp is the latest one of these answers, and every
  -- participant then answers the read at that timestamp.
  pub process_read_only-CommittedAt :
      (n : ℕ) → CommittedAt n (process_read_only respond order t).1 ↔ IsReadAt n
  unfolding process_read_only prepare_reads commit_reads aggregate_results
  process_read_only-CommittedAt n =
      let pids = keys t.participant_actions in
      let reply : ℕ → Reply = λ pid. respond (prepare_request true t pid) in
      let gathered = gather handle_prepared reply (order pids) nothing_gathered in
      elim (Bool-cases (ltb 0 gathered.errs)) [
        | inl e ↦ rw e (
          λ h. absurd h,
          λ h. let (clean, _) = IsLatest-voted reply order permutes pids n h.0 in ground (arith, e),
        )
        | inr e ↦
            let clean : gathered.errs ≡ 0 = ground (arith, e) in
            elim (Option-cases (decide_loop 0 gathered.status)) [
              | inl f ↦
                  rw (e, decide-none t.id gathered.status f)
                    (
                      λ h. absurd (ground (arith, h.0)),
                      λ h.
                          let (_, other) = IsLatest-voted reply order permutes pids n h.0 in
                          absurd (ground (arith, f)),
                    )
              | inr (m, f) ↦
                  rw (e, decide-some t.id m gathered.status f)
                    (read_at n m (voted-IsLatest reply order permutes pids m clean f))
            ]
      ]
