-- ===== src/Api/Coordinator/Second.antt =====
-- The second phase of `Process` of internal/api/server/txn/processor_2pc.go: the stored decision and
-- the commits.
use mathlib.Core.List.{Permᴰ, append-nil, append_assoc}
use scout.Base.{
  ℕ, ◌≡◌, refl, sym, ap, subst, inl, inr, Bool, true, false, List, [], ◌∷◌, ◌++◌, ◌↔◌, arith, ltb,
  nat_eq, Bool-cases,
}
use scout.Base.Lists.{All, All-perm, All-unperm}
use scout.Base.Maps.{Map}
use scout.Txn.{TxnStatus, Decision}
use scout.Api.{
  Transaction, TxnResult, Call, Reply, Outcome, Problem, Run, ◌>>=◌, calling, fails, returns,
  is_decided, commit_request,
}
use scout.Api.Coordinator.{
  gather, handle_committed, nothing_gathered, abort, commit, carry_out, aggregate_results,
}
use scout.Api.Coordinator.Votes.{Answers, IsCommitted, Answers-only, Reply-cases, confirmed-errs}
use scout.Api.Coordinator.Protocol.{
  participants, IsDecided, IsFailed, CommittedAt, IsTaken, Stored, AllCommitted, all_others, votes,
  commits, store, Protocol, not_stored, not_decided, not_committed, principal_open, committed,
}

-- A failure after a run: its calls are those of the run.
pub fails_after :
    (m : Run (Unit {0})) (f : Unit {0} → Run TxnResult)
    → (f tt).0 ≡ []
    → IsFailed (f tt).1
    → ((m >>= f).0 ≡ m.0) × IsFailed (m >>= f).1
fails_after (calls, Outcome.done _) f none_left h = (rw (none_left, append-nil calls) refl, h)
fails_after (calls, Outcome.failed e) f none_left h = (refl, tt)
fails_after (calls, Outcome.hangs) f none_left h = (refl, tt)

pub bind-IsFailed :
    {A : Type 0} (calls : List Call) (m : Run (Unit {0})) (e : Problem) (f : A → Run TxnResult)
    → ((calling calls (m >>= λ _. fails e) >>= f).0 ≡ calls ++ m.0)
      × IsFailed (calling calls (m >>= λ _. fails e) >>= f).1
bind-IsFailed calls (more, Outcome.done _) e f = (rw (append-nil more) refl, tt)
bind-IsFailed calls (more, Outcome.failed _) e f = (refl, tt)
bind-IsFailed calls (more, Outcome.hangs) e f = (refl, tt)

pub calling-bind :
    {A B : Type 0} (calls : List Call) (m : Run A) (f : A → Run B)
    → (calling calls m >>= f) ≡ calling calls (m >>= f)
calling-bind calls (more, Outcome.done a) f =
    ap (λ x. (x, (f a).1)) (append_assoc calls more (f a).0)
calling-bind calls (more, Outcome.failed e) f = refl
calling-bind calls (more, Outcome.hangs) f = refl

module _ (respond : Call → Reply) (order : List ℕ → List ℕ) (arrive : List (List Bool) → List Bool)
    (permutes : (pids : List ℕ) → Permᴰ (order pids) pids) (t : Transaction) where
  abbrev pub Ends : Run TxnResult → Type 0
  Ends run = Protocol respond order arrive t (votes respond order arrive t ++ run.0, run.1)

  abbrev pub decision : ℕ → Decision
  decision d = record { id = t.id; commit = true; commit_timestamp = d }

  -- The calls of the second phase, and its end.
  data Second (d : ℕ) : Run TxnResult → Type 0 where
    short :
        (o : Outcome TxnResult)
        → (AllCommitted respond order arrive t d (participants t) → ⊥)
        → IsFailed o
        → Second d (commits respond order arrive t d, o)
    whole :
        (o : Outcome TxnResult)
        → (AllCommitted respond order arrive t d (participants t) → ⊥)
        → IsFailed o
        → Second d (
          commits respond order arrive t d ++ commit_request false t.id d t.id.principal_pid ∷ [],
          o,
        )
    complete :
        (o : Outcome TxnResult)
        → AllCommitted respond order arrive t d (participants t)
        → CommittedAt d o
        → Second d (
          commits respond order arrive t d ++ commit_request false t.id d t.id.principal_pid ∷ [],
          o,
        )

  trim :
      {d : ℕ} {calls : List Call} {o : Outcome TxnResult}
      → Second d (calls, o)
      → Second d (calls ++ [], o)
  trim {d} {calls} {o} h = subst (λ x. Second d (x, o)) (sym (append-nil calls)) h

  commit-Second :
      (d : ℕ)
      → Second d (
          commit respond order arrive (decision d) t >>= λ status.
          returns (aggregate_results (decision d) status))
  unfolding commit aggregate_results gather
  commit-Second d =
      let reply : ℕ → Reply = λ pid. respond (commit_request false t.id d pid) in
      let pids = all_others respond order arrive t in
      let gathered = gather handle_committed reply pids nothing_gathered in
      let last = handle_committed gathered t.id.principal_pid (reply t.id.principal_pid) in
      let errs = confirmed-errs reply pids nothing_gathered in
      let final : (last.errs ≡ 0) ↔ (
          (gathered.errs ≡ 0)
          × All (λ pid. Answers IsCommitted (reply pid)) (t.id.principal_pid ∷ [])) =
        confirmed-errs reply (t.id.principal_pid ∷ []) gathered in
      elim (Bool-cases (ltb 0 gathered.errs)) [
        | inl e ↦ rw e (
            trim (
              short _
                (λ h.
                  let zero_errs = errs.1 (refl, All-unperm _ (permutes _) h.1) in
                  ground (arith, e, zero_errs))
                tt))
        | inr e ↦ elim (Bool-cases (ltb 0 last.errs)) [
          | inl f ↦
              rw (e, f)
                (whole _
                  (λ h.
                    let zero_errs = final.1 (ground (arith, e), (h.0, tt)) in
                    ground (arith, f, zero_errs))
                  tt)
          | inr f ↦
              let ended = final.0 (ground (arith, f)) in
              rw (e, f)
                (trim
                  (complete _ (ended.1.0, All-perm _ (permutes _) (errs.0 ended.0).1) (refl, refl)))
        ]
      ]

  Second-Protocol :
      {d : ℕ} {run : Run TxnResult}
      → Second d run
      → IsTaken respond order arrive t d
      → Stored respond order arrive t IsDecided d
      → Ends (store respond order arrive t d ∷ run.0, run.1)
  Second-Protocol {d} (short o no_end h) taken stored = not_committed d o taken stored no_end h
  Second-Protocol {d} (whole o no_end h) taken stored = principal_open d o taken stored no_end h
  Second-Protocol {d} (complete o ended h) taken stored = committed d o taken stored ended h

  pub carry_out-Protocol :
      (d : ℕ) (status : Map ℕ TxnStatus)
      → IsTaken respond order arrive t d
      → Ends (carry_out respond order arrive t (decision d) status)
  unfolding carry_out
  carry_out-Protocol d status taken =
      elim (Reply-cases (respond (Call.store_decision (decision d)))) [
        | inl (e, answer) ↦
            let run = abort respond order arrive t status >>= λ _. fails Problem.decision_failed in
            let (calls, failed) =
              fails_after (abort respond order arrive t status) (λ _. fails Problem.decision_failed)
                refl tt in
            rw answer (
              subst (λ x. Ends (store respond order arrive t d ∷ x, run.1)) (sym calls)
                (not_stored d status _ taken (λ h. let same = h.1 in ground (arith, answer))
                  failed))
        | inr (s, answer) ↦ elim (Bool-cases (is_decided s.state)) [
          | inl e ↦ rw (answer, e) (Second-Protocol (commit-Second d) taken (s, answer, e))
          | inr e ↦
              rw (answer, e)
                (not_decided d _ taken
                  (λ h. let stored = Answers-only s answer h in ground (arith, e)) tt)
        ]
      ]
