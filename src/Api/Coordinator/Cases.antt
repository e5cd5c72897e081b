-- ===== src/Api/Coordinator/Cases.antt =====
-- Every run of `Process` of internal/api/server/txn/processor_2pc.go is a run of the protocol.
use mathlib.Core.List.{Permᴰ, append-nil}
use scout.Base.{
  ℕ, ◌≤◌, ◌≡◌, refl, sym, ap, ◌∙◌, subst, inl, inr, Bool, false, not, some, List, [], ◌∷◌, ◌++◌,
  map, arith, if◌then◌else◌, ltb, ◌==◌, nat_eq, Bool-cases, Option-cases,
}
use scout.Base.Lists.{All, All-mono, length, All-perm, All-unperm}
use scout.Base.Maps.{Map, lookup, insert, delete, lookup-insert_self, All-lookup}
use scout.Txn.{TxnStatus}
use scout.Api.{
  Transaction, TxnResult, keys, Call, Reply, Outcome, Problem, Run, ◌>>=◌, calling, fails, returns,
  is_prepared, prepare_request,
}
use scout.Api.Coordinator.{
  Gathered, others, gather, handle_prepared, abort, prepare, prepare_after, prepare_others,
  decide_loop, conclude, process, aggregate_results,
}
use scout.Api.Coordinator.Votes.{
  Answers, IsPrepared, Known, Answers-only, Reply-cases, voted-All, voted-Known, others_other,
  decide_loop-some, decide_loop-All, decide_loop-least, decide-none, decide-some,
}
use scout.Api.Coordinator.Protocol.{
  participants, IsShared, IsFailed, vote, AllPrepared, IsTaken, all_others, votes, Protocol,
  stopped, refused,
}
use scout.Api.Coordinator.Second.{bind-IsFailed, calling-bind, carry_out-Protocol, fails_after}

module _ (respond : Call → Reply) (order : List ℕ → List ℕ) (arrive : List (List Bool) → List Bool)
    (permutes : (pids : List ℕ) → Permᴰ (order pids) pids) (t : Transaction) where
  abbrev Ends : Run TxnResult → Type 0
  Ends run = Protocol respond order arrive t (votes respond order arrive t ++ run.0, run.1)

  abbrev reply : ℕ → Reply
  reply = vote respond order arrive t

  abbrev others_of : List ℕ
  others_of = all_others respond order arrive t

  -- The statuses that the participants have answered, without an error.
  abbrev IsGathered : Map ℕ TxnStatus → Type 1
  IsGathered status =
      All (Known reply status) (participants t)
      × ((P : TxnStatus → Type 0)
          → All (λ pid. Answers P (reply pid)) (participants t)
          → All (λ (b : ℕ × TxnStatus). P b.1) status)

  -- What every status in the map satisfies, every participant has answered.
  Known-All :
      (P : TxnStatus → Type 0) (status : Map ℕ TxnStatus)
      → All (λ (b : ℕ × TxnStatus). P b.1) status
      → (pids : List ℕ) → All (Known reply status) pids
      → All (λ pid. Answers P (reply pid)) pids
  Known-All P status held [] h = tt
  Known-All P status held (pid ∷ pids) ((s, answer, found), h) = (
    (s, answer, All-lookup (λ (b : ℕ × TxnStatus). P b.1) pid s status found held),
    Known-All P status held pids h,
  )

  decide_loop-IsTaken :
      (n : ℕ) (status : Map ℕ TxnStatus)
      → IsGathered status
      → decide_loop 0 status ≡ some n
      → IsTaken respond order arrive t n
  decide_loop-IsTaken n status (known, held) e =
      let (low, within) = decide_loop-All 0 n status e in
      (
        Known-All IsPrepared status (All-mono (λ b h. h.0) status within) (participants t) known,
        (
          Known-All (λ s. s.timestamp ≤ n) status (All-mono (λ b h. h.1) status within)
              (participants t) known,
          λ m bound.
              decide_loop-least 0 n m status e (omega arith) (held (λ s. s.timestamp ≤ m) bound),
        ),
      )

  conclude-Protocol :
      (status : Map ℕ TxnStatus)
      → IsGathered status
      → (length status == 1) ≡ false
      → Ends (conclude respond order arrive t status)
  unfolding conclude aggregate_results
  conclude-Protocol status (known, held) many = elim (Option-cases (decide_loop 0 status)) [
    | inl e ↦
        let none_taken = decide-none t.id status e in
        let f : Unit {0} → Run TxnResult = λ _.
          returns (
            aggregate_results (record { id = t.id; commit = false; commit_timestamp = 0 })
              status) in
        let run = abort respond order arrive t status >>= f in
        let (calls, failed) = fails_after (abort respond order arrive t status) f refl refl in
        rw (many, none_taken)
          (subst (λ x. Ends (x, run.1)) (sym calls)
            (refused status _
              (λ h.
                let some_taken = decide_loop-some 0 status (held IsPrepared h) in
                let (n, other) = some_taken in ground (arith, e))
              failed))
    | inr (n, e) ↦
        let taken = decide-some t.id n status e in
        rw (many, taken)
          (carry_out-Protocol respond order arrive permutes t n status
            (decide_loop-IsTaken n status (known, held) e))
  ]

  -- The gathered statuses of two different participants are two.
  length-Known :
      (status : Map ℕ TxnStatus) (p q : ℕ)
      → (q == p) ≡ false
      → Known reply status p
      → Known reply status q
      → (length status == 1) ≡ false
  unfolding lookup
  length-Known [] p q other (s, _, found) k = absurd (ground arith)
  length-Known ((j, v) ∷ []) p q other (s, _, found) (r, _, found_too) =
      absurd (ground (arith, nat_eq.beq_iff j p, nat_eq.beq_iff j q, nat_eq.beq_iff q p))
  length-Known (a ∷ b ∷ status) p q other k l = ground arith

  shared_many :
      (status : Map ℕ TxnStatus) (pids : List ℕ)
      → (pids ≡ [] → ⊥)
      → All (λ pid. (pid == t.id.principal_pid) ≡ false) pids
      → Known reply status t.id.principal_pid
      → All (Known reply status) pids
      → (length status == 1) ≡ false
  shared_many status [] shared different first known = absurd (shared refl)
  shared_many status (pid ∷ pids) shared different first known =
      length-Known status t.id.principal_pid pid different.0 first known.0

  abbrev After : Run TxnResult → Type 0
  After run =
      Protocol respond order arrive t (prepare_request false t t.id.principal_pid ∷ run.0, run.1)

  prepare_others-Protocol :
      IsShared t
      → (s : TxnStatus) → reply t.id.principal_pid ≡ Reply.answered s
      → IsPrepared s
      → let g : Gathered = record { status = (t.id.principal_pid, s) ∷ []; errs = 0 } in
        let run = prepare_others respond order arrive t g >>= conclude respond order arrive t in
        After run
  unfolding prepare_others insert delete
  prepare_others-Protocol shared s answer ready =
      let g : Gathered = record { status = (t.id.principal_pid, s) ∷ []; errs = 0 } in
      let gathered = gather handle_prepared reply others_of g in
      let calls = map (prepare_request false t) others_of in
      let no_error : AllPrepared respond order arrive t → gathered.errs ≡ 0 = λ h.
        (voted-All reply IsPrepared others_of g (All-unperm _ (permutes _) h.1) (ready, tt)).0 in
      elim (Bool-cases (ltb 0 gathered.errs)) [
        | inl e ↦
            let run = abort respond order arrive t gathered.status in
            let f = conclude respond order arrive t in
            let (same, failed) = bind-IsFailed calls run Problem.participants_failed f in
            let o = (calling calls (run >>= λ _. fails Problem.participants_failed) >>= f).1 in
            rw e (
              subst (λ x. After (x, o)) (sym same)
                (refused gathered.status o (λ h. let clean = no_error h in ground (arith, e))
                  failed))
        | inr e ↦
            let clean : gathered.errs ≡ 0 = ground (arith, e) in
            let (_, (known, kept)) = voted-Known reply others_of g clean in
            let known_others = All-perm _ (permutes _) known in
            let principal : Known reply g.status t.id.principal_pid =
              (s, answer, lookup-insert_self t.id.principal_pid s []) in
            let first = kept t.id.principal_pid principal in
            let held : IsGathered gathered.status = (
              (first, known_others),
              λ P h.
                  (voted-All reply P others_of g (All-unperm _ (permutes _) h.1)
                    (Answers-only s answer h.0, tt)).1,
            ) in
            let pids = others t.id.principal_pid (keys t.participant_actions) in
            let different = others_other t.id.principal_pid (keys t.participant_actions) in
            let many = shared_many gathered.status pids shared different first known_others in
            rw (e, append-nil calls) (conclude-Protocol gathered.status held many)
      ]

  after_answer :
      (s : TxnStatus)
      → prepare_after respond order arrive t (Reply.answered s) ≡ (
          if not (is_prepared s.state)
          then returns ((t.id.principal_pid, s) ∷ [])
          else prepare_others respond order arrive t
              (record { status = (t.id.principal_pid, s) ∷ []; errs = 0 }))
  unfolding prepare_after handle_prepared insert delete
  after_answer s =
      let p = t.id.principal_pid in
      let found : lookup p ((p, s) ∷ []) ≡ some s = lookup-insert_self p s [] in rw found refl

  conclude_alone :
      (s : TxnStatus)
      → (o : Outcome TxnResult) × ((conclude respond order arrive t ((t.id.principal_pid, s) ∷ [])
            ≡ ([], o))
          × IsFailed o)
  unfolding conclude insert delete
  conclude_alone s =
      let p = t.id.principal_pid in
      let found : lookup p ((p, s) ∷ []) ≡ some s = lookup-insert_self p s [] in
      let result : TxnResult = record {
        id = t.id;
        timestamp = s.timestamp;
        success = false;
        action_status = s.action_status;
      } in
      (Outcome.done result, (rw found refl, refl))

  process-after :
      (r : Reply)
      → reply t.id.principal_pid ≡ r
      → process respond order arrive t
        ≡ calling
            (prepare_request false t t.id.principal_pid ∷ [])
            (prepare_after respond order arrive t r >>= conclude respond order arrive t)
  unfolding process prepare
  process-after r answer =
      calling-bind (prepare_request false t t.id.principal_pid ∷ [])
        (prepare_after respond order arrive t (reply t.id.principal_pid))
        (conclude respond order arrive t)
      ∙ ap
          (λ x.
            calling (prepare_request false t t.id.principal_pid ∷ [])
              (prepare_after respond order arrive t x >>= conclude respond order arrive t))
          answer

  -- Where several partitions take part, every run of `process` is a run of the protocol.
  pub process-Protocol :
      IsShared t → Protocol respond order arrive t (process respond order arrive t)
  unfolding prepare_after handle_prepared
  process-Protocol shared =
      let p = t.id.principal_pid in
      elim (Reply-cases (reply p)) [
        | inl (e, answer) ↦
            rw (process-after (Reply.failed e) answer)
              (stopped _ (λ h. let other = h.0.1 in ground (arith, answer)) tt)
        | inr (s, answer) ↦
            let step = process-after (Reply.answered s) answer in
            elim (Bool-cases (is_prepared s.state)) [
              | inl ready ↦
                  rw (step, after_answer s, ready) (prepare_others-Protocol shared s answer ready)
              | inr unready ↦
                  let (o, (alone, failed)) = conclude_alone s in
                  rw (step, after_answer s, unready, alone)
                    (stopped o
                      (λ h. let ready = Answers-only s answer h.0 in ground (arith, unready))
                      failed)
            ]
      ]
