-- ===== src/Api/Coordinator/Votes.antt =====
-- The votes that `prepare` of internal/api/server/txn/processor_2pc.go gathers, and the decision
-- that `decide` takes on them.
use scout.Base.{
  ℕ, suc, ◌≤◌, ◌↔◌, ◌⊎◌, ◌≡◌, refl, sym, ap, ◌∙◌, subst, inl, inr, true, false, max, none, some,
  List, [], ◌∷◌, arith, ◌==◌, nat_eq, Bool-cases,
}
use scout.Base.Lists.{All}
use scout.Base.Maps.{Map, lookup, insert, lookup-insert, lookup-insert_self, All-insert}
use scout.Txn.{TxnId, TxnStatus}
use scout.Api.{Failure, Reply, is_prepared, is_committed}
use scout.Api.Coordinator.{
  Gathered, one_more, handle_prepared, handle_committed, gather, others, decide, decide_loop,
}

-- The reply is a status that satisfies `P`.
abbrev pub Answers {ℓ} : (TxnStatus → Type ℓ) → Reply → Type ℓ
Answers P r = (s : TxnStatus) × (r ≡ Reply.answered s) × P s

abbrev pub IsPrepared : TxnStatus → Type 0
IsPrepared s = is_prepared s.state ≡ true

abbrev pub IsCommitted : TxnStatus → Type 0
IsCommitted s = is_committed s.state ≡ true

-- What the reply is about stands in the map.
abbrev pub Known : (ℕ → Reply) → Map ℕ TxnStatus → ℕ → Type 0
Known reply status pid = Answers (λ s. lookup pid status ≡ some s) (reply pid)

answered_same : (a b : TxnStatus) → Reply.answered a ≡ Reply.answered b → a ≡ b
answered_same a b e = cc

pub Reply-cases :
    (r : Reply)
    → ((e : Failure) × (r ≡ Reply.failed e)) ⊎ ((s : TxnStatus) × (r ≡ Reply.answered s))
Reply-cases (Reply.failed e) = inl (e, refl)
Reply-cases (Reply.answered s) = inr (s, refl)

pub Answers-only :
    {P : TxnStatus → Type 0} {r : Reply} (s : TxnStatus) → r ≡ Reply.answered s → Answers P r → P s
Answers-only {P} s answer (a, other, p) = subst P (answered_same a s (sym other ∙ answer)) p

insert-Known :
    (reply : ℕ → Reply) (status : Map ℕ TxnStatus) (pid k : ℕ) (s : TxnStatus)
    → reply pid ≡ Reply.answered s
    → Known reply status k
    → Known reply (insert pid s status) k
insert-Known reply status pid k s e (a, answer, found) = elim (Bool-cases (pid == k)) [
  | inl same ↦
      let key : pid ≡ k = (nat_eq.beq_iff pid k).0 same in
      let this : reply k ≡ Reply.answered s = subst (λ x. reply x ≡ Reply.answered s) key e in
      (s, this, lookup-insert pid k s status ∙ rw same refl)
  | inr other ↦ (a, answer, lookup-insert pid k s status ∙ rw other found)
]

module _ (reply : ℕ → Reply) where
  abbrev pub voted : List ℕ → Gathered → Gathered
  voted = gather handle_prepared reply

  voted-failed :
      (pid : ℕ) (pids : List ℕ) (g : Gathered) (e : Failure)
      → reply pid ≡ Reply.failed e
      → voted (pid ∷ pids) g ≡ voted pids (one_more g)
  unfolding gather handle_prepared
  voted-failed pid pids g e answer = ap (λ r. voted pids (handle_prepared g pid r)) answer

  voted-answered :
      (pid : ℕ) (pids : List ℕ) (g : Gathered) (s : TxnStatus)
      → reply pid ≡ Reply.answered s
      → voted (pid ∷ pids) g ≡ voted pids (record g { status = insert pid s g.status })
  unfolding gather handle_prepared
  voted-answered pid pids g s answer = ap (λ r. voted pids (handle_prepared g pid r)) answer

  -- Without an error, each participant has answered, and its status is held.
  pub voted-Known :
      (pids : List ℕ) (g : Gathered)
      → (voted pids g).errs ≡ 0
      → (g.errs ≡ 0)
        × (All (Known reply (voted pids g).status) pids
            × ((k : ℕ) → Known reply g.status k → Known reply (voted pids g).status k))
  unfolding gather
  voted-Known [] g h = (h, (tt, λ k known. known))
  voted-Known (pid ∷ pids) g h = elim (Reply-cases (reply pid)) [
    | inl (e, answer) ↦
        let step = voted-failed pid pids g e answer in
        let later = voted-Known pids (one_more g) (ap (λ x. x.errs) (sym step) ∙ h) in
        absurd (omega (arith, later.0))
    | inr (s, answer) ↦
        let step = voted-answered pid pids g s answer in
        let next : Gathered = record g { status = insert pid s g.status } in
        let (clean, (rest, kept)) = voted-Known pids next (ap (λ x. x.errs) (sym step) ∙ h) in
        let back : (k : ℕ) → Known reply g.status k → Known reply (voted pids next).status k =
          λ k known. kept k (insert-Known reply g.status pid k s answer known) in
        let this : Known reply next.status pid = (s, answer, lookup-insert_self pid s g.status) in
        subst
          (λ x.
            (g.errs ≡ 0)
            × (All (Known reply x.status) (pid ∷ pids)
                × ((k : ℕ) → Known reply g.status k → Known reply x.status k)))
          (sym step) (clean, ((kept pid this, rest), back))
  ]

  -- Where every participant answers a status that satisfies `P`, there is no error and every status
  -- held does.
  pub voted-All :
      (P : TxnStatus → Type 0) (pids : List ℕ) (g : Gathered)
      → All (λ pid. Answers P (reply pid)) pids
      → All (λ (b : ℕ × TxnStatus). P b.1) g.status
      → ((voted pids g).errs ≡ g.errs) × All (λ (b : ℕ × TxnStatus). P b.1) (voted pids g).status
  unfolding gather
  voted-All P [] g h held = (refl, held)
  voted-All P (pid ∷ pids) g ((s, answer, p), h) held =
      let next : Gathered = record g { status = insert pid s g.status } in
      let rest =
        voted-All P pids next h (All-insert (λ (b : ℕ × TxnStatus). P b.1) pid s g.status p held) in
      subst (λ x. (x.errs ≡ g.errs) × All (λ (b : ℕ × TxnStatus). P b.1) x.status)
        (sym (voted-answered pid pids g s answer)) rest

  abbrev pub confirmed : List ℕ → Gathered → Gathered
  confirmed = gather handle_committed reply

  handle_committed-cases :
      (pid : ℕ) (g : Gathered)
      → (((handle_committed g pid (reply pid)).errs ≡ suc g.errs)
          × (Answers IsCommitted (reply pid) → ⊥))
        ⊎ (((handle_committed g pid (reply pid)).errs ≡ g.errs) × Answers IsCommitted (reply pid))
  unfolding handle_committed
  handle_committed-cases pid g = elim (Reply-cases (reply pid)) [
    | inl (e, answer) ↦ inl (rw answer refl, λ h. let e = h.1 in ground (arith, answer))
    | inr (s, answer) ↦ elim (Bool-cases (is_committed s.state)) [
      | inl e ↦ inr (rw (answer, e) refl, (s, answer, e))
      | inr e ↦
          inl
            (rw (answer, e) refl, λ h. let yes_state = Answers-only s answer h in ground (arith, e))
    ]
  ]

  -- The commit has no error exactly where every participant answers that it has committed.
  pub confirmed-errs :
      (pids : List ℕ) (g : Gathered)
      → ((confirmed pids g).errs ≡ 0)
        ↔ ((g.errs ≡ 0) × All (λ pid. Answers IsCommitted (reply pid)) pids)
  unfolding gather
  confirmed-errs [] g = (λ h. (h, tt), λ h. h.0)
  confirmed-errs (pid ∷ pids) g =
      let rest = confirmed-errs pids (handle_committed g pid (reply pid)) in
      elim (handle_committed-cases pid g) [
        | inl (more, other) ↦
            (λ h. absurd (omega (arith, more, (rest.0 h).0)), λ h. absurd (other h.1.0))
        | inr (same, committed) ↦ (
          λ h. (sym same ∙ (rest.0 h).0, (committed, (rest.0 h).1)),
          λ h. rest.1 (same ∙ h.0, h.1.1),
        )
      ]

-- The decision is to commit exactly where every status is `Prepared`, at the latest timestamp.
pub decide_loop-some :
    (acc : ℕ) (status : Map ℕ TxnStatus)
    → All (λ (b : ℕ × TxnStatus). IsPrepared b.1) status
    → (n : ℕ) × (decide_loop acc status ≡ some n)
unfolding decide_loop
decide_loop-some acc [] h = (acc, refl)
decide_loop-some acc ((pid, s) ∷ status) h =
    rw (h.0) (decide_loop-some (max acc s.timestamp) status h.1)

pub decide_loop-All :
    (acc n : ℕ) (status : Map ℕ TxnStatus)
    → decide_loop acc status ≡ some n
    → (acc ≤ n) × All (λ (b : ℕ × TxnStatus). IsPrepared b.1 × (b.1.timestamp ≤ n)) status
unfolding decide_loop
decide_loop-All acc n [] h = (ground arith, tt)
decide_loop-All acc n ((pid, s) ∷ status) h = elim (Bool-cases (is_prepared s.state)) [
  | inl e ↦
      let (low, rest) = decide_loop-All (max acc s.timestamp) n status (rw e at h) in
      (omega arith, ((e, omega arith), rest))
  | inr e ↦ absurd (ground (arith, rw e at h))
]

-- No bound of the timestamps is below it.
pub decide_loop-least :
    (acc n bound : ℕ) (status : Map ℕ TxnStatus)
    → decide_loop acc status ≡ some n
    → acc ≤ bound
    → All (λ (b : ℕ × TxnStatus). b.1.timestamp ≤ bound) status
    → n ≤ bound
unfolding decide_loop
decide_loop-least acc n bound [] h low below = ground arith
decide_loop-least acc n bound ((pid, s) ∷ status) h low below =
    elim (Bool-cases (is_prepared s.state)) [
      | inl e ↦
          decide_loop-least (max acc s.timestamp) n bound status (rw e at h)
            (omega (arith, below.0)) below.1
      | inr e ↦ absurd (ground (arith, rw e at h))
    ]

pub decide-none :
    (id : TxnId) (status : Map ℕ TxnStatus)
    → decide_loop 0 status ≡ none
    → decide id status ≡ record { id = id; commit = false; commit_timestamp = 0 }
unfolding decide
decide-none id status e = rw (decide, e) refl

pub decide-some :
    (id : TxnId) (n : ℕ) (status : Map ℕ TxnStatus)
    → decide_loop 0 status ≡ some n
    → decide id status ≡ record { id = id; commit = true; commit_timestamp = n }
unfolding decide
decide-some id n status e = rw (decide, e) refl

pub others_other :
    (principal : ℕ) (pids : List ℕ)
    → All (λ pid. (pid == principal) ≡ false) (others principal pids)
unfolding others
others_other principal [] = tt
others_other principal (pid ∷ pids) = elim (Bool-cases (pid == principal)) [
  | inl e ↦ rw e (others_other principal pids)
  | inr e ↦ rw e (e, others_other principal pids)
]
