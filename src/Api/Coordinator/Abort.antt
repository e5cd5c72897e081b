-- ===== src/Api/Coordinator/Abort.antt =====
-- The abort of the coordinator, `abort` of internal/api/server/txn/processor_2pc.go: whom it calls,
-- and when it waits for ever.
use mathlib.Core.List.{Permᴰ}
use scout.Base.{
  ℕ, ◌+◌, ◌≡◌, refl, ◌⊎◌, inl, inr, suc, ap, ◌∙◌, ◌↔◌, Bool, true, false, List, [], ◌∷◌, ◌++◌, map,
  arith, if◌then◌else◌, ltb, Bool-cases,
}
use scout.Base.Lists.{All, any, length, take, drop, All-perm, All-unperm}
use scout.Base.Maps.{Map}
use scout.Txn.{TxnId, TxnStatus, is_final}
use scout.Api.{Transaction, keys, Call, Failure, Reply, Outcome, Run, abort_request}
use scout.Api.Coordinator.{abort_messages, others, unfinished, abort}
use scout.Api.Coordinator.Channel.{
  Merges, IsQuiet, IsErrorFirst, Merges-IsQuiet, quiet-Merges, waiting,
}

-- The participant has ended the transaction, or never knew it.
abbrev pub IsEnded : Reply → Type 0
IsEnded (Reply.failed Failure.not_found) = Unit
IsEnded (Reply.failed Failure.other) = ⊥
IsEnded (Reply.answered s) = is_final s.state ≡ true

abort_messages-IsQuiet : (r : Reply) → IsQuiet (abort_messages r) ↔ IsEnded r
unfolding abort_messages
abort_messages-IsQuiet (Reply.failed Failure.not_found) = (λ _. tt, λ _. refl)
abort_messages-IsQuiet (Reply.failed Failure.other) = (λ h. ground arith, λ h. absurd h)
abort_messages-IsQuiet (Reply.answered s) = elim (Bool-cases (is_final s.state)) [
  | inl e ↦ rw e (λ _. refl, λ _. refl)
  | inr e ↦ rw e (λ h. ground arith, λ h. ground arith)
]

abort_messages-IsErrorFirst : (r : Reply) → IsErrorFirst (abort_messages r)
unfolding abort_messages
abort_messages-IsErrorFirst (Reply.failed Failure.not_found) = refl
abort_messages-IsErrorFirst (Reply.failed Failure.other) = tt
abort_messages-IsErrorFirst (Reply.answered s) = elim (Bool-cases (is_final s.state)) [
  | inl e ↦ rw e refl
  | inr e ↦ rw e tt
]

waiting-messages :
    (r : Reply) (queues : List (List Bool))
    → waiting (abort_messages r ∷ queues) ≡ suc (waiting queues)
unfolding abort_messages
waiting-messages (Reply.failed Failure.not_found) queues = refl
waiting-messages (Reply.failed Failure.other) queues = refl
waiting-messages (Reply.answered s) queues = elim (Bool-cases (is_final s.state)) [
  | inl e ↦ rw e refl
  | inr e ↦ rw e refl
]

-- A second message is sent on an error that is not `NotFound`.
two_messages :
    (r : Reply) → (ltb 1 (length (abort_messages r)) ≡ true) ↔ (r ≡ Reply.failed Failure.other)
unfolding abort_messages
two_messages (Reply.failed Failure.not_found) = (λ h. ground arith, λ h. ground arith)
two_messages (Reply.failed Failure.other) = (λ _. refl, λ _. refl)
two_messages (Reply.answered s) = elim (Bool-cases (is_final s.state)) [
  | inl e ↦ rw e (λ h. ground arith, λ h. ground arith)
  | inr e ↦ rw e (λ h. ground arith, λ h. ground arith)
]

abbrev pub IsHung : {A : Type 0} → Outcome A → Type 0
IsHung Outcome.hangs = Unit
IsHung _ = ⊥

-- The participants that an abort calls before the principal.
abbrev pub to_abort : Transaction → Map ℕ TxnStatus → List ℕ
to_abort t status = unfinished status (others t.id.principal_pid (keys t.participant_actions))

module _ (respond : Call → Reply) (order : List ℕ → List ℕ) (arrive : List (List Bool) → List Bool)
    (permutes : (pids : List ℕ) → Permᴰ (order pids) pids)
    (merges : (queues : List (List Bool)) → Merges queues (arrive queues)) where
  abbrev sends : TxnId → ℕ → List Bool
  sends id pid = abort_messages (respond (abort_request id pid))

  -- Each of them has ended the transaction when it answers.
  abbrev pub AllEnded : TxnId → List ℕ → Type 0
  AllEnded id pids = All (λ pid. IsEnded (respond (abort_request id pid))) pids

  sends-IsErrorFirst : (id : TxnId) (pids : List ℕ) → All IsErrorFirst (map (sends id) pids)
  sends-IsErrorFirst id [] = tt
  sends-IsErrorFirst id (pid ∷ pids) =
      (abort_messages-IsErrorFirst (respond (abort_request id pid)), sends-IsErrorFirst id pids)

  sends-IsQuiet :
      (id : TxnId) (pids : List ℕ) → All IsQuiet (map (sends id) pids) ↔ AllEnded id pids
  sends-IsQuiet id [] = (λ _. tt, λ _. tt)
  sends-IsQuiet id (pid ∷ pids) =
      let one = abort_messages-IsQuiet (respond (abort_request id pid)) in
      let rest = sends-IsQuiet id pids in
      (λ h. (one.0 h.0, rest.0 h.1), λ h. (one.1 h.0, rest.1 h.1))

  waiting-sends : (id : TxnId) (pids : List ℕ) → waiting (map (sends id) pids) ≡ length pids
  waiting-sends id [] = refl
  waiting-sends id (pid ∷ pids) =
      waiting-messages (respond (abort_request id pid)) (map (sends id) pids)
      ∙ ap suc (waiting-sends id pids)

  -- No error is received where all have ended, and then nothing else is left on the channel.
  calm_ended :
      (id : TxnId) (pids : List ℕ)
      → any (λ e. e) (take (length pids) (arrive (map (sends id) pids))) ≡ false
      → AllEnded id pids × (drop (length pids) (arrive (map (sends id) pids)) ≡ [])
  calm_ended id pids calm =
      let count = waiting-sends id pids in
      let (quiet, gone) =
        Merges-IsQuiet (merges (map (sends id) pids)) (sends-IsErrorFirst id pids)
          (rw count calm) in
      ((sends-IsQuiet id pids).0 quiet, rw count at gone)

  ended_calm :
      (id : TxnId) (pids : List ℕ)
      → AllEnded id pids
      → any (λ e. e) (take (length pids) (arrive (map (sends id) pids))) ≡ false
  ended_calm id pids h =
      quiet-Merges (merges (map (sends id) pids)) ((sends-IsQuiet id pids).1 h) (length pids)

  last_call :
      (calls : List Call) (b : Bool) (x y : Outcome (Unit {0}))
      → ◌≡◌ {A = Run (Unit {0})} (if b then (calls, x) else (calls, y)) (calls, if b then x else y)
  last_call calls true x y = refl
  last_call calls false x y = refl

  -- Either all others have ended and the principal is called last, or it is not called.
  pub abort-cases :
      (t : Transaction) (status : Map ℕ TxnStatus)
      → let pids = to_abort t status in
        let request = abort_request t.id in
        let principal = t.id.principal_pid in
        let result = abort respond order arrive t status in
        (AllEnded t.id pids
          × (result ≡ (
            map request (order pids) ++ request principal ∷ [],
            if ltb 1 (length (sends t.id principal)) then Outcome.hangs else Outcome.done tt,
          )))
        ⊎ ((AllEnded t.id pids → ⊥) × (result ≡ (map request (order pids), Outcome.done tt)))
  unfolding abort
  abort-cases t status =
      let pids = to_abort t status in
      elim (Bool-cases
        (any (λ e. e) (take (length (order pids)) (arrive (map (sends t.id) (order pids)))))) [
          | inl e ↦ inr (
            λ h.
                absurd
                  (ground (arith, ended_calm t.id (order pids) (All-unperm _ (permutes pids) h))),
            rw e refl,
          )
          | inr e ↦
              let (ended, gone) = calm_ended t.id (order pids) e in
              let plus : length {A = Bool} [] + length (sends t.id t.id.principal_pid)
                  ≡ length (sends t.id t.id.principal_pid) =
                omega arith in
              inl (
                All-perm _ (permutes pids) ended,
                rw (e, gone, plus)
                    (last_call _ (ltb 1 (length (sends t.id t.id.principal_pid))) _ _),
              )
        ]

  -- The abort waits for ever exactly where every participant that it calls first has ended and the
  -- principal's abort returns an error other than `NotFound`.
  pub abort-IsHung_iff :
      (t : Transaction) (status : Map ℕ TxnStatus)
      → IsHung (abort respond order arrive t status).1 ↔ (
          AllEnded t.id (to_abort t status)
          × (respond (abort_request t.id t.id.principal_pid) ≡ Reply.failed Failure.other))
  abort-IsHung_iff t status = elim (abort-cases t status) [
    | inl (ended, result) ↦ elim (Bool-cases (ltb 1 (length (sends t.id t.id.principal_pid)))) [
      | inl e ↦ rw (result, e) (λ _. (ended, (two_messages _).0 e), λ _. tt)
      | inr e ↦ rw (result, e) (λ h. absurd h, λ h. absurd (ground (arith, (two_messages _).1 h.1)))
    ]
    | inr (some_left, result) ↦ rw result (λ h. absurd h, λ h. absurd (some_left h.0))
  ]
