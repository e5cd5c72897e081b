-- ===== src/Control/Fsm/Versions.antt =====
-- The versions that `Apply` of internal/control/server/storage/fsm.go counts, for clients that write
-- only if nothing has changed.
use scout.Base.{
  ℕ, ◌≡◌, ◌⊎◌, ◌+◌, refl, false, not, ◌&&◌, Option, none, some, arith, inl, inr, Bool-cases, ◌==◌,
  nat_eq, if◌then◌else◌,
}
use scout.Control.Results.{
  Result, ok, err, Whenever, Whenever-bind, Whenever-guard, Whenever-true, ◌>>=◌,
  failed_precondition, is_panic,
}
use scout.Control.Fsm.{
  Fsm, UpdateStatus, Command, Payload, bootstrap, register, update_status, init_assignments,
  update_assignments, Response,
}
use scout.Control.Fsm.Assignments.{apply_init_assignments, apply_update_assignments, is_empty_list}
use scout.Control.Fsm.Members.{apply_bootstrap, apply_register, apply_update_status}
use scout.Control.Fsm.Apply.{get_cluster, status_command, apply_payload, apply_command, apply}

status_command-version :
    (f : Fsm) (x : UpdateStatus) → Whenever (status_command f x) (λ g. g.version ≡ f.version)
unfolding status_command
status_command-version f x =
    elim (Bool-cases (is_empty_list x.servers && is_empty_list x.partitions)) [
      | inl e ↦ rw (e, status_command) refl
      | inr e ↦
          rw (e, status_command)
            (Whenever-bind (λ _. Unit {0}) (λ (g : Fsm). g.version ≡ f.version) (get_cluster f) _
              (Whenever-true (get_cluster f))
              (λ c _.
                Whenever-bind (λ _. Unit {0}) (λ (g : Fsm). g.version ≡ f.version)
                  (apply_update_status c x) _ (Whenever-true (apply_update_status c x))
                  (λ next _. refl)))
    ]

apply_payload-version :
    (now : ℕ) (f : Fsm) (x : Payload)
    → Whenever (apply_payload now f x) (λ a. a.0.version ≡ f.version)
unfolding apply_payload apply_bootstrap
apply_payload-version now f (bootstrap x) = elim (Bool-cases (is_empty_list f.cluster_name)) [
  | inl e ↦ rw (e, apply_bootstrap) refl
  | inr e ↦ rw (e, apply_bootstrap) refl
]
apply_payload-version now f (register x) =
    let Q : Fsm × Response → Type 0 = λ a. a.0.version ≡ f.version in
    Whenever-bind (λ _. Unit {0}) Q (get_cluster f) _ (Whenever-true (get_cluster f))
      (λ c _.
        Whenever-bind (λ _. Unit {0}) Q (apply_register now c.servers x) _
          (Whenever-true (apply_register now c.servers x)) (λ a _. refl))
apply_payload-version now f (update_status x) =
    Whenever-bind (λ (g : Fsm). g.version ≡ f.version)
      (λ (a : Fsm × Response). a.0.version ≡ f.version) (status_command f x) _
      (status_command-version f x) (λ g e. e)
apply_payload-version now f (init_assignments x) =
    let Q : Fsm × Response → Type 0 = λ a. a.0.version ≡ f.version in
    Whenever-bind (λ _. Unit {0}) Q (get_cluster f) _ (Whenever-true (get_cluster f))
      (λ c _.
        Whenever-bind (λ _. Unit {0}) Q (apply_init_assignments f.partition_count now c x) _
          (Whenever-true (apply_init_assignments f.partition_count now c x)) (λ a _. refl))
apply_payload-version now f (update_assignments x) =
    let Q : Fsm × Response → Type 0 = λ a. a.0.version ≡ f.version in
    Whenever-bind (λ _. Unit {0}) Q (get_cluster f) _ (Whenever-true (get_cluster f))
      (λ c _.
        Whenever-bind (λ _. Unit {0}) Q (apply_update_assignments f.partition_count now c x) _
          (Whenever-true (apply_update_assignments f.partition_count now c x)) (λ a _. refl))

-- A state that the client has seen, or no expectation.
abbrev pub Matches : Fsm → Command → Type 0
Matches f cmd = (cmd.if_match ≡ 0) ⊎ (cmd.if_match ≡ f.version)

matches :
    (f : Fsm) (cmd : Command)
    → (not (cmd.if_match == 0) && not (cmd.if_match == f.version)) ≡ false
    → Matches f cmd
matches f cmd h = elim (Bool-cases (cmd.if_match == 0)) [
  | inl e ↦ inl ((nat_eq.beq_iff cmd.if_match 0).0 e)
  | inr e ↦ inr ((nat_eq.beq_iff cmd.if_match f.version).0 (ground arith))
]

apply_command-version :
    (now : ℕ) (f : Fsm) (cmd : Command)
    → Whenever (apply_command now f cmd) (λ a. (a.0.version ≡ f.version + 1) × Matches f cmd)
unfolding apply_command
apply_command-version now f cmd =
    let Q : Fsm × Response → Type 0 = λ a. (a.0.version ≡ f.version + 1) × Matches f cmd in
    let outdated = not (cmd.if_match == 0) && not (cmd.if_match == f.version) in
    let rest =
      apply_payload now f cmd.payload >>= λ a. ok (record a.0 { version = a.0.version + 1 }, a.1) in
    Whenever-guard Q outdated failed_precondition rest (λ fits.
      Whenever-bind (λ (a : Fsm × Response). a.0.version ≡ f.version) Q
        (apply_payload now f cmd.payload) _ (apply_payload-version now f cmd.payload)
        (λ a e. (omega arith, matches f cmd fits)))

abbrev pub Versioned : ℕ → Fsm → Command → Fsm → Result Response → Type 0
Versioned index f cmd g (ok r) = (g.version ≡ f.version + 1) × (g.index ≡ index) × Matches f cmd
Versioned index f cmd g (err e) = g ≡ record f { index = index }

answered :
    (index : ℕ) (f : Fsm) (cmd : Command) (m : Result (Fsm × Response))
    → Whenever m (λ a. (a.0.version ≡ f.version + 1) × Matches f cmd)
    → (g : Fsm) (answer : Result Response)
    → elim m as (λ _. Option (Fsm × Result Response)) [
      | ok (next, response) ↦ some (record next { index = index }, ok response)
      | err e ↦ if is_panic e then none else some (record f { index = index }, err e)
    ]
      ≡ some (g, answer)
    → Versioned index f cmd g answer
answered index f cmd (ok a) known g (ok r) h = (ground arith, ground arith, known.1)
answered index f cmd (ok a) known g (err e) h = absurd (ground arith)
answered index f cmd (err e) known g (ok r) h = absurd (ground arith)
answered index f cmd (err e) known g (err e') h = elim (Bool-cases (is_panic e)) [
  | inl p ↦ absurd (ground arith)
  | inr p ↦ let same : some (record f { index = index }, err e) ≡ some (g, err e') = rw p at h in cc
]

-- What one command does to the versions: an answer counts one version more, and comes only if the
-- client expects no version or the present one; a refusal changes nothing but the index.
pub apply-version :
    (index now : ℕ) (f g : Fsm) (cmd : Command) (answer : Result Response)
    → apply index now f cmd ≡ some (g, answer)
    → Versioned index f cmd g answer
unfolding apply
apply-version index now f g cmd answer h =
    let known = apply_command-version now f cmd in
    answered index f cmd (apply_command now f cmd) known g answer h
