-- ===== src/Control/Results.antt =====
-- Results of the commands of the control plane. `panic` is no error value: it stands for the read or
-- the write through a nil pointer.
use scout.Base.{◌≡◌, refl, Bool, true, false}

pub data Fault : Type 0 where
  invalid_request failed_precondition token_expired : Fault
  is_empty has_invalid_fields has_duplicate_entries has_missing_partitions : Fault
  has_replicas_on_the_same_server has_invalid_state_transition : Fault
  cannot_remove_last_serving_replica cannot_remove_non_leaving_replica : Fault
  panic : Fault

pub data Result {ℓ} (A : Type ℓ) : Type ℓ where
  ok : A → Result A
  err : Fault → Result A

infixl 5 ◌>>=◌
abbrev pub ◌>>=◌ {ℓ κ} : {A : Type ℓ} {B : Type κ} → Result A → (A → Result B) → Result B
err fault >>= next = err fault
ok found >>= next = next found

-- `if b { return e }`.
abbrev pub refuse_if : Bool → Fault → Result (Unit {0})
refuse_if true e = err e
refuse_if false e = ok tt

infixl 5 ◌>>◌
abbrev pub ◌>>◌ {ℓ} : {A : Type ℓ} → Result (Unit {0}) → Result A → Result A
check >> next = check >>= λ _. next

abbrev pub is_panic : Fault → Bool
is_panic panic = true
is_panic _ = false

-- The result is not a panic, and what succeeds satisfies `P`.
abbrev pub Ensures {ℓ} : {A : Type ℓ} → Result A → (A → Type 0) → Type 0
Ensures (err e) P = is_panic e ≡ false
Ensures (ok a) P = P a

pub Ensures-bind {ℓ κ} :
    {A : Type ℓ} {B : Type κ} (P : A → Type 0) (Q : B → Type 0) (m : Result A) (f : A → Result B)
    → Ensures m P
    → ((a : A) → P a → Ensures (f a) Q)
    → Ensures (m >>= f) Q
Ensures-bind P Q (ok a) f h k = k a h
Ensures-bind P Q (err e) f h k = h

pub Ensures-mono {ℓ} :
    {A : Type ℓ} (P Q : A → Type 0) (m : Result A)
    → Ensures m P
    → ((a : A) → P a → Q a)
    → Ensures m Q
Ensures-mono P Q (ok a) h k = k a h
Ensures-mono P Q (err e) h k = h

pub Ensures-guard {ℓ} :
    {B : Type ℓ} (Q : B → Type 0) (b : Bool) (e : Fault) (m : Result B)
    → is_panic e ≡ false
    → (b ≡ false → Ensures m Q)
    → Ensures (refuse_if b e >> m) Q
Ensures-guard Q true e m proper h = proper
Ensures-guard Q false e m proper h = h refl

pub Ensures-refuse_if :
    (P : Unit {0} → Type 0) (b : Bool) (e : Fault)
    → is_panic e ≡ false
    → (b ≡ false → P tt)
    → Ensures (refuse_if b e) P
Ensures-refuse_if P true e proper h = proper
Ensures-refuse_if P false e proper h = h refl

-- What succeeds satisfies `P`.
abbrev pub Whenever {ℓ} : {A : Type ℓ} → Result A → (A → Type 0) → Type 0
Whenever (ok a) P = P a
Whenever (err e) P = Unit {0}

pub Whenever-bind {ℓ κ} :
    {A : Type ℓ} {B : Type κ} (P : A → Type 0) (Q : B → Type 0) (m : Result A) (f : A → Result B)
    → Whenever m P
    → ((a : A) → P a → Whenever (f a) Q)
    → Whenever (m >>= f) Q
Whenever-bind P Q (ok a) f h k = k a h
Whenever-bind P Q (err e) f h k = tt

pub Whenever-guard {ℓ} :
    {B : Type ℓ} (Q : B → Type 0) (b : Bool) (e : Fault) (m : Result B)
    → (b ≡ false → Whenever m Q)
    → Whenever (refuse_if b e >> m) Q
Whenever-guard Q true e m h = tt
Whenever-guard Q false e m h = h refl

pub Whenever-self : {A : Type 0} (m : Result A) → Whenever m (λ a. m ≡ ok a)
Whenever-self (ok a) = refl
Whenever-self (err e) = tt

pub Whenever-true {ℓ} : {A : Type ℓ} (m : Result A) → Whenever m (λ _. Unit {0})
Whenever-true (ok a) = tt
Whenever-true (err e) = tt

pub Whenever-mono {ℓ} :
    {A : Type ℓ} (P Q : A → Type 0) (m : Result A)
    → Whenever m P
    → ((a : A) → P a → Q a)
    → Whenever m Q
Whenever-mono P Q (ok a) h k = k a h
Whenever-mono P Q (err e) h k = tt

pub Whenever-both {ℓ} :
    {A : Type ℓ} (P Q : A → Type 0) (m : Result A)
    → Whenever m P
    → Whenever m Q
    → Whenever m (λ a. P a × Q a)
Whenever-both P Q (ok a) p q = (p, q)
Whenever-both P Q (err e) p q = tt

pub Whenever-refuse_if :
    (P : Unit {0} → Type 0) (b : Bool) (e : Fault) → (b ≡ false → P tt) → Whenever (refuse_if b e) P
Whenever-refuse_if P true e h = tt
Whenever-refuse_if P false e h = h refl
