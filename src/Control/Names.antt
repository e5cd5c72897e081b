-- ===== src/Control/Names.antt =====
-- The names that `fmt.Sprintf` makes of numbers, as bytes, and that they tell the numbers apart.
use scout.Base.{
  ℕ, zero, suc, ◌≡◌, ◌+◌, ◌*◌, ◌/◌, ◌%◌, ◌<◌, ◌∙◌, sym, ap, refl, [], ◌∷◌, ◌++◌, arith, ltb,
  if◌then◌else◌, Bool-cases, inl, inr,
}
use scout.Base.Bytes.{Bytes}
use scout.Control.{ServerType}

-- `%d`, with fuel for the digits that are left.
unfoldable pub digits : ℕ → ℕ → Bytes
digits zero n = []
digits (suc fuel) n =
    let more = digits fuel (n / 10) in
    if ltb n 10 then (48 + n) ∷ [] else more ++ (48 + n % 10) ∷ []

-- A number has at most as many digits as it is great, and at least one.
abbrev pub decimal : ℕ → Bytes
decimal n = digits (suc n) n

abbrev value : ℕ → Bytes → ℕ
value acc [] = acc
value acc (d ∷ ds) = value (acc * 10 + d % 48) ds

value-append : (acc : ℕ) (xs ys : Bytes) → value acc (xs ++ ys) ≡ value (value acc xs) ys
value-append acc [] ys = refl
value-append acc (x ∷ xs) ys = value-append (acc * 10 + x % 48) xs ys

value-digits : (fuel n : ℕ) → n < fuel → value 0 (digits fuel n) ≡ n
unfolding digits
value-digits zero n h = absurd (omega arith)
value-digits (suc fuel) n h = elim (Bool-cases (ltb n 10)) [
  | inl small ↦ rw small (ground arith)
  | inr large ↦
      let rest : value 0 (digits fuel (n / 10)) ≡ n / 10 =
        value-digits fuel (n / 10) (ground arith) in
      rw large
        (value-append 0 (digits fuel (n / 10)) ((48 + n % 10) ∷ []) ∙ (rw rest (omega arith)))
]

decimal-injective : (n m : ℕ) → decimal n ≡ decimal m → n ≡ m
decimal-injective n m h =
    sym (value-digits (suc n) n (omega arith))
    ∙ (ap (value 0) h ∙ value-digits (suc m) m (omega arith))

append-injective : (xs : Bytes) {ys zs : Bytes} → xs ++ ys ≡ xs ++ zs → ys ≡ zs
append-injective [] h = h
append-injective (x ∷ xs) h = append-injective xs (cc)

-- `p%d_r%d`.
unfoldable pub replica_name : ℕ → ℕ → Bytes
replica_name pid n = (112 ∷ decimal pid ++ (95 ∷ 114 ∷ [])) ++ decimal n

-- `serverNamePrefix` and `%s%d`.
abbrev pub server_name_prefix : ServerType → Bytes
server_name_prefix ServerType.unknown = []
server_name_prefix ServerType.control_server = 99 ∷ 111 ∷ 110 ∷ 116 ∷ 114 ∷ 111 ∷ 108 ∷ 95 ∷ []
server_name_prefix ServerType.data_server = 100 ∷ 97 ∷ 116 ∷ 97 ∷ 95 ∷ []
server_name_prefix ServerType.api_server = 97 ∷ 112 ∷ 105 ∷ 95 ∷ []

unfoldable pub server_name : ServerType → ℕ → Bytes
server_name type n = server_name_prefix type ++ decimal n

pub replica_name-injective : (pid n m : ℕ) → replica_name pid n ≡ replica_name pid m → n ≡ m
unfolding replica_name
replica_name-injective pid n m h =
    decimal-injective n m (append-injective (112 ∷ decimal pid ++ (95 ∷ 114 ∷ [])) h)
