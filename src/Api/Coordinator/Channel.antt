-- ===== src/Api/Coordinator/Channel.antt =====
-- The channel of an abort: the merges of the messages that several goroutines send, `true` for an
-- error. A goroutine that sends an error sends it first.
use scout.Base.{ℕ, zero, suc, ◌≡◌, refl, ap, Bool, true, false, List, [], ◌∷◌, ◌++◌, arith}
use scout.Base.Lists.{All, any, take, drop}

-- The message is the first one of a queue, and the queues without it.
pub data Picks {ℓ} {A : Type ℓ} : List (List A) → A → List (List A) → Type ℓ where
  here : {m : A} {q : List A} {queues : List (List A)} → Picks ((m ∷ q) ∷ queues) m (q ∷ queues)
  there :
      {m : A} {q : List A} {queues rest : List (List A)}
      → Picks queues m rest
      → Picks (q ∷ queues) m (q ∷ rest)

-- The messages of the queues in some order that keeps the order of each queue.
pub data Merges {ℓ} {A : Type ℓ} : List (List A) → List A → Type ℓ where
  drained : {queues : List (List A)} → All (λ q. q ≡ []) queues → Merges queues []
  receive :
      {m : A} {queues rest : List (List A)} {sent : List A}
      → Picks queues m rest
      → Merges rest sent
      → Merges queues (m ∷ sent)

-- After a message that is no error, a goroutine sends nothing.
abbrev pub IsErrorFirst : List Bool → Type 0
IsErrorFirst (false ∷ q) = q ≡ []
IsErrorFirst _ = Unit

abbrev pub IsQuiet : List Bool → Type 0
IsQuiet q = any (λ e. e) q ≡ false

abbrev pub waiting : List (List Bool) → ℕ
waiting [] = 0
waiting ([] ∷ queues) = waiting queues
waiting ((_ ∷ _) ∷ queues) = suc (waiting queues)

Picks-waiting :
    {m : Bool} {queues rest : List (List Bool)}
    → Picks queues m rest
    → (n : ℕ) × (waiting queues ≡ suc n)
Picks-waiting (here {queues = queues}) = (waiting queues, refl)
Picks-waiting (there {q = []} p) = Picks-waiting p
Picks-waiting (there {q = x ∷ q} {queues = queues} p) = (waiting queues, refl)

Picks-calm :
    {queues rest : List (List Bool)}
    → Picks queues false rest
    → All IsErrorFirst queues
    → (waiting queues ≡ suc (waiting rest))
      × (All IsErrorFirst rest × (All IsQuiet rest → All IsQuiet queues))
Picks-calm (here {q = []}) h = (refl, ((tt, h.1), λ k. (refl, k.1)))
Picks-calm (here {q = x ∷ q}) h = absurd (ground (arith, h.0))
Picks-calm (there {q = []} p) h =
    let (count, (first, back)) = Picks-calm p h.1 in (count, ((tt, first), λ k. (refl, back k.1)))
Picks-calm (there {q = x ∷ q} p) h =
    let (count, (first, back)) = Picks-calm p h.1 in
    (ap suc count, ((h.0, first), λ k. (k.0, back k.1)))

All-empty : (queues : List (List Bool)) → All (λ q. q ≡ []) queues → All IsQuiet queues
All-empty [] h = tt
All-empty (q ∷ queues) h = (rw (h.0) refl, All-empty queues h.1)

drop_empty : (n : ℕ) → drop {A = Bool} n [] ≡ []
unfolding drop
drop_empty zero = refl
drop_empty (suc n) = refl

-- As many messages as there are goroutines, none an error: no goroutine sent an error, and nothing
-- is left to receive.
pub Merges-IsQuiet :
    {queues : List (List Bool)} {sent : List Bool}
    → Merges queues sent
    → All IsErrorFirst queues
    → any (λ e. e) (take (waiting queues) sent) ≡ false
    → All IsQuiet queues × (drop (waiting queues) sent ≡ [])
unfolding take drop
Merges-IsQuiet {queues} (drained none_left) h calm =
    (All-empty queues none_left, drop_empty (waiting queues))
Merges-IsQuiet {queues} (receive {m = true} {sent = sent} p more) h calm =
    let (n, count) = Picks-waiting p in absurd (ground (arith, rw count at calm))
Merges-IsQuiet {queues} (receive {m = false} {rest = rest} {sent = sent} p more) h calm =
    let (count, (first, back)) = Picks-calm p h in
    let (quiet, gone) = Merges-IsQuiet more first (rw count at calm) in (back quiet, rw count gone)

-- Where no goroutine sends an error, none is received.
Picks-IsQuiet :
    {m : Bool} {queues rest : List (List Bool)}
    → Picks queues m rest
    → All IsQuiet queues
    → (m ≡ false) × All IsQuiet rest
Picks-IsQuiet (here {m = m} {q = q}) h = (ground (arith, h.0), (ground (arith, h.0), h.1))
Picks-IsQuiet (there p) h = let (none_sent, rest) = Picks-IsQuiet p h.1 in (none_sent, (h.0, rest))

pub quiet-Merges :
    {queues : List (List Bool)} {sent : List Bool}
    → Merges queues sent
    → All IsQuiet queues
    → (n : ℕ) → any (λ e. e) (take n sent) ≡ false
unfolding take
quiet-Merges (drained none_left) h zero = refl
quiet-Merges (drained none_left) h (suc n) = refl
quiet-Merges (receive p more) h zero = refl
quiet-Merges (receive {m = m} {sent = sent} p more) h (suc n) =
    let (none_sent, rest) = Picks-IsQuiet p h in rw none_sent (quiet-Merges more rest n)

-- The goroutines one after the other.
unfoldable pub concat {ℓ} : {A : Type ℓ} → List (List A) → List A
concat [] = []
concat (q ∷ queues) = q ++ concat queues

Merges-append {ℓ} :
    {A : Type ℓ} (q : List A) {queues : List (List A)} {sent : List A}
    → Merges queues sent
    → Merges (q ∷ queues) (q ++ sent)
Merges-append [] (drained none_left) = drained (refl, none_left)
Merges-append [] (receive p more) = receive (there p) (Merges-append [] more)
Merges-append (m ∷ q) h = receive here (Merges-append q h)

pub concat-Merges {ℓ} : {A : Type ℓ} (queues : List (List A)) → Merges queues (concat queues)
unfolding concat
concat-Merges [] = drained tt
concat-Merges (q ∷ queues) = Merges-append q (concat-Merges queues)
