-- ===== src/Hlc/Order.antt =====
-- Timestamps of the clock only grow, and stay 64-bit words of two parts.
use scout.Base.{
  ℕ, zero, suc, ◌≡◌, ◌≢◌, ◌↔◌, ◌<◌, ◌≤◌, ◌+◌, ◌%◌, ◌^◌, List, [], ◌∷◌, ltb, ◌==◌, nat_eq, arith,
  refl, inl, inr, Bool-cases, subst, ◌||◌,
}
use scout.Hlc.{
  Hlc, done, time_out_of_range, logical_max, max_retries, physical, split, timestamp_of, now_loop,
  now, next_logical, update_loop, check_update_time_offset, update, as_time, from_time,
}

-- The physical part ends in 16 zero bits and the logical part has at most 16 bits.
pub record IsValid (h : Hlc) : Type 0 where
  pub aligned : h.physical % 0x10000 ≡ 0
  pub bounded : h.logical ≤ logical_max

-- What a timestamp that `Now` returns is, for the states before and after.
pub record Ticks (h next : Hlc) (timestamp : ℕ) : Type 0 where
  pub valid : IsValid next
  pub later : timestamp_of h < timestamp
  pub parts : split timestamp ≡ (next.physical, next.logical)
  pub current : timestamp_of next ≡ timestamp

now_loop-Ticks :
    (n : ℕ) (clock : ℕ → ℕ) (h next : Hlc) (timestamp : ℕ)
    → IsValid h
    → now_loop n clock h ≡ done (next, timestamp)
    → Ticks h next timestamp
unfolding now_loop physical split
now_loop-Ticks zero clock h next timestamp v e = cc
now_loop-Ticks (suc n) clock h next timestamp v e = record {
  valid = record {
    aligned = ground (arith, now_loop-Ticks n clock h next timestamp v, v.aligned);
    bounded = ground (arith, now_loop-Ticks n clock h next timestamp v, v.bounded);
  };
  later = ground (arith, now_loop-Ticks n clock h next timestamp v);
  parts = ground (arith, now_loop-Ticks n clock h next timestamp v, v.aligned, v.bounded);
  current = ground (arith, now_loop-Ticks n clock h next timestamp v);
}

-- From a valid state, a timestamp that `Now` returns is greater than the state before it, it is the
-- state after it, that state is valid, and its bits are those of the two parts.
pub now-Ticks :
    (clock : ℕ → ℕ) (h next : Hlc) (timestamp : ℕ)
    → IsValid h
    → now clock h ≡ done (next, timestamp)
    → Ticks h next timestamp
unfolding now
now-Ticks clock h next timestamp v e = now_loop-Ticks max_retries clock h next timestamp v e

-- What `Update` leaves, for the state before it and the timestamp that came in.
pub record Follows (h next : Hlc) (incoming : ℕ) : Type 0 where
  pub valid : IsValid next
  pub own : timestamp_of h < timestamp_of next
  pub theirs : incoming < timestamp_of next

update_loop-Follows :
    (n : ℕ) (clock : ℕ → ℕ) (h next : Hlc) (incoming : ℕ)
    → IsValid h
    → update_loop n clock (split incoming).0 (split incoming).1 h ≡ done next
    → Follows h next incoming
unfolding update_loop next_logical physical split
update_loop-Follows zero clock h next incoming v e = cc
update_loop-Follows (suc n) clock h next incoming v e = record {
  valid = record {
    aligned = ground (arith, update_loop-Follows n clock h next incoming v, v.aligned);
    bounded = ground (arith, update_loop-Follows n clock h next incoming v, v.bounded);
  };
  own = ground (arith, update_loop-Follows n clock h next incoming v, v.bounded);
  theirs = ground (arith, update_loop-Follows n clock h next incoming v, v.bounded);
}

-- From a valid state, a successful `Update` leaves a valid state that is greater than the state
-- before it and than the timestamp that came in.
pub update-Follows :
    (reading : ℕ) (clock : ℕ → ℕ) (h next : Hlc) (incoming : ℕ)
    → IsValid h
    → update reading clock incoming h ≡ done next
    → Follows h next incoming
unfolding update
update-Follows reading clock h next incoming v e =
    update_loop-Follows max_retries clock h next incoming v (ground arith)

update_loop-in_range :
    (n : ℕ) (clock : ℕ → ℕ) (p l : ℕ) (h : Hlc) → update_loop n clock p l h ≢ time_out_of_range
unfolding update_loop
update_loop-in_range zero clock p l h e = cc
update_loop-in_range (suc n) clock p l h e = ground (arith, update_loop-in_range n clock p l h)

-- `Update` refuses a timestamp exactly when its physical part is ahead of the wall clock's by more
-- than the allowed offset.
pub update-out_of_range :
    (reading : ℕ) (clock : ℕ → ℕ) (h : Hlc) (incoming : ℕ)
    → (update reading clock incoming h ≡ time_out_of_range)
      ↔ (physical reading + h.max_offset < physical incoming)
unfolding update check_update_time_offset split physical
update-out_of_range reading clock h incoming = (
  λ e.
      ground
        (arith, update_loop-in_range max_retries clock (split incoming).0 (split incoming).1 h),
  λ far. ground arith,
)

now_loop-returns :
    (n i : ℕ) (clock : ℕ → ℕ) (h : Hlc)
    → i < n
    → h.physical < physical (clock i)
    → ((j : ℕ) → h.physical ≤ physical (clock j) + h.max_offset)
    → (r : Hlc × ℕ) × (now_loop n clock h ≡ done r)
unfolding now_loop
now_loop-returns zero i clock h low ahead close = absurd (omega arith)
now_loop-returns (suc n) i clock h low ahead close =
    let reading = physical (clock n) in
    elim (Bool-cases (ltb h.physical reading)) [
      | inl past ↦ ((record h { physical = reading; logical = 0 }, reading), rw past refl)
      | inr here ↦ elim (Bool-cases (ltb reading h.physical || h.logical == logical_max)) [
        | inr free ↦
            let next = record h { logical = h.logical + 1 } in
            ((next, timestamp_of next), ground arith)
        | inl again ↦
            let other : i ≢ n = λ same.
              let at : h.physical < reading =
                subst (λ x. h.physical < physical (clock x)) same ahead in
              ground arith in
            let (r, e) = now_loop-returns n i clock h (omega arith) ahead close in
            let near : h.physical ≤ reading + h.max_offset = close n in (r, ground arith)
      ]
    ]

-- `Now` returns, if one of its three readings of the wall clock is ahead of the state and none is
-- behind it by more than the allowed offset.
pub now-returns :
    (i : ℕ) (clock : ℕ → ℕ) (h : Hlc)
    → i < max_retries
    → h.physical < physical (clock i)
    → ((j : ℕ) → h.physical ≤ physical (clock j) + h.max_offset)
    → (r : Hlc × ℕ) × (now clock h ≡ done r)
unfolding now
now-returns i clock h low ahead close = now_loop-returns max_retries i clock h low ahead close

-- A history of a clock: the timestamps that it issues between those that it receives.
pub data History : Hlc → List ℕ → Hlc → Type 0 where
  start : {h : Hlc} → History h [] h
  issue :
      {a b c : Hlc} {timestamp : ℕ} {stamps : List ℕ} (clock : ℕ → ℕ)
      → now clock a ≡ done (b, timestamp)
      → History b stamps c
      → History a (timestamp ∷ stamps) c
  receive :
      {a b c : Hlc} {stamps : List ℕ} (reading : ℕ) (clock : ℕ → ℕ) (incoming : ℕ)
      → update reading clock incoming a ≡ done b
      → History b stamps c
      → History a stamps c

abbrev pub Ascends : ℕ → List ℕ → Type 0
Ascends low [] = Unit
Ascends low (timestamp ∷ stamps) = (low < timestamp) × Ascends timestamp stamps

Ascends-from :
    (low high : ℕ) (stamps : List ℕ) → low ≤ high → Ascends high stamps → Ascends low stamps
Ascends-from low high [] h a = tt
Ascends-from low high (timestamp ∷ stamps) h (first, rest) = (omega arith, rest)

-- From a valid state, the timestamps that a clock issues are strictly ascending, whatever the wall
-- clock shows and whatever timestamps come in between.
pub History-Ascends :
    {a c : Hlc} (stamps : List ℕ) → IsValid a → History a stamps c → Ascends (timestamp_of a) stamps
History-Ascends [] v start = tt
History-Ascends {a} (timestamp ∷ stamps) v (issue {b = b} clock e rest) =
    let t = now-Ticks clock a b timestamp v e in
    (t.later, subst (λ x. Ascends x stamps) t.current (History-Ascends stamps t.valid rest))
History-Ascends {a} stamps v (receive {b = b} reading clock incoming e rest) =
    let f = update-Follows reading clock a b incoming v e in
    let own : timestamp_of a < timestamp_of b = f.own in
    Ascends-from (timestamp_of a) (timestamp_of b) stamps (omega arith)
      (History-Ascends stamps f.valid rest)

-- A timestamp below 2^64 is recovered from its time.
pub from_time-as_time :
    (timestamp : ℕ) → timestamp < 2 ^ 64 → from_time (as_time timestamp) ≡ timestamp
unfolding from_time as_time
from_time-as_time timestamp h = ground arith
