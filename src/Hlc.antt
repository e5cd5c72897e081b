-- ===== src/Hlc.antt =====
-- The hybrid logical clock of internal/hlc/hlc.go. A timestamp is a 64-bit word: 48 bits of wall
-- clock, in nanoseconds, above a counter of 16 bits. The statistics and the mutex are left out.
-- `clock n` is the reading of the wall clock when `n` attempts follow the current one. A shutdown
-- ends the process and is a result here.
pub mod Order
mod Tests
use scout.Base.{
  ℕ, zero, suc, ◌≡◌, ◌+◌, ◌-◌, ◌*◌, ◌/◌, ◌%◌, ◌^◌, max, Bool, true, ◌&&◌, if◌then◌else◌, ltb, leb,
  ◌==◌, nat_eq,
}

pub record Hlc : Type 0 where
  pub max_offset : ℕ
  pub physical : ℕ
  pub logical : ℕ

pub data Outcome {ℓ} (A : Type ℓ) : Type ℓ where
  done : A → Outcome A
  time_out_of_range shutdown : Outcome A

abbrev pub logical_max : ℕ
logical_max = 0xffff

abbrev pub max_retries : ℕ
max_retries = 3

-- `timestamp & physicalMask` and `timestamp & logicalMask`.
unfoldable pub physical : ℕ → ℕ
physical timestamp = timestamp / 0x10000 * 0x10000

unfoldable pub split : ℕ → ℕ × ℕ
split timestamp = (timestamp / 0x10000 * 0x10000, timestamp % 0x10000)

pub new : (max_offset reading : ℕ) → Hlc
new max_offset reading = record {
  max_offset = physical max_offset;
  physical = physical reading;
  logical = 0;
}

-- `h.physical | h.logical`: the two have no bit in common, since `physical` ends in 16 zero bits and
-- `logical` has at most 16 bits.
abbrev pub timestamp_of : Hlc → ℕ
timestamp_of h = h.physical + h.logical

-- The loop of `Now`, with the attempts that are left.
unfoldable pub now_loop : ℕ → (ℕ → ℕ) → Hlc → Outcome (Hlc × ℕ)
now_loop zero clock h = shutdown
now_loop (suc n) clock h =
    let now = physical (clock n) in
    let retry = now_loop n clock h in
    if ltb h.physical now
    then done (record h { physical = now; logical = 0 }, now)
    else if ltb now h.physical
    then (if ltb h.max_offset (h.physical - now) then shutdown else retry)
    else if h.logical == logical_max
    then retry
    else let next = record h { logical = h.logical + 1 } in done (next, timestamp_of next)

unfoldable pub now : (ℕ → ℕ) → Hlc → Outcome (Hlc × ℕ)
now clock h = now_loop max_retries clock h

-- The `switch` of `Update`.
unfoldable pub next_logical : Hlc → (in_physical in_logical next_physical : ℕ) → ℕ
next_logical h in_physical in_logical next_physical =
    if next_physical == h.physical && next_physical == in_physical
    then max h.logical in_logical + 1
    else if next_physical == h.physical
    then h.logical + 1
    else if next_physical == in_physical
    then in_logical + 1
    else 0

-- The loop of `Update`.
unfoldable pub update_loop : ℕ → (ℕ → ℕ) → (in_physical in_logical : ℕ) → Hlc → Outcome Hlc
update_loop zero clock in_physical in_logical h = shutdown
update_loop (suc n) clock in_physical in_logical h =
    let retry = update_loop n clock in_physical in_logical h in
    let next_physical = max (max h.physical in_physical) (physical (clock n)) in
    let logical = next_logical h in_physical in_logical next_physical in
    if ltb logical_max logical
    then retry
    else done (record h { physical = next_physical; logical = logical })

-- `reading` is the wall clock.
unfoldable pub check_update_time_offset : ℕ → Hlc → ℕ → Bool
check_update_time_offset reading h in_physical =
    let now = physical reading in
    if leb in_physical now then true else leb (in_physical - now) h.max_offset

-- The wall clock is read once, as `reading`, before the loop.
unfoldable pub update : ℕ → (ℕ → ℕ) → ℕ → Hlc → Outcome Hlc
update reading clock incoming h =
    let (in_physical, in_logical) = split incoming in
    if check_update_time_offset reading h in_physical
    then update_loop max_retries clock in_physical in_logical h
    else time_out_of_range

-- `AsTime` and `FromTime`: the seconds and nanoseconds of a `time.Time`. They agree with int64
-- arithmetic below 2^63.
unfoldable pub as_time : ℕ → ℕ × ℕ
as_time timestamp = (timestamp / 1000000000, timestamp % 1000000000)

unfoldable pub from_time : ℕ × ℕ → ℕ
from_time (sec, nsec) = (sec * 1000000000 + nsec) % 2 ^ 64
