-- ===== src/Hlc/Tests.antt =====
-- The clock on small data. Readings are multiples of 2^16 nanoseconds.
use scout.Base.{ℕ, ◌≡◌, refl, ◌<◌, ◌+◌, ◌≤◌, ◌==◌, nat_eq, true, false, [], ◌∷◌, arith}
use scout.Hlc.{
  Hlc, done, shutdown, physical, split, timestamp_of, now_loop, now, next_logical, update_loop,
  check_update_time_offset, update,
}
use scout.Hlc.Order.{IsValid, History, start, issue, receive, Ascends, History-Ascends}

abbrev clock : ℕ → ℕ
clock n = 0x50010

abbrev hlc : Hlc
hlc = record { max_offset = 0x20000; physical = 0x50000; logical = 3 }

abbrev ticked : Hlc
ticked = record hlc { logical = 4 }

abbrev updated : Hlc
updated = record hlc { physical = 0x60000; logical = 8 }

hlc-IsValid : IsValid hlc
hlc-IsValid = record { aligned = refl; bounded = omega arith }

now_lem : now clock hlc ≡ done (ticked, 0x50004)
unfolding now now_loop physical
now_lem = refl

-- The wall clock jumped back by more than the offset.
now_shutdown : now (λ _. 0x10000) hlc ≡ shutdown
unfolding now now_loop physical
now_shutdown = refl

update_lem : update 0x50010 clock 0x60007 hlc ≡ done updated
unfolding update update_loop next_logical check_update_time_offset split physical
update_lem = refl

abbrev recovering : ℕ → ℕ
recovering n = elim (n == 2) [ true ↦ 0x40000 | false ↦ 0x60000 ]

recovering_ahead : hlc.physical < physical (recovering 1)
unfolding physical
recovering_ahead = omega arith

recovering_close : (j : ℕ) → hlc.physical ≤ physical (recovering j) + hlc.max_offset
unfolding physical
recovering_close j = ground arith

receives : update 0x50010 clock 0x60007 ticked ≡ done updated
unfolding update update_loop next_logical check_update_time_offset split physical
receives = refl

hlc-History : History hlc (0x50004 ∷ []) updated
hlc-History = issue clock now_lem (receive 0x50010 clock 0x60007 receives start)

History-Ascends_example : Ascends (timestamp_of hlc) (0x50004 ∷ [])
History-Ascends_example = History-Ascends (0x50004 ∷ []) hlc-IsValid hlc-History
