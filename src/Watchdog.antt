-- ===== src/Watchdog.antt =====
-- The two-phase-commit watchdog of a partition: `mainLoop`, `UpdateStatus` and `loadRunning` of
-- internal/data/server/txn/watchdog_2pc.go. One turn of the `select` is a step on an event; the
-- queues of internal/utils/queue.go are lists, the front first. The goroutines that abort or commit
-- are left out: a step returns the transactions for which it starts one.
pub mod Known
pub mod Timedout
mod Tests
use scout.Base.{
  ℕ, ◌+◌, ◌-◌, ◌^◌, Bool, true, false, not, ◌&&◌, Option, none, some, List, [], ◌∷◌, ◌++◌,
  if◌then◌else◌, ltb, leb, ◌==◌, nat_eq, sub_u64,
}
use scout.Base.Lists.{length}
use scout.Base.Maps.{Map, lookup, insert, delete}
use scout.Txn.{TxnId, TxnId_eq, State, TxnStatus, Txn, Decision}
use scout.Manager.Snapshots.{Running}

pub record Watchdog : Type 0 where
  pub all : Map TxnId State
  pub prepared : List Running
  pub decided : List Running
  pub in_flight : ℕ

-- What the `select` receives: a status, a tick of each phase with the timestamp below which a
-- transaction has timed out, and the end of a goroutine.
pub data Event : Type 0 where
  requested : Running → Event
  phase1 phase2 : ℕ → Event
  resolved : Event

abbrev pub is_prepared : State → Bool
is_prepared State.prepared = true
is_prepared _ = false

abbrev pub is_decided : State → Bool
is_decided State.decided = true
is_decided _ = false

-- `all[id] != expectedState`, where `all[id]` of an unknown identifier is `Pending`.
unfoldable pub expects : (State → Bool) → Map TxnId State → TxnId → Bool
expects expected all id = elim (lookup id all) [
  | none ↦ expected State.pending
  | some s ↦ expected s
]

-- The loop of `checkTimedout`: the queue and `all` after it, and the transactions to resolve.
unfoldable pub check_timedout :
    ℕ
    → (State → Bool)
    → Map TxnId State
    → List Running
    → List Running × Map TxnId State × List Running
check_timedout oldest expected all [] = ([], all, [])
check_timedout oldest expected all (txn ∷ queue) =
    let due = expects expected all txn.id in
    let (rest, left, started) =
      check_timedout oldest expected (if due then delete txn.id all else all) queue in
    if ltb oldest txn.timestamp
    then (txn ∷ queue, all, [])
    else (rest, left, if due then txn ∷ started else started)

-- The `switch` on a status whose identifier is in `all`.
unfoldable pub follow : Watchdog → Running → State → Watchdog
follow w status State.prepared = record w {
  all = insert status.id State.prepared w.all;
  prepared = w.prepared ++ status ∷ [];
}
follow w status State.decided = record w {
  all = insert status.id State.decided w.all;
  decided = w.decided ++ status ∷ [];
}
follow w status State.committed = record w { all = delete status.id w.all }
follow w status State.aborted = record w { all = delete status.id w.all }
follow w status _ = w

unfoldable pub tick1 : ℕ → Watchdog → Watchdog × List Running
tick1 oldest w =
    let (rest, left, started) = check_timedout oldest is_prepared w.all w.prepared in
    (record w { all = left; prepared = rest; in_flight = w.in_flight + length started }, started)

unfoldable pub tick2 : ℕ → Watchdog → Watchdog × List Running
tick2 oldest w =
    let (rest, left, started) = check_timedout oldest is_decided w.all w.decided in
    (record w { all = left; decided = rest; in_flight = w.in_flight + length started }, started)

-- One turn of `mainLoop`, with the transactions that it starts to abort (on a tick of the first
-- phase) or to commit (of the second).
unfoldable pub step : Watchdog → Event → Watchdog × List Running
step w (requested status) = elim (lookup status.id w.all) [
  | none ↦ (w, [])
  | some _ ↦ (follow w status status.state, [])
]
step w (phase1 oldest) = tick1 oldest w
step w (phase2 oldest) = tick2 oldest w
step w resolved = (record w { in_flight = w.in_flight - 1 }, [])

unfoldable pub run : Watchdog → List Event → Watchdog × List Running
run w [] = (w, [])
run w (e ∷ rest) =
    let (w1, started) = step w e in let (w2, later) = run w1 rest in (w2, started ++ later)

-- `UpdateStatus` of a partition: the status that it sends to `mainLoop`, if any.
unfoldable pub update_status : ℕ → Option TxnStatus → Option Txn → Option Decision → Option Running
update_status pid none prepared decision = none
update_status pid (some status) prepared decision =
    if not (status.id.principal_pid == pid)
    then none
    else some (record {
      id = status.id;
      timestamp = status.timestamp;
      state = status.state;
      participant_pids = elim prepared [ none ↦ [] | some txn ↦ txn.participant_pids ];
      decision = decision;
    })

-- `slices.SortFunc` by `int(a.Timestamp - b.Timestamp)`; it promises no order of equal timestamps.
unfoldable pub insert_by_timestamp : Running → List Running → List Running
insert_by_timestamp a [] = a ∷ []
insert_by_timestamp a (b ∷ rest) =
    let later = insert_by_timestamp a rest in
    if leb (2 ^ 63) (sub_u64 b.timestamp a.timestamp) then b ∷ later else a ∷ b ∷ rest

unfoldable pub sort_by_timestamp : List Running → List Running
sort_by_timestamp [] = []
sort_by_timestamp (a ∷ rest) = insert_by_timestamp a (sort_by_timestamp rest)

-- One turn of the loop of `loadRunning`.
unfoldable pub load_one : Watchdog → Running → State → Watchdog
load_one w p State.prepared = record w {
  all = insert p.id p.state w.all;
  prepared = w.prepared ++ p ∷ [];
}
load_one w p State.decided = record w {
  all = insert p.id p.state w.all;
  decided = w.decided ++ p ∷ [];
}
load_one w p State.timedout = record w {
  all = insert p.id p.state w.all;
  prepared = w.prepared ++ p ∷ [];
}
load_one w p _ = w

unfoldable pub load_all : Watchdog → List Running → Watchdog
load_all w [] = w
load_all w (p ∷ rest) = load_all (load_one w p p.state) rest

-- `loadRunning`, given what `getRunning` returns.
unfoldable pub load_running : List Running → Watchdog
load_running trunning =
    let w = load_all (record { all = []; prepared = []; decided = []; in_flight = 0 }) trunning in
    record w { prepared = sort_by_timestamp w.prepared; decided = sort_by_timestamp w.decided }
