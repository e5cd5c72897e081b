-- ===== src/Watchdog/Tests.antt =====
-- The watchdog after a restart, on small data.
use scout.Base.{ℕ, ◌≡◌, ◌≢◌, refl, nat_eq, none, some, List, [], ◌∷◌}
use scout.Base.Maps.{lookup, insert, delete}
use scout.Txn.{TxnId, TxnId_eq, State}
use scout.Manager.Snapshots.{Running}
use scout.Watchdog.{
  Watchdog, Event, requested, phase1, expects, check_timedout, follow, tick1, step, run,
  insert_by_timestamp, sort_by_timestamp, load_one, load_all, load_running,
}
use scout.Watchdog.Known.{IsPass, run-IsPass}
use scout.Watchdog.Timedout.{Waits, run-Waits}

abbrev id_of : ℕ → TxnId
id_of n = record { principal_pid = 1; server_id = n; timestamp = 10 }

abbrev running : ℕ → ℕ → State → Running
running n timestamp state = record {
  id = id_of n;
  timestamp = timestamp;
  state = state;
  participant_pids = [];
  decision = none;
}

abbrev two : Watchdog
two = record {
  all = (id_of 1, State.prepared) ∷ (id_of 2, State.timedout) ∷ [];
  prepared = running 1 20 State.prepared ∷ running 2 30 State.timedout ∷ [];
  decided = [];
  in_flight = 0;
}

loads : load_running (running 2 30 State.timedout ∷ running 1 20 State.prepared ∷ []) ≡ two
unfolding load_running load_all load_one insert_by_timestamp sort_by_timestamp insert delete
loads = refl

-- The third transaction is prepared after the start, and is not resolved.
abbrev events : List Event
events = requested (running 3 15 State.prepared) ∷ phase1 100 ∷ []

starts : (run two events).1 ≡ running 1 20 State.prepared ∷ []
unfolding run step tick1 check_timedout expects follow lookup insert delete
starts = refl

run-IsPass_example : IsPass two.all (run two events).0.all (run two events).1
run-IsPass_example = run-IsPass two events

second_timedout : lookup (id_of 2) two.all ≡ some State.timedout
unfolding lookup
second_timedout = refl

third_differs : id_of 3 ≢ id_of 2
third_differs same = cc

run-Waits_example : Waits (id_of 2) (run two events).0.all (run two events).1
run-Waits_example = run-Waits (id_of 2) two events (third_differs, (tt, tt)) second_timedout
