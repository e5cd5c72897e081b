-- ===== src/Reader.antt =====
-- The reader of a partition: internal/data/server/txn/reader.go. The store behind `mvcc.DB` and the
-- decoding of a value are a record `Store`; the stream of a range read is that of Mvcc/Emulated,
-- where `fault` is an error of the iteration. `update` is `writer.UpdateTimestamp`: the state of the
-- manager after it, since other batches may be applied in between, and its error.
pub mod Ranges
pub mod Stable
mod Tests
use scout.Base.{
  ℕ, suc, min, Bool, true, false, Option, none, some, List, [], ◌∷◌, ◌++◌, if◌then◌else◌, leb, ltb,
  ◌==◌, nat_eq,
}
use scout.Base.Lists.{length}
use scout.Base.Maps.{Map, lookup, insert, delete}
use scout.Base.Bytes.{Bytes}
use scout.Mvcc.{Address, Record}
use scout.Mvcc.Emulated.{Stream, nil, fault, yields}
use scout.Txn.{
  TxnId, TxnId_eq, Txn, Action, Payload, ReadRange, Code, ActionStatus, TxnStatus, State,
}
use scout.Manager.{Manager, new_status}
use scout.Manager.Locks.{get_safe_timestamp}
use scout.Manager.Snapshots.{get_prepared_txn}

pub record Store (S : Type 0) : Type 0 where
  pub get : S → ℕ → ℕ → List Address → Option (List (Option Record))
  pub get_range : S → ℕ → ℕ → Address → Address → Option Stream
  pub decode_value : Bytes → Option Bytes

pub record Config : Type 0 where
  pub max_iterator_results : ℕ
  pub skip_corrupted_data : Bool

-- `store` is an error of the store, and `panic` an index out of range, a nil dereference or a
-- write into a nil map.
pub data ReadError : Type 0 where
  not_found time_out_of_range store panic : ReadError
  update_failed : ReadError

pub data Read {ℓ} (A : Type ℓ) : Type ℓ where
  ok : A → Read A
  err : ReadError → Read A

infixl 5 ◌>>=◌
abbrev ◌>>=◌ {ℓ κ} : {A : Type ℓ} {B : Type κ} → Read A → (A → Read B) → Read B
err e >>= next = err e
ok found >>= next = next found

abbrev pub new_action_status : ℕ → Code → List Bytes → ActionStatus
new_action_status id code results = record { id = id; code = code; results = results }

-- `status.ActionStatus[id] = s`, where `none` is the nil map: the write into it panics.
unfoldable pub assign :
    ActionStatus → Option (Map ℕ ActionStatus) → Read (Option (Map ℕ ActionStatus))
assign s none = err panic
assign s (some m) = ok (some (insert s.id s m))

abbrev pub entries : Option (Map ℕ ActionStatus) → Map ℕ ActionStatus
entries none = []
entries (some m) = m

-- The map of a status of the manager: `newStatus` leaves it nil, `newFailedStatus` makes one entry,
-- and a snapshot restores an empty map as nil.
abbrev pub known_statuses : TxnStatus → Option (Map ℕ ActionStatus)
known_statuses status = elim status.action_status [ [] ↦ none | s ∷ rest ↦ some (s ∷ rest) ]

-- `getPointReadAddrs`.
unfoldable pub get_point_read_addrs : List Action → List (ℕ × Address)
get_point_read_addrs [] = []
get_point_read_addrs (a ∷ actions) =
    let rest = get_point_read_addrs actions in
    elim a.payload [
      | Payload.read x ↦ (a.id, record { keyspace = x.keyspace; key = x.key }) ∷ rest
      | _ ↦ rest
    ]

abbrev pub addresses : List (ℕ × Address) → List Address
addresses [] = []
addresses ((_, a) ∷ rest) = a ∷ addresses rest

module _ {S : Type 0} (db : Store S) (config : Config) where
  -- The loop over the point reads; a list of records that is too short is an index out of range.
  unfoldable pub fetch_points :
      List (ℕ × Address)
      → List (Option Record)
      → Option (Map ℕ ActionStatus)
      → Read (Option (Map ℕ ActionStatus))
  fetch_points [] records m = ok m
  fetch_points (_ ∷ _) [] m = err panic
  fetch_points ((id, _) ∷ ids) (none ∷ records) m =
      assign (new_action_status id Code.key_not_found []) m >>= λ next.
      fetch_points ids records next
  fetch_points ((id, _) ∷ ids) (some r ∷ records) m =
      let status : ActionStatus = elim (db.decode_value r.value) [
        | none ↦ new_action_status id Code.corrupted_data []
        | some value ↦ new_action_status id Code.success (value ∷ [])
      ] in
      assign status m >>= λ next. fetch_points ids records next

  -- The loop of `readRange`, with the results so far.
  unfoldable pub read_stream : ℕ → List Bytes → Stream → Read (Code × List Bytes)
  read_stream max_results results nil = ok (Code.success, results)
  read_stream max_results results fault = err store
  read_stream max_results results (yields r stream) =
      let skip = read_stream max_results results stream in
      elim (db.decode_value r.value) [
        | none ↦ if config.skip_corrupted_data then skip else ok (Code.corrupted_data, [])
        | some value ↦
            let next = results ++ value ∷ [] in
            let more = read_stream max_results next stream in
            if length next == max_results then ok (Code.success, next) else more
      ]

  unfoldable pub read_range : Manager S → ℕ → ReadRange → Read (Code × List Bytes)
  read_range m timestamp rr =
      let start : Address = record { keyspace = rr.keyspace; key = rr.start_key } in
      let end : Address = record { keyspace = rr.keyspace; key = rr.end_key } in
      elim (db.get_range m.db m.pid timestamp start end) [
        | none ↦ err store
        | some stream ↦ read_stream (min rr.max_results config.max_iterator_results) [] stream
      ]

  -- The loop over the range reads.
  unfoldable pub fetch_ranges :
      Manager S → ℕ → List Action → Option (Map ℕ ActionStatus) → Read (Option (Map ℕ ActionStatus))
  fetch_ranges m timestamp [] statuses = ok statuses
  fetch_ranges m timestamp (a ∷ actions) statuses = elim a.payload [
    | Payload.read_range rr ↦ read_range m timestamp rr >>= λ found.
        assign (new_action_status a.id found.0 found.1) statuses >>= λ next.
        fetch_ranges m timestamp actions next
    | _ ↦ fetch_ranges m timestamp actions statuses
  ]

  -- `statuses` is the map `status.ActionStatus`. The source writes into the status it is given; the
  -- status with what is written is the result here.
  unfoldable pub fetch_results :
      Manager S → Txn → TxnStatus → Option (Map ℕ ActionStatus) → Read TxnStatus
  fetch_results m txn status statuses =
      let points = get_point_read_addrs txn.actions in
      elim (db.get m.db m.pid status.timestamp (addresses points)) [
        | none ↦ err store
        | some records ↦ fetch_points points records statuses >>= λ found.
            fetch_ranges m status.timestamp txn.actions found >>= λ all_found.
            ok (record status { action_status = entries all_found })
      ]

  -- The second check of `checkSafeTimestamp`, after the update.
  unfoldable pub check_again : Manager S → Txn → ℕ → Read (Manager S)
  check_again m txn timestamp = elim (get_safe_timestamp m txn) [
    | none ↦ err panic
    | some (safe, _) ↦ if leb timestamp safe then ok m else err time_out_of_range
  ]

  -- `checkSafeTimestamp`: the state of the manager at the check that succeeds. The reader of a
  -- follower has no writer.
  unfoldable pub check_safe_timestamp :
      Option (ℕ → Manager S × Bool) → Manager S → Txn → ℕ → Read (Manager S)
  check_safe_timestamp writer m txn timestamp = elim (get_safe_timestamp m txn) [
    | none ↦ err panic
    | some (safe, conflicting) ↦
        if leb timestamp safe
        then ok m
        else if conflicting
        then err time_out_of_range
        else elim writer [
          | none ↦ err time_out_of_range
          | some update ↦
              let (next, failed) = update timestamp in
              if failed then err update_failed else check_again next txn timestamp
        ]
  ]

  -- `AutocommitSnapshotRead`.
  unfoldable pub snapshot_read :
      Option (ℕ → Manager S × Bool) → Manager S → Txn → ℕ → Read TxnStatus
  snapshot_read writer m txn timestamp = check_safe_timestamp writer m txn timestamp >>= λ next.
      fetch_results next txn (new_status txn.id timestamp State.committed) (some [])

  -- `AutocommitReadOnly`.
  unfoldable pub read_latest : Manager S → Txn → Read TxnStatus
  read_latest m txn = elim (get_safe_timestamp m txn) [
    | none ↦ err panic
    | some (safe, _) ↦ fetch_results m txn (new_status txn.id safe State.committed) (some [])
  ]

  -- The prepared reads with the time of each: the maps `prepared` and `preparedTime`.
  unfoldable pub prepare_read_only :
      ℕ → Manager S → Map TxnId (Txn × ℕ) → Txn → Map TxnId (Txn × ℕ) × Read TxnStatus
  prepare_read_only now m prepared txn = (
    insert txn.id (txn, now) prepared,
    elim (get_safe_timestamp m txn) [
      | none ↦ err panic
      | some (safe, _) ↦ ok (new_status txn.id safe State.prepared)
    ],
  )

  unfoldable pub commit_read_only :
      Option (ℕ → Manager S × Bool) → Manager S → Map TxnId (Txn × ℕ) → TxnId → ℕ → Read TxnStatus
  commit_read_only writer m prepared id timestamp = elim (lookup id prepared) [
    | none ↦ err not_found
    | some (txn, _) ↦ snapshot_read writer m txn timestamp
  ]

  unfoldable pub autocommit_read_write : Manager S → Txn → TxnStatus → Read TxnStatus
  autocommit_read_write m txn status = fetch_results m txn status (known_statuses status)

  unfoldable pub commit_read_write : Manager S → TxnStatus → Read TxnStatus
  commit_read_write m status = elim (get_prepared_txn m status.id) [
    | none ↦ err not_found
    | some txn ↦ fetch_results m txn status (known_statuses status)
  ]

-- A tick of `mainLoop` at which `oldest` is the time before which a prepared read is dropped.
unfoldable pub clean : ℕ → Map TxnId (Txn × ℕ) → Map TxnId (Txn × ℕ)
clean oldest [] = []
clean oldest ((id, (txn, at)) ∷ prepared) =
    let rest = clean oldest prepared in if ltb at oldest then rest else (id, (txn, at)) ∷ rest
