-- ===== src/Manager/Requests.antt =====
-- What the validation of a request promises to the manager.
use scout.Base.{
  ℕ, ◌≡◌, ◌≢◌, ◌≤◌, suc, refl, true, not, Option, none, some, List, [], ◌∷◌, nat_eq, arith,
}
use scout.Base.Lists.{length, all, All}
use scout.Base.Bytes.{Bytes}
use scout.Mvcc.{Record}
use scout.Txn.{
  TxnId, Txn, Action, Payload, unset, read, read_range, insert, update, upsert, delete, lock_key,
  lock_range, Lock, LockPayload, key_lock, range_lock, Code, success, is_read_only,
  is_read_only_action,
}
use scout.Txn.Locks.{build_lock, locks_of, build_locks}
use scout.Txn.Locks.Covers.{is_exclusive}
use scout.Txn.Validation.{
  first_user_keyspace, refuse_if, bad_key, action_has_invalid_fields, validate_id,
  validate_key_lock, validate_range_lock, validate_payload, validate_actions, validate_txn,
  validate_action_status, validate_statuses, validate_status,
}
use scout.Manager.{Env, new_failed_status}
use scout.Manager.Validate.{write_one, write_records, build_write_records}

abbrev keyspace_in : LockPayload → ℕ
keyspace_in (key_lock l) = l.keyspace
keyspace_in (range_lock l) = l.keyspace

-- A lock on the keyspace of a user.
abbrev pub IsUserLock : Lock → Type 0
IsUserLock l = first_user_keyspace ≤ keyspace_in l.payload

-- A record with a key, in the keyspace of a user.
abbrev pub IsUserRecord : Record → Type 0
IsUserRecord r = (first_user_keyspace ≤ r.address.keyspace) × (r.address.key ≢ [])

-- A valid action has a lock.
abbrev Locked : Option Lock → Type 0
Locked none = ⊥
Locked (some l) = IsUserLock l

build_lock-Locked :
    (id : ℕ) (p : Payload)
    → validate_payload p ≡ none
    → Locked (build_lock (record { id = id; payload = p }))
unfolding build_lock validate_payload validate_key_lock validate_range_lock
build_lock-Locked id unset h = cc
build_lock-Locked id (read x) h = ground arith
build_lock-Locked id (read_range x) h = ground arith
build_lock-Locked id (insert x) h = ground arith
build_lock-Locked id (update x) h = ground arith
build_lock-Locked id (upsert x) h = ground arith
build_lock-Locked id (delete x) h = ground arith
build_lock-Locked id (lock_key x) h = ground arith
build_lock-Locked id (lock_range x) h = ground arith

add_lock :
    (o : Option Lock) (later : List Lock) (n : ℕ)
    → Locked o
    → length later ≡ n
    → All IsUserLock later
    → let locks : List Lock = elim o [ none ↦ later | some l ↦ l ∷ later ] in
      (length locks ≡ suc n) × All IsUserLock locks
add_lock none later n h e k = absurd h
add_lock (some l) later n h e k = (omega arith, (h, k))

locks_of-IsUserLock :
    (actions : List Action)
    → validate_actions actions ≡ none
    → (length (locks_of actions) ≡ length actions) × All IsUserLock (locks_of actions)
unfolding locks_of validate_actions
locks_of-IsUserLock [] h = (refl, tt)
locks_of-IsUserLock (a ∷ rest) h =
    let payload_valid : validate_payload a.payload ≡ none = ground arith in
    let rest_valid : validate_actions rest ≡ none = ground arith in
    let (count, users) = locks_of-IsUserLock rest rest_valid in
    add_lock (build_lock a) (locks_of rest) (length rest)
      (build_lock-Locked a.id a.payload payload_valid) count users

-- A valid transaction has one lock for each action, each on the keyspace of a user.
pub build_locks-IsUserLock :
    (t : Txn)
    → validate_txn (some t) ≡ none
    → (length (build_locks t) ≡ length t.actions) × All IsUserLock (build_locks t)
unfolding build_locks validate_txn
build_locks-IsUserLock t h = locks_of-IsUserLock t.actions (ground arith)

user_key :
    (keyspace : ℕ) (key : Bytes)
    → refuse_if (bad_key keyspace key) action_has_invalid_fields ≡ none
    → (first_user_keyspace ≤ keyspace) × (key ≢ [])
user_key keyspace [] h = ground arith
user_key keyspace (b ∷ key) h = (ground arith, λ e. cc)

module _ {S : Type 0} (env : Env S) where
  write_one-IsUserRecord :
      (timestamp : ℕ) (p : Payload) (later : List Record)
      → validate_payload p ≡ none
      → All IsUserRecord later
      → All IsUserRecord (write_one env timestamp p later)
  unfolding write_one validate_payload
  write_one-IsUserRecord timestamp (insert x) later h k = (user_key x.keyspace x.key h, k)
  write_one-IsUserRecord timestamp (update x) later h k = (user_key x.keyspace x.key h, k)
  write_one-IsUserRecord timestamp (upsert x) later h k = (user_key x.keyspace x.key h, k)
  write_one-IsUserRecord timestamp (delete x) later h k = (user_key x.keyspace x.key h, k)
  write_one-IsUserRecord timestamp unset later h k = k
  write_one-IsUserRecord timestamp (read x) later h k = k
  write_one-IsUserRecord timestamp (read_range x) later h k = k
  write_one-IsUserRecord timestamp (lock_key x) later h k = k
  write_one-IsUserRecord timestamp (lock_range x) later h k = k

  write_records-IsUserRecord :
      (timestamp : ℕ) (actions : List Action)
      → validate_actions actions ≡ none
      → All IsUserRecord (write_records env timestamp actions)
  unfolding write_records validate_actions
  write_records-IsUserRecord timestamp [] h = tt
  write_records-IsUserRecord timestamp (a ∷ rest) h =
      write_one-IsUserRecord timestamp a.payload (write_records env timestamp rest) (ground arith)
        (write_records-IsUserRecord timestamp rest (ground arith))

  -- Every record that a valid transaction writes has a key, in the keyspace of a user.
  pub build_write_records-IsUserRecord :
      (timestamp : ℕ) (t : Txn)
      → validate_txn (some t) ≡ none
      → All IsUserRecord (build_write_records env timestamp t)
  unfolding build_write_records validate_txn
  build_write_records-IsUserRecord timestamp t h =
      write_records-IsUserRecord timestamp t.actions (ground arith)

read_only_shares :
    (actions : List Action)
    → all is_read_only_action actions ≡ true
    → all (λ l. not (is_exclusive l)) (locks_of actions) ≡ true
unfolding locks_of build_lock is_read_only_action
read_only_shares [] h = refl
read_only_shares (a ∷ rest) h = ground (arith, read_only_shares rest)

read_only_writes :
    {S : Type 0} (env : Env S) (timestamp : ℕ) (actions : List Action)
    → all is_read_only_action actions ≡ true
    → write_records env timestamp actions ≡ []
unfolding write_records write_one is_read_only_action
read_only_writes env timestamp [] h = refl
read_only_writes env timestamp (a ∷ rest) h = ground (arith, read_only_writes env timestamp rest)

-- A read-only transaction writes no record and takes no exclusive lock.
pub is_read_only-idle :
    {S : Type 0} (env : Env S) (timestamp : ℕ) (t : Txn)
    → is_read_only t ≡ true
    → (build_write_records env timestamp t ≡ [])
      × (all (λ l. not (is_exclusive l)) (build_locks t) ≡ true)
unfolding is_read_only build_write_records build_locks
is_read_only-idle env timestamp t h =
    (read_only_writes env timestamp t.actions h, read_only_shares t.actions h)

-- A status of failure is valid, if its identifier is, it has a timestamp, and its code is not that
-- of success.
pub new_failed_status-valid :
    (id : TxnId) (timestamp action_id : ℕ) (code : Code)
    → validate_id (some id) ≡ none
    → timestamp ≢ 0
    → code ≢ success
    → validate_status (new_failed_status id timestamp action_id code) ≡ none
unfolding validate_status validate_statuses validate_action_status
new_failed_status-valid id timestamp action_id code v t c = ground arith
