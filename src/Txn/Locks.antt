-- ===== src/Txn/Locks.antt =====
-- Locks: `BuildLock`, `BuildLocks` and `CompatibleWith` of internal/data/data_txn.go.
pub mod Covers
use scout.Base.{ℕ, ◌≡◌, refl, Bool, true, false, ◌&&◌, not, Option, none, some, List, [], ◌∷◌}
use scout.Base.{arith, ◌==◌, nat_eq, if◌then◌else◌}
use scout.Base.Bytes.{eq_bytes, le_bytes, lt_bytes, compare_bytes, compare_bytes_swap, eq_bytes_iff}
use scout.Txn.{
  KeyLock, RangeLock, Lock, LockPayload, key_lock, range_lock, Action, Payload, unset, read,
  read_range, insert, update, upsert, delete, lock_key, lock_range, Txn,
}

abbrev pub single : ℕ → KeyLock → Lock
single id l = record { action_id = id; payload = key_lock l }

unfoldable pub build_lock : Action → Option Lock
build_lock a = elim a.payload [
  | unset ↦ none
  | read x ↦ some (single a.id (record { keyspace = x.keyspace; key = x.key; exclusive = false }))
  | read_range x ↦ some (record {
    action_id = a.id;
    payload = range_lock (record {
      keyspace = x.keyspace;
      start_key = x.start_key;
      end_key = x.end_key;
      exclusive = false;
    });
  })
  | insert x ↦ some (single a.id (record { keyspace = x.keyspace; key = x.key; exclusive = true }))
  | update x ↦ some (single a.id (record { keyspace = x.keyspace; key = x.key; exclusive = true }))
  | upsert x ↦ some (single a.id (record { keyspace = x.keyspace; key = x.key; exclusive = true }))
  | delete x ↦ some (single a.id (record { keyspace = x.keyspace; key = x.key; exclusive = true }))
  | lock_key x ↦ some (single a.id x.lock)
  | lock_range x ↦ some (record { action_id = a.id; payload = range_lock x.lock })
]

-- The loop of `BuildLocks`.
unfoldable pub locks_of : List Action → List Lock
locks_of [] = []
locks_of (a ∷ rest) = elim (build_lock a) [ none ↦ locks_of rest | some l ↦ l ∷ locks_of rest ]

unfoldable pub build_locks : Txn → List Lock
build_locks t = locks_of t.actions

pub key_locks_compatible : KeyLock → KeyLock → Bool
key_locks_compatible a b =
    if not (a.keyspace == b.keyspace)
    then true
    else if not (eq_bytes a.key b.key)
    then true
    else not a.exclusive && not b.exclusive

pub range_locks_compatible : RangeLock → RangeLock → Bool
range_locks_compatible a b =
    if not (a.keyspace == b.keyspace)
    then true
    else if le_bytes a.end_key b.start_key
    then true
    else if not (lt_bytes a.start_key b.end_key)
    then true
    else not a.exclusive && not b.exclusive

pub range_lock_compatible_with_key_lock : RangeLock → KeyLock → Bool
range_lock_compatible_with_key_lock a b =
    if not (a.keyspace == b.keyspace)
    then true
    else if lt_bytes b.key a.start_key
    then true
    else if not (lt_bytes b.key a.end_key)
    then true
    else not a.exclusive && not b.exclusive

payloads_compatible : LockPayload → LockPayload → Bool
payloads_compatible (key_lock a) (key_lock b) = key_locks_compatible a b
payloads_compatible (key_lock a) (range_lock b) = range_lock_compatible_with_key_lock b a
payloads_compatible (range_lock a) (key_lock b) = range_lock_compatible_with_key_lock a b
payloads_compatible (range_lock a) (range_lock b) = range_locks_compatible a b

unfoldable pub compatible_with : Lock → Lock → Bool
unfolding payloads_compatible key_locks_compatible range_locks_compatible
    range_lock_compatible_with_key_lock
compatible_with l other = payloads_compatible l.payload other.payload
