-- ===== src/Reader/Stable.antt =====
-- What the check of a read timestamp gives: `checkSafeTimestamp` of
-- internal/data/server/txn/reader.go, with the safe timestamp of the manager.
use scout.Base.{
  ℕ, ◌≤◌, ◌<◌, ◌≡◌, refl, inl, inr, Bool, true, false, Option, none, some, arith, subst,
  if◌then◌else◌, leb, Bool-cases, Option-cases,
}
use scout.Base.Lists.{All, All-mono}
use scout.Mvcc.{Record}
use scout.Txn.{TxnId, TxnId_eq, Txn, TxnStatus, State, Prepared}
use scout.Txn
use scout.Txn.Locks.{build_locks}
use scout.Manager.{Env, Manager, Commit}
use scout.Manager.Apply.{Applied, apply_commit}
use scout.Manager.Invariant.{Inv}
use scout.Manager.Locks.{get_safe_timestamp}
use scout.Manager.SafeTime.{Blocks, IsClocked, safe-lt-prepared, commit-late}
use scout.Manager.Kept.{Later, Later-Inv, Later-Kept}
use scout.Reader.{
  Store, Config, Read, ok, err, time_out_of_range, update_failed, check_again, check_safe_timestamp,
}

module _ {S : Type 0} (db : Store S) (config : Config)
    (writer : Option (ℕ → Manager S × Bool)) where
  -- The timestamp is at most a safe one of the state.
  abbrev pub IsSafe : Manager S → Txn → ℕ → Type 0
  IsSafe m txn timestamp =
      (safe : ℕ) × (blocked : Bool) × (get_safe_timestamp m txn ≡ some (safe, blocked))
      × (timestamp ≤ safe)

  le_of_test : (a b : ℕ) → leb a b ≡ true → a ≤ b
  le_of_test a b h = ground arith

  ok_same : (m next : Manager S) → ◌≡◌ {A = Read (Manager S)} (ok m) (ok next) → m ≡ next
  ok_same m next same = cc

  check_again-IsSafe :
      (next m : Manager S) (txn : Txn) (timestamp : ℕ)
      → check_again db config m txn timestamp ≡ ok next
      → IsSafe next txn timestamp
  unfolding check_again
  check_again-IsSafe next m txn timestamp h = elim (Option-cases (get_safe_timestamp m txn)) [
    | inl e ↦ let other = rw (check_again, e) at h in cc
    | inr ((safe, blocked), e) ↦ elim (Bool-cases (leb timestamp safe)) [
      | inl low ↦
          let same = ok_same m next (rw (check_again, e, low) at h) in
          subst (λ x. IsSafe x txn timestamp) same (safe, blocked, e, le_of_test timestamp safe low)
      | inr high ↦ let other = rw (check_again, e, high) at h in cc
    ]
  ]

  after_first :
      (next : Manager S) (blocked : Bool) (txn : Txn) (timestamp : ℕ)
      → (if blocked then err time_out_of_range else elim writer as (λ _. Read (Manager S)) [
        | none ↦ err time_out_of_range
        | some update ↦
            if (update timestamp).1
            then err update_failed
            else check_again db config (update timestamp).0 txn timestamp
      ])
        ≡ ok next
      → IsSafe next txn timestamp
  after_first next true txn timestamp h = cc
  after_first next false txn timestamp h = elim (Option-cases writer) [
    | inl e ↦ let other = rw e at h in cc
    | inr (update, e) ↦ elim (Bool-cases (update timestamp).1) [
      | inl f ↦ let other = rw (e, f) at h in cc
      | inr f ↦ check_again-IsSafe next (update timestamp).0 txn timestamp (rw (e, f) at h)
    ]
  ]

  -- A read timestamp that passes the check is at most a safe timestamp of the state at the check
  -- that succeeds, which is the state after the update where the first check fails.
  check_safe_timestamp-IsSafe :
      (m next : Manager S) (txn : Txn) (timestamp : ℕ)
      → check_safe_timestamp db config writer m txn timestamp ≡ ok next
      → IsSafe next txn timestamp
  unfolding check_safe_timestamp
  check_safe_timestamp-IsSafe m next txn timestamp h =
      elim (Option-cases (get_safe_timestamp m txn)) [
        | inl e ↦ let other = rw (check_safe_timestamp, e) at h in cc
        | inr ((safe, blocked), e) ↦ elim (Bool-cases (leb timestamp safe)) [
          | inl low ↦
              let same = ok_same m next (rw (check_safe_timestamp, e, low) at h) in
              subst (λ x. IsSafe x txn timestamp) same
                (safe, blocked, e, le_of_test timestamp safe low)
          | inr high ↦
              after_first next blocked txn timestamp (rw (check_safe_timestamp, e, high) at h)
        ]
      ]

  -- A snapshot read at a timestamp that passes the check in the state `next`, and a transaction that
  -- is prepared there, not settled, with a lock that conflicts with one of the read: in every later
  -- state, reached by whole batches that leave the transaction known and by moves of one more
  -- batch, a successful commit of the transaction writes records above the timestamp only. The
  -- state `next` is well formed, with prepared timestamps strictly between 0 and the maximal word.
  pub check_safe_timestamp-lt-writes :
      (env : Env S) (m next later : Manager S) (txn : Txn) (timestamp : ℕ) (cmd : Commit)
      (s : TxnStatus) (p : Prepared) (a : Applied)
      → check_safe_timestamp db config writer m txn timestamp ≡ ok next
      → Inv next
      → IsClocked next.prepared
      → Blocks next (build_locks txn) cmd.id s p
      → Later env cmd.id next later
      → (apply_commit env later cmd).1 ≡ Txn.ok a
      → All (λ (r : Record). timestamp < r.timestamp) a.writes
  check_safe_timestamp-lt-writes env m next later txn timestamp cmd s p a h v clocked b q e =
      let (safe, blocked, found, low) = check_safe_timestamp-IsSafe m next txn timestamp h in
      let (below, _) = safe-lt-prepared next txn safe blocked cmd.id s p clocked found b in
      let ((s', known), (p', entry, same)) =
        Later-Kept cmd.id p.timestamp q ((s, b.status), (p, b.entry, refl)) in
      All-mono (λ r late. omega (arith, low, below, same, late)) a.writes
        (commit-late env later (Later-Inv q v) cmd s' p' a known entry e)
