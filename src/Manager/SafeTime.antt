-- ===== src/Manager/SafeTime.antt =====
-- Reads at the safe timestamp: no transaction that is still to commit writes at or below it.
use scout.Base.{ℕ, ◌≤◌, ◌<◌, ◌≡◌, refl, inl, inr, Bool, true, false, some, List, [], ◌∷◌}
use scout.Base.{arith, Bool-cases, Option-cases, ◌==◌, max_u64, subst, sym, nat_eq}
use scout.Base.Lists.{all, All, All-mono}
use scout.Base.Maps.{Map, lookup, All-lookup}
use scout.Mvcc.{Record}
use scout.Txn.{
  TxnId, TxnId_eq, TxnStatus, State, Action, Payload, Lock, Prepared, Txn, ok, is_final,
}
use scout.Txn.Locks.{compatible_with, build_locks}
use scout.Manager.{Env, Manager, Commit}
use scout.Manager.Apply.{Applied, apply_commit, commit_in, commit_prepared}
use scout.Manager.Locks.{
  safe_timestamp_for_lock, conflicting_timestamp, safe_timestamp_for_locks, get_safe_timestamp,
}
use scout.Manager.Invariant.{Inv}
use scout.Manager.Invariant.Moves.{Tracked-Agrees}
use scout.Manager.Steps.{Tracked}
use scout.Manager.Validate.{write_one, write_records, build_write_records}

-- A prepared transaction that is not settled, and holds a lock that conflicts with one of `locks`.
pub record Blocks {S : Type 0} (m : Manager S) (locks : List Lock) (id : TxnId) (s : TxnStatus)
    (p : Prepared) : Type 0 where
  pub entry : lookup id m.prepared ≡ some p
  pub status : lookup id m.status ≡ some s
  pub holds : p.locks_released ≡ false
  pub open_state : is_final s.state ≡ false
  pub conflict : all (λ l. all (compatible_with l) p.locks) locks ≡ false

-- The timestamps of entries are those of a clock: neither 0 nor the maximal word.
abbrev pub IsClocked : Map TxnId Prepared → Type 0
IsClocked = All (λ (e : TxnId × Prepared). (0 < e.1.timestamp) × (e.1.timestamp < max_u64))

module _ (status : Map TxnId TxnStatus) where
  bound_pos :
      (prepared : Map TxnId Prepared) (l : Lock) (r : ℕ)
      → IsClocked prepared
      → safe_timestamp_for_lock status prepared l ≡ some r
      → 0 < r
  unfolding safe_timestamp_for_lock
  bound_pos [] l r c e = ground arith
  bound_pos ((i, p) ∷ m) l r c e = elim (Option-cases (safe_timestamp_for_lock status m l)) [
    | inl f ↦ absurd (ground arith)
    | inr (b, f) ↦ ground (arith, bound_pos m l b c.1 f)
  ]

  bound-le :
      (prepared : Map TxnId Prepared) (l : Lock) (r : ℕ) (id : TxnId) (s : TxnStatus) (p : Prepared)
      → safe_timestamp_for_lock status prepared l ≡ some r
      → lookup id prepared ≡ some p
      → lookup id status ≡ some s
      → p.locks_released ≡ false
      → is_final s.state ≡ false
      → all (compatible_with l) p.locks ≡ false
      → r ≤ p.timestamp
  unfolding safe_timestamp_for_lock lookup
  bound-le [] l r id s p e f g h k c = cc
  bound-le ((i, q) ∷ m) l r id s p e f g h k c =
      elim (Option-cases (safe_timestamp_for_lock status m l)) [
        | inl x ↦ absurd (ground arith)
        | inr (b, x) ↦ elim (Bool-cases (i == id)) [
          | inr other ↦ ground (arith, bound-le m l b id s p x)
          | inl same ↦
              let key : i ≡ id = (TxnId_eq.beq_iff i id).0 same in
              let found : lookup i status ≡ some s =
                subst (λ y. lookup y status ≡ some s) (sym key) g in
              ground arith
        ]
      ]

  module _ (prepared : Map TxnId Prepared) where
    conflicting_pos :
        (ls : List Lock) (r : ℕ)
        → IsClocked prepared
        → conflicting_timestamp status prepared ls ≡ some r
        → 0 < r
    unfolding conflicting_timestamp
    conflicting_pos [] r c e = ground arith
    conflicting_pos (l ∷ ls) r c e =
        elim (Option-cases (conflicting_timestamp status prepared ls)) [
          | inl f ↦ absurd (ground arith)
          | inr (n, f) ↦ elim (Option-cases (safe_timestamp_for_lock status prepared l)) [
            | inl g ↦ absurd (ground arith)
            | inr (b, g) ↦ ground (arith, conflicting_pos ls n c f, bound_pos prepared l b c g)
          ]
        ]

    conflicting-le :
        (ls : List Lock) (r : ℕ) (id : TxnId) (s : TxnStatus) (p : Prepared)
        → conflicting_timestamp status prepared ls ≡ some r
        → lookup id prepared ≡ some p
        → lookup id status ≡ some s
        → p.locks_released ≡ false
        → is_final s.state ≡ false
        → all (λ l. all (compatible_with l) p.locks) ls ≡ false
        → r ≤ p.timestamp
    unfolding conflicting_timestamp
    conflicting-le [] r id s p e f g h k c = cc
    conflicting-le (l ∷ ls) r id s p e f g h k c =
        elim (Option-cases (conflicting_timestamp status prepared ls)) [
          | inl x ↦ absurd (ground arith)
          | inr (n, x) ↦ elim (Option-cases (safe_timestamp_for_lock status prepared l)) [
            | inl y ↦ absurd (ground arith)
            | inr (b, y) ↦ elim (Bool-cases (all (compatible_with l) p.locks)) [
              | inl apart ↦ ground (arith, conflicting-le ls n id s p x f g h k)
              | inr clash ↦ ground (arith, bound-le prepared l b id s p y f g h k clash)
            ]
          ]
        ]

module _ {S : Type 0} (m : Manager S) (txn : Txn) (ts : ℕ) (blocked : Bool) where
  -- The safe timestamp is never above the highest applied one.
  pub safe-le-max : get_safe_timestamp m txn ≡ some (ts, blocked) → ts ≤ m.max_timestamp
  unfolding get_safe_timestamp safe_timestamp_for_locks
  safe-le-max e =
      elim (Option-cases (conflicting_timestamp m.status m.prepared (build_locks txn))) [
        | inl f ↦ absurd (ground arith)
        | inr (c, f) ↦ ground arith
      ]

  -- If prepared timestamps lie strictly between 0 and the maximal word, then the safe timestamp is
  -- below the prepare timestamp of every unsettled transaction whose held locks conflict with the
  -- reader's, and the reader is told of the conflict.
  pub safe-lt-prepared :
      (id : TxnId) (s : TxnStatus) (p : Prepared)
      → IsClocked m.prepared
      → get_safe_timestamp m txn ≡ some (ts, blocked)
      → Blocks m (build_locks txn) id s p
      → (ts < p.timestamp) × (blocked ≡ true)
  unfolding get_safe_timestamp safe_timestamp_for_locks
  safe-lt-prepared id s p clocked e b =
      elim (Option-cases (conflicting_timestamp m.status m.prepared (build_locks txn))) [
        | inl f ↦ absurd (ground arith)
        | inr (c, f) ↦
            let le : c ≤ p.timestamp =
              conflicting-le m.status m.prepared (build_locks txn) c id s p f b.entry b.status
                b.holds b.open_state b.conflict in
            let pos : 0 < c = conflicting_pos m.status m.prepared (build_locks txn) c clocked f in
            let range =
              All-lookup (λ (x : TxnId × Prepared). (0 < x.1.timestamp) × (x.1.timestamp < max_u64))
                id p m.prepared b.entry clocked in
            (ground arith, ground arith)
      ]

abbrev At : ℕ → List Record → Type 0
At ts = All (λ (r : Record). r.timestamp ≡ ts)

write_one-At :
    {S : Type 0} (env : Env S) (ts : ℕ) (x : Payload) (later : List Record)
    → At ts later
    → At ts (write_one env ts x later)
unfolding write_one
write_one-At env ts (Payload.insert x) later h = (refl, h)
write_one-At env ts (Payload.update x) later h = (refl, h)
write_one-At env ts (Payload.upsert x) later h = (refl, h)
write_one-At env ts (Payload.delete x) later h = (refl, h)
write_one-At env ts _ later h = h

write_records-At :
    {S : Type 0} (env : Env S) (ts : ℕ) (actions : List Action)
    → At ts (write_records env ts actions)
unfolding write_records
write_records-At env ts [] = tt
write_records-At env ts (a ∷ rest) =
    write_one-At env ts a.payload (write_records env ts rest) (write_records-At env ts rest)

-- The commit timestamps that `applyCommit` Accepted are not before the prepare.
module _ {S : Type 0} (env : Env S) (m : Manager S) (v : Inv m) where
  commit_in-late :
      (cmd : Commit) (s : TxnStatus) (p : Prepared) (st : State) (a : Applied)
      → Tracked m cmd.id st s p
      → is_final st ≡ false
      → (commit_in env st m cmd s p).1 ≡ ok a
      → (p.timestamp ≤ cmd.timestamp) × (a.writes ≡ build_write_records env cmd.timestamp p.txn)
  unfolding commit_in commit_prepared is_final
  commit_in-late cmd s p State.prepared a t open_state e =
      let agrees = Tracked-Agrees v cmd.id t in
      let at = agrees.at_prepare t.state in (ground arith, ground arith)
  commit_in-late cmd s p State.decided a t open_state e =
      let (d, f, late) = (Tracked-Agrees v cmd.id t).at_decide t.state in
      (ground arith, ground arith)
  commit_in-late cmd s p State.pending a t open_state e = cc
  commit_in-late cmd s p State.committed a t open_state e = cc
  commit_in-late cmd s p State.aborted a t open_state e = cc
  commit_in-late cmd s p State.failed a t open_state e = cc
  commit_in-late cmd s p State.timedout a t open_state e = cc

  -- A commit of a transaction that is settled writes nothing.
  commit_in-silent :
      (cmd : Commit) (s : TxnStatus) (p : Prepared) (st : State) (a : Applied)
      → is_final st ≡ true
      → (commit_in env st m cmd s p).1 ≡ ok a
      → a.writes ≡ []
  unfolding commit_in is_final
  commit_in-silent cmd s p State.committed a closed e = cc
  commit_in-silent cmd s p State.pending a closed e = cc
  commit_in-silent cmd s p State.prepared a closed e = cc
  commit_in-silent cmd s p State.decided a closed e = cc
  commit_in-silent cmd s p State.aborted a closed e = cc
  commit_in-silent cmd s p State.failed a closed e = cc
  commit_in-silent cmd s p State.timedout a closed e = cc

  -- A successful commit of a transaction that is prepared writes at its prepare timestamp or later.
  pub commit-late :
      (cmd : Commit) (s : TxnStatus) (p : Prepared) (a : Applied)
      → lookup cmd.id m.status ≡ some s
      → lookup cmd.id m.prepared ≡ some p
      → (apply_commit env m cmd).1 ≡ ok a
      → All (λ (r : Record). p.timestamp ≤ r.timestamp) a.writes
  unfolding apply_commit build_write_records
  commit-late cmd s p a known entry e =
      let inside : (commit_in env s.state m cmd s p).1 ≡ ok a = ground (arith, known, entry) in
      elim (Bool-cases (is_final s.state)) [
        | inl closed ↦ rw (commit_in-silent cmd s p s.state a closed inside) tt
        | inr unsettled ↦
            let (late, writes) =
              commit_in-late cmd s p s.state a
                (record { status = known; entry = entry; state = refl }) unsettled inside in
            rw writes (
              All-mono (λ r at. subst (λ x. p.timestamp ≤ x) (sym at) late) _
                (write_records-At env cmd.timestamp p.txn.actions))
      ]

  -- Under the invariant, and with prepared timestamps strictly between 0 and the maximal word: if
  -- a transaction blocks a reader whose safe timestamp is `ts`, then every record that a
  -- successful commit of it writes has a timestamp above `ts`.
  pub safe-lt-writes :
      (txn : Txn) (ts : ℕ) (blocked : Bool) (cmd : Commit) (s : TxnStatus) (p : Prepared)
      (a : Applied)
      → IsClocked m.prepared
      → get_safe_timestamp m txn ≡ some (ts, blocked)
      → Blocks m (build_locks txn) cmd.id s p
      → (apply_commit env m cmd).1 ≡ ok a
      → All (λ (r : Record). ts < r.timestamp) a.writes
  safe-lt-writes txn ts blocked cmd s p a clocked safe b e =
      let below : ts < p.timestamp =
        (safe-lt-prepared m txn ts blocked cmd.id s p clocked safe b).0 in
      All-mono (λ r late. omega (arith, below, late)) a.writes
        (commit-late cmd s p a b.status b.entry e)
