-- ===== src/Manager/Restart.antt =====
-- A snapshot holds all that a restored manager needs.
use scout.Base.{◌≡◌, refl, inl, inr, true, Option, none, some, [], ◌∷◌}
use scout.Base.{arith, Bool-cases, ◌==◌, subst}
use scout.Base.Lists.{All}
use scout.Base.Maps.{Map, lookup, insert, lookup-insert, lookup_absent, IsMap, All-of_lookup}
use scout.Txn.{TxnId, TxnId_eq, TxnStatus, Prepared}
use scout.Manager.{Manager}
use scout.Manager.Snapshots.{
  values, drop_locks, snapshot, restore_status, restore_locks, restore_prepared, restore,
}
use scout.Manager.Invariant.{Inv, Agrees}

abbrev or_else {ℓ} : {A : Type ℓ} → Option A → Option A → Option A
or_else none o = o
or_else (some a) o = some a

lookup-cons_absent :
    {V : Type 0} (j id : TxnId) (v : V) (m : Map TxnId V)
    → IsMap ((j, v) ∷ m)
    → (j == id) ≡ true
    → lookup id m ≡ none
lookup-cons_absent j id v m h same =
    subst (λ x. lookup x m ≡ none) ((TxnId_eq.beq_iff j id).0 same) (lookup_absent j m h.0)

lookup-restore_status :
    (id : TxnId) (m acc : Map TxnId TxnStatus)
    → IsMap m
    → All (λ (e : TxnId × TxnStatus). e.1.id ≡ e.0) m
    → lookup id (restore_status acc (values m)) ≡ or_else (lookup id m) (lookup id acc)
unfolding restore_status values lookup
lookup-restore_status id [] acc h n = refl
lookup-restore_status id ((j, s) ∷ m) acc h n = ground (
  arith,
  lookup-restore_status id m (insert s.id s acc) h.1 n.1,
  lookup-insert s.id id s acc,
  lookup-cons_absent j id s m h,
  n.0,
)

-- Restoring puts back the locks that a snapshot leaves out.
restore_locks_lem :
    (p : Prepared) {id : TxnId} {s : TxnStatus}
    → Agrees id s p
    → restore_locks (record p { locks = [] }) ≡ p
unfolding restore_locks
restore_locks_lem p a = elim (Bool-cases p.locks_released) [
  | inl gone ↦ ground (arith, a.dropped gone)
  | inr held ↦ ground (arith, a.held held)
]

abbrev IsWhole : TxnId × Prepared → Type 0
IsWhole e = (e.1.txn.id ≡ e.0) × (restore_locks (record e.1 { locks = [] }) ≡ e.1)

lookup-restore_prepared :
    (id : TxnId) (m acc : Map TxnId Prepared)
    → IsMap m
    → All IsWhole m
    → lookup id (restore_prepared acc (drop_locks (values m)))
      ≡ or_else (lookup id m) (lookup id acc)
unfolding restore_prepared drop_locks values lookup
lookup-restore_prepared id [] acc h n = refl
lookup-restore_prepared id ((j, p) ∷ m) acc h n =
    let q = restore_locks (record p { locks = [] }) in
    ground (
      arith,
      lookup-restore_prepared id m (insert p.txn.id q acc) h.1 n.1,
      lookup-insert p.txn.id id q acc,
      lookup-cons_absent j id p m h,
      n.0.0,
      n.0.1,
    )

-- Under the invariant, a manager restored from a snapshot knows every transaction in the same
-- status and with the same prepared entry, locks included, and has the same maximal timestamp,
-- whatever manager it is restored into.
pub restore-snapshot :
    {S : Type 0} (m old : Manager S) (id : TxnId)
    → Inv m
    → let r = restore old (snapshot m) in
      (lookup id r.status ≡ lookup id m.status)
      × (lookup id r.prepared ≡ lookup id m.prepared)
      × (r.max_timestamp ≡ m.max_timestamp)
unfolding restore snapshot lookup
restore-snapshot m old id v =
    let names =
      All-of_lookup (λ (e : TxnId × TxnStatus). e.1.id ≡ e.0) m.status v.status_keys
        (λ i s found. (v.named i s found).named) in
    let whole =
      All-of_lookup IsWhole m.prepared v.prepared_keys
        (λ i p found. let (s, e, a) = v.known i p found in (a.own, restore_locks_lem p a)) in
    (
      ground (arith, lookup-restore_status id m.status [] v.status_keys names),
      ground (arith, lookup-restore_prepared id m.prepared [] v.prepared_keys whole),
      refl,
    )
