-- ===== src/Control/Fsm/Edges/Fates.antt =====
-- What an accepted change of the assignments makes of each replica: `applyUpdateAssignments` of
-- internal/control/server/storage/fsm_update_assignments.go, over all turns of its loops.
use scout.Base.{
  ℕ, ◌≡◌, ◌≤◌, ◌<◌, refl, Option, none, some, List, [], ◌∷◌, arith, inl, inr, Option-cases, nat_eq,
  subst, ap, ◌∙◌,
}
use mathlib.Core.List.{Memᴰ}
use scout.Base.Lists.{All, All-mono}
use scout.Base.Maps.{lookup, All-lookup}
use scout.Base.Bytes.{Bytes, bytes_eq}
use scout.Control.{ReplicaState, Replica, Partitions}
use scout.Control.Names.{replica_name, replica_name-injective}
use scout.Control.Results.{Result, Whenever, Whenever-bind, Whenever-mono}
use scout.Control.Fsm.{Cluster, Add, Update, Remove, UpdateAssignments}
use scout.Control.Fsm.Assignments.{each_of}
use scout.Control.Fsm.Invariant.{IsPartition, IsReplica, IsCluster}
use scout.Control.Fsm.Edges.{Edge, Named}
use scout.Control.Fsm.Edges.Turns.{replica_at, last_of, Turn, at-keep, Owned}

-- What a command may make of a replica, by what was there before it and what is there after it.
pub data Fate (cmd : UpdateAssignments) (pid : ℕ) (name : Bytes)
    : Option Replica → Option Replica → Type 0 where
  stays : (o : Option Replica) → Fate cmd pid name o o
  moved :
      {old new : Replica} (x : Update)
      → Memᴰ x cmd.update
      → x.partition_id ≡ pid
      → x.replica ≡ name
      → Edge old.state x.state
      → new.state ≡ x.state
      → new.server_id ≡ old.server_id
      → Fate cmd pid name (some old) (some new)
  joined :
      {new : Replica} (x : Add)
      → Memᴰ x cmd.add
      → x.partition_id ≡ pid
      → new.state ≡ ReplicaState.joining
      → new.server_id ≡ x.server_id
      → Fate cmd pid name none (some new)
  left :
      {old : Replica} (x : Remove)
      → Memᴰ x cmd.remove
      → x.partition_id ≡ pid
      → x.replica ≡ name
      → old.state ≡ ReplicaState.leaving
      → Fate cmd pid name (some old) none

-- If every turn keeps `I`, makes `D` of its own element and keeps it of the others, a loop makes
-- it of all of them.
pub each_of-All :
    {X : Type 0} (turn : Partitions → X → Result Partitions) (I : Partitions → Type 0)
    (R : X → Type 0) (D : X → Partitions → Type 0)
    → ((q : Partitions) (x : X)
        → I q
        → R x
        → Whenever (turn q x) (λ r. I r × D x r × ((y : X) → D y q → D y r)))
    → (q : Partitions) (xs : List X) → I q
    → All R xs
    → Whenever (each_of turn q xs) (λ r. I r × All (λ x. D x r) xs × ((y : X) → D y q → D y r))
unfolding each_of
each_of-All turn I R D step q [] i rs = (i, tt, λ y d. d)
each_of-All turn I R D step q (x ∷ xs) i rs =
    let Q : Partitions → Type 0 =
      λ r. I r × All (λ z. D z r) (x ∷ xs) × ((y : _) → D y q → D y r) in
    Whenever-bind _ Q (turn q x) (λ next. each_of turn next xs) (step q x i rs.0)
      (λ next a.
        Whenever-mono _ Q (each_of turn next xs) (each_of-All turn I R D step next xs a.0 rs.1)
          (λ r b. (b.0, (b.2 x a.1, b.1), λ y d. b.2 y (a.2 y d))))

pub All-Memᴰ : {X : Type 0} (xs : List X) → All (λ x. Memᴰ x xs) xs
All-Memᴰ [] = tt
All-Memᴰ (x ∷ xs) = (Memᴰ.head refl, All-mono (λ y m. Memᴰ.tail m) xs (All-Memᴰ xs))

unfoldable pub SameServer : Option Replica → Option Replica → Type 0
SameServer (some a) (some b) = b.server_id ≡ a.server_id
SameServer _ _ = Unit

pub Fate-SameServer :
    {cmd : UpdateAssignments} {pid : ℕ} {name : Bytes} {o o' : Option Replica}
    → Fate cmd pid name o o'
    → SameServer o o'
unfolding SameServer
Fate-SameServer (Fate.stays none) = tt
Fate-SameServer (Fate.stays (some r)) = refl
Fate-SameServer (Fate.moved x _ _ _ _ _ same) = same
Fate-SameServer (Fate.joined x _ _ _ _) = tt
Fate-SameServer (Fate.left x _ _ _ _) = tt

module _ (c : Cluster) (cmd : UpdateAssignments) where
  -- The state of the loops: what they made of each replica so far is a fate of it.
  pub record Good (q : Partitions) : Type 0 where
    pub own : Owned q
    pub grown : (i : ℕ) → last_of c.partitions i ≤ last_of q i
    pub fate : (i : ℕ) (k : Bytes) → Fate cmd i k (replica_at c.partitions i k) (replica_at q i k)

  pub Turn-Good :
      {q r : Partitions} {pid : ℕ} {name : Bytes} {v : Option Replica}
      → Turn q r pid name v
      → Fate cmd pid name (replica_at c.partitions pid name) v
      → Good q
      → Good r
  Turn-Good {q} {r} {pid} {name} {v} t f g = record {
    own = t.own g.own;
    grown = λ i. omega (arith, g.grown i, t.last i);
    fate = λ i k.
        at-keep (Fate cmd i k (replica_at c.partitions i k)) i k t
          (λ e n.
            subst (λ j. Fate cmd j k (replica_at c.partitions j k) v) e
              (subst (λ b. Fate cmd pid b (replica_at c.partitions pid b) v) n f))
          (g.fate i k);
  }

  -- A joining replica on the server of an addition.
  abbrev pub IsJoined : Add → Option Replica → Type 0
  IsJoined x o =
      (r : Replica) × (o ≡ some r) × (r.state ≡ ReplicaState.joining) × (r.server_id ≡ x.server_id)

  -- An addition made a replica of a name that was not there.
  abbrev pub Joined : Add → Partitions → Type 0
  Joined x q =
      (n : ℕ) × (n ≤ last_of q x.partition_id)
      × (replica_at c.partitions x.partition_id (replica_name x.partition_id n) ≡ none)
      × IsJoined x (replica_at q x.partition_id (replica_name x.partition_id n))

  -- The state of what an update names, if it is still there, is one that an update of it asks for.
  abbrev pub IsUpdated : Update → Option Replica → Type 0
  IsUpdated x none = Unit
  IsUpdated x (some r) =
      (y : Update) × Memᴰ y cmd.update
      × (y.partition_id ≡ x.partition_id)
      × (y.replica ≡ x.replica)
      × (r.state ≡ y.state)

  abbrev pub Updated : Update → Partitions → Type 0
  Updated x q = IsUpdated x (replica_at q x.partition_id x.replica)

  abbrev pub Gone : Remove → Partitions → Type 0
  Gone x q = replica_at q x.partition_id x.replica ≡ none

  pub Joined-keep :
      {q r : Partitions} {pid : ℕ} {name : Bytes} {v : Option Replica} (x : Add)
      → Turn q r pid name v
      → ((n : ℕ)
          → pid ≡ x.partition_id
          → name ≡ replica_name x.partition_id n
          → n ≤ last_of q x.partition_id
          → replica_at c.partitions x.partition_id (replica_name x.partition_id n) ≡ none
          → IsJoined x (replica_at q x.partition_id (replica_name x.partition_id n))
          → IsJoined x v)
      → Joined x q
      → Joined x r
  Joined-keep x t hit (n, low, new, there) = (
    n,
    omega (arith, low, t.last x.partition_id),
    new,
    at-keep (IsJoined x) x.partition_id (replica_name x.partition_id n) t
        (λ e f. hit n e f low new there) there,
  )

  -- A turn at a replica that was there before the command changes none that joined.
  pub Joined-elsewhere :
      {q r : Partitions} {pid : ℕ} {name : Bytes} {v : Option Replica} {old : Replica} (x : Add)
      → Turn q r pid name v
      → replica_at c.partitions pid name ≡ some old
      → Joined x q
      → Joined x r
  Joined-elsewhere {q} {r} {pid} {name} {v} {old} x t there = Joined-keep x t (λ n e f low new _.
      let at : replica_at c.partitions x.partition_id (replica_name x.partition_id n) ≡ some old =
        subst (λ i. replica_at c.partitions i (replica_name x.partition_id n) ≡ some old) e
          (subst (λ k. replica_at c.partitions pid k ≡ some old) f there) in
      absurd (cc))

  pub Named-before :
      {pid : ℕ} {name : Bytes} (n : Named c pid name)
      → replica_at c.partitions pid name ≡ some n.replica
  Named-before {pid} {name} n = rw (replica_at, n.there) n.found

  -- The number after the last one names no replica.
  pub unused :
      (count : ℕ)
      → IsCluster count c
      → (pid n : ℕ) → last_of c.partitions pid < n
      → replica_at c.partitions pid (replica_name pid n) ≡ none
  unused count valid pid n above =
      elim (Option-cases (replica_at c.partitions pid (replica_name pid n))) [
        | inl e ↦ e
        | inr (r, e) ↦ elim (Option-cases (lookup pid c.partitions.items)) [
          | inl f ↦ let other = rw (replica_at, f) at e in absurd (cc)
          | inr (part, f) ↦
              let found : lookup (replica_name pid n) part.replicas ≡ some r =
                rw (replica_at, f) at e in
              let fine : IsPartition c.servers count (pid, part) =
                All-lookup (IsPartition c.servers count) pid part c.partitions.items f
                  valid.partitions.items in
              let (k, low, name) =
                (All-lookup (IsReplica c.servers part.id part.last_replica_id) (replica_name pid n)
                  r part.replicas found fine.replicas).numbered in
              let same : n ≡ k =
                replica_name-injective pid n k (name ∙ ap (λ i. replica_name i k) fine.own) in
              let last : part.last_replica_id < n = rw (last_of, f) at above in
              absurd (omega (arith, low, same, last))
        ]
      ]
