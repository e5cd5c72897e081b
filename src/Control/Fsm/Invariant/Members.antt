-- ===== src/Control/Fsm/Invariant/Members.antt =====
-- The bootstrap, the registration of a server and the reports of status keep the cluster well
-- formed (internal/control/server/storage/fsm_bootstrap.go, fsm_register.go, fsm_update_status.go).
use scout.Base.{
  ℕ, zero, suc, ◌≡◌, ◌≢◌, ◌≤◌, ◌<◌, refl, true, Option, none, some, List, [], ◌∷◌, arith, inl, inr,
  Option-cases, nat_eq, subst, sym, max,
}
use scout.Base.Lists.{All, All-mono}
use scout.Base.Maps.{Map, lookup, insert, lookup-insert, All-insert, All-lookup}
use scout.Base.Bytes.{Bytes, bytes_eq}
use scout.Control.{ServerType, Server, Servers, Replica, Partition, Partitions}
use scout.Control.Fsm.{BootstrapServer, is_valid_data_server}
use scout.Control.Fsm.Members.{with_server, bootstrap_servers, new_partition, bootstrap_partitions}
use scout.Control.Fsm.Invariant.{IsServers, IsReplica, IsPartition, IsPartitions}

pub bootstrap_servers-IsServers :
    (now : ℕ) (s : Servers) (xs : List BootstrapServer)
    → IsServers s
    → s.tokens ≡ []
    → IsServers (bootstrap_servers now s xs)
unfolding bootstrap_servers
bootstrap_servers-IsServers now s [] v e = v
bootstrap_servers-IsServers now s (x ∷ xs) v e =
    bootstrap_servers-IsServers now (with_server now s x) xs
      (record {
        ids =
            All-insert (λ (p : ℕ × Server). (p.1.id ≡ p.0) × (p.0 ≤ max s.last_id x.id)) x.id _
              s.items (refl, omega arith)
              (All-mono (λ (p : ℕ × Server) h. (h.0, omega (arith, h.1))) s.items v.ids);
        tokens =
            subst (λ m. All (λ (p : Bytes × ℕ). lookup p.1 (with_server now s x).items ≢ none) m)
              (sym e) tt;
      })
      e

pub bootstrap_partitions-lookup :
    (n pid : ℕ) → pid < n → lookup pid (bootstrap_partitions n) ≡ some (new_partition pid)
unfolding bootstrap_partitions
bootstrap_partitions-lookup zero pid h = absurd (omega arith)
bootstrap_partitions-lookup (suc n) pid h = ground (
  arith,
  lookup-insert n pid (new_partition n) (bootstrap_partitions n),
  bootstrap_partitions-lookup n pid,
)

bootstrap_partitions-All :
    (s : Servers) (count n : ℕ) → n ≤ count → All (IsPartition s count) (bootstrap_partitions n)
unfolding bootstrap_partitions
bootstrap_partitions-All s count zero h = tt
bootstrap_partitions-All s count (suc n) h =
    All-insert (IsPartition s count) n (new_partition n) (bootstrap_partitions n)
      (record { own = refl; below = omega arith; keys = tt; replicas = tt })
      (bootstrap_partitions-All s count n (omega arith))

pub bootstrap_partitions-IsPartitions :
    (s : Servers) (count : ℕ)
    → IsPartitions s count (record {
      version = 0;
      assignments_version = 0;
      items = bootstrap_partitions count;
      max_imbalance = 0;
    })
bootstrap_partitions-IsPartitions s count = record {
  items = bootstrap_partitions-All s count count (omega arith);
  dense = λ pid low absent. ground (arith, bootstrap_partitions-lookup count pid low);
}

-- No server is lost or changes its type.
abbrev pub type_at : ℕ → Map ℕ Server → Option ServerType
type_at k m = elim (lookup k m) [ none ↦ none | some x ↦ some x.type ]

abbrev pub Extends : Map ℕ Server → Map ℕ Server → Type 0
Extends m n = (k : ℕ) (t : ServerType) → type_at k m ≡ some t → type_at k n ≡ some t

pub type_at-of_valid :
    (s : Servers) (id : ℕ)
    → is_valid_data_server s id ≡ true
    → type_at id s.items ≡ some ServerType.data_server
type_at-of_valid s id h = elim (Option-cases (lookup id s.items)) [
  | inl e ↦ absurd (ground arith)
  | inr (server, e) ↦ rw (e, type_at) (ground (arith, rw (e, is_valid_data_server) at h))
]

valid-of_type_at :
    (s : Servers) (id : ℕ)
    → type_at id s.items ≡ some ServerType.data_server
    → is_valid_data_server s id ≡ true
valid-of_type_at s id h = ground arith

IsReplica-mono :
    (s t : Servers) {pid last : ℕ} (e : Bytes × Replica)
    → Extends s.items t.items
    → IsReplica s pid last e
    → IsReplica t pid last e
IsReplica-mono s t e more r = record {
  named = r.named;
  numbered = r.numbered;
  placed = valid-of_type_at t e.1.server_id (more _ _ (type_at-of_valid s e.1.server_id r.placed));
}

pub IsPartitions-mono :
    (s t : Servers) {count : ℕ} (p : Partitions)
    → Extends s.items t.items
    → IsPartitions s count p
    → IsPartitions t count p
IsPartitions-mono s t {count} p more v = record {
  items =
      All-mono
        (λ (e : ℕ × Partition) (w : IsPartition s count e). record {
          own = w.own;
          below = w.below;
          keys = w.keys;
          replicas = All-mono (λ b r. IsReplica-mono s t b more r) e.1.replicas w.replicas;
        })
        p.items v.items;
  dense = v.dense;
}

pub absent_of_last :
    (s : Servers) (id : ℕ) → IsServers s → s.last_id < id → lookup id s.items ≡ none
absent_of_last s id v h = elim (Option-cases (lookup id s.items)) [
  | inl e ↦ e
  | inr (x, e) ↦ absurd (
      let low =
        All-lookup (λ (p : ℕ × Server). (p.1.id ≡ p.0) × (p.0 ≤ s.last_id)) id x s.items e v.ids in
      omega (arith, low.1))
]

pub insert-Extends :
    (id : ℕ) (x : Server) (m : Map ℕ Server) → lookup id m ≡ none → Extends m (insert id x m)
insert-Extends id x m e k t h = ground (arith, lookup-insert id k x m, nat_eq.beq_iff id k)

pub present-of_Extends :
    (k : ℕ) (m n : Map ℕ Server) → Extends m n → lookup k m ≢ none → lookup k n ≢ none
present-of_Extends k m n more h absent = elim (Option-cases (lookup k m)) [
  | inl e ↦ h e
  | inr (x, e) ↦
      let found : type_at k n ≡ some x.type = more k x.type (rw (e, type_at) refl) in
      absurd (ground arith)
]
