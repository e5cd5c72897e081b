-- ===== src/Control/Fsm/Invariant/Run.antt =====
-- Every command of internal/control/server/storage/fsm.go keeps a bootstrapped cluster well formed
-- and ends without a panic.
use scout.Base.{
  ℕ, ◌≡◌, ◌+◌, refl, false, not, ◌&&◌, Option, none, some, List, [], ◌∷◌, inl, inr, Bool-cases,
  ◌==◌, nat_eq, subst, sym, if◌then◌else◌,
}
use scout.Base.Lists.{All}
use scout.Control.Results.{
  Result, ok, err, Ensures, Ensures-bind, Ensures-guard, ◌>>=◌, failed_precondition, is_panic,
}
use scout.Control.Fsm.{
  Cluster, Fsm, Bootstrap, UpdateStatus, Command, Payload, bootstrap, register, update_status,
  init_assignments, update_assignments, Response, new_fsm,
}
use scout.Control.Fsm.Assignments.{apply_init_assignments, apply_update_assignments, is_empty_list}
use scout.Control.Fsm.Members.{
  apply_bootstrap, apply_bootstrap_named, apply_register, apply_update_status,
}
use scout.Control.Fsm.Apply.{get_cluster, status_command, apply_payload, apply_command, apply}
use scout.Control.Fsm.Invariant.{IsCluster}
use scout.Control.Fsm.Invariant.Assign.{apply_update_assignments-Ensures}
use scout.Control.Fsm.Invariant.Init.{apply_init_assignments-Ensures}
use scout.Control.Fsm.Invariant.Members.{
  IsPartitions-mono, bootstrap_servers-IsServers, bootstrap_partitions-IsPartitions,
}
use scout.Control.Fsm.Invariant.Register.{Registered, apply_register-Ensures}
use scout.Control.Fsm.Invariant.Status.{Reports, apply_update_status-Ensures}

-- A state machine after its bootstrap, of a cluster with `count` partitions.
pub record Ready (count : ℕ) (f : Fsm) : Type 0 where
  pub cluster : Cluster
  pub there : f.cluster ≡ some cluster
  pub well_formed : IsCluster count cluster
  pub counted : f.partition_count ≡ count
  pub named : is_empty_list f.cluster_name ≡ false

-- What a status report must say.
abbrev pub IsReport : ℕ → Payload → Type 0
IsReport count (update_status x) = Reports count x
IsReport count _ = Unit {0}

with_cluster-Ready :
    {count : ℕ} (f : Fsm) (c : Cluster)
    → Ready count f
    → IsCluster count c
    → Ready count (record f { cluster = some c })
with_cluster-Ready f c r v = record {
  cluster = c;
  there = refl;
  well_formed = v;
  counted = r.counted;
  named = r.named;
}

get_cluster-Ensures :
    {count : ℕ} (f : Fsm) → Ready count f → Ensures (get_cluster f) (IsCluster count)
get_cluster-Ensures f r = rw (r.there, get_cluster) r.well_formed

status_command-Ready :
    (count : ℕ) (f : Fsm) (x : UpdateStatus)
    → Ready count f
    → Reports count x
    → Ensures (status_command f x) (Ready count)
unfolding status_command
status_command-Ready count f x r h =
    elim (Bool-cases (is_empty_list x.servers && is_empty_list x.partitions)) [
      | inl e ↦ rw (e, status_command) r
      | inr e ↦
          rw (e, status_command)
            (Ensures-bind (IsCluster count) (Ready count) (get_cluster f) _
              (get_cluster-Ensures f r)
              (λ c v.
                Ensures-bind (IsCluster count) (Ready count) (apply_update_status c x) _
                  (apply_update_status-Ensures count c x v h)
                  (λ next w. with_cluster-Ready f next r w)))
    ]

apply_payload-Ready :
    (count now : ℕ) (f : Fsm) (x : Payload)
    → Ready count f
    → IsReport count x
    → Ensures (apply_payload now f x) (λ a. Ready count a.0)
unfolding apply_payload
apply_payload-Ready count now f (bootstrap x) r h = rw (apply_bootstrap_named now f x r.named) r
apply_payload-Ready count now f (register x) r h =
    let Q : Fsm × Response → Type 0 = λ a. Ready count a.0 in
    Ensures-bind (IsCluster count) Q (get_cluster f) _ (get_cluster-Ensures f r) (λ c v.
      Ensures-bind (Registered c.servers) Q (apply_register now c.servers x) _
        (apply_register-Ensures now c.servers x v.servers)
        (λ a w.
          with_cluster-Ready f (record c { servers = a.0 }) r
            (record {
              servers = w.0;
              partitions = IsPartitions-mono c.servers a.0 c.partitions w.1 v.partitions;
            })))
apply_payload-Ready count now f (update_status x) r h =
    let Q : Fsm × Response → Type 0 = λ a. Ready count a.0 in
    Ensures-bind (Ready count) Q (status_command f x) _ (status_command-Ready count f x r h)
      (λ next w. w)
apply_payload-Ready count now f (init_assignments x) r h =
    let Q : Fsm × Response → Type 0 = λ a. Ready count a.0 in
    let n = f.partition_count in
    Ensures-bind (IsCluster count) Q (get_cluster f) _ (get_cluster-Ensures f r) (λ c v.
      Ensures-bind (λ a. IsCluster n a.0) Q (apply_init_assignments n now c x) _
        (apply_init_assignments-Ensures n now c x (subst (λ k. IsCluster k c) (sym r.counted) v))
        (λ a w. with_cluster-Ready f a.0 r (subst (λ k. IsCluster k a.0) r.counted w)))
apply_payload-Ready count now f (update_assignments x) r h =
    let Q : Fsm × Response → Type 0 = λ a. Ready count a.0 in
    let n = f.partition_count in
    Ensures-bind (IsCluster count) Q (get_cluster f) _ (get_cluster-Ensures f r) (λ c v.
      Ensures-bind (λ a. IsCluster n a.0) Q (apply_update_assignments n now c x) _
        (apply_update_assignments-Ensures n c (subst (λ k. IsCluster k c) (sym r.counted) v) now x)
        (λ a w. with_cluster-Ready f a.0 r (subst (λ k. IsCluster k a.0) r.counted w)))

apply_command-Ready :
    (count now : ℕ) (f : Fsm) (cmd : Command)
    → Ready count f
    → IsReport count cmd.payload
    → Ensures (apply_command now f cmd) (λ a. Ready count a.0)
unfolding apply_command
apply_command-Ready count now f cmd r h =
    let Q : Fsm × Response → Type 0 = λ a. Ready count a.0 in
    let outdated = not (cmd.if_match == 0) && not (cmd.if_match == f.version) in
    let rest =
      apply_payload now f cmd.payload >>= λ a. ok (record a.0 { version = a.0.version + 1 }, a.1) in
    Ensures-guard Q outdated failed_precondition rest refl (λ _.
      Ensures-bind Q Q (apply_payload now f cmd.payload) _
        (apply_payload-Ready count now f cmd.payload r h)
        (λ a w. record {
          cluster = w.cluster;
          there = w.there;
          well_formed = w.well_formed;
          counted = w.counted;
          named = w.named;
        }))

-- The answer of `apply` for a result of the command.
abbrev answer : ℕ → Fsm → Result (Fsm × Response) → Option (Fsm × Result Response)
answer index f (ok (next, response)) = some (record next { index = index }, ok response)
answer index f (err e) = if is_panic e then none else some (record f { index = index }, err e)

at_index-Ready :
    {count : ℕ} (index : ℕ) (f : Fsm) → Ready count f → Ready count (record f { index = index })
at_index-Ready index f r = record {
  cluster = r.cluster;
  there = r.there;
  well_formed = r.well_formed;
  counted = r.counted;
  named = r.named;
}

abbrev Answers : ℕ → ℕ → Option (Fsm × Result Response) → Type 0
Answers count index o =
    (a : Fsm × Result Response) × (o ≡ some a) × Ready count a.0 × (a.0.index ≡ index)

answer-Ready :
    (count index : ℕ) (f : Fsm) (m : Result (Fsm × Response))
    → Ready count f
    → Ensures m (λ a. Ready count a.0)
    → Answers count index (answer index f m)
answer-Ready count index f (ok a) r h = (_, refl, at_index-Ready index a.0 h, refl)
answer-Ready count index f (err e) r h = rw (h, answer) (_, refl, at_index-Ready index f r, refl)

apply-Ready :
    (count index now : ℕ) (f : Fsm) (cmd : Command)
    → Ready count f
    → IsReport count cmd.payload
    → Answers count index (apply index now f cmd)
unfolding apply
apply-Ready count index now f cmd r h =
    answer-Ready count index f (apply_command now f cmd) r (apply_command-Ready count now f cmd r h)

-- An entry of the replicated log: its index, its time and its command.
pub record Entry : Type 0 where
  pub index : ℕ
  pub now : ℕ
  pub command : Command

-- The log, applied in order; `none` is a panic.
unfoldable pub run_log : Fsm → List Entry → Option Fsm
run_log f [] = some f
run_log f (x ∷ rest) = elim (apply x.index x.now f x.command) [
  | none ↦ none
  | some a ↦ run_log a.0 rest
]

run_log-Ready :
    (count : ℕ) (f : Fsm) (es : List Entry)
    → Ready count f
    → All (λ (x : Entry). IsReport count x.command.payload) es
    → (g : Fsm) × (run_log f es ≡ some g) × Ready count g
unfolding run_log
run_log-Ready count f [] r h = (f, refl, r)
run_log-Ready count f (x ∷ rest) r h =
    let a = apply-Ready count x.index x.now f x.command r h.0 in
    let later = run_log-Ready count a.0.0 rest a.2 h.1 in
    (later.0, rw (a.1, run_log) later.1, later.2)

bootstrap-Ready :
    (now : ℕ) (cmd : Bootstrap)
    → is_empty_list cmd.cluster_name ≡ false
    → Ready cmd.partition_count (apply_bootstrap now new_fsm cmd).0
unfolding apply_bootstrap
bootstrap-Ready now cmd h = record {
  cluster = _;
  there = refl;
  well_formed = record {
    servers = bootstrap_servers-IsServers now _ cmd.servers (record { ids = tt; tokens = tt }) refl;
    partitions = bootstrap_partitions-IsPartitions _ cmd.partition_count;
  };
  counted = refl;
  named = h;
}

-- A log that begins with the bootstrap of a named cluster never panics, whatever commands follow, if
-- their status reports name partitions of the cluster: in the state it leads to, each partition
-- below the count is there, replicas carry numbered names of their partition and stand on
-- registered data servers, servers carry identifiers up to the last one, and tokens lead to servers.
pub run_log-bootstrap :
    (index now : ℕ) (cmd : Bootstrap) (es : List Entry)
    → is_empty_list cmd.cluster_name ≡ false
    → All (λ (x : Entry). IsReport cmd.partition_count x.command.payload) es
    → let first : Entry = record {
      index = index;
      now = now;
      command = record { if_match = 0; payload = bootstrap cmd };
    } in
      (g : Fsm) × (run_log new_fsm (first ∷ es) ≡ some g) × Ready cmd.partition_count g
unfolding run_log apply apply_command apply_payload
run_log-bootstrap index now cmd es named h =
    let next = (apply_bootstrap now new_fsm cmd).0 in
    let r = bootstrap-Ready now cmd named in
    run_log-Ready cmd.partition_count (record next { version = next.version + 1; index = index }) es
      (record {
        cluster = r.cluster;
        there = r.there;
        well_formed = r.well_formed;
        counted = r.counted;
        named = r.named;
      })
      h
