-- ===== src/Control/Fsm/Invariant/Register.antt =====
-- The registration of a server keeps the cluster well formed, and answers a repeated request as
-- before (internal/control/server/storage/fsm_register.go).
use scout.Base.{
  ℕ, ◌≡◌, ◌≢◌, ◌≤◌, ◌+◌, refl, none, some, arith, inl, inr, Bool-cases, Option-cases, nat_eq,
}
use scout.Base.Lists.{All-mono}
use scout.Base.Maps.{lookup, insert, lookup-insert_self, All-insert, All-lookup}
use scout.Base.Bytes.{Bytes, bytes_eq}
use scout.Control.{Server, Servers}
use scout.Control.Names.{server_name}
use scout.Control.Results.{Ensures}
use scout.Control.Fsm.{Register}
use scout.Control.Fsm.Members.{is_expired, apply_register}
use scout.Control.Fsm.Invariant.{IsServers}
use scout.Control.Fsm.Invariant.Members.{
  Extends, absent_of_last, insert-Extends, present-of_Extends,
}

abbrev GoodId : Servers → ℕ × Server → Type 0
GoodId s p = (p.1.id ≡ p.0) × (p.0 ≤ s.last_id)

abbrev pub registered_server : ℕ → Servers → Register → Server
registered_server now s cmd = record {
  id = s.last_id + 1;
  name = server_name cmd.type (s.last_id + 1);
  type = cmd.type;
  tags = cmd.tags;
  registered_at = now;
  last_seen = now;
  last_address = cmd.address;
}

abbrev pub registered_servers : ℕ → Servers → Register → Servers
registered_servers now s cmd = record s {
  last_id = s.last_id + 1;
  items = insert (s.last_id + 1) (registered_server now s cmd) s.items;
  tokens = insert cmd.token (s.last_id + 1) s.tokens;
  register_version = s.register_version + 1;
  version = s.version + 1;
}

-- What a registration leaves: servers that are well formed, none lost, and the answer for the name.
abbrev pub Registered : Servers → Servers × ℕ × Bytes → Type 0
Registered s (t, id, name) =
    IsServers t
    × Extends s.items t.items
    × ((server : Server) × (lookup id t.items ≡ some server) × (server.name ≡ name))

pub apply_register-Ensures :
    (now : ℕ) (s : Servers) (cmd : Register)
    → IsServers s
    → Ensures (apply_register now s cmd) (Registered s)
unfolding apply_register
apply_register-Ensures now s cmd v = elim (Option-cases (lookup cmd.token s.tokens)) [
  | inr (id, e) ↦ elim (Option-cases (lookup id s.items)) [
    | inl gone ↦ absurd (
        All-lookup (λ (p : Bytes × ℕ). lookup p.1 s.items ≢ none) cmd.token id s.tokens e v.tokens
          gone)
    | inr (server, there) ↦ elim (Bool-cases (is_expired now server)) [
      | inl late ↦ rw (e, there, late, apply_register) refl
      | inr early ↦ rw (e, there, early, apply_register) (v, (λ k t h. h), (server, there, refl))
    ]
  ]
  | inl e ↦
      let id = s.last_id + 1 in
      let fresh = absent_of_last s id v (omega arith) in
      let x = registered_server now s cmd in
      let more = insert-Extends id x s.items fresh in
      rw (e, apply_register)
        (
          record {
            ids =
                All-insert _ id x s.items (refl, omega arith)
                  (All-mono (λ (p : ℕ × Server) (h : GoodId s p). (h.0, omega (arith, h.1))) s.items
                    v.ids);
            tokens =
                All-insert (λ (p : Bytes × ℕ). lookup p.1 (insert id x s.items) ≢ none) cmd.token id
                  s.tokens (λ gone. ground (arith, lookup-insert_self id x s.items))
                  (All-mono
                    (λ (p : Bytes × ℕ) h.
                      present-of_Extends p.1 s.items (insert id x s.items) more h)
                    s.tokens v.tokens);
          },
          more,
          (x, lookup-insert_self id x s.items, refl),
        )
]
