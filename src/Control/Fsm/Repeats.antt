-- ===== src/Control/Fsm/Repeats.antt =====
-- A repeated registration: internal/control/server/storage/fsm_register.go.
use scout.Base.{ℕ, ◌≡◌, ◌≤◌, ◌+◌, refl, false, none, some, arith, nat_eq}
use scout.Base.Maps.{lookup, lookup-insert_self}
use scout.Base.Bytes.{Bytes, bytes_eq}
use scout.Control.{Servers}
use scout.Control.Results.{ok}
use scout.Control.Fsm.{Register}
use scout.Control.Fsm.Members.{token_validity_window, is_expired, apply_register}
use scout.Control.Fsm.Invariant.{IsServers}
use scout.Control.Fsm.Invariant.Members.{absent_of_last}
use scout.Control.Fsm.Invariant.Register.{registered_server, registered_servers}

-- A new token gives a server under an identifier that no server has. A later request with this token
-- gets the same identifier and name and changes nothing, as long as the window after the
-- registration lasts.
pub apply_register-apply_register :
    (now later : ℕ) (s : Servers) (cmd again : Register)
    → IsServers s
    → lookup cmd.token s.tokens ≡ none
    → again.token ≡ cmd.token
    → later ≤ now + token_validity_window
    → (t : Servers) × (id : ℕ) × (name : Bytes) × (apply_register now s cmd ≡ ok (t, id, name))
      × (lookup id s.items ≡ none)
      × (apply_register later t again ≡ ok (t, id, name))
unfolding apply_register
apply_register-apply_register now later s cmd again v new same soon =
    let id = s.last_id + 1 in
    let x = registered_server now s cmd in
    let t = registered_servers now s cmd in
    let tokens : lookup cmd.token t.tokens ≡ some id = lookup-insert_self cmd.token id s.tokens in
    let items : lookup id t.items ≡ some x = lookup-insert_self id x s.items in
    let early : is_expired later x ≡ false = ground arith in
    let repeated : apply_register later t again ≡ ok (t, id, x.name) =
      rw (same, tokens, items, early, apply_register) refl in
    (t, id, x.name, rw (new, apply_register) refl, absent_of_last s id v (omega arith), repeated)
