-- ===== src/Session/Activation.antt =====
-- `Session.activate` (lib/session.py), with `Gateway.activate_server` and `activate_client`
-- (lib/gate.py) and `WGServerService.activate_on_server` (server/wg_service.py).
pub mod Outcome
pub mod Client
use lvpn.Prelude.{
  ℕ, ◌+◌, ◌*◌, String, Bool, true, false, Option, none, some, not, ◌&&◌, str_eq, if◌then◌else◌,
}
use lvpn.Prelude.Int.{ℤ, pos, ◌+ℤ◌}
use lvpn.Python.{
  Exec, pure, lift, raise, gets, or_raise, raise_unless, type_error, process_error, service_error,
  ◌>>=◌, ◌>>◌,
}
use lvpn.Money.{Money}
use lvpn.Clock.{whole_seconds, day}
use lvpn.Vdp.Objects.{
  GateType, http_proxy, socks_proxy, daemon_rpc_proxy, daemon_p2p_proxy, ssh, wg, other, is_wg,
  gate_id, is_tls,
}
use lvpn.Wireguard.Engine.{get_interface_name, engine_add_peer}
use lvpn.Session.Data.{
  Session, WgSession, Credentials, Price, amount, tuple, get_payment, is_active, is_free, days_left,
}
use lvpn.Session.World.{
  World, Registry, issue_ssh, issue_certificate, add_peer, activate_on_client, time_time, emit,
}
use lvpn.Session.Store.{save, run_command}

module _ {A : Type 0} where
  -- `WGServerService.activate_on_server`
  unfoldable pub activate_peer : Registry A → Session A → WgSession → Exec (World A) (Unit {0})
  unfolding get_interface_name engine_add_peer
  activate_peer reg s peer = do
    iface ← lift (get_interface_name reg (gate_id s.gate))
    engine_add_peer reg iface peer

  activate_wg : Registry A → Session A → Exec (World A) (Session A × Bool)
  unfolding activate_peer
  activate_wg reg s = elim s.wg [
    | none ↦ pure (s, false)
    | some peer ↦ (do activate_peer reg s peer; pure (s, true))
  ]

  with_ssh : Session A → Credentials → Session A
  with_ssh s c = record s { data_of = record s.data_of { ssh = some c } }

  with_proxy : Session A → Credentials → Session A
  with_proxy s c = record s { data_of = record s.data_of { proxy = some c } }

  activate_tls : Registry A → Session A → Exec (World A) (Session A × Bool)
  unfolding with_proxy
  activate_tls reg s =
      if is_tls s.gate
      then (do
        now ← time_time
        emit (issue_certificate s.gate.gateid (days_left now s +ℤ pos 1))
        (key, crt) ← or_raise (reg.host.certificate s.gate.gateid) process_error
        pure (with_proxy s (record { key = key; crt = crt; port = none }), true))
      else pure (s, true)

  -- Only a session that is not free is given a port.
  session_port : Registry A → Bool → Option ℕ
  session_port reg free = if free then none else reg.host.random_free_port

module _ {A : Type 0} ⦃m : Money A⦄ where
  activate_ssh : Registry A → Session A → Exec (World A) (Session A × Bool)
  unfolding with_ssh session_port
  activate_ssh reg s = do
    username ← or_raise s.gate.ssh_username type_error
    now ← time_time
    emit (issue_ssh s.sessionid username (days_left now s +ℤ pos 1))
    (key, crt) ← or_raise (reg.host.ssh_credentials s.sessionid) process_error
    let port = session_port reg (is_free s)
    pure (with_ssh s (record { key = key; crt = crt; port = port }), true)

  -- `Gateway.activate_server`, by the type of the gate; `Space.activate_server` returns `True`.
  unfoldable pub activate_server :
      GateType → Registry A → Session A → Exec (World A) (Session A × Bool)
  unfolding activate_ssh activate_tls activate_wg
  activate_server ssh reg s = activate_ssh reg s
  activate_server http_proxy reg s = activate_tls reg s
  activate_server socks_proxy reg s = activate_tls reg s
  activate_server daemon_rpc_proxy reg s = activate_tls reg s
  activate_server daemon_p2p_proxy reg s = activate_tls reg s
  activate_server wg reg s = activate_wg reg s
  activate_server (other _) reg s = pure (s, true)

  -- `Gateway.activate_client` returns `False` or falls off its end, which is false as well.
  activate_client : Session A → Exec (World A) Bool
  activate_client s =
      if is_wg s.gate.type
      then elim s.wg [
        | none ↦ pure false
        | some _ ↦ (do emit (activate_on_client s.sessionid); pure false)
      ]
      else pure false

  prepare : Registry A → Session A → Exec (World A) (Session A × Bool)
  unfolding activate_client
  prepare reg s =
      if reg.cfg.is_server
      then activate_server s.gate.type reg s
      else if reg.cfg.is_client
      then (do done ← activate_client s; pure (s, done))
      else pure (s, true)

  abbrev pub activated_at : Session A → ℕ → Session A
  activated_at s now = record s {
    data_of = record s.data_of { expires = now + s.days * day; activated = now };
  }

  finish : Registry A → ℕ → Session A × Bool → Exec (World A) (Session A × Bool)
  unfolding run_command
  finish reg now (s, false) = pure (s, false)
  finish reg now (s, true) = do
    run_command reg reg.cfg.on_session_activation s
    save (activated_at s now)
    pure (activated_at s now, true)

  -- Comparing an amount with a tuple raises.
  price_amount : Price A → Exec (World A) A
  price_amount (amount p) = pure p
  price_amount (tuple p) = raise type_error

  attempt : Registry A → Session A → A → Exec (World A) (Session A × Bool)
  unfolding prepare finish
  attempt reg s price =
      if m.at_most price (get_payment s.payments) && not (is_active s)
      then (do now ← time_time; prepared ← prepare reg s; finish reg (whole_seconds now) prepared)
      else pure (s, false)

  unfoldable pub activate : Registry A → Session A → Exec (World A) (Session A × Bool)
  unfolding attempt price_amount
  activate reg s = do price ← price_amount s.price; attempt reg s price
