-- ===== src/Client/Tunnel.antt =====
-- The client's service for a WireGuard gate (client/wg_service.py): its interface and its peer.
pub mod Running
pub mod Activated
pub mod Joining
pub mod Rounds
use lvpn.Prelude.{
  ℕ, zero, suc, String, Bool, true, false, Option, none, some, List, [], ◌∷◌, ◌++◌, not, ◌&&◌,
  if◌then◌else◌,
}
use lvpn.Python.{
  Error, Result, Exec, ok, err, pure, raise, lift, gets, when, or_raise, type_error, key_error,
  value_error, service_error, ◌>>=◌, ◌>>◌,
}
use lvpn.Vdp.Objects.{Gate, WgGate, gate_id}
use lvpn.Session.Data.{Session, WgSession, is_active}
use lvpn.Session.World.{World, Registry}
use lvpn.Wireguard.Engine.{get_interface_name}
use lvpn.Wireguard.Dump.{Interface, Dump}
use lvpn.Client.Proxy.{deactivate_on_client}
use lvpn.Wireguard.Interface.{
  Address, ipv4, ipv6, Templates, Machine, Tunnels, here, logged, attempted, get_private_key,
  set_interface_ip, set_interface_up, create_wg_interface, delete_wg_interface, add_route,
  add_client_peer, gather,
}

module _ {A : Type 0} (reg : Registry A) (t : Templates) (m : Machine) where
  create : String → String → ℕ → Exec (Tunnels A) (Unit {0})
  unfolding get_private_key create_wg_interface
  create iface gateid port = do
    private ← get_private_key reg t m gateid
    create_wg_interface reg t m iface private port

  -- The interface may be there already, and then it can be read.
  read_instead : String → Exec (Tunnels A) (Unit {0})
  unfolding gather attempted
  read_instead iface s =
      attempted ((gather reg t m iface >>= λ d. pure tt) s) (raise (service_error 4))

  -- The second test of `enable_wg` is never false.
  unfoldable pub setup_interface_client : String → Session A → Exec (Tunnels A) Bool
  unfolding create read_instead attempted
  setup_interface_client iface session =
      if reg.cfg.enable_wg
      then (do
        port ← gets (λ s. m.udp_port s.commands)
        (λ s. attempted (create iface (gate_id session.gate) port s) (read_instead iface))
        pure true)
      else pure false

  unfoldable pub deactivate_interface_client : String → Exec (Tunnels A) Bool
  unfolding delete_wg_interface
  deactivate_interface_client iface =
      if reg.cfg.enable_wg then (do delete_wg_interface reg t m iface; pure true) else pure false

  -- The `public_key` of the request; its `endpoint` is always `dynamic`.
  unfoldable pub prepare_session_request : String → Exec (Tunnels A) (Option String)
  unfolding gather
  prepare_session_request iface =
      if reg.cfg.enable_wg
      then (do
        gathered ← gather reg t m iface
        i ← or_raise gathered.iface type_error
        pure (some i.public))
      else pure none

  -- A session without an address of its own has `None`, which is no address.
  unfoldable pub assign_addresses : String → WgSession → Option WgGate → Exec (Tunnels A) (Unit {0})
  unfolding set_interface_ip
  assign_addresses iface peer wg_data = do
    address ← or_raise peer.client_ipv4_address value_error
    own ← or_raise wg_data type_error
    set_interface_ip reg t m iface (ipv4 address) (ipv4 own.ipv4_network) true
    network ← or_raise own.ipv6_network key_error
    set_interface_ip reg t m iface (ipv6 peer.client_ipv6_address) (ipv6 network) false

  -- A route that cannot be added is only logged.
  unfoldable pub add_routes : String → Option Address → List String → Exec (Tunnels A) (Unit {0})
  unfolding add_route logged
  add_routes iface gateway [] = pure tt
  add_routes iface gateway (net ∷ nets) = do
    to ← or_raise gateway key_error
    (λ s. logged (add_route reg t m iface net to s))
    add_routes iface gateway nets

abbrev second_gateway : Option ℕ → Option Address
second_gateway none = none
second_gateway (some gateway) = some (ipv6 gateway)

-- The networks of the gate and then those of the space. `text` writes an address with its prefix.
abbrev pub second_network : (Address → String) → Option ℕ → List String
second_network text none = []
second_network text (some network) = text (ipv6 network) ∷ []

module _ {A : Type 0} (reg : Registry A) (t : Templates) (m : Machine)
    (text : Address → String) where
  abbrev pub allowed : Session A → WgGate → List String
  allowed session own =
      (text (ipv4 own.ipv4_network) ∷ second_network text own.ipv6_network)
      ++ session.space.ipv4_networks
      ++ session.space.ipv6_networks

  -- Nothing stops the call where WireGuard is not enabled.
  unfoldable pub activate_on_client : Session A → Exec (Tunnels A) Bool
  unfolding get_interface_name assign_addresses logged set_interface_up add_routes add_client_peer
  activate_on_client session = do
    iface ← lift (get_interface_name reg (gate_id session.gate))
    peer ← or_raise session.wg type_error
    (λ s. logged (assign_addresses reg t m iface peer session.gate.wg_data s))
    set_interface_up reg t m iface
    own ← or_raise session.gate.wg_data type_error
    add_routes reg t m iface (some (ipv4 own.ipv4_gateway)) session.space.ipv4_networks
    add_routes reg t m iface (second_gateway own.ipv6_gateway) session.space.ipv6_networks
    add_client_peer reg t m iface own.public_key (allowed session own) own.endpoint peer.psk
    pure true

  -- The loop for so many rounds until the service is told to exit: `sactive` is set once the peer
  -- is there.
  rounds : ℕ → Bool → Session A → Exec (Tunnels A) (Unit {0})
  unfolding activate_on_client
  rounds zero sactive session = pure tt
  rounds (suc n) sactive session =
      if not sactive && is_active session
      then (do activate_on_client session; rounds n true session)
      else rounds n sactive session

  -- Without `connect_and_exit`, and with `wg_shutdown_on_disconnect` as given.
  unfoldable pub run_loop : ℕ → Bool → Bool → Session A → Exec (Tunnels A) (Unit {0})
  unfolding rounds deactivate_on_client
  run_loop n connect_and_exit shutdown session =
      if connect_and_exit
      then pure tt
      else (do rounds n false session; when shutdown (here (deactivate_on_client reg session.gate)))
