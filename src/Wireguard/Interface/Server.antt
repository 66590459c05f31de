-- ===== src/Wireguard/Interface/Server.antt =====
-- `WGServerService.setup_interface_server` (server/wg_service.py).
pub mod Consistent
use lvpn.Prelude.{
  ℕ, String, Bool, true, false, Option, none, some, List, [], ◌∷◌, not, ◌||◌, str_eq, if◌then◌else◌,
}
use lvpn.Prelude.Text.{split}
use lvpn.Python.{
  Result, Exec, ok, err, pure, lift, gets, or_raise, raise_unless, type_error, key_error,
  service_error, ◌>>=◌, ◌>>◌,
}
use lvpn.Vdp.Objects.{Gate, WgGate, gate_id}
use lvpn.Session.World.{Registry}
use lvpn.Wireguard.Engine.{get_interface_name}
use lvpn.Wireguard.Addresses.{read_digits}
use lvpn.Wireguard.Dump.{Interface, Dump}
use lvpn.Wireguard.Interface.{
  Address, ipv4, ipv6, Templates, Machine, Tunnels, logged, get_private_key, set_interface_ip,
  create_wg_interface, gather,
}

abbrev colon : ℕ
colon = b':'

-- The port of an `endpoint`, if it has one.
endpoint_port : List String → Option ℕ
endpoint_port (host ∷ port ∷ []) = if str_eq port "" then none else read_digits port 0
endpoint_port _ = none

gate_port : Option WgGate → Option ℕ
unfolding endpoint_port
gate_port none = none
gate_port (some own) = endpoint_port (split colon own.endpoint)

port_or_free : Option ℕ → ℕ → ℕ
port_or_free none free = free
port_or_free (some port) free = port

-- The interface's key is the one that clients read in the VPN description.
abbrev pub agrees : WgGate → Interface → Bool
agrees own i = str_eq i.public own.public_key

module _ {A : Type 0} (reg : Registry A) (t : Templates) (m : Machine) where
  server_port : Option WgGate → Exec (Tunnels A) ℕ
  unfolding gate_port port_or_free
  server_port own = do
    commands ← gets (λ s. s.commands)
    pure (port_or_free (gate_port own) (m.udp_port commands))

  set_second_ip : String → WgGate → Option ℕ → Exec (Tunnels A) (Unit {0})
  unfolding set_interface_ip
  set_second_ip iface own none = pure tt
  set_second_ip iface own (some network) = do
    gateway ← or_raise own.ipv6_gateway key_error
    set_interface_ip reg t m iface (ipv6 gateway) (ipv6 network) true

  check_key : WgGate → Option Interface → Exec (Tunnels A) (Unit {0})
  check_key own found =
      if t.ignore_wg_key_mismatch
      then pure tt
      else (do i ← or_raise found type_error; raise_unless (agrees own i) (service_error 10))

  unfoldable pub setup_interface_server : Gate A → Exec (Tunnels A) Bool
  unfolding get_interface_name server_port get_private_key create_wg_interface set_interface_ip
      logged set_second_ip gather check_key
  setup_interface_server gate = do
    iface ← lift (get_interface_name reg (gate_id gate))
    port ← server_port gate.wg_data
    private ← get_private_key reg t m (gate_id gate)
    create_wg_interface reg t m iface private port
    own ← or_raise gate.wg_data type_error
    (λ s.
        logged
          (set_interface_ip reg t m iface (ipv4 own.ipv4_gateway) (ipv4 own.ipv4_network) true s))
    (λ s. logged (set_second_ip iface own own.ipv6_network s))
    gathered ← gather reg t m iface
    check_key own gathered.iface
    pure true
