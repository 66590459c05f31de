-- ===== src/Tests/Tunnel.antt =====
-- A client's tunnel and a server's interface for the gate for WireGuard.
use lvpn.Prelude.{String, ◌≡◌, refl, true, false, none, some, [], ◌∷◌}
use lvpn.Prelude.Int.{ℤ, pos, ◌+ℤ◌}
use lvpn.Money.{whole_coins}
use lvpn.Python.{Leaves, ok, pure, when, ◌>>◌}
use lvpn.Session.Data.{is_active, get_payment}
use lvpn.Manager.{replied, create_session}
use lvpn.Client.Proxy.{deactivate_on_client}
use lvpn.Wireguard.Interface.{Address, ipv4, ipv6, Templates, Machine, Tunnels, here, wg_run_cmd}
use lvpn.Wireguard.Engine.{get_interface_name}
use lvpn.Wireguard.Dump.{gather_wg_data}
use lvpn.Vdp.Objects.{get_manager_url}
use lvpn.Session.World.{Registry}
use lvpn.Session.Store.{save}
use lvpn.Session.Loading.{load}
use lvpn.Session.Creation.{generate}
use lvpn.Session.Activation.{activate}
use lvpn.Session.Contributions.{add_contributions}
use lvpn.Sessions.{find}
use lvpn.Wireguard.Interface.Traces.{Records}
use lvpn.Wireguard.Interface.Server.{setup_interface_server}
use lvpn.Wireguard.Interface.Server.Consistent.{Consistent, setup_interface_server-Consistent}
use lvpn.Client.Tunnel.{activate_on_client, run_loop}
use lvpn.Client.Tunnel.Activated.{Activated, activate_on_client-Activated}
use lvpn.Client.Tunnel.Rounds.{run_loop_lem}
use lvpn.Client.Tunnel.Joining.{Managers, Service, postinit}
use lvpn.Tests.Samples.{client, server, registry, world, unpaid, wg_gate, wg_session, free_space}

abbrev templates : Templates
templates = record {
  unsets_ips = true;
  sets_ip = true;
  creates_interface = true;
  deletes_interface = true;
  sets_interface_up = true;
  sets_route = true;
  sets_nat = true;
  wg_map_privkey = [];
  ignore_wg_key_mismatch = false;
}

abbrev machine : String → Machine
machine key = record {
  is_windows = false;
  succeeds = λ _. true;
  dump = λ _ _. some key;
  key = λ _. "private";
  udp_port = λ _. 40000;
  is_network = λ _. true;
}

abbrev client_machine : Machine
client_machine = machine "private\tclient-key\t40000\toff\n"

abbrev server_machine : Machine
server_machine = machine "private\tserver-key\t40000\toff\n"

abbrev text : Address → String
text (ipv4 n) = "10.0.0.0/29"
text (ipv6 n) = "fd00::/64"

abbrev nothing_run : Tunnels ℤ
nothing_run = record { world = world; commands = [] }

abbrev managers : Managers ℤ
managers = record { rekeyed = λ _ _. (404, unpaid); posts = λ _ _ _ _ _. replied 402 unpaid }

abbrev idle : Service ℤ
idle = record { tunnels = nothing_run; queue = [] }

abbrev managed : Registry ℤ
managed =
    registry (record client { forced = record { url = some "https://manager"; wallet = none } })
      (pos 0)

activated :
    (activate_on_client
      (registry client (pos 0))
      templates
      client_machine
      text
      wg_session
      nothing_run).0
    ≡ ok true
unfolding activate_on_client wg_run_cmd
activated = refl

activate_on_client-Activated_example :
    Records
      (Activated (registry client (pos 0)) templates client_machine text wg_session)
      nothing_run
      (activate_on_client
        (registry client (pos 0))
        templates
        client_machine
        text
        wg_session
        nothing_run)
activate_on_client-Activated_example =
    activate_on_client-Activated (registry client (pos 0)) templates client_machine text wg_session
      nothing_run

set_up :
    (setup_interface_server
      (registry (server []) (pos 0))
      templates
      server_machine
      wg_gate
      nothing_run).0
    ≡ ok true
unfolding setup_interface_server gather_wg_data
set_up = refl

setup_interface_server-Consistent_example :
    Leaves (Consistent (registry (server []) (pos 0)) templates server_machine wg_gate) (
      setup_interface_server
        (registry (server []) (pos 0))
        templates
        server_machine
        wg_gate
        nothing_run)
setup_interface_server-Consistent_example =
    setup_interface_server-Consistent (registry (server []) (pos 0)) templates server_machine
      wg_gate nothing_run

run_loop_lem_example :
    run_loop
      (registry client (pos 0))
      templates
      client_machine
      text
      3
      false
      true
      wg_session
      nothing_run
    ≡ (when (is_active wg_session) (
            activate_on_client (registry client (pos 0)) templates client_machine text wg_session
            >> pure tt)
          >> when true (here (deactivate_on_client (registry client (pos 0)) wg_gate)))
        nothing_run
run_loop_lem_example =
    run_loop_lem (registry client (pos 0)) templates client_machine text wg_session 2 true
      nothing_run

started :
    (postinit
      (managed)
      templates
      client_machine
      managers
      wg_gate
      (some ("p.http" ∷ "p.none" ∷ []))
      free_space
      wg_session
      idle).0
    ≡ ok wg_session
unfolding postinit get_interface_name gather_wg_data find get_manager_url create_session load save
    generate ◌+ℤ◌ activate get_payment add_contributions
started = refl
