-- ===== src/Client/Proxy/Connecting.antt =====
-- `Proxy.connect` (client/proxy.py), for a gate of each type.
pub mod Single
pub mod Routes
use Prim.Native.String.{◌++◌ as text_append}
use lvpn.Prelude.{
  ℕ, zero, suc, ◌+◌, String, Bool, true, false, Option, none, some, List, [], ◌∷◌, ◌++◌, not, ◌&&◌,
  str_eq, if◌then◌else◌,
}
use lvpn.Python.{
  Result, Exec, ok, err, pure, raise, lift, gets, modify, when, or_raise, attribute_error,
  type_error, proxy_error, service_error, ◌>>=◌, ◌>>◌,
}
use lvpn.Money.{Money}
use lvpn.Vdp.Objects.{
  GateType, http_proxy, socks_proxy, daemon_rpc_proxy, daemon_p2p_proxy, ssh, wg, other, Gate,
  Space, is_wg, gate_id, space_id, is_for_space,
}
use lvpn.Session.Data.{Session}
use lvpn.Session.World.{World, Registry, token_hex, time_time}
use lvpn.Sessions.{get}
use lvpn.Wireguard.Engine.{get_interface_name}
use lvpn.Client.Connections.{Connection, is_connected, add, find_by_gateid}
use lvpn.Client.Proxy.{
  Child, popen, forked, Entry, Options, ProxyState, in_world, update_connections, disconnect,
}

-- `Gateway.get_local_port`, for the gates that a TLS proxy serves
preferred : GateType → ℕ
preferred http_proxy = 8080
preferred daemon_rpc_proxy = 48782
preferred daemon_p2p_proxy = 48772
preferred _ = 8081

abbrev is_http : GateType → Bool
is_http http_proxy = true
is_http _ = false

module _ {A : Type 0} where
  -- `Process(...).start()` or `Popen(...)`
  start : Exec (ProxyState A) ℕ
  start s = (ok s.started, record s { started = s.started + 1 })

  keep : Child → String → Exec (ProxyState A) (Unit {0})
  keep child id = modify (λ s. record s {
    processes = s.processes ++ record { process = child; connectionid = id } ∷ [];
  })

  spawn : (ℕ → Child) → String → Exec (ProxyState A) (Unit {0})
  unfolding start keep
  spawn kind id = do number ← start; keep (kind number) id

  abbrev pub join : Connection → Exec (ProxyState A) (Unit {0})
  join c = do modify (λ s. record s { connections = add c s.connections }); update_connections

  free_port : Options → Exec (ProxyState A) ℕ
  free_port opts s = (ok (opts.free_ports s.ports), record s { ports = s.ports + 1 })

  local_port : Options → GateType → Exec (ProxyState A) ℕ
  unfolding free_port preferred
  local_port opts type =
      if opts.port_is_free (preferred type) then pure (preferred type) else free_port opts

  -- `Connection(session, port=...)`
  pub new_connection : Session A → Option ℕ → Exec (ProxyState A) Connection
  new_connection s port = do
    id ← in_world (token_hex 8)
    in_world time_time
    pure (record {
      connectionid = text_append "c-" id;
      sessionid = s.sessionid;
      gateid = gate_id s.gate;
      spaceid = space_id s.space;
      host = "127.0.0.1";
      port = port;
      parent = none;
      children = [];
    })

  -- The browser is started whatever the option says, short of an empty text.
  pub start_browser : Options → Connection → Exec (ProxyState A) (Unit {0})
  start_browser opts c = when (not (str_eq opts.auto_run_browser "")) (
      modify (λ s. record s {
        browsers = s.browsers ++ (c.host, c.port, str_eq opts.auto_run_browser "incognito") ∷ [];
      }))

  pub popup : Exec (ProxyState A) (Unit {0})
  popup = modify (λ s. record s { popups = s.popups + 1 })

module _ {A : Type 0} ⦃m : Money A⦄ (opts : Options) (reg : Registry A) where
  parent_id : Option String → String
  parent_id none = "False"
  parent_id (some id) = id

  -- Below a WireGuard session the proxy is the gate's own.
  placed : Gate A → Option (Session A) → Connection → Connection
  placed gate none c = c
  placed gate (some parent) c =
      if is_wg parent.gate.type && is_http gate.type
      then record c {
        host = (opts.proxy_data (gate_id gate)).0;
        port = some (opts.proxy_data (gate_id gate)).1;
      }
      else c

  serve : Gate A → Connection → Exec (ProxyState A) (Option Bool)
  unfolding start_browser
  serve gate c = do join c; when (is_http gate.type) (start_browser opts c); pure none

  run_tls_proxy : Session A → ℕ → Exec (ProxyState A) Connection
  unfolding new_connection spawn
  run_tls_proxy s port = do c ← new_connection s (some port); spawn forked c.connectionid; pure c

  connect_tls : Gate A → Session A → Exec (ProxyState A) (Option Bool)
  unfolding local_port run_tls_proxy parent_id placed serve
  connect_tls gate s = do
    port ← local_port opts gate.type
    c ← run_tls_proxy s port
    parent ← in_world (get reg (parent_id s.parent))
    serve gate (placed gate parent c)

  -- With the `ssh` command nothing is kept if the client only connects and exits.
  connect_ssh : Session A → Exec (ProxyState A) (Option Bool)
  unfolding new_connection start keep spawn popup
  connect_ssh s = do
    c ← new_connection s none
    if str_eq opts.ssh_engine "ssh"
        then (if opts.ssh_starts s.sessionid
            then (do
              number ← start
              if opts.connect_and_exit
                  then pure none
                  else (do keep (popen number) c.connectionid; join c; pure none))
            else (do popup; pure (some false)))
        else (do spawn forked c.connectionid; join c; pure none)

  -- A gate without its `wg` entry fails behind the start of the process.
  connect_wg : Gate A → Session A → Exec (ProxyState A) (Option Bool)
  unfolding new_connection start keep get_interface_name
  connect_wg gate s = do
    c ← new_connection s none
    number ← start
    own ← or_raise gate.wg_data type_error
    name ← lift (get_interface_name reg (gate_id gate))
    keep (forked number) c.connectionid
    join c
    pure none

  connect_type : GateType → Gate A → Session A → Exec (ProxyState A) (Option Bool)
  unfolding connect_tls connect_ssh connect_wg
  connect_type ssh gate s = connect_ssh s
  connect_type wg gate s = connect_wg gate s
  connect_type (other _) gate s = pure none
  connect_type http_proxy gate s = connect_tls gate s
  connect_type socks_proxy gate s = connect_tls gate s
  connect_type daemon_rpc_proxy gate s = connect_tls gate s
  connect_type daemon_p2p_proxy gate s = connect_tls gate s

  disconnect_found : ℕ → Option String → Exec (ProxyState A) (Unit {0})
  disconnect_found depth none = pure tt
  disconnect_found depth (some id) = do disconnect depth reg id; pure tt

  -- A connection of the gate that this one replaces goes first. An empty text is none.
  replace : ℕ → Option String → Exec (ProxyState A) (Unit {0})
  unfolding disconnect_found
  replace depth none = pure tt
  replace depth (some gateid) =
      when (not (str_eq gateid ""))
        (do old ← gets (λ s. find_by_gateid gateid s.connections); disconnect_found depth old)

  connect_session : ℕ → Session A → Exec (ProxyState A) (Option Bool)
  unfolding replace connect_type
  connect_session depth s = do
    gate ← or_raise (reg.get_gate (gate_id s.gate)) attribute_error
    space ← or_raise (reg.get_space (space_id s.space)) attribute_error
    if is_for_space gate (space_id space)
        then (do replace depth gate.replaces; connect_type gate.type gate s)
        else raise proxy_error

  connect_found : ℕ → Option (Session A) → Exec (ProxyState A) (Option Bool)
  unfolding connect_session
  connect_found depth none = pure (some false)
  connect_found depth (some s) = do
    connected ← gets (λ v. is_connected (gate_id s.gate) (space_id s.space) v.connections)
    if connected then pure (some true) else connect_session depth s

  unfoldable pub connect : ℕ → String → Exec (ProxyState A) (Option Bool)
  unfolding connect_found
  connect depth sessionid = do s ← in_world (get reg sessionid); connect_found depth s
