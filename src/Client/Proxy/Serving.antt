-- ===== src/Client/Proxy/Serving.antt =====
-- The messages that the client's proxy service takes: the loop of `Proxy` (client/proxy.py).
use lvpn.Prelude.{ℕ, String, Bool, true, false, List, [], ◌∷◌, ◌++◌, not, str_eq, if◌then◌else◌}
use lvpn.Python.{
  Exec, pure, modify, when, or_raise, attribute_error, key_error, plain_error, ◌>>=◌, ◌>>◌,
}
use lvpn.Money.{Money}
use lvpn.Vdp.Objects.{GateType, http_proxy}
use lvpn.Session.World.{Registry}
use lvpn.Client.Connections.{Connection, add}
use lvpn.Sessions.{get}
use lvpn.Client.Proxy.{in_world, nothing, Options, ProxyState, update_connections, disconnect}
use lvpn.Client.Proxy.Connecting.{connect}

-- What is in the queue: messages with a session's id, a connection's id or a connection.
pub data Request : Type 0 where
  exit_request other_request : Request
  connect_request disconnect_request : String → Request
  connected_info : Connection → Request

abbrev serves_http : GateType → Bool
serves_http http_proxy = true
serves_http _ = false

-- `parent.add_children(...)`, which changes the first connection with the id where it stands.
adopt_by : String → Connection → List Connection → List Connection
adopt_by parent c [] = []
adopt_by parent c (p ∷ ps) =
    if str_eq p.connectionid parent
    then record p { children = p.children ++ c.connectionid ∷ [] } ∷ ps
    else p ∷ adopt_by parent c ps

-- An empty parent is none.
pub adopt : String → Connection → List Connection → List Connection
unfolding adopt_by
adopt parent c conns = if str_eq parent "" then conns else adopt_by parent c conns

module _ {A : Type 0} where
  -- Here the option `no` keeps the browser away.
  show_connected : Options → GateType → Connection → Exec (ProxyState A) (Unit {0})
  show_connected opts type c =
      when (if serves_http type then not (str_eq opts.auto_run_browser "no") else false) (
        modify (λ s. record s {
          browsers =
              s.browsers ++ ("127.0.0.1", c.port, str_eq opts.auto_run_browser "incognito") ∷ [];
        }))

  -- The connection was made by another process, which is not this service's child.
  keep_info : String → Connection → Exec (ProxyState A) (Unit {0})
  unfolding adopt
  keep_info parent c = modify (λ s. record s {
    connections = add c (adopt parent c s.connections);
    processes = s.processes ++ record { process = nothing; connectionid = c.connectionid } ∷ [];
  })

module _ {A : Type 0} ⦃m : Money A⦄ (opts : Options) (reg : Registry A) (depth : ℕ) where
  -- Making the connection loads its session, and `get_parent` needs its key.
  take_info : Connection → Exec (ProxyState A) (Unit {0})
  unfolding keep_info show_connected
  take_info c = do
    found ← in_world (get reg c.sessionid)
    or_raise found plain_error
    parent ← or_raise c.parent key_error
    keep_info parent (record c { host = "127.0.0.1" })
    gate ← or_raise (reg.get_gate c.gateid) attribute_error
    show_connected opts gate.type c

  -- Whether the message ends the loop.
  take_request : Request → Exec (ProxyState A) Bool
  unfolding take_info
  take_request exit_request = pure true
  take_request (connect_request id) = do connect opts reg depth id; pure false
  take_request (disconnect_request id) = do disconnect depth reg id; pure false
  take_request (connected_info c) = do take_info c; pure false
  take_request other_request = pure false

  -- The loop over its messages; the list of connections is published before each of them.
  unfoldable pub serve_requests : List Request → Exec (ProxyState A) (Unit {0})
  unfolding take_request
  serve_requests [] = pure tt
  serve_requests (q ∷ qs) = do
    update_connections
    ends ← take_request q
    let rest = serve_requests qs
    if ends then pure tt else rest
