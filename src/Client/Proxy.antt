-- ===== src/Client/Proxy.antt =====
-- The client's proxy service (the class `Proxy` of client/proxy.py): its connections and the
-- processes that serve them.
pub mod Connecting
pub mod Keeping
pub mod Reached
pub mod Refreshing
pub mod Serving
pub mod Disconnect
pub mod Gone
use lvpn.Prelude.{
  ℕ, zero, suc, ◌+◌, String, Bool, true, false, Option, none, some, List, [], ◌∷◌, ◌++◌, not, ◌&&◌,
  ◌==◌, is_some, str_eq, if◌then◌else◌,
}
use lvpn.Python.{
  Result, Exec, ok, err, pure, raise, lift, gets, modify, when, or_raise, attribute_error,
  key_error, type_error, recursion_error, proxy_error, service_error, ◌>>=◌, ◌>>◌,
}
use lvpn.Money.{Money}
use lvpn.Vdp.Objects.{Gate, is_wg, gate_id}
use lvpn.Session.Data.{Session, is_active}
use lvpn.Session.World.{World, Registry, token_hex, time_time}
use lvpn.Wireguard.Engine.{get_interface_name, engine_remove_peer}
use lvpn.Sessions.{get}
use lvpn.Client.Connections.{Connection, is_connected, add, remove, find_by_gateid}
use lvpn.Client.Connections as C

-- What serves a connection: nothing of its own, a `Popen` or a `Process`, by their numbers.
pub data Child : Type 0 where
  nothing : Child
  popen forked : ℕ → Child

abbrev pub same_child : Child → Child → Bool
same_child (popen a) (popen b) = a == b
same_child (forked a) (forked b) = a == b
same_child _ _ = false

-- An element of `processes`.
pub record Entry : Type 0 where
  pub process : Child
  pub connectionid : String

-- The options that the service reads, and what the host answers.
pub record Options : Type 0 where
  pub auto_reconnect : ℕ
  -- `auto_run_browser`, as it was given
  pub auto_run_browser : String
  pub ssh_engine : String
  pub connect_and_exit : Bool
  pub port_is_free : ℕ → Bool
  -- the nth answer of `find_free_port`
  pub free_ports : ℕ → ℕ
  -- whether the ssh command starts, by the session's id; it may lack the session's data
  pub ssh_starts : String → Bool
  -- the `host` and `port` of a gate's `http-proxy` entry
  pub proxy_data : String → String × ℕ

pub record ProxyState (A : Type 0) : Type 0 where
  pub world : World A
  pub connections : List Connection
  -- `ctrl["connections"]`, which the other processes read
  pub published : List Connection
  pub processes : List Entry
  pub killed : List Child
  -- how many processes were started, and how many ports were looked for
  pub started : ℕ
  pub ports : ℕ
  -- the browsers that were started: a host, a port and whether they are anonymous
  pub browsers : List (String × Option ℕ × Bool)
  -- how many messages for the user were queued, and the sessions that the service asks itself to
  -- connect
  pub popups : ℕ
  pub inbox : List String

-- A child of another process cannot be killed, which is passed over.
abbrev kill : Child → List Child → List Child
kill nothing killed = killed
kill p killed = killed ++ p ∷ []

module _ {A : Type 0} where
  abbrev pub in_world : {X : Type 0} → Exec (World A) X → Exec (ProxyState A) X
  in_world m s = let (r, w) = m s.world in (r, record s { world = w })

  -- `update_connections`
  abbrev pub update_connections : Exec (ProxyState A) (Unit {0})
  update_connections s = (ok tt, record s { published = s.connections })

  -- `WGClientService.deactivate_on_client`, for the session's gate.
  unfoldable pub deactivate_on_client : Registry A → Gate A → Exec (World A) (Unit {0})
  unfolding get_interface_name engine_remove_peer
  deactivate_on_client reg gate = do
    iface ← lift (get_interface_name reg (gate_id gate))
    own ← or_raise gate.wg_data type_error
    engine_remove_peer reg iface own.public_key

  -- Only a connection of a gate for WireGuard takes its peer out.
  pub release : Registry A → Connection → Exec (ProxyState A) (Unit {0})
  unfolding deactivate_on_client
  release reg c = do
    gate ← or_raise (reg.get_gate c.gateid) attribute_error
    when (is_wg gate.type) (in_world (deactivate_on_client reg gate))

  pub drop : Entry → Exec (ProxyState A) (Unit {0})
  drop e = do
    modify (λ s. record s {
      killed = kill e.process s.killed;
      connections = remove e.connectionid s.connections;
    })
    update_connections

  disconnect_children :
      (String → Exec (ProxyState A) Bool) → List String → Exec (ProxyState A) (Unit {0})
  disconnect_children call [] = pure tt
  disconnect_children call (id ∷ ids) = do call id; disconnect_children call ids

  -- The part of `disconnect` for a connection that is there.
  release_found :
      Registry A
      → (String → Exec (ProxyState A) Bool)
      → Option Connection
      → Exec (ProxyState A) (Unit {0})
  unfolding release disconnect_children
  release_found reg call none = pure tt
  release_found reg call (some c) = do release reg c; disconnect_children call c.children

  -- The loop over `processes`, which `disconnect` leaves as they are.
  disconnect_in :
      Registry A
      → (String → Exec (ProxyState A) Bool)
      → String
      → List Entry
      → Exec (ProxyState A) (Unit {0})
  unfolding release_found drop
  disconnect_in reg call id [] = pure tt
  disconnect_in reg call id (e ∷ es) = do
    when (str_eq e.connectionid id)
        (do found ← gets (λ s. C.get id s.connections); release_found reg call found; drop e)
    disconnect_in reg call id es

  -- It calls itself for the children, up to Python's limit on recursion, and always returns `False`.
  unfoldable pub disconnect : ℕ → Registry A → String → Exec (ProxyState A) Bool
  unfolding disconnect_in
  disconnect zero reg id = raise recursion_error
  disconnect (suc depth) reg id = do
    processes ← gets (λ s. s.processes)
    disconnect_in reg (disconnect depth reg) id processes
    pure false
