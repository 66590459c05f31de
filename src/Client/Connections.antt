-- ===== src/Client/Connections.antt =====
-- The class `Connections` (client/connection.py).
pub mod Check
pub mod Ports
use lvpn.Prelude.{
  ℕ, zero, suc, ◌+◌, String, Bool, true, false, Option, none, some, List, [], ◌∷◌, ◌++◌, not, ◌&&◌,
  ◌||◌, ltb, any, find, select, length, ◌==◌, map, str_eq, if◌then◌else◌,
}
use lvpn.Python.{Result, Exec, ok, err, os_error}
use lvpn.Vdp.Objects.{GateType, http_proxy, socks_proxy, daemon_rpc_proxy, is_wg}

-- What is read of a connection: its own id, its session's, those of its gate and space, where its
-- proxy listens, and its parent and children.
pub record Connection : Type 0 where
  pub connectionid : String
  pub sessionid : String
  pub gateid : String
  pub spaceid : String
  pub host : String
  pub port : Option ℕ
  pub parent : Option String
  pub children : List String

unfoldable pub get : String → List Connection → Option Connection
get id conns = find (λ c. str_eq c.connectionid id) conns

unfoldable pub is_connected : String → String → List Connection → Bool
is_connected gateid spaceid conns =
    any (λ c. str_eq c.gateid gateid && str_eq c.spaceid spaceid) conns

pub get_by_sessionid : String → List Connection → Option Connection
get_by_sessionid sessionid conns = find (λ c. str_eq c.sessionid sessionid) conns

unfoldable pub add : Connection → List Connection → List Connection
add c conns = conns ++ c ∷ []

-- The loop goes over a copy: every connection with the id is taken out.
unfoldable pub remove : String → List Connection → List Connection
remove id conns = select (λ c. not (str_eq c.connectionid id)) conns

abbrev id_of : Option Connection → Option String
id_of none = none
id_of (some c) = some c.connectionid

pub find_by_gateid : String → List Connection → Option String
find_by_gateid gateid conns = id_of (find (λ c. str_eq c.gateid gateid) conns)

-- A port of 0 is no port.
has_port : ℕ → Option ℕ → Bool
has_port port none = false
has_port port (some p) = not (p == 0) && p == port

pub find_by_port : ℕ → List Connection → Option String
unfolding has_port
find_by_port port conns = id_of (find (λ c. has_port port c.port) conns)

abbrev pub get_elem? : List Connection → ℕ → Option Connection
get_elem? [] i = none
get_elem? (c ∷ cs) zero = some c
get_elem? (c ∷ cs) (suc i) = get_elem? cs i

-- How `connect` to the local port of a proxy ends.
pub data SocketEnd : Type 0 where
  opened timed_out refused : SocketEnd

-- What the check of one connection reads: for how many seconds it has been there, its port, the type of
-- its gate, and what the network answers: the status of the request through the proxy (`none` is a
-- `RequestException`), the end of `connect`, and whether the server is alive by its ping (`none` is any
-- exception).
pub record Probe : Type 0 where
  pub duration : ℕ
  pub port : Option ℕ
  pub gate_type : GateType
  pub status : Option ℕ
  pub socket : SocketEnd
  pub ping : Option Bool

has_status : ℕ → Option ℕ → Bool
has_status expected none = false
has_status expected (some status) = status == expected

-- Only the `TimeoutError` of a socket is caught.
by_socket : SocketEnd → Result Bool
by_socket opened = ok true
by_socket timed_out = ok false
by_socket refused = err os_error

by_gate : GateType → Probe → Result Bool
unfolding has_status by_socket
by_gate http_proxy p = ok (has_status 200 p.status)
by_gate socks_proxy p = ok (has_status 200 p.status)
by_gate daemon_rpc_proxy p = ok (has_status 404 p.status)
by_gate _ p = by_socket p.socket

by_ping : Option Bool → Bool
by_ping none = false
by_ping (some b) = b

by_port : Bool → Option ℕ → Probe → Result Bool
unfolding by_gate by_ping
by_port enable_wg (some (suc port)) p = by_gate p.gate_type p
by_port enable_wg _ p = ok (not (is_wg p.gate_type) || (enable_wg && by_ping p.ping))

-- `Connection.check_alive`: new connections are given 90 seconds.
unfoldable pub check_connection : Bool → Probe → Result Bool
unfolding by_port
check_connection enable_wg p = if ltb p.duration 90 then ok true else by_port enable_wg p.port p

-- `for c in self._data: if not c.check_alive(): self.remove(...)`: the loop goes by the position in
-- the list that is being changed. `answers` is what the connections' own checks answer or raise.
unfoldable pub check_one :
    (Connection → Result Bool)
    → Exec (List Connection) (Unit {0})
    → Option Connection
    → Exec (List Connection) (Unit {0})
unfolding remove
check_one answers next none conns = (ok tt, conns)
check_one answers next (some c) conns = elim (answers c) [
  | ok alive ↦ next (if alive then conns else remove c.connectionid conns)
  | err e ↦ (err e, conns)
]

unfoldable pub check_from : (Connection → Result Bool) → ℕ → ℕ → Exec (List Connection) (Unit {0})
unfolding check_one
check_from answers zero i conns = (ok tt, conns)
check_from answers (suc fuel) i conns =
    check_one answers (check_from answers fuel (suc i)) (get_elem? conns i) conns

-- The list does not grow, so there are at most as many rounds as it has members.
unfoldable pub check_alive : (Connection → Result Bool) → Exec (List Connection) (Unit {0})
unfolding check_from
check_alive answers conns = check_from answers (suc (length conns)) zero conns
