-- ===== src/Tests/Proxy.antt =====
-- Connections of the client's proxy service: a tunnel with a child, and a process that has died.
use lvpn.Prelude.{
  false≢true, ℕ, String, ◌≡◌, refl, inl, inr, Bool, Bool-cases, eq_iff, true, false, none, some, [],
  ◌∷◌, map, not, str_eq, arith, if◌then◌else◌,
}
use lvpn.Prelude.Dict.{member}
use lvpn.Prelude.Int.{ℤ, pos, ◌+ℤ◌}
use lvpn.Session.World.{Row, sql_false}
use lvpn.Sessions.{get, stored}
use lvpn.Session.Loading.{load, contribute}
use lvpn.Session.Contributions.{add_contributions}
use lvpn.Money.{whole_coins}
use lvpn.Session.Data.{Session}
use lvpn.Manager.{HttpReply, ssl_error}
use lvpn.Client.Connections.{
  Connection, Probe, refused, check_connection, check_alive, is_connected, add,
}
use lvpn.Python.{err, os_error}
use lvpn.Vdp.Objects.{ssh}
use lvpn.Client.Proxy.{popen, forked, Options, ProxyState, disconnect}
use lvpn.Client.Proxy.Disconnect.{IsRanked, Goes, disconnect-Goes}
use lvpn.Client.Proxy.Gone.{LeavesGone, disconnect_gone}
use lvpn.Client.Proxy.Connecting.{connect}
use lvpn.Client.Proxy.Serving.{connected_info, exit_request, serve_requests}
use lvpn.Client.Proxy.Connecting.Single.{IsSingle}
use lvpn.Client.Proxy.Connecting.Routes.{connect-IsSingle}
use lvpn.Client.Proxy.Refreshing.{System, refresh_connections}
use lvpn.Client.Proxy.Refreshing.Dead.{EndsRefreshed, has_failed, refresh_connections-Refreshed}
use lvpn.Tests.Samples.{client, registry, world, unpaid, session}

abbrev tunnel : Connection
tunnel = record {
  connectionid = "c-1";
  sessionid = "s-1";
  gateid = "p.http";
  spaceid = "p.free";
  host = "127.0.0.1";
  port = some 8080;
  parent = none;
  children = "c-2" ∷ [];
}

abbrev inner : Connection
inner = record tunnel {
  connectionid = "c-2";
  gateid = "p.inner";
  parent = some "c-1";
  children = [];
}

abbrev options : Options
options = record {
  auto_reconnect = 10;
  auto_run_browser = "no";
  ssh_engine = "ssh";
  connect_and_exit = false;
  port_is_free = λ _. true;
  free_ports = λ _. 20000;
  ssh_starts = λ _. true;
  proxy_data = λ _. ("10.0.0.1", 3128);
}

abbrev serving : ProxyState ℤ
serving = record {
  world = world;
  connections = tunnel ∷ inner ∷ [];
  published = [];
  processes =
      record { process = popen 1; connectionid = "c-1" }
      ∷ record { process = forked 2; connectionid = "c-2" }
      ∷ [];
  killed = [];
  started = 3;
  ports = 0;
  browsers = [];
  popups = 0;
  inbox = [];
}

-- The same service with its session in the table.
abbrev row : Row ℤ
row = record {
  id = "s-1";
  data_of = unpaid;
  activated = 0;
  created = 2000;
  expires = 5600;
  paymentid = "0123456789abcdef";
  paid = false;
  gateid = "p.http";
  spaceid = "p.free";
  parent = sql_false;
  price = pos 100;
  deleted = false;
}

abbrev with_session : ProxyState ℤ
with_session = record serving { world = record world { rows = row ∷ [] } }

abbrev rank : String → ℕ
rank id = if str_eq id "c-1" then 1 else 0

only_child : (j : String) → member j ("c-2" ∷ []) ≡ true → "c-2" ≡ j
only_child j m = elim (Bool-cases (str_eq "c-2" j)) [
  | inl same ↦ (eq_iff "c-2" j).0 same
  | inr differs ↦ absurd (false≢true (rw differs at m))
]

serving-IsRanked : IsRanked rank (tunnel ∷ inner ∷ [])
serving-IsRanked c (inl e) j m = rw e (rw (← only_child j (rw e at m)) (omega arith))
serving-IsRanked c (inr (inl e)) j m = absurd (false≢true (rw e at m))
serving-IsRanked c (inr (inr m)) j n = absurd m

disconnect-Goes_example :
    Goes
      (tunnel ∷ inner ∷ [])
      serving.processes
      "c-1"
      (disconnect 2 (registry client (pos 0)) "c-1" serving)
disconnect-Goes_example =
    disconnect-Goes rank 2 (registry client (pos 0)) "c-1" serving serving-IsRanked (omega arith)

disconnect_gone_example : LeavesGone "c-1" (disconnect 2 (registry client (pos 0)) "c-1" serving)
disconnect_gone_example = disconnect_gone "c-1" 2 (registry client (pos 0)) serving refl

connect-IsSingle_example :
    IsSingle (connect options (registry client (pos 0)) 2 "s-1" serving).1.connections
unfolding is_connected
connect-IsSingle_example =
    connect-IsSingle options (registry client (pos 0)) 2 "s-1" serving (refl, (refl, tt))

abbrev dying : System
dying = record { exit_code = λ _. some (pos 1); forked_alive = λ _. true }

abbrev held : Connection → Session ℤ
held c = record session { data_of = record unpaid { activated = 2000 } }

abbrev unreachable : Bool → String → String → ℕ → HttpReply ℤ
unreachable _ _ _ _ = ssl_error

-- A proxy of another type whose port refuses the check.
abbrev closed : Connection → Probe
closed c = record {
  duration = 100;
  port = some 3128;
  gate_type = ssh;
  status = none;
  socket = refused;
  ping = none;
}

check_escapes :
    check_alive (λ c. check_connection true (closed c)) (tunnel ∷ inner ∷ [])
    ≡ (err os_error, tunnel ∷ inner ∷ [])
unfolding check_alive check_connection
check_escapes = refl

refresh_connections-Refreshed_example :
    EndsRefreshed options
      (registry client (pos 0))
      dying
      held
      unreachable
      (λ p. not (has_failed dying p))
      closed
      serving
      (refresh_connections options (registry client (pos 0)) dying held unreachable closed serving)
refresh_connections-Refreshed_example =
    refresh_connections-Refreshed options (registry client (pos 0)) dying held unreachable closed
      serving (refl, (refl, tt)) (λ c m. refl)

-- A connection of another process joins its parent, and the loop ends at the message to exit.
joined :
    map
      (λ c. c.children)
      (serve_requests options
        (registry client (pos 0))
        10
        (connected_info (record inner { connectionid = "c-3"; gateid = "p.http" })
          ∷ exit_request
          ∷ [])
        with_session).1.connections
    ≡ ("c-2" ∷ "c-3" ∷ []) ∷ [] ∷ [] ∷ []
unfolding serve_requests add get stored load contribute add_contributions ◌+ℤ◌
joined = refl
