-- ===== src/Lib.antt =====
-- LVPN: sessions of a VPN provider's server and of its clients, their payments, and the WireGuard
-- peers that follow from them.
--
-- The program. A provider offers gates (proxies, SSH, WireGuard) into spaces and describes them in VPN
-- description objects. A client asks the provider's server for a session; the server creates it with a
-- price, a wallet and a payment id (lib/session.py), stores it in SQLite (lib/sessions.py, lib/db.py) and
-- activates it once the payments that its wallet sees cover the price. For WireGuard gates a service
-- (server/wg_service.py, lib/wg_engine.py) gives each session an address and keeps the peers of an
-- interface in step with the active sessions.
--
-- Which file models what.
--   Prelude, Prelude.Tests, .Lists, .Int, .Text, .Dict: numbers, texts, lists and dictionaries.
--   Python: calls that return or raise (`Exec`), and what holds of whatever they return.
--   Money: amounts as an interface, since floats have no counterpart here.  Clock: time.time().
--   Vdp.Objects: lib/vdpobject.py, lib/provider.py, lib/space.py and the accessors of lib/gate.py.
--   Session.Data, .World: the `_data` dictionary, and what a session's methods read and write beside it.
--   Session.Contributions: add_contributions.  Session.Store: save, remove, deactivate.
--   Session.Activation: activate, with Gateway.activate_server.  Session.Payments: add_payment.
--   Session.Creation: generate.  Session.Loading: __init__.  Session.Reuse: reuse.
--   Session.Invoice: get_pay_msgs.
--   Sessions: lib/sessions.py, with refresh_status on a client in Sessions.Refreshing.
--   Vdp.Table: the table `vdp`, VDPObject.save and the lookups of lib/vdp.py.
--   Messages: lib/messages.py and the routing of server.py and client.py, with Messages.Loop for their
--   main loops.
--   Manager: lib/mngrrpc.py.  Wallet: lib/wallet.py, with Wallet.Serving for its loop.  Service: the log
--   of lib/service.py.  Server.Stripe: server/stripe.py.
--   Server.Http: server/http.py, with Server.Http.Listing for the list of sessions and its
--   authentication and Server.Http.Links for stripe_payment.  Util: lib/util.py.  Client.Http: client/http.py.  Client.Connections:
--   client/connection.py.
--   Client.Proxy: client/proxy.py, with Client.Proxy.Connecting for its connect, .Refreshing for its
--   refresh_connections and .Serving for its loop.
--   Client.Tunnel: client/wg_service.py, with Client.Tunnel.Joining for postinit.
--   Client.Auto: auto_connect of client.py.
--   Database: lib/db.py.  Vdp.Importing: the import of a file, VDP.__init__ of lib/vdp.py.  Vdp.Saving:
--   VDP.save, and post_vdp of server/http.py.  Vdp.Refreshing: refresh-vdp of mgmt.py with VDP.objects.
--   Wireguard.Engine, .Interface, .Dump: lib/wg_engine.py.  Wireguard.Addresses, .Preparation,
--   .Reconciling, .Interface.Server: server/wg_service.py.  Wireguard.Effects: what `wg set` does, as
--   documented.
--   Tests: runs of the definitions, and each theorem with hypotheses at a concrete input.
-- Theorems stand in the children of the file whose definitions they are about.
--
-- How state and calls correspond. A method is a function from its session and a `World` to a result and
-- a `World`: the clock, the random tokens, the rows of the table `sessions` and the commands that leave
-- the process, in order. A method that changes `self` returns the changed session; after an exception
-- the session in memory is not used again. What was written before an exception stays written. The
-- registry with the options, the description objects and the host is read-only. What other programs
-- answer (`wg`, `ssh-keygen`, hooks, free ports) is a field of `Host`: a function of what they are asked,
-- fixed while a call runs. For the commands that set up an interface it is a `Machine`, whose answers may
-- depend on all commands so far.
--
-- Choices.
--   A time is a whole number of ticks of 2 ** -22 seconds, the spacing of floats of that size, so the
--   comparisons with whole seconds are exact; days_left divides exactly where the code rounds a quotient.
--   Amounts are any type with the operations of `Money`, whose laws are those of floats without NaN.
--   The option `contributions` is split at commas and slashes already. A dictionary with fixed keys is a
--   record. Storing as JSON and reading back is the identity. The WHERE clauses are conditions on rows;
--   the filter wg_public, which no caller passes and whose key no session has, is left out.
--   Networks of IPv6 are not told apart, since no address of theirs lies in a network of IPv4.
--   Recursion is structural: over rows, payments, texts, peers, and the number of addresses of a network.
--   A loop that runs until its process is told to stop is run for a given number or list of rounds, and
--   what is proved holds of all of them.
--   Some calls have fuel: the check of connections, with one round more than the list has members, which
--   is enough since the list does not grow; a statement of the database, with the five attempts of the
--   code, each of which is one call of sqlite3; a transfer that waits for its balance and the disconnection of a connection's children, which
--   call themselves and raise at the depth of Python's recursion limit, as the code does.
--   What the network answers to the check of a connection is a `Probe` of the connection. A handle whose
--   opening has failed is not used again.
--   Saving and cleaning up sessions write the table in one step, as the transactions of Database do.
--   The main loops and the automatic connections are run for any list of rounds, each with what it meets:
--   a child that has ended, messages that arrive, a request to exit.
--   Stripe's payment links answer as a function of their id, fixed while a request runs; the price of a
--   coin in euro and the credits it buys are float operations that are passed in.
--   A pickled payload is what was pickled; Stripe's message of a payment is any text that depends on the
--   payment alone. Texts in SQL statements have no quotes.
--
-- Not modelled: the 60-second cache of description lookups outside the import of a file, failures of
-- SQLite while sessions are saved other than the price that is a tuple, the text filters of VDP.objects,
-- which only the GUI passes, get_vdp, the commands of mgmt.py other than refresh-vdp, the proxies for SSH
-- and TLS, the GUI and the set-up: they call sockets, processes and widgets, or print.
pub mod Prelude
pub mod Python
pub mod Money
pub mod Clock
pub mod Messages
pub mod Util
pub mod Vdp
pub mod Wireguard
pub mod Session
pub mod Sessions
pub mod Wallet
pub mod Manager
pub mod Server
pub mod Client
pub mod Database
pub mod Service
pub mod Tests
