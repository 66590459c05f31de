-- ===== src/Wireguard/Interface.antt =====
-- The commands of lib/wg_engine.py for an interface: its creation, keys, addresses and routes. The
-- options hold a command's text with macros, or nothing; a command is named by its macros' values.
pub mod Traces
pub mod Server
use lvpn.Prelude.{
  ℕ, String, Bool, true, false, Option, none, some, List, [], ◌∷◌, ◌++◌, not, ◌&&◌, str_eq,
  if◌then◌else◌,
}
use lvpn.Prelude.Text.{split}
use lvpn.Python.{
  Error, Result, Exec, ok, err, pure, raise, lift, gets, modify, when, raise_unless, or_raise,
  value_error, type_error, service_error, ◌>>=◌, ◌>>◌,
}
use lvpn.Session.World.{World, Registry}
use lvpn.Wireguard.Engine.{comma, fixed_endpoint}
use lvpn.Wireguard.Dump.{Dump, gather_wg_data}

pub data Address : Type 0 where
  ipv4 ipv6 : ℕ → Address

pub data Command : Type 0 where
  unset_ips : String → Command
  -- an interface, an address and the network's own address
  set_ip : String → Address → Address → Command
  create_interface delete_interface interface_up : String → Command
  -- `wg set` with a port and a private key
  set_interface : String → ℕ → String → Command
  -- an interface, a network and a gateway
  route nat : String → String → Address → Command
  genkey : Command
  pubkey : String → Command
  -- `wg set` with a peer's key, its allowed addresses and its endpoint
  set_peer : String → String → List String → Option String → Command

-- Which of the options `wg_cmd_...` are set, and the mapped keys as written.
pub record Templates : Type 0 where
  pub unsets_ips : Bool
  pub sets_ip : Bool
  pub creates_interface : Bool
  pub deletes_interface : Bool
  pub sets_interface_up : Bool
  pub sets_route : Bool
  pub sets_nat : Bool
  pub wg_map_privkey : List String
  pub ignore_wg_key_mismatch : Bool

-- What the host does after the commands so far, the last of them included.
pub record Machine : Type 0 where
  pub is_windows : Bool
  -- whether the last command exits with 0
  pub succeeds : List Command → Bool
  -- what `wg show ... dump` prints for an interface
  pub dump : List Command → String → Option String
  -- what the last command prints
  pub key : List Command → String
  -- what `find_free_port(af="udp")` returns
  pub udp_port : List Command → ℕ
  -- whether `ipaddress.ip_network` takes a text
  pub is_network : String → Bool

pub record Tunnels (A : Type 0) : Type 0 where
  pub world : World A
  pub commands : List Command

-- `(gid, key) = entry.split(",")`, where any failure is reported alike.
own_key : String → List String → Result (Option String) → Result (Option String)
own_key gateid (gid ∷ key ∷ []) rest = if str_eq gateid gid then ok (some key) else rest
own_key gateid _ rest = err (service_error 3)

mapped_key : String → List String → Result (Option String)
unfolding own_key
mapped_key gateid [] = ok none
mapped_key gateid (entry ∷ entries) = own_key gateid (split comma entry) (mapped_key gateid entries)

module _ {A : Type 0} where
  abbrev pub here : {X : Type 0} → Exec (World A) X → Exec (Tunnels A) X
  here m s = let (r, w) = m s.world in (r, record s { world = w })

  abbrev pub note : Command → Exec (Tunnels A) (Unit {0})
  note c s = (ok tt, record s { commands = s.commands ++ c ∷ [] })

  -- `except ServiceException`, where the error is only logged.
  unfoldable pub logged : Result (Unit {0}) × Tunnels A → Result (Unit {0}) × Tunnels A
  logged (err (service_error _), s) = (ok tt, s)
  logged (r, s) = (r, s)

  -- `try` with a second call for a `ServiceException`.
  unfoldable pub attempted :
      {X : Type 0} → Result X × Tunnels A → Exec (Tunnels A) X → Result X × Tunnels A
  attempted (err (service_error _), s) other = other s
  attempted (r, s) other = (r, s)

  -- `except Exception as e: raise ServiceException(2, ...)`
  unfoldable pub reported : {X : Type 0} → Result X × Tunnels A → Result X × Tunnels A
  reported (err e, s) = (err (service_error 2), s)
  reported (r, s) = (r, s)

-- On a server without WireGuard commands are only shown (`show_only`).
module _ {A : Type 0} (reg : Registry A) (t : Templates) (m : Machine) where
  abbrev pub show_only : Bool
  show_only = reg.cfg.is_server && not reg.cfg.enable_wg

  unfoldable pub wg_run_cmd : Command → Exec (Tunnels A) (Unit {0})
  wg_run_cmd c = do
    note c
    commands ← gets (λ s. s.commands)
    when (not show_only) (raise_unless (m.succeeds commands) (service_error 2))

  printed : Exec (Tunnels A) String
  printed s = (ok (m.key s.commands), s)

  -- The first of the two keys; that of a disabled WireGuard is replaced.
  generate_private : Exec (Tunnels A) String
  unfolding wg_run_cmd printed
  generate_private = do
    wg_run_cmd genkey
    private ← printed
    wg_run_cmd (pubkey private)
    pure (if reg.cfg.enable_wg then private else "Wg-not-enabled-Private")

  mapped_or_new : Option String → Exec (Tunnels A) String
  unfolding generate_private
  mapped_or_new none = generate_private
  mapped_or_new (some key) = pure key

  unfoldable pub get_private_key : String → Exec (Tunnels A) String
  unfolding mapped_key mapped_or_new
  get_private_key gateid = do key ← lift (mapped_key gateid t.wg_map_privkey); mapped_or_new key

  unfoldable pub set_interface_ip : String → Address → Address → Bool → Exec (Tunnels A) (Unit {0})
  set_interface_ip iface ip network unset = do
    when (unset && t.unsets_ips) (wg_run_cmd (unset_ips iface))
    when t.sets_ip (wg_run_cmd (set_ip iface ip network))

  unfoldable pub set_interface_up : String → Exec (Tunnels A) (Unit {0})
  set_interface_up iface = when t.sets_interface_up (wg_run_cmd (interface_up iface))

  -- The command that creates the interface may fail: it may exist already.
  create_on_unix : String → String → ℕ → Exec (Tunnels A) (Unit {0})
  unfolding logged set_interface_up
  create_on_unix iface private port = do
    (λ s. logged (wg_run_cmd (create_interface iface) s))
    wg_run_cmd (set_interface iface port private)
    set_interface_up iface

  unfoldable pub create_wg_interface : String → String → ℕ → Exec (Tunnels A) (Unit {0})
  unfolding create_on_unix reported
  create_wg_interface iface private port = when t.creates_interface (
      if m.is_windows
      then wg_run_cmd (create_interface iface)
      else (λ s. reported (create_on_unix iface private port s)))

  unfoldable pub delete_wg_interface : String → Exec (Tunnels A) (Unit {0})
  unfolding reported
  delete_wg_interface iface =
      when t.deletes_interface (λ s. reported (wg_run_cmd (delete_interface iface) s))

  -- With a command for routes the call returns before it comes to the translation of addresses.
  unfoldable pub add_route : String → String → Address → Exec (Tunnels A) (Unit {0})
  unfolding reported
  add_route iface network gateway = do
    raise_unless (m.is_network network) value_error
    (if t.sets_route
        then (λ s. reported (wg_run_cmd (route iface network gateway) s))
        else when (reg.cfg.is_client && t.sets_nat)
            (λ s. reported (wg_run_cmd (nat iface network gateway) s)))

  -- `gather_wg_data`, after the commands so far.
  unfoldable pub gather : String → Exec (Tunnels A) Dump
  gather iface = do
    commands ← gets (λ s. s.commands)
    here
        (gather_wg_data (record reg { host = record reg.host { wg_dump = m.dump commands } }) iface)

  -- `add_peer` with the dictionary that the services pass as the preshared key, which `save_key`
  -- cannot write.
  unfoldable pub add_client_peer :
      String → String → List String → String → Option String → Exec (Tunnels A) (Unit {0})
  add_client_peer iface public nets endpoint psk = elim psk [
    | some key ↦ raise type_error
    | none ↦
        when reg.cfg.enable_wg (wg_run_cmd (set_peer iface public nets (fixed_endpoint endpoint)))
  ]
