-- ===== src/Wireguard/Preparation.antt =====
-- `WGServerService.prepare_server_session` and `find_free_ipv6` (server/wg_service.py), with
-- `WGEngine.generate_psk` (lib/wg_engine.py).
pub mod Collision
use lvpn.Prelude.{
  ℕ, ◌+◌, ◌-◌, ◌*◌, ◌^◌, ◌%◌, String, Bool, true, false, Option, none, some, ltb, if◌then◌else◌,
}
use lvpn.Python.{
  Exec, ok, pure, raise, or_raise, type_error, key_error, value_error, service_error, ◌>>=◌, ◌>>◌,
}
use lvpn.Vdp.Objects.{Gate, WgGate}
use lvpn.Session.Data.{Session, WgSession}
use lvpn.Session.World.{World, Registry, wg_genpsk, emit}
use lvpn.Wireguard.Addresses.{find_free_ip}

-- The `wg` entry of a request: the client's key and its `endpoint`, if it has one.
pub record WgRequest : Type 0 where
  pub public_key : String
  pub endpoint : Option String

abbrev pub request_endpoint : Option String → String
request_endpoint none = "dynamic"
request_endpoint (some endpoint) = endpoint

module _ {A : Type 0} where
  -- `random.randint(100, 2 ** 32 - 100)`
  random_host : Exec (World A) ℕ
  random_host w = (ok (100 + w.randoms w.drawn % (2 ^ 32 - 199)), record w { drawn = w.drawn + 1 })

  pub find_free_ipv6 : WgGate → Exec (World A) ℕ
  unfolding random_host
  find_free_ipv6 wg = do
    host ← random_host
    network ← or_raise wg.ipv6_network key_error
    if ltb (network + host) (2 ^ 128) then pure (network + host) else raise value_error

  -- The command is run in any case; its output is replaced where WireGuard is not enabled.
  generate_psk : Registry A → Exec (World A) String
  generate_psk reg = do
    emit wg_genpsk
    key ← or_raise reg.host.wg_genpsk_key (service_error 2)
    pure (if reg.cfg.enable_wg then key else "Wg-not-enabled-PSK")

  -- `data["psk"]`, where the gate asks for one
  pub preshared : Registry A → WgGate → Exec (World A) (Option String)
  unfolding generate_psk
  preshared reg wg = if wg.use_psk then (do key ← generate_psk reg; pure (some key)) else pure none

  abbrev pub with_wg : Session A → WgSession → Session A
  with_wg s peer = record s { data_of = record s.data_of { wg = some peer } }

  abbrev pub tunnel : Session A → WgRequest → WgGate → Option ℕ → ℕ → Option String → WgSession
  tunnel s request wg address address6 psk = record {
    client_public_key = request.public_key;
    client_endpoint = request_endpoint request.endpoint;
    server_public_key = wg.public_key;
    client_ipv4_address = address;
    client_ipv6_address = address6;
    server_ipv4_address = wg.ipv4_gateway;
    server_ipv4_networks = s.space.ipv4_networks;
    server_ipv6_networks = s.space.ipv6_networks;
    ipv4_prefix = wg.prefixlen;
    dns = s.space.dns_servers;
    psk = psk;
  }

  -- The rest of the dictionary, once there is an address.
  pub assemble : Registry A → Session A → WgRequest → WgGate → Option ℕ → Exec (World A) (Session A)
  unfolding find_free_ipv6 preshared
  assemble reg s request wg address = do
    address6 ← find_free_ipv6 wg
    psk ← preshared reg wg
    pure (with_wg s (tunnel s request wg address address6 psk))

  unfoldable pub prepare_server_session :
      Registry A → Session A → WgRequest → Exec (World A) (Session A)
  unfolding assemble
  prepare_server_session reg s request = do
    wg ← or_raise s.gate.wg_data type_error
    address ← find_free_ip reg s.gate
    assemble reg s request wg address
