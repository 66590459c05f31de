-- ===== src/Tests/Samples.antt =====
-- A provider with two gates and a space, a server's and a client's options, and a session.
use lvpn.Prelude.{ℕ, ◌*◌, String, true, false, none, some, List, [], ◌∷◌, str_eq, if◌then◌else◌}
use lvpn.Prelude.Int.{ℤ, pos}
use lvpn.Money.{whole_coins}
use lvpn.Clock.{tick}
use lvpn.Vdp.Objects.{Header, Provider, Gate, Space, http_proxy, wg}
use lvpn.Session.Data.{Session, WgSession, SessionData, Payment, amount}
use lvpn.Session.World.{World, Config, Host, Registry}

abbrev pub header : ℤ → Header ℤ
header price = record {
  name = "sample";
  revision = some 1000;
  ttl = some 3600;
  price = some price;
  internal = none;
  manager_url = none;
}

abbrev pub provider : Provider ℤ
provider = record { header = header (pos 0); providerid = "p"; wallet = "iz1"; is_local = true }

abbrev pub proxy_gate : ℤ → Gate ℤ
proxy_gate price = record {
  header = header price;
  gateid = "http";
  provider = provider;
  type = http_proxy;
  spaces = "p.free" ∷ [];
  replaces = none;
  tls = some false;
  wg_data = none;
  ssh_username = none;
  is_local = true;
}

abbrev pub wg_gate : Gate ℤ
wg_gate = record {
  header = header (pos 0);
  gateid = "wg";
  provider = provider;
  type = wg;
  spaces = "p.free" ∷ [];
  replaces = none;
  tls = none;
  wg_data = some (record {
    public_key = "server-key";
    endpoint = "198.51.100.1:51820";
    ipv4_network = 167772160;
    prefixlen = 29;
    ipv4_gateway = 167772161;
    ipv6_network = some 1000;
    ipv6_gateway = some 1001;
    use_psk = false;
  });
  ssh_username = none;
  is_local = true;
}

abbrev pub free_space : Space ℤ
free_space = record {
  header = header (pos 0);
  spaceid = "free";
  provider = provider;
  ipv4_networks = "10.0.0.0/8" ∷ [];
  ipv6_networks = [];
  dns_servers = "10.0.0.1" ∷ [];
  is_local = true;
}

abbrev pub server : List (List String) → Config
server contributions = record {
  free_session_days = none;
  auto_pay_days = none;
  is_client = false;
  is_server = true;
  enable_wg = true;
  wg_map_device = [];
  unpaid_expiry = 3600;
  contributions = contributions;
  on_session_activation = none;
  on_session_deactivation = none;
  max_free_session_days = 5;
  max_free_wg_handshake_timeout = 600;
  forced = record { url = none; wallet = none };
}

abbrev pub client : Config
client = record {
  free_session_days = some 1;
  auto_pay_days = some 30;
  is_client = true;
  is_server = false;
  enable_wg = true;
  wg_map_device = [];
  unpaid_expiry = 3600;
  contributions = [];
  on_session_activation = none;
  on_session_deactivation = none;
  max_free_session_days = 5;
  max_free_wg_handshake_timeout = 600;
  forced = record { url = none; wallet = none };
}

abbrev pub host : Host
host = record {
  ssh_credentials = λ _. none;
  certificate = λ _. some ("key", "crt");
  random_free_port = some 20000;
  wg_dump = λ _. some "private\tserver-key\t52820\toff\n";
  wg_genpsk_key = none;
  sha1_prefix = λ _. "0a1b2c3d";
  wg_accepts_peer = λ _. true;
  wg_removes_peer = λ _. true;
  hook_starts = λ _. true;
}

abbrev pub registry : Config → ℤ → Registry ℤ
registry cfg price = record {
  cfg = cfg;
  get_gate = λ id.
      if str_eq id "p.http"
      then some (proxy_gate price)
      else if str_eq id "p.wg"
      then some wg_gate
      else none;
  get_space = λ id. if str_eq id "p.free" then some free_space else none;
  host = host;
}

-- The clock stands at 2000 seconds and goes on by one tick at each reading.
abbrev pub world : World ℤ
world = record {
  clock = 2000 * tick;
  delays = λ _. 1;
  readings = 0;
  tokens = λ _ _. "00";
  drawn = 0;
  randoms = λ _. 7;
  rows = [];
  effects = [];
}

abbrev pub tunnel : WgSession
tunnel = record {
  client_public_key = "client-key";
  client_endpoint = "dynamic";
  server_public_key = "server-key";
  client_ipv4_address = some 167772162;
  client_ipv6_address = 1107;
  server_ipv4_address = 167772161;
  server_ipv4_networks = "10.0.0.0/8" ∷ [];
  server_ipv6_networks = [];
  ipv4_prefix = 29;
  dns = "10.0.0.1" ∷ [];
  psk = none;
}

abbrev pub unpaid : SessionData ℤ
unpaid = record {
  sessionid = "s-1";
  spaceid = "p.free";
  gateid = "p.http";
  created = 2000;
  paymentid = "0123456789abcdef";
  username = "u-1";
  password = "secret";
  bearer = "b-1";
  wallet = "iz1";
  expires = 5600;
  paid = false;
  payments = [];
  contributions = some [];
  activated = 0;
  payment_sent = none;
  days = 10;
  price = amount (pos 100);
  parent = none;
  wg = none;
  ssh = none;
  proxy = none;
}

abbrev pub session : Session ℤ
session = record { data_of = unpaid; gate = proxy_gate (pos 10); space = free_space }

abbrev pub payment : ℕ → Payment ℤ
payment n = record { amount = pos n; height = 7; txid = "tx" }

-- A paid-up session for the WireGuard gate.
abbrev pub wg_session : Session ℤ
wg_session = record {
  data_of = record unpaid { gateid = "p.wg"; activated = 2000; wg = some tunnel };
  gate = wg_gate;
  space = free_space;
}
