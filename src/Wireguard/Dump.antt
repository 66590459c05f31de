-- ===== src/Wireguard/Dump.antt =====
-- `WGEngine.parse_show_dump` and `gather_wg_data` (lib/wg_engine.py).
pub mod RoundTrip
use lvpn.Prelude.{
  ℕ, String, Bool, true, false, Option, none, some, List, [], ◌∷◌, str_eq, if◌then◌else◌,
}
use lvpn.Prelude.Text.{split}
use lvpn.Prelude.Dict.{put}
use lvpn.Python.{Exec, Result, ok, err, lift, or_raise, and_then, service_error, ◌>>=◌}
use lvpn.Session.World.{World, Registry}

pub record Interface : Type 0 where
  pub public : String
  pub private : String
  pub port : String
  pub fwmark : String

pub record Peer : Type 0 where
  pub public : String
  pub preshared : Option String
  pub endpoint : Option String
  pub allowed_ips : Option String
  pub latest_handshake : Option String
  pub transfer_rx : Option String
  pub transfer_tx : Option String
  pub keepalive : Option String

pub record Dump : Type 0 where
  pub iface : Option Interface
  -- the dictionary `peers`, by public key
  pub peers : List (String × Peer)

abbrev pub newline : ℕ
newline = b'\n'

abbrev pub tab : ℕ
tab = b'\t'

pub replace_none : String → Option String
replace_none txt = if str_eq txt "(none)" then none else some txt

-- Any other number of fields than four leaves the interface `None`.
pub read_interface : List String → Option Interface
read_interface (private ∷ public ∷ port ∷ fwmark ∷ []) =
    some (record { public = public; private = private; port = port; fwmark = fwmark })
read_interface _ = none

-- One line after the first: eight fields are a peer, one is passed over.
pub read_peer : List String → List (String × Peer) → Result (List (String × Peer))
unfolding replace_none
read_peer (public ∷ preshared ∷ endpoint ∷ ips ∷ handshake ∷ rx ∷ tx ∷ keepalive ∷ []) peers = ok (
    put public
      (record {
        public = public;
        preshared = replace_none preshared;
        endpoint = replace_none endpoint;
        allowed_ips = replace_none ips;
        latest_handshake = replace_none handshake;
        transfer_rx = replace_none rx;
        transfer_tx = replace_none tx;
        keepalive = replace_none keepalive;
      })
      peers)
read_peer (field ∷ []) peers = ok peers
read_peer _ peers = err (service_error 4)

pub read_peers : List String → List (String × Peer) → Result (List (String × Peer))
unfolding read_peer
read_peers [] peers = ok peers
read_peers (line ∷ lines) peers = and_then (read_peer (split tab line) peers) (read_peers lines)

-- `str.split` gives at least one line: the first clause is never reached.
pub read_lines : List String → Result Dump
unfolding read_interface read_peers
read_lines [] = ok (record { iface = none; peers = [] })
read_lines (first ∷ lines) =
    and_then (read_peers lines [])
      (λ peers. ok (record { iface = read_interface (split tab first); peers = peers }))

unfoldable pub parse_show_dump : String → Result Dump
unfolding read_lines
parse_show_dump dump = read_lines (split newline dump)

-- What is parsed where WireGuard is not enabled.
abbrev pub sample_dump : String
sample_dump =
    "private1\tpublic1\t52820\toff\npublic2\tpsk\t1.2.3.4:52820\t172.16.0.0/12,192.168.0.2/32,192.168.0.3/32,192.168.0.4/32\t1708848641\t20899715969\t14596754656\t300"

module _ {A : Type 0} where
  unfoldable pub gather_wg_data : Registry A → String → Exec (World A) Dump
  unfolding parse_show_dump
  gather_wg_data reg iface =
      if reg.cfg.enable_wg
      then (do
        output ← or_raise (reg.host.wg_dump iface) (service_error 2)
        lift (parse_show_dump output))
      else lift (parse_show_dump sample_dump)
