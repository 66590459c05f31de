-- ===== src/Tests/Wireguard.antt =====
-- A dump is parsed, an address is found, two sessions are prepared and an interface is reconciled.
use lvpn.Prelude.{ℕ, String, ◌≡◌, refl, false, Option, none, some, [], ◌∷◌, arith, eq_iff}
use lvpn.Prelude.Int.{ℤ, pos}
use lvpn.Python.{ok}
use lvpn.Money.{whole_coins}
use lvpn.Vdp.Objects.{WgGate}
use lvpn.Session.Data.{Session}
use lvpn.Session.World.{World, Registry}
use lvpn.Wireguard.Engine.{get_interface_name}
use lvpn.Wireguard.Dump.{Interface, Peer, parse_show_dump, gather_wg_data}
use lvpn.Wireguard.Dump.RoundTrip.{print_dump, parse_show_dump-print}
use lvpn.Wireguard.Addresses.{free_address, find_free_ip, ip_network}
use lvpn.Wireguard.Addresses.Free.{Chosen, free_address-Chosen}
use lvpn.Wireguard.Preparation.{WgRequest, prepare_server_session, with_wg}
use lvpn.Wireguard.Preparation.Collision.{HasAddress, prepare_server_session-again}
use lvpn.Wireguard.Reconciling.{reconcile}
use lvpn.Wireguard.Reconciling.Outcome.{Reconciled, reconcile-Reconciled}
use lvpn.Tests.Samples.{server, registry, world, wg_session, tunnel}

abbrev interface : Interface
interface = record { public = "server-key"; private = "private"; port = "52820"; fwmark = "off" }

abbrev peer : Peer
peer = record {
  public = "old-key";
  preshared = none;
  endpoint = none;
  allowed_ips = some "10.0.0.2/32,fd00::2/128";
  latest_handshake = some "0";
  transfer_rx = some "0";
  transfer_tx = some "0";
  keepalive = some "off";
}

parse_show_dump-print_example :
    parse_show_dump (print_dump interface (peer ∷ []))
    ≡ ok (record { iface = some interface; peers = ("old-key", peer) ∷ [] })
parse_show_dump-print_example =
    parse_show_dump-print interface (peer ∷ [])
      ((refl, (refl, (refl, (refl, tt)))), (refl, (refl, (refl, (refl, tt)))))
      (
        record {
          plain = (
            (refl, (refl, (refl, (refl, (refl, (refl, (refl, (refl, tt)))))))),
            (refl, (refl, (refl, (refl, (refl, (refl, (refl, (refl, tt)))))))),
          );
          preshared = λ h. ground arith;
          endpoint = λ h. ground arith;
          allowed_ips = λ h. ground (arith, eq_iff "10.0.0.2/32,fd00::2/128" "(none)");
          latest_handshake = λ h. ground (arith, eq_iff "0" "(none)");
          transfer_rx = λ h. ground (arith, eq_iff "0" "(none)");
          transfer_tx = λ h. ground (arith, eq_iff "0" "(none)");
          keepalive = λ h. ground (arith, eq_iff "off" "(none)");
        },
        tt,
      )
      (refl, tt)

abbrev network : WgGate
network = record {
  public_key = "server-key";
  endpoint = "198.51.100.1:51820";
  ipv4_network = 167772160;
  prefixlen = 29;
  ipv4_gateway = 167772161;
  ipv6_network = some 1000;
  ipv6_gateway = some 1001;
  use_psk = false;
}

free_address-Chosen_example :
    Chosen network (("old-key", peer) ∷ []) (free_address network (("old-key", peer) ∷ []))
free_address-Chosen_example = free_address-Chosen network (("old-key", peer) ∷ [])

third_address : free_address network (("old-key", peer) ∷ []) ≡ ok (some 167772163)
unfolding free_address ip_network
third_address = refl

abbrev here : Registry ℤ
here = registry (server []) (pos 10)

abbrev request : String → WgRequest
request key = record { public_key = key; endpoint = none }

abbrev prepared : String → Session ℤ
prepared key = with_wg wg_session (record tunnel { client_public_key = key })

abbrev later : World ℤ
later = record world { drawn = 1 }

prepare_run :
    (key : String)
    → prepare_server_session here wg_session (request key) world ≡ (ok (prepared key), later)
unfolding prepare_server_session find_free_ip get_interface_name gather_wg_data
prepare_run key = refl

prepare_server_session-again_example :
    (address : Option ℕ) × HasAddress wg_session address (prepared "client-key")
    × HasAddress wg_session address (prepared "other-key")
prepare_server_session-again_example =
    prepare_server_session-again here wg_session wg_session (request "client-key")
      (request "other-key") world world {w' = later} {v' = later} refl (prepare_run "client-key")
      (prepare_run "other-key")

reconcile-Reconciled_example :
    Reconciled here "lvpns_0a1b2c3d" "client-key" refl refl
      (("old-key", peer) ∷ [])
      (("client-key", wg_session) ∷ [])
      world
      (reconcile here "lvpns_0a1b2c3d"
        (("old-key", peer) ∷ [])
        (("client-key", wg_session) ∷ [])
        world)
unfolding get_interface_name
reconcile-Reconciled_example =
    reconcile-Reconciled here "lvpns_0a1b2c3d" "client-key" refl refl (("old-key", peer) ∷ [])
      (("client-key", wg_session) ∷ []) world
      (record { wg = tunnel; given = refl; keyed = refl; on_gate = refl }, tt)
