-- ===== src/Client/Tunnel/Running.antt =====
-- The commands of the parts of `activate_on_client` (client/wg_service.py).
use mathlib.Core.List.{append-nil}
use lvpn.Prelude.{
  ℕ, String, ◌≡◌, refl, sym, inl, inr, Bool, true, false, Option, none, some, Option-cases, List,
  [], ◌∷◌, ◌++◌, All, All-append, ◌&&◌, if◌then◌else◌,
}
use lvpn.Python.{or_raise, type_error, key_error, value_error, ◌>>=◌, ◌>>◌}
use lvpn.Vdp.Objects.{WgGate}
use lvpn.Session.Data.{WgSession}
use lvpn.Session.World.{Registry}
use lvpn.Wireguard.Engine.{fixed_endpoint}
use lvpn.Wireguard.Interface.{
  Address, ipv4, ipv6, Command, set_peer, set_ip, unset_ips, Templates, Machine, Tunnels, logged,
  wg_run_cmd, set_interface_ip, add_route, add_client_peer,
}
use lvpn.Wireguard.Interface.Traces.{
  Traces, Records, Records-proceed, Traces-proceed, Traces-Records, or_raise-Traces, when-Traces,
  route_commands, wg_run_cmd-Traces, Addressing, route-Records,
}
use lvpn.Client.Tunnel.{assign_addresses, add_routes}

-- The routes to all networks through one gateway, if there is one.
pub routes_to : Bool → Templates → String → Option Address → List String → List Command
routes_to is_client t iface gateway [] = []
routes_to is_client t iface none (net ∷ nets) = []
routes_to is_client t iface (some gateway) (net ∷ nets) =
    route_commands is_client t iface gateway net ++ routes_to is_client t iface (some gateway) nets

pub peer_commands : Bool → String → String → List String → String → List Command
peer_commands enable_wg iface public nets endpoint =
    if enable_wg then set_peer iface public nets (fixed_endpoint endpoint) ∷ [] else []

module _ {A : Type 0} (reg : Registry A) (t : Templates) (m : Machine) where
  abbrev pub Addresses : String → List Command → Type 0
  Addresses iface cs = All (Addressing iface) cs

  Addresses-append :
      (iface : String) (cs ds : List Command)
      → Addresses iface cs
      → Addresses iface ds
      → Addresses iface (cs ++ ds)
  Addresses-append iface cs ds h k = All-append (Addressing iface) cs ds h k

  Addressing-Traces :
      (s : Tunnels A) (iface : String) (c : Command)
      → Addressing iface c
      → Traces (Addresses iface) s (wg_run_cmd reg t m c s)
  Addressing-Traces s iface c h =
      let (cs, e, f) = wg_run_cmd-Traces reg t m s c in (cs, e, rw f (h, tt))

  set_interface_ip-Traces :
      (s : Tunnels A) (iface : String) (ip network : Address) (unset : Bool)
      → Traces (Addresses iface) s (set_interface_ip reg t m iface ip network unset s)
  unfolding set_interface_ip
  set_interface_ip-Traces s iface ip network unset =
      Traces-proceed (Addresses iface) s _ _ (Addresses-append iface)
        (when-Traces (Addresses iface) s (unset && t.unsets_ips)
          (wg_run_cmd reg t m (unset_ips iface)) (λ _. tt)
          (λ _. Addressing-Traces s iface (unset_ips iface) refl))
        (λ _ v.
          when-Traces (Addresses iface) v t.sets_ip (wg_run_cmd reg t m (set_ip iface ip network))
            (λ _. tt) (λ _. Addressing-Traces v iface (set_ip iface ip network) refl))

  second_ip-Traces :
      (s : Tunnels A) (iface : String) (ip : ℕ) (network : Option ℕ)
      → Traces (Addresses iface) s (
          (or_raise network key_error >>= λ n.
          set_interface_ip reg t m iface (ipv6 ip) (ipv6 n) false)
            s)
  second_ip-Traces s iface ip none = or_raise-Traces {X = ℕ} (Addresses iface) s none key_error tt
  second_ip-Traces s iface ip (some network) =
      set_interface_ip-Traces s iface (ipv6 ip) (ipv6 network) false

  both-Traces :
      (s : Tunnels A) (iface : String) (ip address : ℕ) (own : Option WgGate)
      → Traces (Addresses iface) s (
          (or_raise own type_error >>= λ g.
          set_interface_ip reg t m iface (ipv4 address) (ipv4 g.ipv4_network) true
          >> (or_raise g.ipv6_network key_error >>= λ n.
              set_interface_ip reg t m iface (ipv6 ip) (ipv6 n) false))
            s)
  both-Traces s iface ip address none =
      or_raise-Traces {X = ℕ} (Addresses iface) s none type_error tt
  both-Traces s iface ip address (some g) =
      Traces-proceed (Addresses iface) s
        (set_interface_ip reg t m iface (ipv4 address) (ipv4 g.ipv4_network) true s)
        (λ _. or_raise g.ipv6_network key_error >>= λ n.
          set_interface_ip reg t m iface (ipv6 ip) (ipv6 n) false)
        (Addresses-append iface)
        (set_interface_ip-Traces s iface (ipv4 address) (ipv4 g.ipv4_network) true)
        (λ _ v. second_ip-Traces v iface ip g.ipv6_network)

  pub assign_addresses-Traces :
      (s : Tunnels A) (iface : String) (peer : WgSession) (own : Option WgGate)
      → Traces (Addresses iface) s (assign_addresses reg t m iface peer own s)
  unfolding assign_addresses
  assign_addresses-Traces s iface peer own = elim (Option-cases peer.client_ipv4_address) [
    | inl e ↦ simp e (or_raise-Traces {X = ℕ} (Addresses iface) s none value_error tt)
    | inr (address, e) ↦ simp e (both-Traces s iface peer.client_ipv6_address address own)
  ]

  pub add_routes-Records :
      (s : Tunnels A) (iface : String) (gateway : Option Address) (nets : List String)
      → Records
          (λ cs. cs ≡ routes_to reg.cfg.is_client t iface gateway nets)
          s
          (add_routes reg t m iface gateway nets s)
  unfolding add_routes routes_to
  add_routes-Records s iface gateway [] = ([], sym (append-nil s.commands), refl)
  add_routes-Records s iface none (net ∷ nets) = tt
  add_routes-Records s iface (some gateway) (net ∷ nets) =
      Records-proceed (λ cs. cs ≡ route_commands reg.cfg.is_client t iface gateway net)
        (λ cs. cs ≡ routes_to reg.cfg.is_client t iface (some gateway) nets) _ s
        (logged (add_route reg t m iface net gateway s)) _ (λ cs ds e f. rw (e, f) refl)
        (route-Records reg t m s iface net gateway)
        (λ _ v. add_routes-Records v iface (some gateway) nets)

  pub peer-Records :
      (s : Tunnels A) (iface public : String) (nets : List String) (endpoint : String)
      (psk : Option String)
      → Records
          (λ cs. (cs ≡ peer_commands reg.cfg.enable_wg iface public nets endpoint) × (psk ≡ none))
          s
          (add_client_peer reg t m iface public nets endpoint psk s)
  unfolding add_client_peer peer_commands
  peer-Records s iface public nets endpoint (some key) = tt
  peer-Records s iface public nets endpoint none = Traces-Records _ s _ (
      when-Traces _ s reg.cfg.enable_wg _ (λ h. simp h (refl, refl))
        (λ h. simp h (
          let (cs, e, f) =
            wg_run_cmd-Traces reg t m s (set_peer iface public nets (fixed_endpoint endpoint)) in
          (cs, e, (f, refl)))))
