-- ===== src/Client/Tunnel/Activated.antt =====
-- The commands of `activate_on_client` (client/wg_service.py).
use mathlib.Core.List.{append-nil}
use lvpn.Prelude.{
  String, ◌≡◌, refl, sym, inl, inr, true, none, some, Option-cases, List, [], ◌++◌, All,
}
use lvpn.Python.{Result-cases, ok, pure, proceed, or_raise, type_error, ◌>>=◌, ◌>>◌}
use lvpn.Vdp.Objects.{WgGate, gate_id}
use lvpn.Session.Data.{Session, WgSession}
use lvpn.Session.World.{Registry}
use lvpn.Wireguard.Engine.{get_interface_name}
use lvpn.Wireguard.Interface.{
  Address, ipv4, Command, Templates, Machine, Tunnels, logged, set_interface_up, add_client_peer,
}
use lvpn.Wireguard.Interface.Traces.{
  Records, Records-proceed, logged-Records, up_commands, set_interface_up-Records, Addressing,
}
use lvpn.Client.Tunnel.{assign_addresses, add_routes, second_gateway, allowed, activate_on_client}
use lvpn.Client.Tunnel.Running.{
  routes_to, peer_commands, assign_addresses-Traces, add_routes-Records, peer-Records,
}

-- What an activation runs after the addresses: the interface comes up, each network of the space is
-- given a route, and the gate becomes a peer.
module _ {A : Type 0} (reg : Registry A) (t : Templates) (m : Machine) (text : Address → String)
    (session : Session A) where
  abbrev pub joining : String → WgGate → List Command
  joining iface own =
      routes_to reg.cfg.is_client t iface (some (ipv4 own.ipv4_gateway)) session.space.ipv4_networks
      ++ (routes_to reg.cfg.is_client t iface (second_gateway own.ipv6_gateway)
            session.space.ipv6_networks
          ++ peer_commands reg.cfg.enable_wg iface own.public_key (allowed reg t m text session own)
              own.endpoint)

  abbrev Joined : String → WgSession → List Command → Type 0
  Joined iface peer cs =
      (own : WgGate) × (session.gate.wg_data ≡ some own)
      × (peer.psk ≡ none)
      × (cs ≡ joining iface own)

  abbrev Raised : String → WgSession → List Command → Type 0
  Raised iface peer cs =
      (own : WgGate) × (session.gate.wg_data ≡ some own)
      × (peer.psk ≡ none)
      × (cs ≡ up_commands t iface ++ joining iface own)

  abbrev pub Activated : List Command → Type 0
  Activated cs =
      (iface : String) × (peer : WgSession) × (own : WgGate) × (addresses : List Command)
      × (get_interface_name reg (gate_id session.gate) ≡ ok iface)
      × (session.wg ≡ some peer)
      × (peer.psk ≡ none)
      × (session.gate.wg_data ≡ some own)
      × All (Addressing iface) addresses
      × (cs ≡ addresses ++ (up_commands t iface ++ joining iface own))

  joined :
      (iface : String) (peer : WgSession) (own : WgGate) (s : Tunnels A)
      → session.gate.wg_data ≡ some own
      → Records (Joined iface peer) s (
          proceed
            (add_routes reg t m iface (some (ipv4 own.ipv4_gateway)) session.space.ipv4_networks s)
            (λ _.
              add_routes reg t m iface (second_gateway own.ipv6_gateway) session.space.ipv6_networks
              >> (add_client_peer reg t m iface own.public_key
                    (allowed reg t m text session own)
                    own.endpoint
                    peer.psk
                  >> pure true)))
  joined iface peer own s g =
      Records-proceed _
        (λ cs.
          (cs
            ≡ routes_to reg.cfg.is_client t iface (second_gateway own.ipv6_gateway)
                session.space.ipv6_networks
              ++ peer_commands reg.cfg.enable_wg iface own.public_key
                  (allowed reg t m text session own) own.endpoint)
          × (peer.psk ≡ none))
        _ s _ _ (λ cs ds e (f, k). (own, g, k, rw (e, f) refl))
        (add_routes-Records reg t m s iface (some (ipv4 own.ipv4_gateway))
          session.space.ipv4_networks)
        (λ _ v.
          Records-proceed _
            (λ cs.
              (cs
                ≡ peer_commands reg.cfg.enable_wg iface own.public_key
                    (allowed reg t m text session own) own.endpoint)
              × (peer.psk ≡ none))
            _ v _ _ (λ cs ds e (f, k). (rw (e, f) refl, k))
            (add_routes-Records reg t m v iface (second_gateway own.ipv6_gateway)
              session.space.ipv6_networks)
            (λ _ w.
              Records-proceed _ (λ cs. cs ≡ []) _ w _ _
                (λ cs ds (e, k) f. (
                  rw
                      (
                        e,
                        f,
                        append-nil (
                            peer_commands reg.cfg.enable_wg iface own.public_key
                              (allowed reg t m text session own) own.endpoint),
                      )
                      refl,
                  k,
                ))
                (peer-Records reg t m w iface own.public_key (allowed reg t m text session own)
                  own.endpoint peer.psk)
                (λ _ x. ([], sym (append-nil x.commands), refl))))

  raised :
      (iface : String) (peer : WgSession) (s : Tunnels A)
      → Records (Raised iface peer) s (
          proceed (set_interface_up reg t m iface s) (λ _.
            or_raise session.gate.wg_data type_error >>= λ own.
            add_routes reg t m iface (some (ipv4 own.ipv4_gateway)) session.space.ipv4_networks
            >> (add_routes reg t m iface
                  (second_gateway own.ipv6_gateway)
                  session.space.ipv6_networks
                >> (add_client_peer reg t m iface own.public_key
                      (allowed reg t m text session own)
                      own.endpoint
                      peer.psk
                    >> pure true))))
  raised iface peer s =
      Records-proceed _ (Joined iface peer) _ s _ _
        (λ cs ds e (own, g, k, f). (own, g, k, rw (e, f) refl))
        (set_interface_up-Records reg t m s iface)
        (λ _ v. elim (Option-cases session.gate.wg_data) [
          | inl e ↦ simp e tt
          | inr (own, g) ↦ simp g (joined iface peer own v g)
        ])

  assigned :
      (iface : String) (peer : WgSession) (s : Tunnels A)
      → get_interface_name reg (gate_id session.gate) ≡ ok iface
      → session.wg ≡ some peer
      → Records Activated s (
          proceed (logged (assign_addresses reg t m iface peer session.gate.wg_data s)) (λ _.
            set_interface_up reg t m iface
            >> (or_raise session.gate.wg_data type_error >>= λ own.
                add_routes reg t m iface (some (ipv4 own.ipv4_gateway)) session.space.ipv4_networks
                >> (add_routes reg t m iface
                      (second_gateway own.ipv6_gateway)
                      session.space.ipv6_networks
                    >> (add_client_peer reg t m iface own.public_key
                          (allowed reg t m text session own)
                          own.endpoint
                          peer.psk
                        >> pure true)))))
  assigned iface peer s n e =
      Records-proceed (All (Addressing iface)) (Raised iface peer) Activated s
        (logged (assign_addresses reg t m iface peer session.gate.wg_data s)) _
        (λ cs ds a (own, g, k, f). (iface, peer, own, cs, n, e, k, g, a, rw f refl))
        (logged-Records (All (Addressing iface)) s
          (assign_addresses reg t m iface peer session.gate.wg_data s)
          (assign_addresses-Traces reg t m s iface peer session.gate.wg_data))
        (λ _ v. raised iface peer v)

  -- What an activation has run if it returns, whatever the state it starts in: some commands about
  -- the addresses of the gate's interface, the command that brings it up, the command of each route
  -- of the space's networks, and the gate's peer, each if its option is set. The interface is that
  -- of the session's gate, the session has the data of its tunnel, and no preshared key.
  pub activate_on_client-Activated :
      (s : Tunnels A) → Records Activated s (activate_on_client reg t m text session s)
  unfolding activate_on_client
  activate_on_client-Activated s =
      elim (Result-cases (get_interface_name reg (gate_id session.gate))) [
        | inl (iface, n) ↦ simp n (elim (Option-cases session.wg) [
          | inl e ↦ simp e tt
          | inr (peer, e) ↦ simp e (assigned iface peer s n e)
        ])
        | inr (e, n) ↦ simp n tt
      ]
