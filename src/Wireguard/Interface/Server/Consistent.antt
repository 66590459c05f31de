-- ===== src/Wireguard/Interface/Server/Consistent.antt =====
-- The key of a server's interface (server/wg_service.py).
use lvpn.Prelude.{
  String, ◌≡◌, refl, sym, ap, ◌∙◌, ◌⊎◌, inl, inr, Bool, true, false, Bool-cases, Option, none, some,
  Option-cases, eq_iff, arith, if◌then◌else◌,
}
use lvpn.Python.{
  Error, ok, proceed, lift, or_raise, raise_unless, Leaves, Leaves-proceed, pure, ◌>>=◌, ◌>>◌,
  type_error, service_error,
}
use lvpn.Vdp.Objects.{Gate, WgGate, gate_id}
use lvpn.Session.World.{Registry}
use lvpn.Wireguard.Engine.{get_interface_name}
use lvpn.Wireguard.Dump.{Interface, Dump, gather_wg_data}
use lvpn.Wireguard.Interface.{
  Templates, Machine, Tunnels, logged, gather, ipv4, set_interface_ip, get_private_key,
  create_wg_interface,
}
use lvpn.Wireguard.Interface.Server.{
  server_port, set_second_ip, check_key, agrees, setup_interface_server,
}

module _ {A : Type 0} (reg : Registry A) (t : Templates) (m : Machine) where
  -- Reading an interface changes nothing.
  pub gather_state : (iface : String) (s : Tunnels A) → (gather reg t m iface s).1 ≡ s
  unfolding gather gather_wg_data
  gather_state iface s = elim (Bool-cases reg.cfg.enable_wg) [
    | inl on ↦ elim (Option-cases (m.dump s.commands iface)) [
      | inl e ↦ rw (on, e) refl
      | inr (output, e) ↦ rw (on, e) refl
    ]
    | inr off ↦ rw off refl
  ]

  -- Whoever asks after the set-up finds the interface with the key of the description.
  abbrev pub HasKey : Gate A → WgGate → Tunnels A → Type 0
  HasKey gate own v =
      (iface : String) × (d : Dump) × (i : Interface) × (get_interface_name reg (gate_id gate)
        ≡ ok iface)
      × (gather reg t m iface v ≡ (ok d, v))
      × (d.iface ≡ some i)
      × (i.public ≡ own.public_key)

  abbrev pub Consistent : Gate A → Bool → Tunnels A → Type 0
  Consistent gate b v =
      (own : WgGate) × (gate.wg_data ≡ some own)
      × ((t.ignore_wg_key_mismatch ≡ true) ⊎ HasKey gate own v)

  or_raise-ok :
      {X : Type 0} (o : Option X) (e : Error) (s v : Tunnels A) {x : X}
      → or_raise o e s ≡ (ok x, v)
      → (o ≡ some x) × (v ≡ s)
  or_raise-ok none e s v h = cc
  or_raise-ok (some y) e s v h = (cc, cc)

  matched :
      (gate : Gate A) (own : WgGate) (iface : String) (d : Dump) (v : Tunnels A)
      → gate.wg_data ≡ some own
      → get_interface_name reg (gate_id gate) ≡ ok iface
      → gather reg t m iface v ≡ (ok d, v)
      → (i : Interface) (w : Tunnels A) → d.iface ≡ some i
      → w ≡ v
      → Leaves (λ _ u. Consistent gate true u) (raise_unless (agrees own i) (service_error 10) w)
  matched gate own iface d v g n e i w f same = elim (Bool-cases (agrees own i)) [
    | inl agreed ↦
        rw (agreed, same)
          (own, g, inr (iface, d, i, n, e, f, ground (arith, eq_iff i.public own.public_key)))
    | inr other ↦ rw other tt
  ]

  checked :
      (gate : Gate A) (own : WgGate) (iface : String) (d : Dump) (v : Tunnels A)
      → gate.wg_data ≡ some own
      → get_interface_name reg (gate_id gate) ≡ ok iface
      → gather reg t m iface v ≡ (ok d, v)
      → Leaves (λ _ w. Consistent gate true w) (check_key reg t m own d.iface v)
  unfolding check_key
  checked gate own iface d v g n e = by_option t.ignore_wg_key_mismatch refl
    where
      by_option :
          (b : Bool)
          → t.ignore_wg_key_mismatch ≡ b
          → Leaves
              (λ _ w. Consistent gate true w)
              ((if b
                  then pure tt
                  else (or_raise d.iface type_error >>= λ i.
                      raise_unless (agrees own i) (service_error 10)))
                v)
      by_option true h = (own, g, inl h)
      by_option false h =
          Leaves-proceed (λ _ w. Consistent gate true w) (or_raise d.iface type_error v) _
            (λ i w f.
              let (found, same) = or_raise-ok d.iface type_error v w f in
              matched gate own iface d v g n e i w found same)

  read_back :
      (gate : Gate A) (own : WgGate) (iface : String) (v : Tunnels A)
      → gate.wg_data ≡ some own
      → get_interface_name reg (gate_id gate) ≡ ok iface
      → Leaves
          (Consistent gate)
          (proceed (gather reg t m iface v) (λ d. check_key reg t m own d.iface >> pure true))
  read_back gate own iface v g n =
      Leaves-proceed (Consistent gate) (gather reg t m iface v)
        (λ d. check_key reg t m own d.iface >> pure true)
        (λ d w e.
          Leaves-proceed (Consistent gate) (check_key reg t m own d.iface w) (λ _. pure true)
            (λ _ u k.
              let r =
                checked gate own iface d w g n
                  (rw (sym (gather_state iface v) ∙ ap (λ q. q.1) e) at e) in
              rw k at r))

  -- If the set-up of a server's interface returns, the gate has its entry for WireGuard, and the
  -- interface can be read and has the public key that the gate's entry promises to clients, unless
  -- the option to ignore a mismatch is set.
  pub setup_interface_server-Consistent :
      (gate : Gate A) (s : Tunnels A)
      → Leaves (Consistent gate) (setup_interface_server reg t m gate s)
  unfolding setup_interface_server
  setup_interface_server-Consistent gate s =
      Leaves-proceed (Consistent gate) (lift (get_interface_name reg (gate_id gate)) s) _
        (λ iface v0 e0.
          Leaves-proceed (Consistent gate) (server_port reg t m gate.wg_data v0) _ (λ port v1 e1.
            Leaves-proceed (Consistent gate) (get_private_key reg t m (gate_id gate) v1) _
              (λ private v2 e2.
                Leaves-proceed (Consistent gate) (create_wg_interface reg t m iface private port v2)
                  _
                  (λ _ v3 e3.
                    Leaves-proceed (Consistent gate) (or_raise gate.wg_data type_error v3) _
                      (λ own v4 e4.
                        Leaves-proceed (Consistent gate)
                          (logged (
                            set_interface_ip reg t m iface (ipv4 own.ipv4_gateway)
                              (ipv4 own.ipv4_network) true v4))
                          _
                          (λ _ v5 e5.
                            Leaves-proceed (Consistent gate)
                              (logged (set_second_ip reg t m iface own own.ipv6_network v5)) _
                              (λ _ v6 e6.
                                read_back gate own iface v6
                                  (or_raise-ok gate.wg_data type_error v3 v4 e4).0
                                  (ap (λ q. q.0) e0))))))))
