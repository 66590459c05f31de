-- ===== src/Wireguard/Reconciling/Peers.antt =====
-- Which peers an interface has after a pass of the loop.
use mathlib.Core.List.{append-nil}
use lvpn.Prelude.{
  ℕ, ◌+◌, String, ◌≡◌, refl, sym, ap, subst, ◌∙◌, inl, inr, Bool, true, false, Option, none, some,
  List, [], ◌∷◌, ◌&&◌, All, arith, str_eq, eq_iff, eq_refl, is_some, Bool-cases, ltb,
}
use lvpn.Prelude.Dict.{keys, lookup, member}
use lvpn.Python.{Exec, ok, lift, when, ◌>>=◌}
use lvpn.Money.{Money}
use lvpn.Clock.{whole_seconds}
use lvpn.Vdp.Objects.{gate_id}
use lvpn.Session.Data.{Session, WgSession, is_free}
use lvpn.Session.World.{World, Registry, time_time}
use lvpn.Session.Store.{remove}
use lvpn.Session.Store.Peers.{MayRemove, remove-MayRemove, MayRemove-refl}
use lvpn.Wireguard.Engine.{get_interface_name}
use lvpn.Wireguard.Effects.{
  Stays, Removed, Turns, Turns-proceed, Turns-map, when-Turns, time_time-Stays, lift-Stays,
  engine_remove_peer-Turns,
}
use lvpn.Wireguard.Dump.{Peer}
use lvpn.Wireguard.Reconciling.{int_of, check_handshake, check_peer, check_gathered}

module _ {A : Type 0} (reg : Registry A) (iface : String) where
  -- A session of this interface's gate, under its client's key.
  pub record Belongs (entry : String × Session A) : Type 0 where
    pub wg : WgSession
    pub given : entry.1.wg ≡ some wg
    pub keyed : wg.client_public_key ≡ entry.0
    pub on_gate : get_interface_name reg (gate_id entry.1.gate) ≡ ok iface

pub lookup-All {ℓ} :
    {V : Type 0} (P : String × V → Type ℓ) (key : String) (d : List (String × V)) {v : V}
    → All P d
    → lookup key d ≡ some v
    → P (key, v)
lookup-All P key [] a e = cc
lookup-All P key ((k, u) ∷ d) {v} a e = elim (Bool-cases (str_eq k key)) [
  | inl same ↦
      let here : k ≡ key = ground (arith, same, eq_iff k key) in
      let found : u ≡ v = ground (arith, e, same) in subst P (cc (here, found)) a.0
  | inr other ↦ lookup-All P key d a.1 (ground (arith, e, other))
]

pub is_some-lookup :
    {V : Type 0} (key : String) (d : List (String × V))
    → is_some (lookup key d) ≡ member key (keys d)
is_some-lookup key [] = refl
is_some-lookup key ((k, u) ∷ d) = ground (arith, is_some-lookup key d)

module _ {A : Type 0} ⦃m : Money A⦄ (reg : Registry A) (iface key : String)
    (enabled : reg.cfg.enable_wg ≡ true) (server : reg.cfg.is_server ≡ true) where
  abbrev Handled : Session A → String → Bool → Bool → Type 0
  Handled s public b c = MayRemove key public b c × (is_free s ≡ false → c ≡ b)

  Stays-Handled :
      (s : Session A) (public : String) (b c d : Bool)
      → Stays b c
      → Handled s public c d
      → Handled s public b d
  Stays-Handled s public b c d e h = subst (λ x. Handled s public x d) e h

  check_handshake-Handled :
      (public : String) (peer : Peer) (s : Session A) (w : World A)
      → Belongs reg iface (public, s)
      → Turns iface key (Handled s public) w (check_handshake reg peer s w)
  unfolding check_handshake
  check_handshake-Handled public peer s w belongs =
      let same : (wg : WgSession) → s.wg ≡ some wg → wg.client_public_key ≡ public =
        λ wg e. cc (e, belongs.given, belongs.keyed) in
      let stale : ℕ → ℕ → Bool = λ now handshake.
        ltb (handshake + reg.cfg.max_free_wg_handshake_timeout) (whole_seconds now)
        && ltb 0 handshake
        && is_free s in
      let judge : ℕ → ℕ → Exec (World A) (Unit {0}) =
        λ now handshake. when (stale now handshake) (remove reg true s) in
      Turns-proceed iface key Stays (Handled s public) (Handled s public) w (time_time w)
        (λ now. lift (int_of peer.latest_handshake) >>= judge now) (Stays-Handled s public)
        (time_time-Stays iface key w)
        (λ now v.
          Turns-proceed iface key Stays (Handled s public) (Handled s public) v
            (lift (int_of peer.latest_handshake) v) (judge now) (Stays-Handled s public)
            (lift-Stays iface key v (int_of peer.latest_handshake))
            (λ handshake u.
              when-Turns iface key (Handled s public) u (stale now handshake) (remove reg true s)
                (λ b. (MayRemove-refl key public b, λ _. refl))
                (λ given.
                  Turns-map iface key (MayRemove key public) (Handled s public) u _
                    (λ b c r. (r, λ f. ground (arith, given, f)))
                    (remove-MayRemove iface key public reg s u enabled server same))))

  -- What a pass over one gathered peer does.
  abbrev Step : Option (Session A) → String → Bool → Bool → Type 0
  Step found public b c =
      (c ≡ true → b ≡ true)
      × (str_eq public key ≡ false → c ≡ b)
      × (str_eq public key ≡ true → found ≡ none → c ≡ false)
      × ((s : Session A) → found ≡ some s → is_free s ≡ false → c ≡ b)

  check_peer-Step :
      (public : String) (peer : Peer) (found : Option (Session A)) (w : World A)
      → ((s : Session A) → found ≡ some s → Belongs reg iface (public, s))
      → Turns iface key (Step found public) w (check_peer reg iface public peer found w)
  unfolding check_peer
  check_peer-Step public peer none w belongs =
      Turns-map iface key (Removed iface key iface public) (Step none public) w _
        (λ b c e. ground (arith, e, eq_refl iface))
        (engine_remove_peer-Turns iface key reg w iface public enabled)
  check_peer-Step public peer (some s) w belongs =
      Turns-map iface key (Handled s public) (Step (some s) public) w _
        (λ b c h. (h.0.0, h.0.1, λ _ e. cc, λ q e f. h.1 (cc (e, f))))
        (check_handshake-Handled public peer s w (belongs s refl))

  -- What the pass over the gathered peers does.
  abbrev pub Checked : List (String × Session A) → List (String × Peer) → Bool → Bool → Type 0
  Checked needed peers b c =
      (c ≡ true → b ≡ true)
      × (member key (keys peers) ≡ true → lookup key needed ≡ none → c ≡ false)
      × (member key (keys peers) ≡ false → c ≡ b)
      × ((s : Session A) → lookup key needed ≡ some s → is_free s ≡ false → c ≡ b)

  Step-Checked :
      (needed : List (String × Session A)) (peers : List (String × Peer)) (public : String)
      (peer : Peer) (b c d : Bool)
      → Step (lookup public needed) public b c
      → Checked needed peers c d
      → Checked needed ((public, peer) ∷ peers) b d
  Step-Checked needed peers public peer b c d s t = elim (Bool-cases (str_eq public key)) [
    | inl same ↦
        let here : public ≡ key = ground (arith, same, eq_iff public key) in
        let found : lookup public needed ≡ lookup key needed = ap (λ k. lookup k needed) here in
        (
          λ h. s.0 (t.0 h),
          λ _ e. ground (arith, t.0, s.2 same (found ∙ e)),
          λ h. ground (arith, same, h),
          λ q e f. t.3 q e f ∙ s.3 q (found ∙ e) f,
        )
    | inr other ↦ (
      λ h. s.0 (t.0 h),
      λ h e. t.1 (ground (arith, other, h)) e,
      λ h. t.2 (ground (arith, other, h)) ∙ s.1 other,
      λ q e f. t.3 q e f ∙ s.1 other,
    )
  ]

  pub check_gathered-Checked :
      (needed : List (String × Session A)) (peers : List (String × Peer)) (w : World A)
      → All (Belongs reg iface) needed
      → Turns iface key (Checked needed peers) w (check_gathered reg iface needed peers w)
  unfolding check_gathered
  check_gathered-Checked needed [] w all =
      ([], sym (append-nil w.effects), λ b. (λ h. h, λ h. cc, λ _. refl, λ _ _ _. refl))
  check_gathered-Checked needed ((public, peer) ∷ peers) w all =
      Turns-proceed iface key (Step (lookup public needed) public) (Checked needed peers)
        (Checked needed ((public, peer) ∷ peers)) w
        (check_peer reg iface public peer (lookup public needed) w)
        (λ _. check_gathered reg iface needed peers) (Step-Checked needed peers public peer)
        (check_peer-Step public peer (lookup public needed) w
          (λ s e. lookup-All (Belongs reg iface) public needed all e))
        (λ _ v. check_gathered-Checked needed peers v all)
