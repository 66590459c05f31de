-- ===== src/Wireguard/Reconciling/Outcome.antt =====
-- The peers that are added, and what a whole pass makes of an interface.
use mathlib.Core.List.{append-nil}
use lvpn.Prelude.{
  String, ◌≡◌, refl, sym, ap, subst, ◌∙◌, ◌⊎◌, inl, inr, Bool, true, false, some, List, [], ◌∷◌,
  ◌++◌, not, All, arith, str_eq, eq_iff, eq_refl, is_some, Bool-cases, Option-cases,
}
use lvpn.Prelude.Dict.{keys, lookup, member}
use lvpn.Python.{Result, ok, err, when}
use lvpn.Money.{Money}
use lvpn.Session.Data.{Session, is_free}
use lvpn.Session.World.{World, Registry, Effect}
use lvpn.Session.Activation.{activate_peer}
use lvpn.Wireguard.Engine.{engine_add_peer}
use lvpn.Wireguard.Effects.{after, Added, Turns, Turns-proceed, Turns-map, engine_add_peer-Turns}
use lvpn.Wireguard.Dump.{Peer}
use lvpn.Wireguard.Reconciling.{add_missing_peer, add_missing, check_gathered, reconcile}
use lvpn.Wireguard.Reconciling.Peers.{Belongs, Checked, check_gathered-Checked, is_some-lookup}

module _ {A : Type 0} ⦃m : Money A⦄ (reg : Registry A) (iface key : String)
    (enabled : reg.cfg.enable_wg ≡ true) (server : reg.cfg.is_server ≡ true) where
  add_missing_peer-Added :
      (public : String) (s : Session A) (w : World A)
      → Belongs reg iface (public, s)
      → Turns iface key (Added iface key iface public) w (add_missing_peer reg s w)
  unfolding add_missing_peer activate_peer
  add_missing_peer-Added public s w belongs =
      simp (belongs.given, belongs.on_gate)
        (subst
          (λ k.
            Turns iface key (Added iface key iface k) w (engine_add_peer reg iface belongs.wg w))
          belongs.keyed (engine_add_peer-Turns iface key reg w iface belongs.wg enabled))

  -- What the pass over the needed peers does.
  abbrev Completed : List String → List (String × Session A) → Bool → Bool → Type 0
  Completed gathered needed b c =
      (b ≡ true → c ≡ true)
      × (c ≡ true → member key (keys needed) ≡ false → b ≡ true)
      × (member key gathered ≡ true → c ≡ b)
      × (member key (keys needed) ≡ true → member key gathered ≡ false → c ≡ true)

  -- What it does for one of them.
  abbrev Filled : List String → String → Bool → Bool → Type 0
  Filled gathered public b c =
      (b ≡ true → c ≡ true)
      × (str_eq public key ≡ false → c ≡ b)
      × (member public gathered ≡ true → c ≡ b)
      × (str_eq public key ≡ true → member public gathered ≡ false → c ≡ true)

  fill-Filled :
      (gathered : List String) (public : String) (s : Session A) (known : Bool) (w : World A)
      → Belongs reg iface (public, s)
      → member public gathered ≡ known
      → Turns iface key (Filled gathered public) w (when (not known) (add_missing_peer reg s) w)
  fill-Filled gathered public s true w belongs e =
      ([], sym (append-nil w.effects), λ b. (λ h. h, λ _. refl, λ _. refl, λ _ n. cc (n, e)))
  fill-Filled gathered public s false w belongs e =
      Turns-map iface key (Added iface key iface public) (Filled gathered public) w _
        (λ b c a. ground (arith, a, e, eq_refl iface)) (add_missing_peer-Added public s w belongs)

  Filled-Completed :
      (gathered : List String) (needed : List (String × Session A)) (public : String)
      (s : Session A) (b c d : Bool)
      → Filled gathered public b c
      → Completed gathered needed c d
      → Completed gathered ((public, s) ∷ needed) b d
  Filled-Completed gathered needed public s b c d f g =
      let same : str_eq public key ≡ true → member public gathered ≡ member key gathered =
        λ e. ap (λ k. member k gathered) (ground (arith, e, eq_iff public key)) in
      elim (Bool-cases (str_eq public key)) [
        | inl e ↦ (
          λ h. g.0 (f.0 h),
          λ _ n. ground (arith, e, n),
          λ k. g.2 k ∙ f.2 (same e ∙ k),
          λ _ n. g.0 (f.3 e (same e ∙ n)),
        )
        | inr e ↦ (
          λ h. g.0 (f.0 h),
          λ h n. sym (f.1 e) ∙ g.1 h (ground (arith, e, n)),
          λ k. g.2 k ∙ f.1 e,
          λ h n. g.3 (ground (arith, e, h)) n,
        )
      ]

  add_missing-Completed :
      (gathered : List String) (needed : List (String × Session A)) (w : World A)
      → All (Belongs reg iface) needed
      → Turns iface key (Completed gathered needed) w (add_missing reg gathered needed w)
  unfolding add_missing
  add_missing-Completed gathered [] w all =
      ([], sym (append-nil w.effects), λ b. (λ h. h, λ h _. h, λ _. refl, λ h. cc))
  add_missing-Completed gathered ((public, s) ∷ needed) w all =
      Turns-proceed iface key (Filled gathered public) (Completed gathered needed)
        (Completed gathered ((public, s) ∷ needed)) w
        (when (not (member public gathered)) (add_missing_peer reg s) w)
        (λ _. add_missing reg gathered needed) (Filled-Completed gathered needed public s)
        (fill-Filled gathered public s (member public gathered) w all.0 refl)
        (λ _ v. add_missing-Completed gathered needed v all.1)

  -- The peer is there only if a session needs it; and it is there if one does, unless it was there
  -- before and the session is free.
  abbrev pub Reconciled :
      List (String × Peer)
      → List (String × Session A)
      → World A
      → Result (Unit {0}) × World A
      → Type 0
  Reconciled peers needed w (ok _, v) =
      (es : List (Effect A)) × (v.effects ≡ w.effects ++ es)
      × (let there = after iface key (member key (keys peers)) es in
          (there ≡ true → is_some (lookup key needed) ≡ true)
          × ((s : Session A)
              → lookup key needed ≡ some s
              → (member key (keys peers) ≡ false) ⊎ (is_free s ≡ false)
              → there ≡ true))
  Reconciled peers needed w (err _, v) = Unit

  abbrev Passed : List (String × Peer) → List (String × Session A) → Bool → Bool → Type 0
  Passed peers needed b d =
      (c : Bool) × Checked reg iface key enabled server needed peers b c
      × Completed (keys peers) needed c d

  Reconciled-Passed :
      (peers : List (String × Peer)) (needed : List (String × Session A)) (w : World A)
      (r : Result (Unit {0}) × World A)
      → Turns iface key (Passed peers needed) w r
      → Reconciled peers needed w r
  Reconciled-Passed peers needed w (err _, v) t = tt
  Reconciled-Passed peers needed w (ok _, v) (es, e, turns) =
      let (c, checked, completed) = turns (member key (keys peers)) in
      let known = is_some-lookup key needed in
      (
        es,
        e,
        (
          λ h. elim (Option-cases (lookup key needed)) [
            | inl q ↦
                let c_true = completed.1 h (sym known ∙ ap is_some q) in
                cc (c_true, checked.1 (checked.0 c_true) q)
            | inr (s, q) ↦ ap is_some q
          ],
          λ s q either.
              let wanted : member key (keys needed) ≡ true = sym known ∙ ap is_some q in
              elim either [
                | inl missing ↦ completed.3 wanted missing
                | inr priced ↦ elim (Bool-cases (member key (keys peers))) [
                  | inl there ↦ completed.0 (checked.3 s q priced ∙ there)
                  | inr missing ↦ completed.3 wanted missing
                ]
              ],
        ),
      )

  -- One pass over the peers that an interface has and the sessions that need one, each under its
  -- client's key and on that interface, with WireGuard enabled: afterwards, if the pass returns, every
  -- peer is one that a session needs, and of those that a session needs, every one is there that was
  -- missing or whose session is not free.
  pub reconcile-Reconciled :
      (peers : List (String × Peer)) (needed : List (String × Session A)) (w : World A)
      → All (Belongs reg iface) needed
      → Reconciled peers needed w (reconcile reg iface peers needed w)
  unfolding reconcile
  reconcile-Reconciled peers needed w all = Reconciled-Passed peers needed w _ (
      Turns-proceed iface key (Checked reg iface key enabled server needed peers)
        (Completed (keys peers) needed) (Passed peers needed) w
        (check_gathered reg iface needed peers w) (λ _. add_missing reg (keys peers) needed)
        (λ b c d f g. (c, f, g))
        (check_gathered-Checked reg iface key enabled server needed peers w all)
        (λ _ v. add_missing-Completed (keys peers) needed v all))
