-- ===== src/Wireguard/Effects.antt =====
-- What the commands of a call do to one peer of one interface, as `wg set` is documented: adding a
-- peer that is there changes its settings, and removing one that is not there does nothing.
use mathlib.Core.List.{append-nil, append_assoc}
use lvpn.Prelude.{
  String, ◌≡◌, refl, sym, ap, ◌∙◌, Bool, true, false, Option, none, some, List, [], ◌∷◌, ◌++◌, not,
  ◌&&◌, ◌||◌, str_eq,
}
use lvpn.Python.{Exec, Error, Result, ok, err, proceed, lift, when, raise_unless, ◌>>◌}
use lvpn.Session.Data.{WgSession}
use lvpn.Session.World.{World, Registry, Effect, add_peer, remove_peer, time_time, emit}
use lvpn.Wireguard.Engine.{engine_remove_peer, engine_add_peer}

-- The state of the peer stays as it is.
abbrev pub Stays : Bool → Bool → Type 0
Stays b c = c ≡ b

module _ (iface key : String) where
  abbrev pub touches : String → String → Bool
  touches i k = str_eq i iface && str_eq k key

  abbrev pub Removed : String → String → Bool → Bool → Type 0
  Removed i k b c = c ≡ (b && not (touches i k))

  abbrev pub Added : String → String → Bool → Bool → Type 0
  Added i k b c = c ≡ (b || touches i k)

  module _ {A : Type 0} where
    -- Whether the peer is there after a command, by whether it was there before.
    abbrev pub apply : Bool → Effect A → Bool
    apply b (add_peer i k ips endpoint) = b || touches i k
    apply b (remove_peer i k) = b && not (touches i k)
    apply b _ = b

    abbrev pub after : Bool → List (Effect A) → Bool
    after b [] = b
    after b (e ∷ es) = after (apply b e) es

    pub after-append :
        (b : Bool) (es fs : List (Effect A)) → after b (es ++ fs) ≡ after (after b es) fs
    after-append b [] fs = refl
    after-append b (e ∷ es) fs = after-append (apply b e) es fs

    -- A call that returns has run commands that turn the one state of the peer into the other.
    abbrev pub Turns : {X : Type 0} → (Bool → Bool → Type 0) → World A → Result X × World A → Type 0
    Turns R w (ok _, v) =
        (es : List (Effect A)) × (v.effects ≡ w.effects ++ es) × ((b : Bool) → R b (after b es))
    Turns R w (err _, v) = Unit

    Turns-later :
        {X : Type 0} (R Q T : Bool → Bool → Type 0) (w v : World A) (es : List (Effect A))
        (q : Result X × World A)
        → v.effects ≡ w.effects ++ es
        → ((b : Bool) → R b (after b es))
        → ((b c d : Bool) → R b c → Q c d → T b d)
        → Turns Q v q
        → Turns T w q
    Turns-later R Q T w v es (err _, u) e r chain later = tt
    Turns-later R Q T w v es (ok _, u) e r chain (fs, g, q) = (
      es ++ fs,
      g ∙ ap (λ (l : List (Effect A)). l ++ fs) e ∙ append_assoc w.effects es fs,
      λ b.
          rw (after-append b es fs)
            (chain b (after b es) (after (after b es) fs) (r b) (q (after b es))),
    )

    pub Turns-proceed :
        {X Y : Type 0} (R Q T : Bool → Bool → Type 0) (w : World A) (r : Result X × World A)
        (f : X → Exec (World A) Y)
        → ((b c d : Bool) → R b c → Q c d → T b d)
        → Turns R w r
        → ((x : X) (v : World A) → Turns Q v (f x v))
        → Turns T w (proceed r f)
    Turns-proceed R Q T w (err e, v) f chain first later = tt
    Turns-proceed R Q T w (ok x, v) f chain (es, e, r) later =
        Turns-later R Q T w v es (f x v) e r chain (later x v)

    pub Turns-map :
        {X : Type 0} (R Q : Bool → Bool → Type 0) (w : World A) (r : Result X × World A)
        → ((b c : Bool) → R b c → Q b c)
        → Turns R w r
        → Turns Q w r
    Turns-map R Q w (err e, v) f t = tt
    Turns-map R Q w (ok x, v) f (es, e, r) = (es, e, λ b. f b (after b es) (r b))

    pub time_time-Stays : (w : World A) → Turns Stays w (time_time w)
    time_time-Stays w = ([], sym (append-nil w.effects), λ b. refl)

    pub lift-Stays : {X : Type 0} (w : World A) (r : Result X) → Turns Stays w (lift r w)
    lift-Stays w (ok x) = ([], sym (append-nil w.effects), λ b. refl)
    lift-Stays w (err e) = tt

    pub raise_unless-Stays :
        (w : World A) (good : Bool) (e : Error) → Turns Stays w (raise_unless good e w)
    raise_unless-Stays w true e = ([], sym (append-nil w.effects), λ b. refl)
    raise_unless-Stays w false e = tt

    pub emit-Turns : (w : World A) (e : Effect A) → Turns (λ b c. c ≡ apply b e) w (emit e w)
    emit-Turns w e = (e ∷ [], refl, λ b. refl)

    pub when-Turns :
        (R : Bool → Bool → Type 0) (w : World A) (given : Bool) (m : Exec (World A) (Unit {0}))
        → ((b : Bool) → R b b)
        → (given ≡ true → Turns R w (m w))
        → Turns R w (when given m w)
    when-Turns R w true m stays turns = turns refl
    when-Turns R w false m stays turns = ([], sym (append-nil w.effects), stays)

    -- A command that is run if `enabled` holds, which it does.
    pub command-Turns :
        (w : World A) (enabled good : Bool) (e : Effect A) (error : Error)
        → enabled ≡ true
        → Turns (λ b c. c ≡ apply b e) w (when enabled (emit e >> raise_unless good error) w)
    command-Turns w true good e error h =
        Turns-proceed (λ b c. c ≡ apply b e) Stays (λ b c. c ≡ apply b e) w (emit e w)
          (λ _. raise_unless good error) (λ b c d first later. later ∙ first) (emit-Turns w e)
          (λ _ v. raise_unless-Stays v good error)
    command-Turns w false good e error h = cc

module _ {A : Type 0} (iface key : String) (reg : Registry A) (w : World A) where
  -- The peer is removed if it is the one that is named.
  pub engine_remove_peer-Turns :
      (i public : String)
      → reg.cfg.enable_wg ≡ true
      → Turns iface key (Removed iface key i public) w (engine_remove_peer reg i public w)
  unfolding engine_remove_peer
  engine_remove_peer-Turns i public enabled =
      command-Turns iface key w reg.cfg.enable_wg _ (remove_peer i public) _ enabled

  engine_set_peer-Turns :
      (i : String) (wg : WgSession) (psk : Option String)
      → reg.cfg.enable_wg ≡ true
      → Turns iface key
          (Added iface key i wg.client_public_key)
          w
          (engine_add_peer reg i (record wg { psk = psk }) w)
  unfolding engine_add_peer
  engine_set_peer-Turns i wg (some _) enabled = tt
  engine_set_peer-Turns i wg none enabled =
      command-Turns iface key w reg.cfg.enable_wg _ (add_peer i wg.client_public_key _ _) _ enabled

  pub engine_add_peer-Turns :
      (i : String) (wg : WgSession)
      → reg.cfg.enable_wg ≡ true
      → Turns iface key (Added iface key i wg.client_public_key) w (engine_add_peer reg i wg w)
  engine_add_peer-Turns i wg enabled = engine_set_peer-Turns i wg wg.psk enabled
