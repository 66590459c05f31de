-- ===== src/Session/Store/Peers.antt =====
-- What `Session.remove` does to the peers of WireGuard interfaces.
use lvpn.Prelude.{
  String, ◌≡◌, refl, ◌∙◌, Bool, true, false, Option, none, some, arith, str_eq, not, ◌&&◌,
}
use mathlib.Core.List.{append-nil}
use lvpn.Prelude.{sym, [], Bool-cases, inl, inr}
use lvpn.Python.{Exec, pure, when, raise_unless, process_error, ◌>>◌}
use lvpn.Vdp.Objects.{is_wg, gate_id}
use lvpn.Session.Data.{Session, WgSession, is_active}
use lvpn.Session.World.{World, Registry, run_hook, emit}
use lvpn.Session.Store.{
  remove_wg_peer, remove_peer_of, deactivate_server, run_deactivation, run_command, deactivate,
  remove,
}
use lvpn.Wireguard.Engine.{get_interface_name, engine_remove_peer}
use lvpn.Wireguard.Effects.{
  Removed, Stays, Turns, Turns-proceed, Turns-map, when-Turns, lift-Stays, emit-Turns,
  raise_unless-Stays, engine_remove_peer-Turns,
}

-- A peer may only go, and only the one with this key.
abbrev pub MayRemove : String → String → Bool → Bool → Type 0
MayRemove key public b c = (c ≡ true → b ≡ true) × (str_eq public key ≡ false → c ≡ b)

module _ (key public : String) where
  pub MayRemove-refl : (b : Bool) → MayRemove key public b b
  MayRemove-refl b = (λ h. h, λ h. refl)

  pub MayRemove-trans :
      (b c d : Bool)
      → MayRemove key public b c
      → MayRemove key public c d
      → MayRemove key public b d
  MayRemove-trans b c d f g = (λ h. f.0 (g.0 h), λ h. g.1 h ∙ f.1 h)

  MayRemove-Stays : (b c : Bool) → Stays b c → MayRemove key public b c
  MayRemove-Stays b c e = (λ h. sym e ∙ h, λ h. e)

module _ {A : Type 0} (iface key public : String) (reg : Registry A) (s : Session A) where
  remove_wg_peer-MayRemove :
      (wg : WgSession) (w : World A)
      → reg.cfg.enable_wg ≡ true
      → wg.client_public_key ≡ public
      → Turns iface key (MayRemove key public) w (remove_wg_peer reg s wg w)
  unfolding remove_wg_peer
  remove_wg_peer-MayRemove wg w enabled same =
      Turns-proceed iface key Stays (MayRemove key public) (MayRemove key public) w _
        (λ i. engine_remove_peer reg i wg.client_public_key)
        (λ b c d e f. MayRemove-trans key public b c d (MayRemove-Stays key public b c e) f)
        (lift-Stays iface key w (get_interface_name reg (gate_id s.gate)))
        (λ i v.
          Turns-map iface key (Removed iface key i wg.client_public_key) (MayRemove key public) v _
            (λ b c e. ground (arith, e, same))
            (engine_remove_peer-Turns iface key reg v i wg.client_public_key enabled))

  remove_peer_of-MayRemove :
      (wg : Option WgSession) (w : World A)
      → reg.cfg.enable_wg ≡ true
      → ((peer : WgSession) → wg ≡ some peer → peer.client_public_key ≡ public)
      → Turns iface key (MayRemove key public) w (remove_peer_of reg s wg w)
  unfolding remove_peer_of
  remove_peer_of-MayRemove none w enabled same =
      ([], sym (append-nil w.effects), MayRemove-refl key public)
  remove_peer_of-MayRemove (some peer) w enabled same =
      remove_wg_peer-MayRemove peer w enabled (same peer refl)

  run_deactivation-MayRemove :
      (w : World A)
      → reg.cfg.enable_wg ≡ true
      → reg.cfg.is_server ≡ true
      → ((peer : WgSession) → s.wg ≡ some peer → peer.client_public_key ≡ public)
      → Turns iface key (MayRemove key public) w (run_deactivation reg s w)
  unfolding run_deactivation deactivate_server
  run_deactivation-MayRemove w enabled server same = simp server (
      when-Turns iface key (MayRemove key public) w (is_wg s.gate.type) _
        (MayRemove-refl key public) (λ _. remove_peer_of-MayRemove s.wg w enabled same))

  run_command-MayRemove :
      (command : Option String) (w : World A)
      → Turns iface key (MayRemove key public) w (run_command reg command s w)
  unfolding run_command
  run_command-MayRemove none w = ([], sym (append-nil w.effects), MayRemove-refl key public)
  run_command-MayRemove (some command) w =
      Turns-proceed iface key Stays Stays (MayRemove key public) w
        (emit (run_hook command s.sessionid) w)
        (λ _. raise_unless (reg.host.hook_starts command) process_error)
        (λ b c d e f. MayRemove-Stays key public b d (f ∙ e))
        (emit-Turns iface key w (run_hook command s.sessionid))
        (λ _ v. raise_unless-Stays iface key v _ _)

  deactivate-MayRemove :
      (w : World A)
      → reg.cfg.enable_wg ≡ true
      → reg.cfg.is_server ≡ true
      → ((peer : WgSession) → s.wg ≡ some peer → peer.client_public_key ≡ public)
      → Turns iface key (MayRemove key public) w (deactivate reg s w)
  unfolding deactivate
  deactivate-MayRemove w enabled server same = elim (Bool-cases (is_active s)) [
    | inl e ↦ simp e (
        Turns-proceed iface key (MayRemove key public) (MayRemove key public) (MayRemove key public)
          w (run_deactivation reg s w)
          (λ _. run_command reg reg.cfg.on_session_deactivation s >> pure true)
          (MayRemove-trans key public) (run_deactivation-MayRemove w enabled server same)
          (λ _ v.
            Turns-proceed iface key (MayRemove key public) Stays (MayRemove key public) v
              (run_command reg reg.cfg.on_session_deactivation s v) (λ _. pure true)
              (λ b c d f g. MayRemove-trans key public b c d f (MayRemove-Stays key public c d g))
              (run_command-MayRemove reg.cfg.on_session_deactivation v)
              (λ _ u. ([], sym (append-nil u.effects), λ b. refl))))
    | inr e ↦ simp e ([], sym (append-nil w.effects), MayRemove-refl key public)
  ]

  -- A session's removal takes at most the peer with its key from an interface.
  pub remove-MayRemove :
      (w : World A)
      → reg.cfg.enable_wg ≡ true
      → reg.cfg.is_server ≡ true
      → ((peer : WgSession) → s.wg ≡ some peer → peer.client_public_key ≡ public)
      → Turns iface key (MayRemove key public) w (remove reg true s w)
  unfolding remove
  remove-MayRemove w enabled server same =
      let given : Bool = reg.cfg.is_server && not (str_eq s.sessionid "") && true in
      let drop : Exec (World A) (Unit {0}) = deactivate reg s >> pure tt in
      Turns-proceed iface key (MayRemove key public) Stays (MayRemove key public) w
        (when given drop w) _
        (λ b c d f g. MayRemove-trans key public b c d f (MayRemove-Stays key public c d g))
        (when-Turns iface key (MayRemove key public) w given drop (MayRemove-refl key public) (λ _.
          Turns-proceed iface key (MayRemove key public) Stays (MayRemove key public) w
            (deactivate reg s w) (λ _. pure tt)
            (λ b c d f g. MayRemove-trans key public b c d f (MayRemove-Stays key public c d g))
            (deactivate-MayRemove w enabled server same)
            (λ _ u. ([], sym (append-nil u.effects), λ b. refl))))
        (λ _ u. ([], sym (append-nil u.effects), λ b. refl))
