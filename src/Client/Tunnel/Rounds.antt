-- ===== src/Client/Tunnel/Rounds.antt =====
-- The loop of the client's service for a gate (client/wg_service.py).
use lvpn.Prelude.{ℕ, zero, suc, String, ◌≡◌, refl, Bool, true, false, inl, inr, Bool-cases}
use lvpn.Python.{Result, Exec, ok, err, pure, proceed, when, ◌>>◌}
use lvpn.Session.Data.{Session, is_active}
use lvpn.Session.World.{Registry}
use lvpn.Client.Proxy.{deactivate_on_client}
use lvpn.Wireguard.Interface.{Address, Templates, Machine, Tunnels, here}
use lvpn.Client.Tunnel.{activate_on_client, rounds, run_loop}

module _ {A : Type 0} (reg : Registry A) (t : Templates) (m : Machine) (text : Address → String)
    (session : Session A) where
  rounds_done : (n : ℕ) (s : Tunnels A) → rounds reg t m text n true session s ≡ (ok tt, s)
  unfolding rounds
  rounds_done zero s = refl
  rounds_done (suc n) s = rounds_done n s

  rounds_passive :
      (n : ℕ) (s : Tunnels A)
      → is_active session ≡ false
      → rounds reg t m text n false session s ≡ (ok tt, s)
  unfolding rounds
  rounds_passive zero s h = refl
  rounds_passive (suc n) s h = simp h (rounds_passive n s h)

  -- The first rounds's activation, and nothing more.
  abbrev once : Exec (Tunnels A) (Unit {0})
  once = when (is_active session) (activate_on_client reg t m text session >> pure tt)

  dropped :
      (r : Result Bool × Tunnels A) (f : Exec (Tunnels A) (Unit {0}))
      → ((s : Tunnels A) → f s ≡ (ok tt, s))
      → proceed r (λ _. f) ≡ proceed r (λ _. pure tt)
  dropped (ok b, s) f h = h s
  dropped (err e, s) f h = refl

  rounds-once : (n : ℕ) (s : Tunnels A) → rounds reg t m text (suc n) false session s ≡ once s
  unfolding rounds
  rounds-once n s = elim (Bool-cases (is_active session)) [
    | inl active ↦ simp active (
        dropped (activate_on_client reg t m text session s) (rounds reg t m text n true session)
          (rounds_done n))
    | inr passive ↦ simp passive (rounds_passive n s passive)
  ]

  -- However many rounds the loop makes, at least one, it activates the tunnel once if the session that
  -- it was started with is active, and never otherwise, since it never reads the session again; then
  -- it takes the peer out if it is told to.
  pub run_loop_lem :
      (n : ℕ) (shutdown : Bool) (s : Tunnels A)
      → run_loop reg t m text (suc n) false shutdown session s
        ≡ (when (is_active session) (activate_on_client reg t m text session >> pure tt)
              >> when shutdown (here (deactivate_on_client reg session.gate)))
            s
  unfolding run_loop
  run_loop_lem n shutdown s = rw (rounds-once n s) refl
