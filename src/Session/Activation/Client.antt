-- ===== src/Session/Activation/Client.antt =====
-- Activation on a client, where `Gateway.activate_client` never returns anything true.
use lvpn.Prelude.{◌≡◌, ◌≢◌, true, false, arith, inl, inr}
use lvpn.Python.{ok}
use lvpn.Money.{Money}
use lvpn.Session.Data.{Session, Price-cases}
use lvpn.Session.World.{World, Registry}
use lvpn.Session.Activation.{activate}

module _ {A : Type 0} ⦃m : Money A⦄ (reg : Registry A) (s t : Session A) (w : World A) where
  -- A client that is no server does not activate any session, whatever was paid for it: `activate`
  -- does not return `True`, also when the WireGuard peer has been set up.
  pub activate_never_on_client :
      reg.cfg.is_client ≡ true → reg.cfg.is_server ≡ false → (activate reg s w).0 ≢ ok (t, true)
  unfolding activate
  activate_never_on_client client server = elim (Price-cases s.price) [
    | inl (p, e) ↦ ground arith
    | inr (p, e) ↦ ground arith
  ]
