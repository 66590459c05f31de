-- ===== src/Session/Payments.antt =====
-- `Session.add_payment` (lib/session.py).
pub mod Accounts
use lvpn.Prelude.{
  ℕ, String, Bool, true, false, List, [], ◌∷◌, ◌++◌, ◌&&◌, any, ◌==◌, str_eq, if◌then◌else◌,
}
use lvpn.Python.{Exec, pure, raise, type_error, ◌>>=◌, ◌>>◌}
use lvpn.Money.{Money}
use lvpn.Session.Data.{Session, Payment, Price, amount, tuple, get_payment}
use lvpn.Session.World.{World, Registry}
use lvpn.Session.Store.{save}
use lvpn.Session.Activation.{activate}

module _ {A : Type 0} where
  -- Two payments are the same if they come from one transaction at one height.
  abbrev pub same_payment : Payment A → Payment A → Bool
  same_payment p q = p.height == q.height && str_eq p.txid q.txid

  abbrev pub with_payment : Session A → Payment A → Bool → Session A
  with_payment s p paid = record s {
    data_of = record s.data_of { payments = s.payments ++ p ∷ []; paid = paid };
  }

module _ {A : Type 0} ⦃m : Money A⦄ where
  -- The session is saved once more, whatever came of its activation.
  keep : Session A × Bool → Exec (World A) (Session A × Bool)
  keep (t, _) = do save t; pure (t, true)

  settle : Registry A → Session A → Payment A → Price A → Exec (World A) (Session A × Bool)
  unfolding keep
  settle reg s p (tuple price) = raise type_error
  settle reg s p (amount price) =
      if m.at_most price (get_payment (s.payments ++ p ∷ []))
      then (do settled ← activate reg (with_payment s p true); keep settled)
      else keep (with_payment s p false, true)

  -- The session afterwards, and whether the payment was new.
  unfoldable pub add_payment :
      Registry A → Session A → Payment A → Exec (World A) (Session A × Bool)
  unfolding settle
  add_payment reg s p =
      if any (λ q. same_payment q p) s.payments then pure (s, false) else settle reg s p s.price
