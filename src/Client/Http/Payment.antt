-- ===== src/Client/Http/Payment.antt =====
-- What the client's payment handler does with a session that is not paid.
use lvpn.Prelude.{String, ◌≡◌, refl, ap, ◌∙◌, false, Option, some, List, [], ◌∷◌, if◌then◌else◌}
use lvpn.Python.{
  Result, ok, err, pure, raise, or_raise, proceed, attribute_error, type_error, ◌>>=◌,
}
use lvpn.Server.Http.{with_session}
use lvpn.Money.{Money}
use lvpn.Session.Data.{Session, get_dict, is_active}
use lvpn.Session.World.{World, Registry}
use lvpn.Session.Invoice.{PayMessage, get_pay_msgs}
use lvpn.Sessions.{get}
use lvpn.Client.Http.{put_payments, await_payment, pay_found, pay_session}

module _ {A : Type 0} ⦃m : Money A⦄ (reg : Registry A) where
  put_payments-ok :
      (ps : List (PayMessage A)) (w : World A) → put_payments ps w ≡ (ok tt, (put_payments ps w).1)
  unfolding put_payments
  put_payments-ok [] w = refl
  put_payments-ok (p ∷ ps) w = put_payments-ok ps _

  -- A session that is neither active nor paid: all its payments are put, and then the handler raises
  -- a `TypeError` unless the session, read again, is paid by now.
  pub pay_session_raises :
      (id : String) (s t : Session A) (w v u : World A)
      → get reg id w ≡ (ok (some s), v)
      → is_active s ≡ false
      → s.paid ≡ false
      → get reg s.sessionid (put_payments (get_pay_msgs s) v).1 ≡ (ok (some t), u)
      → t.paid ≡ false
      → pay_session reg id w ≡ (err type_error, u)
  unfolding pay_session pay_found await_payment
  pay_session_raises id s t w v u found inactive unpaid again still =
      ap (λ (r : Result (Option (Session A)) × World A). proceed r (pay_found reg)) found
      ∙ simp (inactive, unpaid)
          (ap (λ (r : Result (Unit {0}) × World A). proceed r (λ _. await_payment reg s))
              (put_payments-ok (get_pay_msgs s) v)
            ∙ ap
                (λ (r : Result (Option (Session A)) × World A). proceed r (λ o.
                  or_raise o attribute_error >>= λ q.
                  if q.paid then pure (with_session 200 (get_dict q)) else raise type_error))
                again
            ∙ simp still refl)
