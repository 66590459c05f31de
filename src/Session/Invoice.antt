-- ===== src/Session/Invoice.antt =====
-- `Session.get_pay_msgs` (lib/session.py) with `Messages.pay` (lib/messages.py): what a client's
-- wallet is asked to pay for a session.
pub mod Totals
use lvpn.Prelude.{String, Option, none, some, List, [], ◌∷◌, ◌++◌}
use lvpn.Session.Data.{Session, Contribution, Price, amount}

-- A message `Wallet/Pay`: payments to wallets, and the payment id.
pub record PayMessage (A : Type 0) : Type 0 where
  pub payments : List (String × Price A)
  pub paymentid : String

abbrev pub no_paymentid : String
no_paymentid = "0000000000000000"

module _ {A : Type 0} where
  -- The list `payments` is never emptied: each contribution's message repeats the earlier ones.
  contribution_msgs : List (String × Price A) → List (Contribution A) → List (PayMessage A)
  contribution_msgs payments [] = []
  contribution_msgs payments (c ∷ cs) =
      let longer = payments ++ (c.wallet, amount c.price) ∷ [] in
      record { payments = longer; paymentid = no_paymentid } ∷ contribution_msgs longer cs

  unfoldable pub get_pay_msgs : Session A → List (PayMessage A)
  unfolding contribution_msgs
  get_pay_msgs s =
      record { payments = (s.wallet, s.price) ∷ []; paymentid = s.paymentid }
      ∷ elim s.contributions [ none ↦ [] | some cs ↦ contribution_msgs [] cs ]
