-- ===== src/Tests/Sessions/Payments.antt =====
-- Contributions and payments of a concrete session.
use lvpn.Prelude.{◌≡◌, refl, Bool, true, false, [], ◌∷◌, ◌++◌}
use lvpn.Prelude.Int.{ℤ, pos, ◌+ℤ◌, leb_ℤ}
use lvpn.Python.{ok}
use lvpn.Money.{whole_coins}
use lvpn.Session.Data.{Session, amount, get_payment}
use lvpn.Session.World.{Registry}
use lvpn.Session.Store.{save}
use lvpn.Session.Store.Rows.{saved}
use lvpn.Session.Payments.{with_payment, add_payment}
use lvpn.Session.Payments.Accounts.{Accounts, add_payment_books, add_payment-Accounts}
use lvpn.Tests.Samples.{server, registry, world, session, payment}

abbrev here : Registry ℤ
here = registry (server []) (pos 10)

-- 40 of 100 coins.
abbrev part_paid : Session ℤ
part_paid = with_payment session (payment 40) false

pay_part :
    add_payment here session (payment 40) world
    ≡ (ok (part_paid, true), saved part_paid (pos 100) world)
unfolding add_payment get_payment save ◌+ℤ◌
pay_part = refl

no_payments : Accounts session
no_payments = record { distinct = tt; covered = λ price e paid. cc }

add_payment_books_example :
    (price : ℤ) × (session.price ≡ amount price)
    × (part_paid.price ≡ amount price)
    × (◌≡◌ {A = Bool} true true)
    × (part_paid.payments ≡ session.payments ++ payment 40 ∷ [])
    × (get_payment part_paid.payments ≡ get_payment session.payments +ℤ pos 40)
    × (part_paid.paid ≡ leb_ℤ price (get_payment part_paid.payments))
add_payment_books_example =
    add_payment_books here session (payment 40) world part_paid true
      (saved part_paid (pos 100) world) pay_part refl

add_payment-Accounts_example : Accounts part_paid
add_payment-Accounts_example =
    add_payment-Accounts here session (payment 40) world part_paid true
      (saved part_paid (pos 100) world) pay_part no_payments
