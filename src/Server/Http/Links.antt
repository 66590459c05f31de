-- ===== src/Server/Http/Links.antt =====
-- The payment links of Stripe (stripe_payment of server/http.py). `Links` is what Stripe answers.
pub mod Chosen
pub mod Given
use Prim.Native.Char.{code}
use lvpn.Prelude.{
  ℕ, ◌+◌, String, Bool, true, false, Option, none, some, List, [], ◌∷◌, ◌++◌, not, ◌||◌, ◌==◌,
  str_eq, if◌then◌else◌,
}
use lvpn.Prelude.Text.{split}
use lvpn.Python.{Exec, ok, pure, raise, or_raise, value_error, index_error, ◌>>=◌}
use lvpn.Money.{Money}
use lvpn.Clock.{is_past}
use lvpn.Util.{check_paymentid, check_wallet_address, shorten_wallet_address}

pub record PaymentLink : Type 0 where
  pub active : Bool
  -- the metadata `updated` in whole seconds, if it can be read
  pub updated : Option ℕ
  pub url : String

pub data LinkCall : Type 0 where
  disable : String → LinkCall
  -- a link, the wallet in its text, and its new metadata: the time, wallet, payment id and amount
  take : String → String → ℕ → String → String → ℕ → LinkCall

-- Whether `PaymentLink.modify` succeeds; `retrieve` has no answer where it raises.
pub record Links : Type 0 where
  pub retrieve : String → Option PaymentLink
  pub accepts : LinkCall → Bool

-- The calls so far, and the times that the clock is read at.
pub record Desk : Type 0 where
  pub calls : List LinkCall
  pub times : ℕ → ℕ
  pub readings : ℕ

pub data LinkAnswer : Type 0 where
  failed : ℕ → LinkAnswer
  pay_at : String → LinkAnswer

-- The options; `lthn_price` may start with a star.
pub record StripeOptions : Type 0 where
  pub stripe_api_key : String
  pub stripe_plink_id : String
  pub lthn_price : String

read_time : Exec Desk ℕ
read_time d = (ok (d.times d.readings), record d { readings = d.readings + 1 })

module _ (links : Links) where
  -- `PaymentLink.modify`: the call is made, whether or not it succeeds.
  modify_link : LinkCall → Exec Desk Bool
  modify_link c d = (ok (links.accepts c), record d { calls = d.calls ++ c ∷ [] })

  -- A link that nobody uses is one without metadata or an inactive one.
  pub is_free_link : PaymentLink → Bool
  is_free_link pl = elim pl.updated [ none ↦ true | some _ ↦ not pl.active ]

  disable_old :
      Bool
      → String
      → Exec Desk (Option (String × PaymentLink))
      → Exec Desk (Option (String × PaymentLink))
  unfolding modify_link
  disable_old false p rest = rest
  disable_old true p rest = do done ← modify_link (disable p); if done then rest else pure none

  -- A link in use is made free if it was taken ten minutes ago, but it is not the one that is found.
  consider :
      String
      → Option PaymentLink
      → Exec Desk (Option (String × PaymentLink))
      → Exec Desk (Option (String × PaymentLink))
  unfolding is_free_link read_time disable_old
  consider p none rest = pure none
  consider p (some pl) rest = if is_free_link pl then pure (some (p, pl)) else elim pl.updated [
    | none ↦ rest
    | some updated ↦ do now ← read_time; disable_old (is_past now (updated + 600)) p rest
  ]

  -- The first error ends the loop.
  pub search : List String → Exec Desk (Option (String × PaymentLink))
  unfolding consider
  search [] = pure none
  search (p ∷ ps) = consider p (links.retrieve p) (search ps)

  -- `amount` is `int(amount1)`.
  pub take_link : String → String → ℕ → Option (String × PaymentLink) → Exec Desk LinkAnswer
  unfolding read_time modify_link
  take_link wallet paymentid amount none = pure (failed 502)
  take_link wallet paymentid amount (some (p, pl)) = do
    now ← read_time
    done ← modify_link (take p (shorten_wallet_address wallet) now wallet paymentid amount)
    pure (if done then pay_at pl.url else failed 502)

-- `price * rate` and `int(1 / price)` of floats, and the price on the market, which is 0 if it is not
-- known.
module _ {A : Type 0} ⦃m : Money A⦄ (multiply : A → A → A) (credits : A → ℕ)
    (market_price : A) where
  pub read_price : String → Exec Desk A
  read_price String.[] = raise index_error
  read_price (String.◌∷◌ c s) =
      if code c == 42
      then (do rate ← or_raise (m.parse s) value_error; pure (multiply market_price rate))
      else or_raise (m.parse (String.◌∷◌ c s)) value_error

  pub offer : Links → StripeOptions → String → String → Exec Desk LinkAnswer
  unfolding search take_link read_price
  offer links opts wallet paymentid = do
    price ← read_price opts.lthn_price
    if m.is_zero price then pure (failed 501) else (do
      found ← search links (split b',' opts.stripe_plink_id)
      take_link links wallet paymentid (credits price) found)

  unfoldable pub stripe_payment : Links → StripeOptions → String → String → Exec Desk LinkAnswer
  unfolding offer
  stripe_payment links opts wallet paymentid =
      if str_eq opts.stripe_api_key "" || str_eq opts.stripe_plink_id ""
      then pure (failed 500)
      else if not (check_paymentid true paymentid)
      then pure (failed 400)
      else if not (check_wallet_address wallet)
      then pure (failed 400)
      else offer links opts wallet paymentid
