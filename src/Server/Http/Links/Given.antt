-- ===== src/Server/Http/Links/Given.antt =====
-- What a customer is given who asks for a payment link (stripe_payment of server/http.py).
use Prim.Native.Char.{code}
use mathlib.Core.List.{append_assoc}
use lvpn.Prelude.{
  ℕ, ◌+◌, String, ◌≡◌, refl, ap, subst, ◌∙◌, Bool, true, false, Option, none, some, List, [], ◌∷◌,
  ◌++◌, not, inl, inr, ◌||◌, ◌==◌, Bool-cases, All, str_eq, if◌then◌else◌,
}
use lvpn.Prelude.Text.{split}
use lvpn.Python.{Exec, Result, ok, err, pure, or_raise, value_error, proceed, ◌>>=◌}
use lvpn.Money.{Money}
use lvpn.Util.{check_paymentid, check_wallet_address, shorten_wallet_address}
use lvpn.Server.Http.Links.{
  PaymentLink, LinkCall, take, Links, Desk, LinkAnswer, failed, pay_at, StripeOptions, search,
  take_link, read_price, offer, stripe_payment,
}
use lvpn.Server.Http.Links.Chosen.{Releases, Found, OnlyReleases, Ends, search-Ends}

-- An address is only given past the three checks.
past_checks :
    (unset good fine : Bool) (d : Desk) (offered : Exec Desk LinkAnswer) {e : Desk} {url : String}
    → (if unset
          then pure (failed 500)
          else if not good
          then pure (failed 400)
          else if not fine
          then pure (failed 400)
          else offered)
        d
      ≡ (ok (pay_at url), e)
    → (good ≡ true) × (fine ≡ true) × (offered d ≡ (ok (pay_at url), e))
past_checks true good fine d offered h = absurd (cc h)
past_checks false false fine d offered h = absurd (cc h)
past_checks false true false d offered h = absurd (cc h)
past_checks false true true d offered h = (refl, refl, h)

module _ (links : Links) (wallet paymentid : String) where
  -- The link that was given is the first that is not in use; it carries the wallet and the payment id,
  -- and Stripe has accepted it. Apart from it only links in use for ten minutes are changed.
  pub Taken : List String → Desk → String → Desk → Type 0
  Taken ids d url e =
      (p : String) × (pl : PaymentLink) × (now : ℕ) × (amount : ℕ) × (made : List LinkCall) × Found
        links ids (some (p, pl))
      × (url ≡ pl.url)
      × All (Releases links d.times) made
      × (let last = take p (shorten_wallet_address wallet) now wallet paymentid amount in
          (e.calls ≡ d.calls ++ (made ++ last ∷ [])) × (links.accepts last ≡ true))

  -- An answer without a link says nothing.
  pub Given : List String → Desk → Result LinkAnswer × Desk → Type 0
  unfolding Taken
  Given ids d (err _, e) = Unit
  Given ids d (ok (failed _), e) = Unit
  Given ids d (ok (pay_at url), e) = Taken ids d url e

  take_link-Given :
      (ids : List String) (d e : Desk) (amount : ℕ) (found : Option (String × PaymentLink))
      → Found links ids found
      → OnlyReleases links d e
      → Given ids d (take_link links wallet paymentid amount found e)
  unfolding Given take_link OnlyReleases Taken
  take_link-Given ids d e amount none f o = tt
  take_link-Given ids d e amount (some (p, pl)) f (made, k, a, t) = go (links.accepts call) refl
    where
      call : LinkCall
      call = take p (shorten_wallet_address wallet) (e.times e.readings) wallet paymentid amount

      last : Desk
      last = record e { readings = e.readings + 1; calls = e.calls ++ call ∷ [] }

      go :
          (done : Bool)
          → links.accepts call ≡ done
          → Given ids d (ok (if done then pay_at pl.url else failed 502), last)
      go true h = (
        p,
        pl,
        e.times e.readings,
        amount,
        made,
        f,
        refl,
        a,
        (ap (λ xs. xs ++ call ∷ []) k ∙ append_assoc d.calls made (call ∷ []), h),
      )
      go false h = tt

  found-Given :
      (ids : List String) (d : Desk) (amount : ℕ)
      (r : Result (Option (String × PaymentLink)) × Desk)
      → Ends links ids d r
      → Given ids d (proceed r (take_link links wallet paymentid amount))
  unfolding Ends
  found-Given ids d amount r (found, e, h, f, o) = rw h (take_link-Given ids d e amount found f o)

  module _ {A : Type 0} ⦃m : Money A⦄ (multiply : A → A → A) (credits : A → ℕ)
      (market_price : A) where
    read_price-same :
        (text : String) (d : Desk) → (read_price multiply credits market_price text d).1 ≡ d
    unfolding read_price
    read_price-same String.[] d = refl
    read_price-same (String.◌∷◌ c s) d = elim (Bool-cases (code c == 42)) [
      | inl h ↦ rw h (parsed (m.parse s))
      | inr h ↦ rw h (plain (m.parse (String.◌∷◌ c s)))
    ]
      where
        parsed :
            (found : Option A)
            → (proceed (or_raise found value_error d) (λ rate. pure (multiply market_price rate))).1
              ≡ d
        parsed none = refl
        parsed (some a) = refl

        plain : (found : Option A) → (or_raise found value_error d).1 ≡ d
        plain none = refl
        plain (some a) = refl

    priced-Given :
        (ids : List String) (d : Desk) (r : Result A × Desk)
        → r.1 ≡ d
        → Given ids d (
            proceed r λ price. if m.is_zero price then pure (failed 501) else (do
              found ← search links ids
              take_link links wallet paymentid (credits price) found))
    unfolding Given
    priced-Given ids d (err x, f) h = tt
    priced-Given ids d (ok price, f) h = elim (Bool-cases (m.is_zero price)) [
      | inl z ↦ rw z tt
      | inr z ↦
          rw (z, h)
            (found-Given ids d (credits price) (search links ids d) (search-Ends links ids d))
    ]

    offer-Given :
        (opts : StripeOptions) (d : Desk)
        → Given
            (split b',' opts.stripe_plink_id)
            d
            (offer multiply credits market_price links opts wallet paymentid d)
    unfolding offer
    offer-Given opts d =
        priced-Given (split b',' opts.stripe_plink_id) d _ (read_price-same opts.lthn_price d)

    -- A request is only answered with the address of a payment link if its payment id and its wallet
    -- pass their checks. The link is then the first of the configured ones that is not in use; Stripe
    -- has accepted it with this wallet and payment id, and apart from it only links that were taken more
    -- than ten minutes ago have been changed.
    pub stripe_payment-Taken :
        (opts : StripeOptions) (d e : Desk) (url : String)
        → stripe_payment multiply credits market_price links opts wallet paymentid d
          ≡ (ok (pay_at url), e)
        → (check_paymentid true paymentid ≡ true)
          × (check_wallet_address wallet ≡ true)
          × Taken (split b',' opts.stripe_plink_id) d url e
    unfolding stripe_payment Given
    stripe_payment-Taken opts d e url h =
        let (a, b, r) =
          past_checks (str_eq opts.stripe_api_key "" || str_eq opts.stripe_plink_id "")
            (check_paymentid true paymentid) (check_wallet_address wallet) d _ h in
        (a, b, subst (Given (split b',' opts.stripe_plink_id) d) r (offer-Given opts d))
