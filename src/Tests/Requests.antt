-- ===== src/Tests/Requests.antt =====
-- The list of the sessions, the payment links and the search for a port at concrete requests.
use lvpn.Prelude.{
  ℕ, String, ◌≡◌, refl, ◌⊎◌, Bool, true, false, none, some, [], ◌∷◌, ◌*◌, ◌==◌, str_eq, arith,
  if◌then◌else◌,
}
use lvpn.Prelude.Int.{ℤ, pos, ◌*ℤ◌, pos_part}
use lvpn.Prelude.Text.{split}
use lvpn.Python.{ok}
use lvpn.Money.{whole_coins}
use lvpn.Clock.{tick}
use lvpn.Session.World.{Registry}
use lvpn.Server.Http.Listing.{is_space, sessions, all_sessions, words, refused, bearer_header}
use lvpn.Server.Http.Listing.Guarded.{Shows, has_space, sessions-Shows, bearer_header-sessions}
use lvpn.Util.{check_paymentid, check_wallet_address, shorten_wallet_address}
use lvpn.Util.Ports.{find_random_free_port, Searched, find_random_free_port-Searched}
use lvpn.Server.Http.Links.{
  PaymentLink, Links, Desk, StripeOptions, disable, take, pay_at, failed, stripe_payment,
}
use lvpn.Server.Http.Links.Given.{Taken, stripe_payment-Taken}
use lvpn.Tests.Samples.{registry, server, world}

abbrev here : Registry ℤ
here = registry (server []) (pos 0)

two_words : words " Bearer  secret " ≡ "Bearer" ∷ "secret" ∷ []
unfolding words
two_words = refl

no_header : sessions here (some "secret") none world ≡ (ok (refused 403), world)
unfolding sessions
no_header = refl

sessions-Shows_example :
    (Shows "secret" (some "Bearer secret")
      × (sessions here (some "secret") (some "Bearer secret") world ≡ all_sessions here world))
    ⊎ ((¬ Shows "secret" (some "Bearer secret"))
        × (sessions here (some "secret") (some "Bearer secret") world ≡ (ok (refused 403), world)))
sessions-Shows_example = sessions-Shows here "secret" (some "Bearer secret") world refl

bearer_header-sessions_example :
    sessions here (some "secret") (some (bearer_header "secret")) world ≡ all_sessions here world
unfolding has_space is_space
bearer_header-sessions_example = bearer_header-sessions here "secret" world refl refl

-- The first two attempts draw a port that is in use.
abbrev busy_twice : ℕ → ℕ → Bool
busy_twice n port = if n == 2 then true else false

third_attempt : find_random_free_port (λ n. n) busy_twice 20000 50000 100 ≡ some 20002
unfolding find_random_free_port
third_attempt = refl

find_random_free_port-Searched_example :
    Searched
      (λ n. n)
      busy_twice
      20000
      50000
      100
      0
      (find_random_free_port (λ n. n) busy_twice 20000 50000 100)
find_random_free_port-Searched_example =
    find_random_free_port-Searched (λ n. n) busy_twice 20000 50000 100 (omega arith)

abbrev address : String
address =
    "izAAAAAAAAAAAAAAAAAAAAAAAAAAAAAAAAAAAAAAAAAAAAAAAAAAAAAAAAAAAAAAAAAAAAAAAAAAAAAAAAAAAAAAAAAAB1234"

abbrev link : Bool → String → PaymentLink
link active url = record { active = active; updated = some 1000; url = url }

abbrev stripe : Links
stripe = record {
  retrieve = λ p.
      if str_eq p "old"
      then some (link true "u1")
      else if str_eq p "idle"
      then some (link false "u2")
      else none;
  accepts = λ _. true;
}

abbrev desk : Desk
desk = record { calls = []; times = λ _. 2000 * tick; readings = 0 }

abbrev afterwards : Desk
afterwards = record {
  calls =
      disable "old"
      ∷ take "idle" "izAAA...AAAAAB1234" (2000 * tick) address "0123456789abcdef" 5
      ∷ [];
  times = λ _. 2000 * tick;
  readings = 2;
}

abbrev options : StripeOptions
options = record { stripe_api_key = "key"; stripe_plink_id = "old,idle,spare"; lthn_price = "5" }

abbrev one_old : StripeOptions
one_old = record { stripe_api_key = "key"; stripe_plink_id = "old"; lthn_price = "5" }

idle_link :
    stripe_payment ◌*ℤ◌ pos_part (pos 0) stripe options address "0123456789abcdef" desk
    ≡ (ok (pay_at "u2"), afterwards)
unfolding stripe_payment check_paymentid check_wallet_address shorten_wallet_address
idle_link = refl

-- A link that the request itself has made free is not offered.
freed_too_late :
    (stripe_payment ◌*ℤ◌ pos_part (pos 0) stripe one_old address "0123456789abcdef" desk).0
    ≡ ok (failed 502)
unfolding stripe_payment check_paymentid check_wallet_address
freed_too_late = refl

stripe_payment-Taken_example :
    (check_paymentid true "0123456789abcdef" ≡ true)
    × (check_wallet_address address ≡ true)
    × Taken stripe address "0123456789abcdef" (split b',' "old,idle,spare") desk "u2" afterwards
stripe_payment-Taken_example =
    stripe_payment-Taken stripe address "0123456789abcdef" ◌*ℤ◌ pos_part (pos 0) options desk
      afterwards "u2" idle_link
