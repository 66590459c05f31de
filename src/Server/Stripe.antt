-- ===== src/Server/Stripe.antt =====
-- `StripeManager` (server/stripe.py): the payments at Stripe that are passed on to the wallet, and
-- those that wait for the wallet's confirmation. A message is its text.
pub mod Once
use lvpn.Prelude.{
  ℕ, ◌+◌, String, Bool, true, false, Option, none, some, List, [], ◌∷◌, ◌++◌, not, str_eq, is_some,
  select, map, if◌then◌else◌,
}
use lvpn.Prelude.Dict.{lookup, put}
use lvpn.Python.{Result, ok, err, and_then}

-- The entry `metadata` of a payment at Stripe.
pub record Metadata : Type 0 where
  pub paid : Bool
  pub wallet : Option String
  pub paymentid : Option String
  pub amount1 : Option String

pub record PaymentIntent : Type 0 where
  pub id : String
  pub succeeded : Bool
  pub amount : ℕ
  pub metadata : Option Metadata

pub record Stripe : Type 0 where
  -- `_messages`: the payment that a message was sent for
  pub messages : List (String × PaymentIntent)
  -- what was put into the general queue
  pub queue : List String
  -- the payments that were marked as paid at Stripe
  pub marked : List String

abbrev pub started : Stripe
started = record { messages = []; queue = []; marked = [] }

send : PaymentIntent → String → Stripe → Stripe
send p m s =
    if is_some (lookup m s.messages)
    then s
    else record s { messages = put m p s.messages; queue = s.queue ++ m ∷ [] }

-- `Messages.pay` of the wallet, the amount times `float(amount1) / 100`, and the payment id;
-- `float` may raise.
module _ (pay : String → ℕ → String → String → Result String) where
  settle_metadata :
      PaymentIntent → Bool → Option String → Option String → Option String → Stripe → Result Stripe
  unfolding send
  settle_metadata p true wallet paymentid amount1 s = ok s
  settle_metadata p false (some wallet) (some paymentid) (some amount1) s =
      and_then (pay wallet p.amount amount1 paymentid) (λ m. ok (send p m s))
  settle_metadata p false _ _ _ s = ok s

  take_metadata : PaymentIntent → Option Metadata → Stripe → Result Stripe
  unfolding settle_metadata
  take_metadata p none s = ok s
  take_metadata p (some d) s = settle_metadata p d.paid d.wallet d.paymentid d.amount1 s

  take_payment : PaymentIntent → Stripe → Result Stripe
  unfolding take_metadata
  take_payment p s = if p.succeeded then take_metadata p p.metadata s else ok s

  -- One round over the payments that Stripe lists.
  pub poll : List PaymentIntent → Stripe → Result Stripe
  unfolding take_payment
  poll [] s = ok s
  poll (p ∷ ps) s = and_then (take_payment p s) (poll ps)

-- `del d[key]`
abbrev pub delete : String → List (String × PaymentIntent) → List (String × PaymentIntent)
delete key d = select (λ (k, _). not (str_eq k key)) d

confirm_found : String → Option PaymentIntent → Stripe → Stripe
confirm_found m none s = s
confirm_found m (some p) s = record s {
  messages = delete m s.messages;
  marked = s.marked ++ p.id ∷ [];
}

-- A message `Paid` with the original message in it.
pub confirm : String → Stripe → Stripe
unfolding confirm_found
confirm m s = confirm_found m (lookup m s.messages) s

-- What happens to the service: a list from Stripe, or a confirmation from the wallet.
pub data Event : Type 0 where
  listed : List PaymentIntent → Event
  confirmed : String → Event

module _ (pay : String → ℕ → String → String → Result String) where
  pub handle : Event → Stripe → Result Stripe
  unfolding poll confirm
  handle (listed ps) s = poll pay ps s
  handle (confirmed m) s = ok (confirm m s)

  unfoldable pub run : List Event → Stripe → Result Stripe
  unfolding handle
  run [] s = ok s
  run (e ∷ es) s = and_then (handle e s) (run es)
