-- ===== src/Session/Data.antt =====
-- The `_data` dictionary of a session and what the session reads of it (lib/session.py).
use lvpn.Prelude.{ℕ, String, ◌≡◌, refl, ◌⊎◌, inl, inr, Bool, Option, none, List, map, not, ◌==◌}
use lvpn.Prelude.Int.{ℤ}
use lvpn.Money.{Money, sum}
use lvpn.Clock.{is_before, units_left, day}
use lvpn.Vdp.Objects.{Gate, Space, get_price}

pub record Payment (A : Type 0) : Type 0 where
  pub amount : A
  pub height : ℕ
  pub txid : String

pub record Contribution (A : Type 0) : Type 0 where
  pub wallet : String
  pub purpose : String
  pub price : A

-- `reuse` stores a tuple of one amount where every other method stores an amount.
pub data Price (A : Type 0) : Type 0 where
  amount : A → Price A
  tuple : A → Price A

pub Price-cases :
    {A : Type 0} (price : Price A) → ((p : A) × (price ≡ amount p)) ⊎ ((p : A) × (price ≡ tuple p))
Price-cases (amount p) = inl (p, refl)
Price-cases (tuple p) = inr (p, refl)

-- The `wg` entry of a session.
pub record WgSession : Type 0 where
  pub client_public_key : String
  pub client_endpoint : String
  pub server_public_key : String
  -- `None` when the network is full
  pub client_ipv4_address : Option ℕ
  pub client_ipv6_address : ℕ
  pub server_ipv4_address : ℕ
  pub server_ipv4_networks : List String
  pub server_ipv6_networks : List String
  pub ipv4_prefix : ℕ
  pub dns : List String
  pub psk : Option String

-- The `ssh` and `proxy` entries.
pub record Credentials : Type 0 where
  pub key : String
  pub crt : String
  pub port : Option ℕ

pub record SessionData (A : Type 0) : Type 0 where
  pub sessionid : String
  pub spaceid : String
  pub gateid : String
  pub created : ℕ
  pub paymentid : String
  pub username : String
  pub password : String
  pub bearer : String
  pub wallet : String
  pub expires : ℕ
  pub paid : Bool
  pub payments : List (Payment A)
  pub contributions : Option (List (Contribution A))
  pub activated : ℕ
  pub payment_sent : Option String
  pub days : ℕ
  pub price : Price A
  pub parent : Option String
  pub wg : Option WgSession
  pub ssh : Option Credentials
  pub proxy : Option Credentials

pub record Session (A : Type 0) : Type 0 where
  pub data_of : SessionData A
  pub open data_of use *
  pub gate : Gate A
  pub space : Space A

module _ {A : Type 0} where
  -- `Session.get_dict`: what is stored and sent lacks `payment_sent`.
  abbrev pub get_dict : Session A → SessionData A
  get_dict s = record s.data_of { payment_sent = none }

  -- `Session.is_active`
  abbrev pub is_active : Session A → Bool
  is_active s = not (s.activated == 0)

  -- `Session.is_fresh`, at the time `now`.
  abbrev pub is_fresh : ℕ → Session A → Bool
  is_fresh now s = is_before now s.expires

  -- `Session.days_left`, at the time `now`.
  abbrev pub days_left : ℕ → Session A → ℤ
  days_left now s = units_left day now s.expires

module _ {A : Type 0} ⦃m : Money A⦄ where
  -- `Session.get_payment`
  unfoldable pub get_payment : List (Payment A) → A
  get_payment ps = sum (map (λ p. p.amount) ps)

  -- `Session.get_contributions_price`
  unfoldable pub get_contributions_price : List (Contribution A) → A
  get_contributions_price cs = sum (map (λ c. c.price) cs)

  -- The price of one day.
  abbrev pub daily_price : Space A → Gate A → A
  daily_price space gate = m.add (get_price space.header) (get_price gate.header)

  -- `Session.is_free`
  abbrev pub is_free : Session A → Bool
  is_free s = m.is_zero (daily_price s.space s.gate)
