-- ===== src/Session/Contributions.antt =====
-- `Session.add_contributions` (lib/session.py): the shares of third parties in a session's price,
-- from the option `contributions`, a list of `wallet/purpose/amount`.
pub mod Repeat
pub mod Tuples
use Prim.Native.String.{◌++◌ as text_append}
use text.Mathlib.Text.{find?}
use lvpn.Prelude.{
  ℕ, String, Bool, true, false, Option, none, some, List, [], ◌∷◌, ◌++◌, not, any, ltb, select,
  str_eq, if◌then◌else◌,
}
use lvpn.Python.{Result, ok, err, type_error, key_error, value_error, and_then}
use lvpn.Money.{Money}
use lvpn.Session.Data.{SessionData, Contribution, Price, amount, tuple, get_contributions_price}

-- `text[:-1]`
drop_last : String → String
drop_last String.[] = String.[]
drop_last (String.◌∷◌ c String.[]) = String.[]
drop_last (String.◌∷◌ c (String.◌∷◌ d s)) = String.◌∷◌ c (drop_last (String.◌∷◌ d s))

-- `amount.find("%") > 0`
is_rate : String → Bool
is_rate text = elim (find? text "%") [ none ↦ false | some i ↦ ltb 0 i ]

-- The purpose that is stored tells who added it.
abbrev pub suffixed : Bool → String → String
suffixed increase purpose = text_append purpose (if increase then ".client" else ".server")

module _ {A : Type 0} ⦃m : Money A⦄ where
  float : String → Result A
  float text = elim (m.parse text) [ none ↦ err value_error | some a ↦ ok a ]

  share : Price A → A → Result A
  share (amount p) rate = ok (m.percent p rate)
  share (tuple p) rate = err type_error

  parse_amount : Price A → String → Result A
  unfolding drop_last is_rate float share
  parse_amount price text =
      if is_rate text then and_then (float (drop_last text)) (share price) else float text

  -- One entry of the option; any other number of fields is a `ValueError`.
  parse_contribution : Bool → Price A → List String → Result (Contribution A)
  unfolding parse_amount
  parse_contribution increase price (wallet ∷ purpose ∷ text ∷ []) =
      and_then (parse_amount price text)
        λ a. ok (record { wallet = wallet; purpose = suffixed increase purpose; price = a })
  parse_contribution increase price _ = err value_error

  unfoldable pub parse_contributions :
      Bool → Price A → List (List String) → Result (List (Contribution A))
  unfolding parse_contribution
  parse_contributions increase price [] = ok []
  parse_contributions increase price (entry ∷ rest) =
      and_then (parse_contribution increase price entry)
        λ c. and_then (parse_contributions increase price rest) λ cs. ok (c ∷ cs)

  -- `c["purpose"] in will_skip`
  pub has_purpose : List (Contribution A) → Contribution A → Bool
  has_purpose active c = any (λ a. str_eq c.purpose a.purpose) active

  -- The purposes that are there already are looked up once, before anything is appended.
  pub merge : List (Contribution A) → List (Contribution A) → List (Contribution A)
  merge active new = active ++ select (λ c. not (has_purpose active c)) new

  abbrev pub shift : Bool → A → A → A
  shift increase p total = if increase then m.add p total else m.subtract p total

  -- `self._data["price"] += total`, or `-= total`
  pub shift_price : Bool → Price A → A → Result (Price A)
  shift_price increase (amount p) total = ok (amount (shift increase p total))
  shift_price increase (tuple p) total = err type_error

  -- The session is left as it was if the option is not set.
  unfoldable pub add_contributions :
      List (List String) → Bool → SessionData A → Result (SessionData A)
  unfolding merge shift_price
  add_contributions [] increase d = ok d
  add_contributions (entry ∷ rest) increase d =
      and_then (parse_contributions increase d.price (entry ∷ rest)) λ new. elim d.contributions [
        | none ↦ err key_error
        | some active ↦
            let all = merge active new in
            and_then (shift_price increase d.price (get_contributions_price all))
              λ price. ok (record d { contributions = some all; price = price })
      ]
