-- ===== src/Session/Contributions/Tuples.antt =====
-- Contributions to a price that is a tuple.
use lvpn.Prelude.{String, ◌≡◌, ◌≢◌, Bool, List, ◌∷◌, arith, Option-cases, inl, inr}
use lvpn.Python.{ok, and_then-eq-ok}
use lvpn.Money.{Money}
use lvpn.Session.Data.{SessionData, tuple}
use lvpn.Session.Contributions.{parse_contributions, add_contributions}

module _ {A : Type 0} ⦃m : Money A⦄ where
  -- With the option set, `add_contributions` raises on a price that is a tuple.
  pub add_contributions_tuple :
      (entry : List String) (rest : List (List String)) (increase : Bool) (d d' : SessionData A)
      (p : A)
      → d.price ≡ tuple p
      → add_contributions (entry ∷ rest) increase d ≢ ok d'
  unfolding add_contributions
  add_contributions_tuple entry rest increase d d' p e h =
      let (new, _, more) =
        and_then-eq-ok (parse_contributions increase d.price (entry ∷ rest)) _ h in
      elim (Option-cases d.contributions) [
        | inl absent ↦ ground arith
        | inr (active, there) ↦ ground arith
      ]
