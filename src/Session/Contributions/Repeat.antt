-- ===== src/Session/Contributions/Repeat.antt =====
-- What a second call of `add_contributions` does. Every load of a session makes one.
use lvpn.Prelude.{
  String, ◌≡◌, refl, Bool, true, false, some, List, [], ◌∷◌, ◌++◌, not, arith, ◌||◌, Bool-cases,
  All, select, str_eq, eq_refl, inl, inr, subst,
}
use mathlib.Core.List.{append-nil}
use lvpn.Python.{ok, and_then-eq-ok, ok-injective}
use lvpn.Money.{Money}
use lvpn.Session.Data.{SessionData, Contribution, amount, get_contributions_price}
use lvpn.Session.Contributions.{
  suffixed, drop_last, is_rate, float, share, parse_amount, parse_contribution, parse_contributions,
  has_purpose, merge, shift, add_contributions,
}

or_true : (b : Bool) → (b || true) ≡ true
or_true true = refl
or_true false = refl

module _ {A : Type 0} ⦃m : Money A⦄ where
  -- Two lists of contributions with the same purposes, in the same order.
  abbrev SamePurposes : List (Contribution A) → List (Contribution A) → Type 0
  SamePurposes [] [] = Unit
  SamePurposes (c ∷ cs) (d ∷ ds) = (c.purpose ≡ d.purpose) × SamePurposes cs ds
  SamePurposes _ _ = ⊥

  -- Whether the option can be read does not depend on the price.
  reparse_amount :
      (p q : A) (text : String) {a : A}
      → parse_amount (amount p) text ≡ ok a
      → (b : A) × (parse_amount (amount q) text ≡ ok b)
  unfolding parse_amount
  reparse_amount p q text {a} h = elim (Bool-cases (is_rate text)) [
    | inl rate ↦
        let (r, parsed, _) =
          and_then-eq-ok (float (drop_last text)) (share (amount p)) (rw rate at h) in
        (m.percent q r, rw (rate, parsed))
    | inr plain ↦ (a, rw plain (rw plain at h))
  ]

  reparse_contribution :
      (increase : Bool) (p q : A) (entry : List String) {c : Contribution A}
      → parse_contribution increase (amount p) entry ≡ ok c
      → (d : Contribution A) × (parse_contribution increase (amount q) entry ≡ ok d)
        × (c.purpose ≡ d.purpose)
  unfolding parse_contribution
  reparse_contribution increase p q (wallet ∷ purpose ∷ text ∷ []) {c} h =
      let (a, parsed, built) = and_then-eq-ok (parse_amount (amount p) text) _ h in
      let (b, again) = reparse_amount p q text parsed in
      (
        record { wallet = wallet; purpose = suffixed increase purpose; price = b },
        rw again,
        cc built,
      )
  reparse_contribution increase p q _ h = cc

  reparse :
      (increase : Bool) (p q : A) (entries : List (List String)) {cs : List (Contribution A)}
      → parse_contributions increase (amount p) entries ≡ ok cs
      → (ds : List (Contribution A)) × (parse_contributions increase (amount q) entries ≡ ok ds)
        × SamePurposes cs ds
  unfolding parse_contributions
  reparse increase p q [] {cs} h = ([], refl, subst (λ xs. SamePurposes xs []) (ok-injective h) tt)
  reparse increase p q (entry ∷ rest) {cs} h =
      let (c, first, more) = and_then-eq-ok (parse_contribution increase (amount p) entry) _ h in
      let (tail, others, built) =
        and_then-eq-ok (parse_contributions increase (amount p) rest) _ more in
      let (d, first', same) = reparse_contribution increase p q entry first in
      let (ds, others', alike) = reparse increase p q rest others in
      (
        d ∷ ds,
        rw (first', others'),
        subst (λ xs. SamePurposes xs (d ∷ ds)) (ok-injective built) (same, alike),
      )

  has_purpose-append :
      (xs ys : List (Contribution A)) (c : Contribution A)
      → has_purpose (xs ++ ys) c ≡ (has_purpose xs c || has_purpose ys c)
  unfolding has_purpose
  has_purpose-append [] ys c = refl
  has_purpose-append (x ∷ xs) ys c = ground (arith, has_purpose-append xs ys c)

  has_purpose_alike :
      (xs : List (Contribution A)) (c d : Contribution A)
      → c.purpose ≡ d.purpose
      → has_purpose xs c ≡ has_purpose xs d
  unfolding has_purpose
  has_purpose_alike xs c d e = rw e

  has_purpose-cons :
      (x c : Contribution A) (xs : List (Contribution A))
      → x.purpose ≡ c.purpose
      → has_purpose (x ∷ xs) c ≡ true
  unfolding has_purpose
  has_purpose-cons x c xs e = rw (e, eq_refl c.purpose)

  has_purpose-tail :
      (x c : Contribution A) (xs : List (Contribution A))
      → has_purpose xs c ≡ true
      → has_purpose (x ∷ xs) c ≡ true
  unfolding has_purpose
  has_purpose-tail x c xs h = rw h (or_true (str_eq c.purpose x.purpose))

  abbrev added : List (Contribution A) → List (Contribution A) → List (Contribution A)
  added active new = select (λ c. not (has_purpose active c)) new

  merge_head :
      (active new : List (Contribution A)) (c d : Contribution A)
      → c.purpose ≡ d.purpose
      → has_purpose (merge active (c ∷ new)) d ≡ true
  unfolding merge
  merge_head active new c d e = ground (
    arith,
    has_purpose_alike active c d e,
    has_purpose-append active (added active new) d,
    has_purpose-append active (c ∷ added active new) d,
    has_purpose-cons c d (added active new) e,
  )

  merge_tail :
      (active new : List (Contribution A)) (c d : Contribution A)
      → has_purpose (merge active new) d ≡ true
      → has_purpose (merge active (c ∷ new)) d ≡ true
  unfolding merge
  merge_tail active new c d h = ground (
    arith,
    has_purpose-append active (added active new) d,
    has_purpose-append active (c ∷ added active new) d,
    has_purpose-tail c d (added active new),
  )

  -- Whatever holds the purposes of the merged list holds those of a list with the same purposes.
  covered :
      (xs active new again : List (Contribution A))
      → ((c : Contribution A) → has_purpose (merge active new) c ≡ true → has_purpose xs c ≡ true)
      → SamePurposes new again
      → All (λ c. has_purpose xs c ≡ true) again
  covered xs active [] [] holds h = tt
  covered xs active [] (d ∷ again) holds h = absurd h
  covered xs active (c ∷ new) [] holds h = tt
  covered xs active (c ∷ new) (d ∷ again) holds h = (
    holds d (merge_head active new c d h.0),
    covered xs active new again (λ e k. holds e (merge_tail active new c e k)) h.1,
  )

  select_none :
      (xs ys : List (Contribution A))
      → All (λ c. has_purpose xs c ≡ true) ys
      → select (λ c. not (has_purpose xs c)) ys ≡ []
  select_none xs [] h = refl
  select_none xs (y ∷ ys) h = ground (arith, select_none xs ys h.1)

  -- A list whose purposes are all there adds nothing.
  merge_nothing :
      (xs again : List (Contribution A))
      → All (λ c. has_purpose xs c ≡ true) again
      → merge xs again ≡ xs
  unfolding merge
  merge_nothing xs again h = rw (select_none xs again h) (append-nil xs)

  -- The session after a call that succeeds.
  with_contributions :
      (entry : List String) (rest : List (List String)) (increase : Bool) (d : SessionData A)
      (p : A) {active new : List (Contribution A)}
      → d.price ≡ amount p
      → d.contributions ≡ some active
      → parse_contributions increase (amount p) (entry ∷ rest) ≡ ok new
      → add_contributions (entry ∷ rest) increase d
        ≡ ok (record d {
          contributions = some (merge active new);
          price = amount (shift increase p (get_contributions_price (merge active new)));
        })
  unfolding add_contributions
  with_contributions entry rest increase d p e there parsed = simp (e, parsed, there)

  -- If a first call succeeds on a session whose price is an amount, with the option set, then a
  -- second call succeeds too, adds no contribution, and moves the price a second time by all
  -- contributions of the session.
  pub add_contributions_again :
      (entry : List String) (rest : List (List String)) (increase : Bool) (d : SessionData A)
      (p : A) {active new : List (Contribution A)}
      → d.price ≡ amount p
      → d.contributions ≡ some active
      → parse_contributions increase (amount p) (entry ∷ rest) ≡ ok new
      → let all = merge active new in
        let total = get_contributions_price all in
        let once = record d { contributions = some all; price = amount (shift increase p total) } in
        (add_contributions (entry ∷ rest) increase d ≡ ok once)
        × (add_contributions (entry ∷ rest) increase once
            ≡ ok (record once { price = amount (shift increase (shift increase p total) total) }))
  add_contributions_again entry rest increase d p {active} {new} e there parsed =
      let all = merge active new in
      let total = get_contributions_price all in
      let once = record d { contributions = some all; price = amount (shift increase p total) } in
      let (again, reparsed, same) =
        reparse increase p (shift increase p total) (entry ∷ rest) parsed in
      let same_list = merge_nothing all again (covered all active new again (λ c k. k) same) in
      (
        with_contributions entry rest increase d p e there parsed,
        rw same_list at (
            with_contributions entry rest increase once (shift increase p total) refl refl
              reparsed),
      )
