-- ===== src/Session/Payments/Accounts.antt =====
-- The payments of a session stay distinct, and its `paid` flag says whether they cover the price.
use mathlib.Core.List.{map-append}
use lvpn.Prelude.{
  ◌≡◌, refl, sym, ap, subst, ◌∙◌, Bool, true, false, List, [], ◌∷◌, ◌++◌, ◌||◌, any, arith, map,
  inl, inr, Bool-cases, eq_refl,
}
use lvpn.Python.{Result, ok, err, proceed}
use lvpn.Money.{Money, sum_from}
use lvpn.Session.Data.{Session, Payment, amount, get_payment, Price-cases}
use lvpn.Session.World.{World, Registry}
use lvpn.Session.Activation.{activate}
use lvpn.Session.Activation.Outcome.{Ended, activate-Ended}
use lvpn.Session.Payments.{same_payment, with_payment, keep, settle, add_payment}

or_false : (b : Bool) → (b || false) ≡ b
or_false true = refl
or_false false = refl

module _ {A : Type 0} where
  -- No two payments are the same.
  abbrev pub Distinct : List (Payment A) → Type 0
  Distinct [] = Unit
  Distinct (p ∷ ps) = (any (λ q. same_payment p q) ps ≡ false) × Distinct ps

  any_last :
      (ps : List (Payment A)) (q p : Payment A)
      → any (λ r. same_payment q r) (ps ++ p ∷ [])
        ≡ (any (λ r. same_payment q r) ps || same_payment q p)
  any_last [] q p = or_false (same_payment q p)
  any_last (r ∷ ps) q p = ground (arith, any_last ps q p)

  Distinct-append :
      (ps : List (Payment A)) (p : Payment A)
      → Distinct ps
      → any (λ q. same_payment q p) ps ≡ false
      → Distinct (ps ++ p ∷ [])
  Distinct-append [] p d h = (refl, tt)
  Distinct-append (q ∷ ps) p d h =
      ground (
        arith,
        Distinct-append ps p d.1,
        any_last ps q p,
        or_false (any (λ r. same_payment r p) ps),
      )

  same_payment_refl : (p : Payment A) → same_payment p p ≡ true
  same_payment_refl p = rw (eq_refl p.txid) (ground arith)

  found_last :
      (ps : List (Payment A)) (p : Payment A) → any (λ q. same_payment q p) (ps ++ p ∷ []) ≡ true
  found_last [] p = rw (same_payment_refl p)
  found_last (q ∷ ps) p = ground (arith, found_last ps p)

module _ {A : Type 0} ⦃m : Money A⦄ where
  sum_from-append :
      (acc x : A) (xs : List A) → sum_from acc (xs ++ x ∷ []) ≡ m.add (sum_from acc xs) x
  sum_from-append acc x [] = refl
  sum_from-append acc x (y ∷ ys) = sum_from-append (m.add acc y) x ys

  pub get_payment-append :
      (ps : List (Payment A)) (p : Payment A)
      → get_payment (ps ++ p ∷ []) ≡ m.add (get_payment ps) p.amount
  unfolding get_payment
  get_payment-append ps p =
      rw (map-append) (sum_from-append m.nothing p.amount (map (λ q. q.amount) ps))

  -- What a new payment leaves of the session, if no exception is raised.
  abbrev Booked : Session A → Payment A → A → Result (Session A × Bool) × World A → Type 0
  Booked s p price (ok (t, new), w) =
      (new ≡ true)
      × (t.price ≡ s.price)
      × (t.payments ≡ s.payments ++ p ∷ [])
      × (t.paid ≡ m.at_most price (get_payment (s.payments ++ p ∷ [])))
  Booked s p price (err _, w) = Unit

  keep-Booked :
      (s t : Session A) (p : Payment A) (price : A) (done : Bool) (w : World A)
      → t.price ≡ s.price
      → t.payments ≡ s.payments ++ p ∷ []
      → t.paid ≡ m.at_most price (get_payment (s.payments ++ p ∷ []))
      → Booked s p price (keep (t, done) w)
  unfolding keep
  keep-Booked s t p price done w e f g = ground arith

  proceed-Booked :
      (s : Session A) (p : Payment A) (price : A) (w : World A)
      (r : Result (Session A × Bool) × World A)
      → m.at_most price (get_payment (s.payments ++ p ∷ [])) ≡ true
      → Ended (with_payment s p true) w r
      → Booked s p price (proceed r keep)
  proceed-Booked s p price w (err _, w') covers ended = tt
  proceed-Booked s p price w (ok (t, true), w') covers ended =
      let e = ended.4 in
      keep-Booked s t p price true w' (ap (λ (r : Session A). r.price) e)
        (ap (λ (r : Session A). r.payments) e) (ap (λ (r : Session A). r.paid) e ∙ sym covers)
  proceed-Booked s p price w (ok (t, false), w') covers ended =
      let e = ended.0 in
      keep-Booked s t p price false w' (ap (λ (r : Session A). r.price) e)
        (ap (λ (r : Session A). r.payments) e) (ap (λ (r : Session A). r.paid) e ∙ sym covers)

  settle-Booked :
      (reg : Registry A) (s : Session A) (p : Payment A) (price : A) (w : World A)
      → Booked s p price (settle reg s p (amount price) w)
  unfolding settle
  settle-Booked reg s p price w =
      elim (Bool-cases (m.at_most price (get_payment (s.payments ++ p ∷ [])))) [
        | inl covers ↦ rw covers (
            proceed-Booked s p price w (activate reg (with_payment s p true) w) covers
              (activate-Ended reg (with_payment s p true) w))
        | inr short ↦
            rw short (keep-Booked s (with_payment s p false) p price true w refl refl (sym short))
      ]

  -- Distinct payments, and a `paid` that is set only if they cover the price.
  pub record Accounts (s : Session A) : Type 0 where
    pub distinct : Distinct s.payments
    pub covered :
        (price : A)
        → s.price ≡ amount price
        → s.paid ≡ true
        → m.at_most price (get_payment s.payments) ≡ true

module _ {A : Type 0} ⦃m : Money A⦄ (reg : Registry A) (s : Session A) (p : Payment A)
    (w : World A) where
  abbrev is_known : Bool
  is_known = any (λ q. same_payment q p) s.payments

  settled :
      (price : A)
      → is_known ≡ false
      → s.price ≡ amount price
      → add_payment reg s p w ≡ settle reg s p (amount price) w
  unfolding add_payment
  settled price new e = rw new (ap (λ x. settle reg s p x w) e)

  module _ (t : Session A) (new : Bool) (w' : World A)
      (done : add_payment reg s p w ≡ (ok (t, new), w')) where
    known : is_known ≡ true → (t ≡ s) × (new ≡ false)
    unfolding add_payment
    known k = ground arith

    -- A payment that raises nothing was made to a price that is an amount.
    priced : is_known ≡ false → (price : A) × (s.price ≡ amount price)
    unfolding add_payment settle
    priced n = elim (Price-cases s.price) [
      | inl (price, e) ↦ (price, e)
      | inr (price, e) ↦ ground arith
    ]

    booked :
        (price : A) → is_known ≡ false → s.price ≡ amount price → Booked s p price (ok (t, new), w')
    booked price n e =
        subst (Booked s p price) (sym (settled price n e) ∙ done) (settle-Booked reg s p price w)

    -- A payment that is new is appended, the sum grows by its amount, the price stays, and the
    -- session counts as paid exactly if the sum now covers the price.
    pub add_payment_books :
        is_known ≡ false
        → (price : A) × (s.price ≡ amount price)
          × (t.price ≡ amount price)
          × (new ≡ true)
          × (t.payments ≡ s.payments ++ p ∷ [])
          × (get_payment t.payments ≡ m.add (get_payment s.payments) p.amount)
          × (t.paid ≡ m.at_most price (get_payment t.payments))
    add_payment_books n =
        let (price, e) = priced n in
        let b = booked price n e in
        (price, e, b.1 ∙ e, b.0, b.2, rw b.2 (get_payment-append s.payments p), rw b.2 b.3)

    -- The same payment a second time is refused, and changes neither the session nor the world.
    pub add_payment_again : (v : World A) → add_payment reg t p v ≡ (ok (t, false), v)
    unfolding add_payment
    add_payment_again v = elim (Bool-cases is_known) [
      | inl k ↦ rw (ap (λ (r : Session A). any (λ q. same_payment q p) r.payments) (known k).0 ∙ k)
      | inr n ↦
          let found : any (λ q. same_payment q p) t.payments ≡ true =
            rw (add_payment_books n).4 (found_last s.payments p) in
          rw found
    ]

    -- When `add_payment` returns: if no two payments of a session are the same and a session that counts
    -- as paid has payments that cover its price, both still hold afterwards.
    pub add_payment-Accounts : Accounts s → Accounts t
    add_payment-Accounts a = elim (Bool-cases is_known) [
      | inl k ↦ subst Accounts (sym (known k).0) a
      | inr n ↦
          let b = add_payment_books n in
          record {
            distinct = rw b.4 (Distinct-append s.payments p a.distinct n);
            covered = λ price e paid.
                let same : price ≡ b.0 = cc (e, b.2) in
                ap (λ x. m.at_most x (get_payment t.payments)) same ∙ sym b.6 ∙ paid;
          }
    ]

    -- With payments that are not negative, what is paid stays paid.
    pub add_payment_stays_paid :
        Accounts s → s.paid ≡ true → m.at_most m.nothing p.amount ≡ true → t.paid ≡ true
    add_payment_stays_paid a paid positive = elim (Bool-cases is_known) [
      | inl k ↦ ap (λ (r : Session A). r.paid) (known k).0 ∙ paid
      | inr n ↦
          let b = add_payment_books n in
          (let total = get_payment s.payments in
            b.6
            ∙ ap (m.at_most b.0) b.5
            ∙ m.at_most_trans b.0 total (m.add total p.amount) (a.covered b.0 b.1 paid)
                (m.at_most-add total p.amount positive))
    ]
