-- ===== src/Database/Attempts.antt =====
-- How often a handle tries a statement (`DB.execute` and `DB.select`, lib/db.py).
use native.Mathlib.Nat.{add-zero}
use lvpn.Prelude.{
  ℕ, zero, suc, ◌+◌, ◌≡◌, refl, sym, ap, ◌∙◌, Bool, true, false, Bool-cases, Option, none, some,
  inl, inr, arith, if◌then◌else◌,
}
use lvpn.Python.{Error, Result, ok, err, proceed, pure, ◌>>◌, db_error, operational_error}
use lvpn.Database.{
  Handle, Statement, select_rows, new, open_if_closed, is_operational, finish, attempt, execute,
  select, close,
}

-- The first of so many calls from the nth on that is refused, and the first that is not.
abbrev pub first_busy : (ℕ → Bool) → ℕ → ℕ → Option ℕ
first_busy busy zero n = none
first_busy busy (suc calls) n =
    let later = first_busy busy calls (n + 1) in if busy n then some n else later

abbrev pub first_free : (ℕ → Bool) → ℕ → ℕ → Option ℕ
first_free busy zero n = none
first_free busy (suc tries) n =
    let later = first_free busy tries (n + 1) in if busy n then later else some n

module _ {T : Type 0} (t : T) (busy : ℕ → Bool) where
  abbrev pub after : Bool → ℕ → Handle T
  after closed calls = record (new t busy calls) { closed = closed }

  module _ {R : Type 0} where
    abbrev pub reader : (T → Result (R × T)) → Statement T R
    reader f = record { kind = select_rows; run = f }

    -- No try was answered: all were refused, or the statement always ends with an `OperationalError`.
    abbrev pub given_up : ℕ → Result R × Handle T
    given_up last = (err db_error, after true last)

    -- The end of the tries, the last of which would be the call before `last`, if the first that the
    -- library does not refuse is the call `k`.
    abbrev pub attempted : Result (R × T) → ℕ → Option ℕ → Result R × Handle T
    attempted r last none = given_up last
    attempted (ok (rows, _)) last (some k) = (ok rows, after true (k + 1))
    attempted (err operational_error) last (some k) = given_up last
    attempted (err e) last (some k) = (err e, after false (k + 1))

    attempted-caught :
        (e : Error) (last k : ℕ)
        → is_operational e ≡ true
        → attempted (err e) last (some k) ≡ given_up last
    unfolding is_operational
    attempted-caught e last k h = ground arith

    attempted-other :
        (e : Error) (last k : ℕ)
        → is_operational e ≡ false
        → attempted (err e) last (some k) ≡ (err e, after false (k + 1))
    unfolding is_operational
    attempted-other e last k h = ground arith

    -- How a read ends, if the first refusal of the calls that open the database is the call `k`.
    abbrev pub after_opening : Option ℕ → Result R × Handle T → Result R × Handle T
    after_opening (some k) tried = (err operational_error, after true (k + 1))
    after_opening none tried = tried

    caught_always :
        (e : Error) (last : ℕ) (k : Option ℕ)
        → is_operational e ≡ true
        → attempted (err e) last k ≡ given_up last
    caught_always e last none caught = refl
    caught_always e last (some k) caught = attempted-caught e last k caught

    closing : Result R × Handle T → Result R × Handle T
    closing q = proceed q (λ rows. close >> pure rows)

    attempt_lem :
        (f : T → Result (R × T)) (r : Result (R × T)) (tries n : ℕ)
        → f t ≡ r
        → closing (attempt tries false (reader f) (after false n))
          ≡ attempted r (n + tries) (first_free busy tries n)
    unfolding attempt closing finish
    attempt_lem f r zero n e = rw (add-zero n) refl
    attempt_lem f (ok (rows, u)) (suc tries) n e = elim (Bool-cases (busy n)) [
      | inl refused ↦ rw refused (
          attempt_lem f (ok (rows, u)) tries (n + 1) e
          ∙ ap (λ k. attempted (ok (rows, u)) k (first_free busy tries (n + 1))) (omega arith))
      | inr ready ↦ rw (ready, e) refl
    ]
    attempt_lem f (err x) (suc tries) n e =
        let rest =
          attempt_lem f (err x) tries (n + 1) e
          ∙ ap (λ k. attempted (err x) k (first_free busy tries (n + 1))) (omega arith) in
        elim (Bool-cases (busy n)) [
          | inl refused ↦ rw refused rest
          | inr ready ↦ elim (Bool-cases (is_operational x)) [
            | inl caught ↦
                rw (ready, e, caught)
                  (rest
                    ∙ caught_always x (n + suc tries) (first_free busy tries (n + 1)) caught
                    ∙ sym (attempted-caught x (n + suc tries) n caught))
            | inr other ↦ rw (ready, e, other) (sym (attempted-other x (n + suc tries) n other))
          ]
        ]

    opened_lem :
        (f : T → Result (R × T)) (n : ℕ)
        → closing (attempt 5 false (reader f) (after false (n + 1 + 1 + 1)))
          ≡ attempted (f t) (n + 8) (first_free busy 5 (n + 3))
    opened_lem f n =
        attempt_lem f (f t) 5 (n + 1 + 1 + 1) refl
        ∙ ap (λ k. attempted (f t) (k + 5) (first_free busy 5 k)) (omega arith)
        ∙ ap (λ k. attempted (f t) k (first_free busy 5 (n + 3))) (omega arith)

    -- A read on a new handle opens the database with three calls of the library; it raises at the first
    -- of them that is refused, with the handle closed. Otherwise it makes up to five tries, and the
    -- first that the library does not refuse decides: with rows, the handle is closed; an error of the
    -- statement other than an `OperationalError` is raised at once and leaves the handle open. After
    -- five refusals, or if the statement itself ends with an `OperationalError`, which is caught as
    -- well, it raises a `DBException` after all five tries, with the handle closed. What is committed
    -- does not change.
    pub select_attempts :
        (f : T → Result (R × T)) (n : ℕ)
        → select (reader f) (new t busy n)
          ≡ after_opening
              (first_busy busy 3 n)
              (attempted (f t) (n + 8) (first_free busy 5 (n + 3)))
    unfolding select execute open_if_closed closing
    select_attempts f n = elim (Bool-cases (busy n)) [
      | inl refused ↦ rw refused refl
      | inr connects ↦ rw connects (elim (Bool-cases (busy (n + 1))) [
        | inl refused ↦ rw refused refl
        | inr has_cursor ↦ rw has_cursor (elim (Bool-cases (busy (n + 1 + 1))) [
          | inl refused ↦ rw refused refl
          | inr opened ↦ rw opened (opened_lem f n)
        ])
      ])
    ]
