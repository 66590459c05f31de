-- ===== src/Service/Oldest.antt =====
-- The log keeps the oldest entries (lib/service.py).
use mathlib.Core.List.{append-nil, append_assoc}
use lvpn.Prelude.{
  ℕ, zero, suc, ◌≤◌, String, ◌≡◌, refl, sym, ap, ◌∙◌, inl, inr, Bool-cases, List, [], ◌∷◌, ◌++◌,
  length, ltb, arith,
}
use lvpn.Service.{take_first, log_gui, log_all}

module _ {A : Type 0} where
  length-take_first : (n : ℕ) (xs : List A) → length (take_first n xs) ≤ n
  unfolding take_first
  length-take_first zero xs = omega arith
  length-take_first (suc n) [] = omega arith
  length-take_first (suc n) (x ∷ xs) = ground (arith, length-take_first n xs)

  take_first-all : (n : ℕ) (xs : List A) → length xs ≤ n → take_first n xs ≡ xs
  unfolding take_first
  take_first-all zero [] h = refl
  take_first-all zero (x ∷ xs) h = ground arith
  take_first-all (suc n) [] h = refl
  take_first-all (suc n) (x ∷ xs) h = ap (λ l. x ∷ l) (take_first-all n xs (ground arith))

  -- What is cut off once stays cut off.
  take_first-append :
      (n : ℕ) (xs ys : List A) → take_first n (take_first n xs ++ ys) ≡ take_first n (xs ++ ys)
  unfolding take_first
  take_first-append zero xs ys = refl
  take_first-append (suc n) [] ys = refl
  take_first-append (suc n) (x ∷ xs) ys = ap (λ l. x ∷ l) (take_first-append n xs ys)

log_gui-take_first :
    (entry : String) (log : List String) → log_gui entry log ≡ take_first 30 (log ++ entry ∷ [])
unfolding log_gui
log_gui-take_first entry log = elim (Bool-cases (ltb 30 (length (log ++ entry ∷ [])))) [
  | inl long ↦ simp long refl
  | inr short ↦ simp short (sym (take_first-all 30 (log ++ entry ∷ []) (ground arith)))
]

-- A log of at most thirty entries, after any number of calls, is the first thirty of the entries it
-- had and of the new ones in their order: the oldest are kept and later ones are lost. It is never
-- longer.
pub log_all-take_first :
    (entries log : List String)
    → length log ≤ 30
    → (log_all entries log ≡ take_first 30 (log ++ entries)) × (length (log_all entries log) ≤ 30)
unfolding log_all
log_all-take_first [] log h = (sym (rw (append-nil log) (take_first-all 30 log h)), h)
log_all-take_first (entry ∷ entries) log h =
    let (e, b) =
      log_all-take_first entries (log_gui entry log)
        (rw (log_gui-take_first entry log) (length-take_first 30 (log ++ entry ∷ []))) in
    (
      e
          ∙ rw
              (
                log_gui-take_first entry log,
                take_first-append 30 (log ++ entry ∷ []) entries,
                append_assoc log (entry ∷ []) entries,
              )
              refl,
      b,
    )
