-- ===== src/Money.antt =====
-- Amounts of coins. The program computes with Python's floats, which have no counterpart here:
-- the type of amounts and its operations are an interface. Its laws are those of floats without
-- NaN: adding what is not negative does not lower an amount, and the order is transitive.
use lvpn.Prelude.{
  ℕ, ◌/◌, String, ◌≡◌, Bool, true, false, Option, none, some, List, [], ◌∷◌, arith, ◌==◌, str_eq,
  if◌then◌else◌,
}
use lvpn.Prelude.Int.{ℤ, pos, negsuc, ◌+ℤ◌, ◌-ℤ◌, ◌*ℤ◌, leb_ℤ}

pub record Money (A : Type 0) : Type 0 where
  -- `0`
  pub nothing : A
  -- `a + b`, `a - b`
  pub add : A → A → A
  pub subtract : A → A → A
  -- `a * days`
  pub times : A → ℕ → A
  -- `price * (rate / 100)`
  pub percent : A → A → A
  -- `a >= b` is `at_most b a`
  pub at_most : A → A → Bool
  -- `a == 0`
  pub is_zero : A → Bool
  -- `float(text)`; `none` is a `ValueError`
  pub parse : String → Option A
  pub at_most_refl : (a : A) → at_most a a ≡ true
  pub at_most_trans : (a b c : A) → at_most a b ≡ true → at_most b c ≡ true → at_most a c ≡ true
  pub at_most-add : (a b : A) → at_most nothing b ≡ true → at_most a (add a b) ≡ true

-- The sum that a `total += x` loop starts at 0 computes, from the left.
module _ {A : Type 0} ⦃m : Money A⦄ where
  abbrev pub sum_from : A → List A → A
  sum_from acc [] = acc
  sum_from acc (x ∷ xs) = sum_from (m.add acc x) xs

  abbrev pub sum : List A → A
  sum xs = sum_from m.nothing xs

-- Whole coins, with which the development's examples compute.
pub whole_at_most_refl : (a : ℤ) → leb_ℤ a a ≡ true
whole_at_most_refl a = ground arith

pub whole_at_most_trans : (a b c : ℤ) → leb_ℤ a b ≡ true → leb_ℤ b c ≡ true → leb_ℤ a c ≡ true
whole_at_most_trans a b c h k = ground arith

pub whole_at_most-add : (a b : ℤ) → leb_ℤ (pos 0) b ≡ true → leb_ℤ a (a +ℤ b) ≡ true
unfolding ◌+ℤ◌
whole_at_most-add a b h = ground arith

abbrev whole_percent : ℤ → ℤ → ℤ
whole_percent p r = elim (p *ℤ r) [ pos n ↦ pos (n / 100) | negsuc n ↦ negsuc (n / 100) ]

abbrev whole_is_zero : ℤ → Bool
whole_is_zero (pos n) = n == 0
whole_is_zero (negsuc _) = false

abbrev whole_parse : String → Option ℤ
whole_parse s = if str_eq s "10" then some (pos 10) else if str_eq s "5" then some (pos 5) else none

instance abbrev pub whole_coins : Money ℤ
whole_coins = record {
  nothing = pos 0;
  add = ◌+ℤ◌;
  subtract = ◌-ℤ◌;
  times = λ a n. a *ℤ pos n;
  percent = whole_percent;
  at_most = leb_ℤ;
  is_zero = whole_is_zero;
  parse = whole_parse;
  at_most_refl = whole_at_most_refl;
  at_most_trans = whole_at_most_trans;
  at_most-add = whole_at_most-add;
}
