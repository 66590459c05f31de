-- ===== src/Prelude/Dict.antt =====
-- Dictionaries with texts as keys, as association lists: assigning to a key that is there leaves it
-- where it is.
use Prim.Native.String.{String}
use mathlib.Core.Path.{◌≡◌, refl}
use mathlib.Core.Bool.{Bool, false, ◌||◌}
use mathlib.Core.Option.{Option, none, some}
use mathlib.Core.List.{List, [], ◌∷◌, ◌++◌}
use native.Mathlib.Omega.{arith}
use text.Mathlib.Text.{◌==◌ as str_eq}
use text.Mathlib.TextEquality.{eq_iff}
use lvpn.Prelude.Tests.{if◌then◌else◌}

-- `key in keys`
abbrev pub member : String → List String → Bool
member k [] = false
member k (j ∷ js) = str_eq j k || member k js

-- No key comes twice.
abbrev pub Distinct : List String → Type 0
Distinct [] = Unit
Distinct (k ∷ ks) = (member k ks ≡ false) × Distinct ks

module _ {ℓ} {V : Type ℓ} where
  abbrev pub keys : List (String × V) → List String
  keys [] = []
  keys ((k, v) ∷ d) = k ∷ keys d

  abbrev pub lookup : String → List (String × V) → Option V
  lookup key [] = none
  lookup key ((k, v) ∷ d) = if str_eq k key then some v else lookup key d

  -- `d[key] = value`
  abbrev pub put : String → V → List (String × V) → List (String × V)
  put key value [] = (key, value) ∷ []
  put key value ((k, v) ∷ d) =
      let rest = put key value d in if str_eq k key then (k, value) ∷ d else (k, v) ∷ rest

  pub put_fresh :
      (key : String) (value : V) (d : List (String × V))
      → member key (keys d) ≡ false
      → put key value d ≡ d ++ (key, value) ∷ []
  put_fresh key value [] h = refl
  put_fresh key value ((k, v) ∷ d) h = ground (arith, put_fresh key value d)

  pub lookup-put :
      (key other : String) (value : V) (d : List (String × V))
      → lookup other (put key value d) ≡ (if str_eq key other then some value else lookup other d)
  lookup-put key other value [] = refl
  lookup-put key other value ((k, v) ∷ d) =
      ground (arith, eq_iff key other, eq_iff k key, eq_iff k other, lookup-put key other value d)

  pub keys-append : (d e : List (String × V)) → keys (d ++ e) ≡ keys d ++ keys e
  keys-append [] e = refl
  keys-append ((k, v) ∷ d) e = rw (keys-append d e)

pub member-append :
    (key : String) (ks js : List String) → member key (ks ++ js) ≡ (member key ks || member key js)
member-append key [] js = refl
member-append key (k ∷ ks) js = ground (arith, member-append key ks js)
