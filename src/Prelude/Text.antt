-- ===== src/Prelude/Text.antt =====
-- `str.split` at one character, and texts that are put together for it.
use Prim.Native.Nat.{ℕ}
use Prim.Native.Char.{Char, code}
use Prim.Native.String.{String, ◌++◌}
use mathlib.Core.Path.{◌≡◌, refl, ap}
use mathlib.Core.Bool.{Bool, false, ◌||◌}
use mathlib.Core.List.{List, [], ◌∷◌}
use native.Mathlib.Omega.{arith}
use text.Mathlib.TextLemmas.{nil-append, cons-append}
use lvpn.Prelude.Tests.{◌==◌, if◌then◌else◌}

abbrev pub push : Char → List String → List String
push c [] = String.◌∷◌ c String.[] ∷ []
push c (w ∷ ws) = String.◌∷◌ c w ∷ ws

-- `text.split(sep)`, with the separator's code point
abbrev pub split : ℕ → String → List String
split sep String.[] = String.[] ∷ []
split sep (String.◌∷◌ c s) =
    let rest = split sep s in if code c == sep then String.[] ∷ rest else push c rest

-- `sep in text`
abbrev pub has : ℕ → String → Bool
has sep String.[] = false
has sep (String.◌∷◌ c s) = (code c == sep) || has sep s

pub split-single : (sep : ℕ) (s : String) → has sep s ≡ false → split sep s ≡ s ∷ []
split-single sep String.[] h = refl
split-single sep (String.◌∷◌ c s) h = ground (arith, split-single sep s)

pub split-append :
    (sep : Char) (s t : String)
    → has (code sep) s ≡ false
    → split (code sep) (s ++ String.◌∷◌ sep t) ≡ s ∷ split (code sep) t
split-append sep String.[] t h = rw (nil-append (String.◌∷◌ sep t)) (ground arith)
split-append sep (String.◌∷◌ c s) t h =
    rw (cons-append c s (String.◌∷◌ sep t)) (ground (arith, split-append sep s t))

-- `sep.join(texts)`
abbrev pub join : Char → List String → String
join sep [] = String.[]
join sep (s ∷ []) = s
join sep (s ∷ t ∷ ts) = s ++ String.◌∷◌ sep (join sep (t ∷ ts))

abbrev pub Lack : ℕ → List String → Type 0
Lack sep [] = Unit
Lack sep (s ∷ ss) = (has sep s ≡ false) × Lack sep ss

pub has-append : (sep : ℕ) (s t : String) → has sep (s ++ t) ≡ (has sep s || has sep t)
has-append sep String.[] t = ap (has sep) (nil-append t)
has-append sep (String.◌∷◌ c s) t = rw (cons-append c s t) (ground (arith, has-append sep s t))

pub has-join :
    (other : ℕ) (sep : Char) (ss : List String)
    → (code sep == other) ≡ false
    → Lack other ss
    → has other (join sep ss) ≡ false
has-join other sep [] n l = refl
has-join other sep (s ∷ []) n l = l.0
has-join other sep (s ∷ t ∷ ts) n l = ground (
  arith,
  has-append other s (String.◌∷◌ sep (join sep (t ∷ ts))),
  has-join other sep (t ∷ ts) n l.1,
)

-- Cutting what was joined gives the parts back, if none of them has the separator.
pub split-join :
    (sep : Char) (s : String) (ss : List String)
    → Lack (code sep) (s ∷ ss)
    → split (code sep) (join sep (s ∷ ss)) ≡ s ∷ ss
split-join sep s [] l = split-single (code sep) s l.0
split-join sep s (t ∷ ts) l =
    rw (split-append sep s (join sep (t ∷ ts)) l.0) (ap (λ r. s ∷ r) (split-join sep t ts l.1))
