-- ===== src/Server/Http/Listing.antt =====
-- The list of all sessions, which the manager's token opens (server/http.py, client/http.py).
pub mod Guarded
use Prim.Native.Char.{code}
use Prim.Native.String.{◌++◌ as text_append}
use lvpn.Prelude.{
  ℕ, String, Bool, true, false, Option, none, some, List, [], ◌∷◌, ◌&&◌, ◌||◌, ◌==◌, leb, map,
  str_eq, if◌then◌else◌,
}
use lvpn.Prelude.Text.{push}
use lvpn.Python.{Exec, pure, ◌>>=◌}
use lvpn.Money.{Money}
use lvpn.Session.Data.{Session, SessionData, get_dict}
use lvpn.Session.World.{World, Registry}
use lvpn.Sessions.{find, no_filter}

-- `str.isspace`, by the code point
unfoldable pub is_space : ℕ → Bool
is_space c =
    (leb 9 c && leb c 13)
    || (leb 28 c && leb c 32)
    || c == 133
    || c == 160
    || c == 5760
    || (leb 8192 c && leb c 8202)
    || c == 8232
    || c == 8233
    || c == 8239
    || c == 8287
    || c == 12288

-- The parts between white space, empty ones included, of which `str.split()` leaves those out.
pub parts : String → List String
unfolding is_space
parts String.[] = String.[] ∷ []
parts (String.◌∷◌ c s) =
    let rest = parts s in if is_space (code c) then String.[] ∷ rest else push c rest

pub nonempty : List String → List String
nonempty [] = []
nonempty (s ∷ ss) = let rest = nonempty ss in if str_eq s "" then rest else s ∷ rest

-- `bearer.split()`
unfoldable pub words : String → List String
unfolding parts nonempty
words s = nonempty (parts s)

-- Whether the words are two and the second one is the token.
pub second_is : String → List String → Bool
second_is token (scheme ∷ word ∷ []) = str_eq word token
second_is token _ = false

-- `check_authentication`: whether the request is refused. An empty option asks for nothing.
unfoldable pub is_refused : Option String → Option String → Bool
unfolding second_is words
is_refused none header = false
is_refused (some token) none = if str_eq token "" then false else true
is_refused (some token) (some bearer) =
    if str_eq token "" then false else if second_is token (words bearer) then false else true

-- `return notauth` with its status, or `return rsessions`.
pub data Listing (A : Type 0) : Type 0 where
  refused : ℕ → Listing A
  listed : List (SessionData A) → Listing A

module _ {A : Type 0} ⦃m : Money A⦄ where
  pub all_sessions : Registry A → Exec (World A) (Listing A)
  all_sessions reg = do found ← find reg 0 no_filter; pure (listed (map get_dict found))

  -- `sessions`: loading a session may activate it, so nothing is loaded before the check.
  unfoldable pub sessions : Registry A → Option String → Option String → Exec (World A) (Listing A)
  unfolding is_refused all_sessions
  sessions reg token header =
      if is_refused token header then pure (refused 403) else all_sessions reg

-- The header that mgmt.py sends with the token it is configured with
unfoldable pub bearer_header : String → String
bearer_header token = text_append "Bearer" (String.◌∷◌ " " token)
