-- ===== src/Server/Http/Listing/Guarded.antt =====
-- Who is given the list of the sessions (check_authentication and sessions of server/http.py).
use Prim.Native.Char.{Char, code}
use Prim.Native.String.{◌++◌ as text_append}
use text.Mathlib.TextLemmas.{nil-append, cons-append}
use lvpn.Prelude.{
  String, ◌≡◌, refl, sym, ap, ◌∙◌, ◌⊎◌, inl, inr, Bool, true, false, Option, none, some, List, [],
  ◌∷◌, ◌||◌, Bool-cases, true≢false, arith, str_eq, eq_iff,
}
use lvpn.Python.{ok}
use lvpn.Money.{Money}
use lvpn.Session.World.{World, Registry}
use lvpn.Server.Http.Listing.{
  bearer_header, is_space, parts, nonempty, words, second_is, is_refused, refused, all_sessions,
  sessions,
}

-- The request shows the token: its header is two words, of which the second is the token.
pub Shows : String → Option String → Type 0
Shows token none = ⊥
Shows token (some bearer) = (scheme : String) × (words bearer ≡ scheme ∷ token ∷ [])

second_is-eq :
    (token : String) (ws : List String)
    → second_is token ws ≡ true
    → (scheme : String) × (ws ≡ scheme ∷ token ∷ [])
unfolding second_is
second_is-eq token [] h = absurd (cc h)
second_is-eq token (a ∷ []) h = absurd (cc h)
second_is-eq token (a ∷ b ∷ []) h = (a, rw ((eq_iff b token).0 h) refl)
second_is-eq token (a ∷ b ∷ c ∷ ws) h = absurd (cc h)

second_is_refl : (scheme token : String) → second_is token (scheme ∷ token ∷ []) ≡ true
unfolding second_is
second_is_refl scheme token = (eq_iff token token).1 refl

shown-Shows :
    (token : String) (header : Option String)
    → str_eq token "" ≡ false
    → ((is_refused (some token) header ≡ false) × Shows token header)
      ⊎ ((is_refused (some token) header ≡ true) × (¬ Shows token header))
unfolding is_refused Shows
shown-Shows token none set = inr (rw set refl, λ h. h)
shown-Shows token (some bearer) set = elim (Bool-cases (second_is token (words bearer))) [
  | inl h ↦ inl (rw (set, h) refl, second_is-eq token (words bearer) h)
  | inr h ↦ inr (
    rw (set, h) refl,
    λ (scheme, e).
        true≢false (sym (second_is_refl scheme token) ∙ sym (ap (second_is token) e) ∙ h),
  )
]

-- If a token is set, the list of the sessions is given exactly to the requests that show it: their
-- header is two words, of which the second is the token. Every other request is answered with 403, and
-- nothing is read or changed for it.
pub sessions-Shows :
    {A : Type 0} ⦃m : Money A⦄ (reg : Registry A) (token : String) (header : Option String)
    (w : World A)
    → str_eq token "" ≡ false
    → (Shows token header × (sessions reg (some token) header w ≡ all_sessions reg w))
      ⊎ ((¬ Shows token header) × (sessions reg (some token) header w ≡ (ok (refused 403), w)))
unfolding sessions
sessions-Shows reg token header w set = elim (shown-Shows token header set) [
  | inl (e, h) ↦ inl (h, rw e refl)
  | inr (e, h) ↦ inr (h, rw e refl)
]

-- Whether a text has white space.
unfoldable pub has_space : String → Bool
has_space String.[] = false
has_space (String.◌∷◌ c s) = is_space (code c) || has_space s

parts-single : (s : String) → has_space s ≡ false → parts s ≡ s ∷ []
unfolding parts has_space
parts-single String.[] h = refl
parts-single (String.◌∷◌ c s) h = ground (arith, parts-single s)

parts-append :
    (s : String) (sep : Char) (t : String)
    → has_space s ≡ false
    → is_space (code sep) ≡ true
    → parts (text_append s (String.◌∷◌ sep t)) ≡ s ∷ parts t
unfolding parts has_space
parts-append String.[] sep t h e = rw (nil-append (String.◌∷◌ sep t), e) refl
parts-append (String.◌∷◌ c s) sep t h e =
    rw (cons-append c s (String.◌∷◌ sep t)) (ground (arith, parts-append s sep t))

bearer_header-parts :
    (token : String) → has_space token ≡ false → parts (bearer_header token) ≡ "Bearer" ∷ token ∷ []
unfolding bearer_header has_space is_space
bearer_header-parts token h =
    rw (parts-append "Bearer" " " token refl refl, parts-single token h) refl

-- A request of the management tool for the list is accepted by the server if both have the same token and
-- this is not empty and has no white space.
pub bearer_header-sessions :
    {A : Type 0} ⦃m : Money A⦄ (reg : Registry A) (token : String) (w : World A)
    → str_eq token "" ≡ false
    → has_space token ≡ false
    → sessions reg (some token) (some (bearer_header token)) w ≡ all_sessions reg w
unfolding sessions is_refused words second_is nonempty
bearer_header-sessions reg token w set plain =
    rw (bearer_header-parts token plain, set, (eq_iff token token).1 refl) refl
