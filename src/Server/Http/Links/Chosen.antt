-- ===== src/Server/Http/Links/Chosen.antt =====
-- Which payment links a request changes, and which one it is given (stripe_payment of server/http.py).
use mathlib.Core.List.{append-nil, append_assoc}
use lvpn.Prelude.{
  ℕ, ◌+◌, String, ◌≡◌, refl, sym, ap, subst, ◌∙◌, inl, inr, Bool, true, false, Option, none, some,
  List, [], ◌∷◌, ◌++◌, Bool-cases, Option-cases, All, All-append, arith, if◌then◌else◌,
}
use lvpn.Python.{Exec, Result, ok}
use lvpn.Clock.{is_past}
use lvpn.Server.Http.Links.{
  PaymentLink, LinkCall, disable, take, Links, Desk, is_free_link, disable_old, consider, search,
}

module _ (links : Links) where
  -- A link that is in use.
  pub InUse : String → Type 0
  InUse p = (pl : PaymentLink) × (links.retrieve p ≡ some pl) × (is_free_link links pl ≡ false)

  -- The call makes a link free that was taken more than ten minutes ago.
  pub Releases : (ℕ → ℕ) → LinkCall → Type 0
  Releases times (disable p) =
      (pl : PaymentLink) × (updated : ℕ) × (k : ℕ) × (links.retrieve p ≡ some pl)
      × (is_free_link links pl ≡ false)
      × (pl.updated ≡ some updated)
      × (is_past (times k) (updated + 600) ≡ true)
  Releases times (take _ _ _ _ _ _) = ⊥

  -- What the search adds to the calls.
  unfoldable pub OnlyReleases : Desk → Desk → Type 0
  unfolding Releases
  OnlyReleases before after =
      (made : List LinkCall) × (after.calls ≡ before.calls ++ made)
      × All (Releases before.times) made
      × (after.times ≡ before.times)

  -- What the search finds: the first link that is not in use, all before it being in use.
  unfoldable pub Found : List String → Option (String × PaymentLink) → Type 0
  unfolding InUse
  Found ps none = Unit
  Found ps (some (p, pl)) =
      (before : List String) × (after : List String) × (ps ≡ before ++ p ∷ after)
      × All InUse before
      × (links.retrieve p ≡ some pl)
      × (is_free_link links pl ≡ true)

  Found-later :
      (p : String) (ps : List String) (found : Option (String × PaymentLink))
      → InUse p
      → Found ps found
      → Found (p ∷ ps) found
  unfolding Found
  Found-later p ps none h f = tt
  Found-later p ps (some q) h (before, after, e, used, known, free) =
      (p ∷ before, after, ap (λ xs. p ∷ xs) e, (h, used), known, free)

  OnlyReleases-refl : (d : Desk) → OnlyReleases d d
  unfolding OnlyReleases
  OnlyReleases-refl d = ([], sym (append-nil d.calls), tt, refl)

  OnlyReleases-trans : (d e f : Desk) → OnlyReleases d e → OnlyReleases e f → OnlyReleases d f
  unfolding OnlyReleases
  OnlyReleases-trans d e f (u, h, a, s) (v, k, b, t) = (
    u ++ v,
    k ∙ ap (λ xs. xs ++ v) h ∙ append_assoc d.calls u v,
    All-append _ u v a (subst (λ times. All (Releases times) v) s b),
    t ∙ s,
  )

  unfoldable pub Ends : List String → Desk → Result (Option (String × PaymentLink)) × Desk → Type 0
  unfolding Found OnlyReleases
  Ends ps d r =
      (found : Option (String × PaymentLink)) × (e : Desk) × (r ≡ (ok found, e))
      × Found ps found
      × OnlyReleases d e

  Ends-later :
      (p : String) (ps : List String) (d e : Desk)
      (r : Result (Option (String × PaymentLink)) × Desk)
      → InUse p
      → OnlyReleases d e
      → Ends ps e r
      → Ends (p ∷ ps) d r
  unfolding Ends
  Ends-later p ps d e r used o (found, f, h, g, k) =
      (found, f, h, Found-later p ps found used g, OnlyReleases-trans d e f o k)

  release-Ends :
      (p : String) (ps : List String) (d : Desk) (old : Bool)
      (rest : Exec Desk (Option (String × PaymentLink)))
      → InUse p
      → (old ≡ true → Releases d.times (disable p))
      → ((e : Desk) → Ends ps e (rest e))
      → Ends (p ∷ ps) d (disable_old links old p rest d)
  unfolding disable_old Ends
  release-Ends p ps d false rest used r ends =
      Ends-later p ps d d (rest d) used (OnlyReleases-refl d) (ends d)
  release-Ends p ps d true rest used r ends = go (links.accepts (disable p))
    where
      after : Desk
      after = record d { calls = d.calls ++ disable p ∷ [] }

      one : OnlyReleases d after
      one = (disable p ∷ [], refl, (r refl, tt), refl)

      go : (done : Bool) → Ends (p ∷ ps) d ((if done then rest else (λ e. (ok none, e))) after)
      go true = Ends-later p ps d after (rest after) used one (ends after)
      go false = (none, after, refl, tt, one)

  -- Reading the clock changes no call.
  later : Desk → Desk
  later d = record d { readings = d.readings + 1 }

  again :
      (ps : List String) (d : Desk) (r : Result (Option (String × PaymentLink)) × Desk)
      → Ends ps (later d) r
      → Ends ps d r
  unfolding Ends later
  again ps d r (found, e, h, g, (made, k, a, t)) = (found, e, h, g, (made, k, a, t))

  -- Without metadata a link is free.
  unused : (pl : PaymentLink) → pl.updated ≡ none → ¬ (is_free_link links pl ≡ false)
  unfolding is_free_link
  unused pl e h = ground arith

  consider-Ends :
      (p : String) (pl : PaymentLink) (ps : List String) (d : Desk)
      (rest : Exec Desk (Option (String × PaymentLink)))
      → links.retrieve p ≡ some pl
      → is_free_link links pl ≡ false
      → ((e : Desk) → Ends ps e (rest e))
      → Ends (p ∷ ps) d (consider links p (some pl) rest d)
  unfolding consider InUse Releases later
  consider-Ends p pl ps d rest h used ends = elim (Option-cases pl.updated) [
    | inl e ↦ absurd (unused pl e used)
    | inr (u, e) ↦
        rw (used, e)
          (again (p ∷ ps) d _ (
            release-Ends p ps (later d) (is_past (d.times d.readings) (u + 600)) rest (pl, h, used)
              (λ old. (pl, u, d.readings, h, used, e, old)) ends))
  ]

  -- The search never raises.
  pub search-Ends : (ps : List String) (d : Desk) → Ends ps d (search links ps d)
  unfolding search consider Ends Found
  search-Ends [] d = (none, d, refl, tt, OnlyReleases-refl d)
  search-Ends (p ∷ ps) d = elim (Option-cases (links.retrieve p)) [
    | inl h ↦ (none, d, rw h refl, tt, OnlyReleases-refl d)
    | inr (pl, h) ↦ elim (Bool-cases (is_free_link links pl)) [
      | inl free ↦
          (some (p, pl), d, rw (h, free) refl, ([], ps, refl, tt, h, free), OnlyReleases-refl d)
      | inr used ↦ rw h (consider-Ends p pl ps d (search links ps) h used (search-Ends ps))
    ]
  ]
