-- ===== src/Vdp/Objects/Freshness.antt =====
-- When an object counts as fresh, and when the table lets it expire.
use lvpn.Prelude.{ℕ, ◌<◌, ◌≡◌, ◌≢◌, none, arith, ltb}
use lvpn.Python.{ok, err, key_error}
use lvpn.Clock.{whole_seconds}
use lvpn.Vdp.Objects.{Header, is_fresh, get_revision, get_ttl, get_expiry}

module _ {A : Type 0} (h : Header A) (now : ℕ) where
  -- With a revision and a lifetime that are both present and not zero, `is_fresh` says exactly
  -- whether the expiry that is stored in the table lies after the current whole second.
  pub is_fresh-get_expiry :
      get_revision h ≢ 0
      → h.ttl ≢ none
      → get_ttl h ≢ 0
      → is_fresh h now ≡ ok (ltb (whole_seconds now) (get_expiry h now))
  unfolding is_fresh get_expiry get_revision get_ttl
  is_fresh-get_expiry r t z = ground arith

  -- An object with a lifetime and no revision makes `is_fresh` raise a `KeyError`, although the
  -- table would keep it for another month from any moment on.
  pub is_fresh_without_revision :
      h.revision ≡ none
      → h.ttl ≢ none
      → (is_fresh h now ≡ err key_error) × (whole_seconds now < get_expiry h now)
  unfolding is_fresh get_expiry get_revision get_ttl
  is_fresh_without_revision r t = ground arith
