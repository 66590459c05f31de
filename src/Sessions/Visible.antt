-- ===== src/Sessions/Visible.antt =====
-- What `Sessions.cleanup` leaves in sight.
use lvpn.Prelude.{ℕ, ◌+◌, ◌≡◌, refl, List, [], ◌∷◌, not, arith, map, select}
use lvpn.Clock.{is_past}
use lvpn.Session.World.{World, Row}
use lvpn.Sessions.{expire, is_purged, cleanup}

module _ {A : Type 0} where
  abbrev pub visible : List (Row A) → List (Row A)
  visible rows = select (λ r. not r.deleted) rows

  cleaned : ℕ → ℕ → List (Row A) → List (Row A)
  cleaned now later rows = select (λ r. not (is_purged later r)) (map (expire now) rows)

  visible-cleaned :
      (now later : ℕ) (rows : List (Row A))
      → visible (cleaned now later rows) ≡ select (λ r. not (is_past now r.expires)) (visible rows)
  unfolding cleaned
  visible-cleaned now later [] = refl
  visible-cleaned now later (r ∷ rs) = ground (arith, visible-cleaned now later rs)

  -- After a cleanup the rows in sight are exactly those that were in sight before and had not
  -- expired at its first reading of the clock, unchanged and in the same order.
  pub visible-cleanup :
      (w : World A)
      → visible (cleanup w).1.rows
        ≡ select (λ r. not (is_past (w.clock + w.delays w.readings) r.expires)) (visible w.rows)
  unfolding cleanup cleaned
  visible-cleanup w = visible-cleaned _ _ w.rows
