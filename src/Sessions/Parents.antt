-- ===== src/Sessions/Parents.antt =====
-- The filter `noparent`.
use lvpn.Prelude.{
  ℕ, String, ◌≡◌, refl, Bool, true, false, Option, List, [], ◌∷◌, ◌++◌, ◌&&◌, arith, select, All,
}
use lvpn.Money.{Money}
use lvpn.Session.Data.{Session, amount}
use lvpn.Session.World.{World, Row}
use lvpn.Session.Store.{row_of, save, sql_parent, without}
use lvpn.Session.Store.Rows.{save_lem, sql_parent_not_null, row_of-parent}
use lvpn.Sessions.{Filter, is_null, matches}

and_false : (a b : Bool) → (a && false && b) ≡ false
and_false true b = refl
and_false false b = refl

sql_parent_lem : (parent : Option String) → is_null (sql_parent parent) ≡ false
sql_parent_lem parent = ground (arith, sql_parent_not_null parent)

module _ {A : Type 0} where
  -- No row has a null for its parent.
  abbrev pub NoNull : List (Row A) → Type 0
  NoNull rows = All (λ r. is_null r.parent ≡ false) rows

  NoNull-append :
      (xs : List (Row A)) (r : Row A) → NoNull xs → is_null r.parent ≡ false → NoNull (xs ++ r ∷ [])
  NoNull-append [] r h e = (e, tt)
  NoNull-append (x ∷ xs) r h e = (h.0, NoNull-append xs r h.1 e)

  NoNull-without : (id : String) (rows : List (Row A)) → NoNull rows → NoNull (without id rows)
  NoNull-without id [] h = tt
  NoNull-without id (r ∷ rs) h = ground (arith, NoNull-without id rs h.1)

  NoNull-save :
      (s : Session A) (p : A) (w : World A)
      → s.price ≡ amount p
      → NoNull w.rows
      → NoNull (save s w).1.rows
  NoNull-save s p w e h = rw (save_lem s p w e) (
      ground (
        arith,
        NoNull-append (without s.sessionid w.rows) (row_of s p)
            (NoNull-without s.sessionid w.rows h)
            (rw (row_of-parent s p) (sql_parent_lem s.parent)),
      ))

module _ {A : Type 0} ⦃m : Money A⦄ where
  matches_noparent :
      (f : Filter) (now later ahead : ℕ) (r : Row A)
      → f.noparent ≡ true
      → is_null r.parent ≡ false
      → matches f now later ahead r ≡ false
  unfolding matches
  matches_noparent f now later ahead r n h = ground arith

  select-noparent :
      (f : Filter) (now later ahead : ℕ) (rows : List (Row A))
      → f.noparent ≡ true
      → NoNull rows
      → select (matches f now later ahead) rows ≡ []
  select-noparent f now later ahead [] n h = refl
  select-noparent f now later ahead (r ∷ rs) n h =
      rw (matches_noparent f now later ahead r n h.0) (select-noparent f now later ahead rs n h.1)

  -- If no row has a null for its parent, then a save, also of a session without a parent, leaves
  -- it so, and the filter `noparent` selects nothing from the table that it leaves.
  pub noparent-save :
      (f : Filter) (now later ahead : ℕ) (s : Session A) (p : A) (w : World A)
      → f.noparent ≡ true
      → s.price ≡ amount p
      → NoNull w.rows
      → NoNull (save s w).1.rows × (select (matches f now later ahead) (save s w).1.rows ≡ [])
  noparent-save f now later ahead s p w n e h =
      let kept = NoNull-save s p w e h in (kept, select-noparent f now later ahead _ n kept)
