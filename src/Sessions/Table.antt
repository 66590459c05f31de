-- ===== src/Sessions/Table.antt =====
-- What `Sessions.get` finds after a session has been saved.
use lvpn.Prelude.{
  ◌+◌, String, ◌≡◌, refl, ◌≢◌, true, false, some, List, [], ◌∷◌, ◌++◌, not, ◌&&◌, arith, select,
  str_eq, eq_iff, select-append,
}
use mathlib.Core.List.{append-nil}
use lvpn.Session.Data.{Session, amount, is_fresh}
use lvpn.Session.World.{World, Row}
use lvpn.Session.Store.{without, row_of, save}
use lvpn.Session.Store.Rows.{save_lem, row_of-id, row_of-deleted}
use lvpn.Sessions.{stored}

module _ {A : Type 0} where
  select-without :
      (id : String) (rows : List (Row A))
      → select (λ r. str_eq r.id id && not r.deleted) (without id rows) ≡ []
  select-without id [] = refl
  select-without id (r ∷ rs) = ground (arith, select-without id rs)

  select-without_ne :
      (id other : String) (rows : List (Row A))
      → other ≢ id
      → select (λ r. str_eq r.id other && not r.deleted) (without id rows)
        ≡ select (λ r. str_eq r.id other && not r.deleted) rows
  select-without_ne id other [] n = refl
  select-without_ne id other (r ∷ rs) n =
      ground (arith, select-without_ne id other rs n, eq_iff r.id id, eq_iff r.id other)

  stored_self :
      (id : String) (r : Row A) (rows : List (Row A))
      → r.id ≡ id
      → r.deleted ≡ false
      → stored id (without id rows ++ r ∷ []) ≡ some r
  unfolding stored
  stored_self id r rows e d =
      rw (select-append, select-without id rows) (ground (arith, eq_iff r.id id))

  stored_other :
      (id other : String) (r : Row A) (rows : List (Row A))
      → r.id ≡ id
      → other ≢ id
      → stored other (without id rows ++ r ∷ []) ≡ stored other rows
  unfolding stored
  stored_other id other r rows e n =
      rw (select-append, select-without_ne id other rows n)
        (ground (
          arith,
          eq_iff r.id other,
          append-nil (select (λ q. str_eq q.id other && not q.deleted) rows),
        ))

  -- A fresh session whose price is an amount is found under its id after a save, as the row that
  -- was made of it, whatever the table held before; and under any other id the save changes nothing.
  pub stored-save :
      (s : Session A) (p : A) (other : String) (w : World A)
      → s.price ≡ amount p
      → is_fresh (w.clock + w.delays w.readings) s ≡ true
      → (stored s.sessionid (save s w).1.rows ≡ some (row_of s p))
        × (other ≢ s.sessionid → stored other (save s w).1.rows ≡ stored other w.rows)
  stored-save s p other w e fresh =
      let r = row_of s p in
      rw (save_lem s p w e, fresh)
        (
          stored_self s.sessionid r w.rows (row_of-id s p) (row_of-deleted s p),
          stored_other s.sessionid other r w.rows (row_of-id s p),
        )
