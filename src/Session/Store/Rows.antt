-- ===== src/Session/Store/Rows.antt =====
-- What a save leaves in the table, and what the table then holds.
use lvpn.Prelude.{
  ℕ, ◌+◌, String, ◌≡◌, refl, ◌≢◌, true, false, List, [], ◌∷◌, ◌++◌, arith, if◌then◌else◌, Option,
  none, some,
}
use lvpn.Python.{ok, err, db_error}
use lvpn.Session.Data.{Session, Price, amount, tuple, get_dict, is_fresh}
use lvpn.Session.World.{World, Row, sql_null, Registry}
use lvpn.Session.Store.{row_of, without, write, save, sql_parent, run_command}

pub sql_parent_not_null : (parent : Option String) → sql_parent parent ≢ sql_null
unfolding sql_parent
sql_parent_not_null none = ground arith
sql_parent_not_null (some id) = ground arith

module _ {A : Type 0} where
  -- The rows after the session, whose price is `p`, has been saved at the time `now`.
  abbrev pub saved_rows : Session A → A → ℕ → List (Row A) → List (Row A)
  saved_rows s p now rows =
      if is_fresh now s then without s.sessionid rows ++ row_of s p ∷ [] else rows

  -- The world after it.
  abbrev pub saved : Session A → A → World A → World A
  saved s p w =
      let now = w.clock + w.delays w.readings in
      record w { clock = now; readings = w.readings + 1; rows = saved_rows s p now w.rows }

  write_lem :
      (price : Price A) (s : Session A) (p : A) (w : World A)
      → price ≡ amount p
      → write price s w ≡ (ok tt, record w { rows = without s.sessionid w.rows ++ row_of s p ∷ [] })
  unfolding write
  write_lem price s p w e = rw e

  pub save_lem :
      (s : Session A) (p : A) (w : World A) → s.price ≡ amount p → save s w ≡ (ok tt, saved s p w)
  unfolding save
  save_lem s p w e =
      let now = w.clock + w.delays w.readings in
      ground (arith, write_lem s.price s p (record w { clock = now; readings = w.readings + 1 }) e)

  pub run_command_lem :
      (reg : Registry A) (command : Option String) (s : Session A) (w : World A)
      → (run_command reg command s w).1.rows ≡ w.rows
  unfolding run_command
  run_command_lem reg command s w = ground arith

  -- A session whose price is a tuple is not written.
  pub save_tuple :
      (s : Session A) (p : A) (v : World A)
      → s.price ≡ tuple p
      → ((save s v).1.rows ≡ v.rows)
        × (is_fresh (v.clock + v.delays v.readings) s ≡ true → (save s v).0 ≡ err db_error)
  unfolding save write
  save_tuple s p v e = ground arith

  pub row_of-parent : (s : Session A) (p : A) → (row_of s p).parent ≡ sql_parent s.parent
  unfolding row_of
  row_of-parent s p = refl

  pub row_of-id : (s : Session A) (p : A) → (row_of s p).id ≡ s.sessionid
  unfolding row_of
  row_of-id s p = refl

  pub row_of-deleted : (s : Session A) (p : A) → (row_of s p).deleted ≡ false
  unfolding row_of
  row_of-deleted s p = refl

  pub row_of-data : (s : Session A) (p : A) → (row_of s p).data_of ≡ get_dict s
  unfolding row_of
  row_of-data s p = refl
