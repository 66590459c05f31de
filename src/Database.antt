-- ===== src/Database.antt =====
-- A handle of the database (the class `DB` of lib/db.py) over Python's `sqlite3`. `T` is what the
-- tables hold. A connection that has no transaction opens one for a statement that writes, and
-- whatever is not committed is lost with the connection.
pub mod Transactions
pub mod Attempts
use lvpn.Prelude.{
  ℕ, zero, suc, ◌+◌, Bool, true, false, Option, none, some, List, [], ◌∷◌, not, ◌&&◌, ◌||◌, is_some,
  if◌then◌else◌,
}
use lvpn.Python.{
  Error, Result, Exec, ok, err, pure, raise, gets, modify, when, db_error, operational_error,
  programming_error, ◌>>=◌, ◌>>◌,
}

-- `select` reads, `define` changes the schema, which is committed at once, and `write` needs a
-- transaction.
pub data Kind : Type 0 where
  select_rows define write : Kind

-- A statement returns rows, changes the tables, or is refused, as by a constraint.
pub record Statement (T R : Type 0) : Type 0 where
  pub kind : Kind
  pub run : T → Result (R × T)

pub record Handle (T : Type 0) : Type 0 where
  pub closed : Bool
  pub in_transaction : Bool
  -- what is committed, and the tables as the connection's open transaction has left them
  pub committed : T
  pub pending : Option T
  -- whether the nth call of the library is answered by an `OperationalError`
  pub busy : ℕ → Bool
  pub calls : ℕ

module _ {T : Type 0} where
  -- `DB()`
  abbrev pub new : T → (ℕ → Bool) → ℕ → Handle T
  new t busy calls = record {
    closed = true;
    in_transaction = false;
    committed = t;
    pending = none;
    busy = busy;
    calls = calls;
  }

  abbrev pub visible : Handle T → T
  visible h = elim h.pending [ none ↦ h.committed | some t ↦ t ]

  -- One call of the library, and whether it was refused for now.
  abbrev pub call : Exec (Handle T) Bool
  call h = (ok (h.busy h.calls), record h { calls = h.calls + 1 })

  -- The cursor alone is closed.
  abbrev pub close : Exec (Handle T) (Unit {0})
  close h = (ok tt, record h { closed = true })

  -- A call whose refusal is not caught.
  pub demand : Exec (Handle T) (Unit {0})
  demand = do refused ← call; when refused (raise operational_error)

  -- `connect`, `cursor` and the PRAGMA, each of which may be refused. With the new cursor the old
  -- connection goes, and its transaction with it; the handle is open after the last of them.
  pub open_db : Exec (Handle T) (Unit {0})
  unfolding demand
  open_db = do
    demand
    demand
    modify (λ h. record h { pending = none })
    demand
    modify (λ h. record h { closed = false })

  pub open_if_closed : Exec (Handle T) (Unit {0})
  unfolding open_db
  open_if_closed h = when h.closed open_db h

  -- `self._c.execute`: a closed cursor executes nothing.
  pub with_cursor : {R : Type 0} → Exec (Handle T) R → Exec (Handle T) R
  with_cursor m h = if h.closed then (err programming_error, h) else m h

  -- `BEGIN`, which a connection with a transaction refuses.
  unfoldable pub begin : Exec (Handle T) (Unit {0})
  unfolding open_if_closed
  begin = do
    open_if_closed
    refused ← call
    open_already ← gets (λ h. is_some h.pending)
    if refused || open_already
        then raise operational_error
        else modify (λ h. record h { pending = some h.committed; in_transaction = true })

  -- `COMMIT`, which a connection without a transaction refuses.
  unfoldable pub commit : Exec (Handle T) (Unit {0})
  unfolding with_cursor
  commit = do
    refused ← with_cursor call
    open_already ← gets (λ h. is_some h.pending)
    if refused || not open_already
        then raise operational_error
        else modify
            (λ h. record h { committed = visible h; pending = none; in_transaction = false })
    close

  -- A statement that writes begins a transaction if there is none.
  pub enter : Kind → Option T → Handle T → Handle T
  enter write none h = record h { pending = some h.committed }
  enter _ _ h = h

  -- Where the tables go that a statement leaves.
  pub store : Kind → Option T → T → Handle T → Handle T
  store select_rows _ t h = h
  store _ none t h = record h { committed = t }
  store _ (some _) t h = record h { pending = some t }

-- What the loop of `execute` catches.
pub is_operational : Error → Bool
is_operational operational_error = true
is_operational _ = false

module _ {T R : Type 0} where
  -- How a try ends: `again` is what follows an `OperationalError`, whose ever it is.
  pub finish : Bool → Statement T R → Exec (Handle T) R → Result (R × T) → Exec (Handle T) R
  unfolding store is_operational
  finish closes st again (err e) = if is_operational e then again else raise e
  finish closes st again (ok (r, t)) = do
    modify (λ h. store st.kind h.pending t h)
    λ h. when (not h.in_transaction && closes) close h
    pure r

  -- The loop `for i in range(1, 6)`, which goes on after an `OperationalError` only: of the library,
  -- or of the statement itself.
  pub attempt : ℕ → Bool → Statement T R → Exec (Handle T) R
  unfolding enter finish
  attempt zero closes st = do close; raise db_error
  attempt (suc tries) closes st =
      let again = attempt tries closes st in
      do
        modify (λ h. enter st.kind h.pending h)
        refused ← call
        if refused then again else λ h. finish closes st again (st.run (visible h)) h

  unfoldable pub execute : Bool → Statement T R → Exec (Handle T) R
  unfolding open_if_closed attempt
  execute closes st = do open_if_closed; attempt 5 closes st

  -- `select`, which closes the cursor whatever transaction is open.
  unfoldable pub select : Statement T R → Exec (Handle T) R
  unfolding execute
  select st = do rows ← execute false st; close; pure rows

module _ {T : Type 0} where
  -- The statements of a transaction, as `Session.save`, `Session.remove`, `Sessions.cleanup` and
  -- `VDPObject.save` make them.
  pub execute_all : List (Statement T (Unit {0})) → Exec (Handle T) (Unit {0})
  execute_all [] = pure tt
  execute_all (st ∷ sts) = do execute true st; execute_all sts

  unfoldable pub transaction : List (Statement T (Unit {0})) → Exec (Handle T) (Unit {0})
  unfolding begin execute_all commit
  transaction sts = do begin; execute_all sts; commit; close
