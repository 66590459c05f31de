-- ===== src/Sessions.antt =====
-- The table of sessions and its queries (lib/sessions.py).
pub mod Table
pub mod Visible
pub mod Parents
pub mod Refreshing
use lvpn.Prelude.{
  ℕ, ◌+◌, ◌*◌, String, Bool, true, false, Option, none, some, List, [], ◌∷◌, not, ◌&&◌, ◌||◌, ◌==◌,
  ltb, map, select, str_eq, if◌then◌else◌,
}
use lvpn.Python.{Exec, ok, pure, modify, when, ◌>>=◌, ◌>>◌}
use lvpn.Money.{Money}
use lvpn.Clock.{tick, day, is_before, is_past}
use lvpn.Vdp.Objects.{is_wg}
use lvpn.Session.Data.{Session, Payment, is_free}
use lvpn.Session.World.{World, Row, SqlParent, sql_text, sql_false, sql_null, Registry, time_time}
use lvpn.Session.Activation.{activate}
use lvpn.Session.Loading.{load}
use lvpn.Session.Payments.{add_payment}

-- The arguments of `Sessions.find` that some caller passes.
pub record Filter : Type 0 where
  pub active : Bool
  pub inactive : Bool
  pub spaceid : Option String
  pub gateid : Option String
  pub fresh : Bool
  pub paymentid : Option String
  pub noparent : Bool
  pub notfree : Bool
  pub free : Bool
  pub paid : Bool
  pub notpaid : Bool
  pub needpay : Bool
  pub needs_reuse : Bool

abbrev pub no_filter : Filter
no_filter = record {
  active = false;
  inactive = false;
  spaceid = none;
  gateid = none;
  fresh = false;
  paymentid = none;
  noparent = false;
  notfree = false;
  free = false;
  paid = false;
  notpaid = false;
  needpay = false;
  needs_reuse = false;
}

-- A condition that is only added to the query if its argument is true.
abbrev condition : Bool → Bool → Bool
condition given holds = not given || holds

-- A missing and an empty text add no condition.
abbrev text_condition : Option String → String → Bool
text_condition none value = true
text_condition (some text) value = str_eq text "" || str_eq value text

abbrev pub is_null : SqlParent → Bool
is_null sql_null = true
is_null _ = false

module _ {A : Type 0} where
  -- `UPDATE sessions set deleted=True WHERE expires < ...`
  abbrev pub expire : ℕ → Row A → Row A
  expire now r = if is_past now r.expires then record r { deleted = true } else r

  -- `deleted=True AND expires < ... - 3600*24*30`
  abbrev pub is_purged : ℕ → Row A → Bool
  is_purged now r = r.deleted && ltb ((r.expires + 30 * day) * tick) now

  unfoldable pub cleanup : Exec (World A) (Unit {0})
  cleanup = do
    now ← time_time
    modify (λ w. record w { rows = map (expire now) w.rows })
    later ← time_time
    modify (λ w. record w { rows = select (λ r. not (is_purged later r)) w.rows })

  abbrev first : List (Row A) → Option (Row A)
  first [] = none
  first (r ∷ rs) = some r

  -- `Sessions.get`
  unfoldable pub stored : String → List (Row A) → Option (Row A)
  stored id rows = first (select (λ r. str_eq r.id id && not r.deleted) rows)

module _ {A : Type 0} ⦃m : Money A⦄ where
  -- The `WHERE` clause of `find`. `now` and `later` are the two times that it may read; `ahead`
  -- is the option `reuse_session_ahead`.
  pub matches : Filter → ℕ → ℕ → ℕ → Row A → Bool
  matches f now later ahead r =
      not r.deleted
      && condition f.active (ltb 0 r.activated)
      && condition f.inactive (r.activated == 0)
      && text_condition f.spaceid r.spaceid
      && text_condition f.gateid r.gateid
      && condition f.fresh (is_before now r.expires)
      && text_condition f.paymentid r.paymentid
      && condition f.noparent (is_null r.parent)
      && condition f.notfree (not (m.at_most r.price m.nothing))
      && condition f.free (m.is_zero r.price)
      && condition f.paid r.paid
      && condition f.notpaid (not r.paid)
      && condition f.needpay (not r.paid && not (m.at_most r.price m.nothing))
      && condition f.needs_reuse (ltb later ((r.expires + ahead) * tick))

  -- Only sessions for WireGuard that are not free are reused.
  abbrev kept : Filter → Session A → Bool
  kept f s = condition f.needs_reuse (is_wg s.gate.type && not (is_free s))

  -- Each row becomes a session by a load, which may activate it.
  load_all : Registry A → Filter → List (Row A) → Exec (World A) (List (Session A))
  load_all reg f [] = pure []
  load_all reg f (r ∷ rs) = do
    s ← load reg r.data_of
    rest ← load_all reg f rs
    pure (if kept f s then s ∷ rest else rest)

  reading : Bool → Exec (World A) ℕ
  reading true = time_time
  reading false = pure 0

  unfoldable pub find : Registry A → ℕ → Filter → Exec (World A) (List (Session A))
  unfolding reading load_all matches
  find reg ahead f = do
    now ← reading f.fresh
    later ← reading f.needs_reuse
    λ w. load_all reg f (select (matches f now later ahead) w.rows) w

  unfoldable pub get : Registry A → String → Exec (World A) (Option (Session A))
  get reg id w = elim (stored id w.rows) [
    | none ↦ (ok none, w)
    | some r ↦ (load reg r.data_of >>= λ s. pure (some s)) w
  ]

  -- The sessions that the payment was new to.
  pay_all : Registry A → Payment A → List (Session A) → Exec (World A) (List (Session A))
  pay_all reg p [] = pure []
  pay_all reg p (s ∷ ss) = do
    (t, new) ← add_payment reg s p
    rest ← pay_all reg p ss
    pure (if new then t ∷ rest else rest)

  unfoldable pub process_payment :
      Registry A → String → Payment A → Exec (World A) (List (Session A))
  unfolding find pay_all
  process_payment reg paymentid p = do
    sessions ← find reg 0 (record no_filter { paymentid = some paymentid })
    pay_all reg p sessions

  activate_all : Registry A → List (Session A) → Exec (World A) (Unit {0})
  activate_all reg [] = pure tt
  activate_all reg (s ∷ ss) = do activate reg s; activate_all reg ss

  -- `Sessions.refresh_status` on a server.
  unfoldable pub refresh_on_server : Registry A → Exec (World A) (Unit {0})
  unfolding cleanup find activate_all
  refresh_on_server reg = do
    cleanup
    sessions ← find reg 0 (record no_filter { inactive = true; fresh = true })
    activate_all reg sessions
