-- ===== src/Client/Auto.antt =====
-- The automatic connections of the client (auto_connect of client.py).
pub mod Steps
pub mod Asking
pub mod Explained
use lvpn.Prelude.{
  ℕ, zero, suc, ◌-◌, String, Bool, true, false, Option, none, some, List, [], ◌∷◌, ◌++◌, not, ◌&&◌,
  ◌||◌, ◌==◌, is_some, str_eq, if◌then◌else◌,
}
use lvpn.Prelude.Text.{split}
use lvpn.Prelude.Dict.{member}
use lvpn.Python.{
  Result, Exec, ok, err, pure, raise, lift, gets, modify, when, or_raise, attribute_error,
  value_error, vdp_error, stale_session, ◌>>=◌, ◌>>◌,
}
use lvpn.Money.{Money}
use lvpn.Vdp.Objects.{Gate, Space, get_price, get_manager_url}
use lvpn.Session.Data.{Session, is_fresh}
use lvpn.Session.World.{World, Registry, time_time}
use lvpn.Session.Store.{save}
use lvpn.Session.Loading.{load}
use lvpn.Session.Invoice.{PayMessage, get_pay_msgs}
use lvpn.Sessions.{Filter, no_filter, find}
use lvpn.Manager.{HttpReply, create_session}
use lvpn.Client.Connections.{Connection, get_by_sessionid}

-- The queues of the proxy, by the sessions' ids, and of the wallet.
pub record AutoState (A : Type 0) : Type 0 where
  pub world : World A
  pub connects : List String
  pub orders : List (PayMessage A)

-- The options, the known ids, and what a manager answers at a URL.
pub record AutoOptions (A : Type 0) : Type 0 where
  pub auto_connect : String
  pub auto_reconnect : ℕ
  pub gate_ids : List String
  pub space_ids : List String
  pub managers : String → Bool → String → String → ℕ → HttpReply A

-- What a round sees of `should_exit`: at its start, before and while it waits.
pub record ExitSigns : Type 0 where
  pub at_start : Bool
  pub before_wait : Bool
  pub while_waiting : ℕ → Bool

module _ {A : Type 0} where
  abbrev pub in_world : {X : Type 0} → Exec (World A) X → Exec (AutoState A) X
  in_world m s = let (r, w) = m s.world in (r, record s { world = w })

  -- `proxy_queue.put(Messages.connect(session))`
  pub ask_proxy : Session A → Exec (AutoState A) (Unit {0})
  ask_proxy s = modify (λ v. record v { connects = v.connects ++ s.sessionid ∷ [] })

  -- `wallet_queue.put(m)` for each message
  pub order_all : List (PayMessage A) → Exec (AutoState A) (Unit {0})
  order_all msgs = modify (λ v. record v { orders = v.orders ++ msgs })

  -- `get_by_sessionid` is given the session, which is equal to no text.
  pub found_connection : List Connection → Session A → Bool
  found_connection conns s = false

-- `for i in range(1, n)`, until the exit is requested
abbrev waits : ℕ → (ℕ → Bool) → Bool
waits zero signs = false
waits (suc n) signs = let rest = waits n signs in signs (suc n) || rest

module _ {A : Type 0} ⦃m : Money A⦄ (reg : Registry A) (opts : AutoOptions A)
    (conns : List Connection) where
  pub choose_days : Space A → Gate A → Exec (AutoState A) ℕ
  choose_days space gate =
      or_raise
        (if m.is_zero (get_price space.header) && m.is_zero (get_price gate.header)
          then reg.cfg.free_session_days
          else reg.cfg.auto_pay_days)
        attribute_error

  -- The payments are ordered before the session is saved.
  pub take_with : Session A → ℕ → Exec (AutoState A) (Unit {0})
  unfolding ask_proxy order_all
  take_with s auto = do
    when (not (auto == 0) && not s.paid) (order_all (get_pay_msgs s))
    in_world (save s)
    ask_proxy s

  pub take_session : Session A → Exec (AutoState A) (Unit {0})
  unfolding take_with
  take_session s = do auto ← or_raise reg.cfg.auto_pay_days attribute_error; take_with s auto

  pub ask_manager : String → String → Space A → Exec (AutoState A) (Unit {0})
  unfolding choose_days take_session
  ask_manager url gateid space = do
    gate ← or_raise (reg.get_gate gateid) attribute_error
    days ← choose_days space gate
    d ← in_world (create_session (opts.managers url) reg gate space (some days))
    s ← in_world (load reg d)
    now ← in_world time_time
    if is_fresh now s then take_session s else raise (vdp_error stale_session)

  -- Whether the thread goes on after a body that may have raised.
  pub settle : {X : Type 0} → Result X × AutoState A → Result Bool × AutoState A
  settle (ok x, v) = (ok true, v)
  settle (err e, v) = (ok (not (opts.auto_reconnect == 0)), v)

  -- An exception ends the thread if it does not reconnect.
  pub catch_failure : {X : Type 0} → Exec (AutoState A) X → Exec (AutoState A) Bool
  unfolding settle
  catch_failure body v = settle (body v)

  pub ask_for : String → String → Exec (AutoState A) Bool
  unfolding catch_failure ask_manager
  ask_for gateid spaceid = do
    space ← or_raise (reg.get_space spaceid) attribute_error
    url ← lift (get_manager_url reg.cfg.forced space.header space.provider)
    catch_failure (ask_manager url gateid space)

  pub connect_first : Session A → Exec (AutoState A) Bool
  unfolding ask_proxy
  connect_first s = do ask_proxy s; pure true

  pub connect_or_ask : String → String → List (Session A) → Exec (AutoState A) Bool
  unfolding connect_first ask_for found_connection
  connect_or_ask gateid spaceid [] = ask_for gateid spaceid
  connect_or_ask gateid spaceid (s ∷ ss) =
      if not (found_connection conns s) then connect_first s else ask_for gateid spaceid

  pub join_pair : String → String → Exec (AutoState A) Bool
  unfolding connect_or_ask
  join_pair gateid spaceid =
      if member gateid opts.gate_ids && member spaceid opts.space_ids
      then (do
        found ← in_world (
            find reg 0
              (record no_filter { gateid = some gateid; spaceid = some spaceid; active = true }))
        connect_or_ask gateid spaceid found)
      else pure true

  pub join_parts : List String → Exec (AutoState A) Bool
  unfolding join_pair
  join_parts (gateid ∷ spaceid ∷ []) = join_pair gateid spaceid
  join_parts _ = raise value_error

  -- Any exception that is left is passed over.
  pub pass_over : Result Bool × AutoState A → Bool × AutoState A
  pass_over (ok more, v) = (more, v)
  pass_over (err e, v) = (true, v)

  pub join_url : String → AutoState A → Bool × AutoState A
  unfolding join_parts pass_over
  join_url url v =
      if str_eq url "active" || str_eq url "paid"
      then (true, v)
      else pass_over (join_parts (split b'/' url) v)

  -- The URLs of a round, until one of them ends the thread.
  pub join_all : List String → AutoState A → Bool × AutoState A
  unfolding join_url
  join_all [] v = (true, v)
  join_all (url ∷ urls) v =
      let (more, w) = join_url url v in
      let rest = join_all urls w in if more then rest else (false, w)

  -- `while not ctrl["should_exit"]`
  pub rounds : List ExitSigns → AutoState A → AutoState A
  unfolding join_all
  rounds [] v = v
  rounds (signs ∷ later) v =
      let (more, w) = join_all (split b',' opts.auto_connect) v in
      let rest = rounds later w in
      if signs.at_start
      then v
      else if not more || opts.auto_reconnect == 0 || signs.before_wait
      then w
      else if waits (opts.auto_reconnect - 1) signs.while_waiting
      then w
      else rest

  pub connect_stored : List (Session A) → Exec (AutoState A) (Unit {0})
  unfolding ask_proxy
  connect_stored [] = pure tt
  connect_stored (s ∷ ss) = do
    when (not (is_some (get_by_sessionid s.sessionid conns))) (ask_proxy s)
    connect_stored ss

  -- The sessions that are there at the start.
  pub connect_ready : List String → Exec (AutoState A) (Unit {0})
  unfolding connect_stored
  connect_ready urls =
      if member "paid" urls
      then (do
        found ←
            in_world
              (find reg 0 (record no_filter { paid = true; notfree = true; noparent = true }))
        connect_stored found)
      else if member "active" urls
      then (do
        found ← in_world (find reg 0 (record no_filter { active = true; noparent = true }))
        connect_stored found)
      else pure tt

  unfoldable pub auto_connect : List ExitSigns → Exec (AutoState A) (Unit {0})
  unfolding connect_ready rounds
  auto_connect signs = do connect_ready (split b',' opts.auto_connect); modify (rounds signs)
