-- ===== src/Client/Http.antt =====
-- The session handlers of client/http.py. `server` answers the manager's requests, and `connections`
-- is the list of connections at the nth look at it.
pub mod Payment
use lvpn.Prelude.{
  ℕ, zero, suc, ◌+◌, String, Bool, true, false, Option, none, some, List, [], ◌∷◌, not, ◌&&◌, ltb,
  leb, select, str_eq, if◌then◌else◌,
}
use lvpn.Prelude.Text.{split}
use lvpn.Python.{
  Result, Exec, Error, ok, err, pure, raise, or_raise, attribute_error, type_error, manager_error,
  ◌>>=◌, ◌>>◌,
}
use lvpn.Money.{Money}
use lvpn.Vdp.Objects.{Gate, Space, is_for_space, gate_id, space_id}
use lvpn.Session.Data.{Session, SessionData, get_dict, is_active, is_fresh}
use lvpn.Session.World.{World, Registry, pay, time_time, emit}
use lvpn.Session.Store.{save}
use lvpn.Session.Loading.{load}
use lvpn.Session.Invoice.{PayMessage, get_pay_msgs}
use lvpn.Sessions.{Filter, no_filter, find, get}
use lvpn.Manager.{HttpReply, create_session}
use lvpn.Client.Connections.{Connection, get_by_sessionid}
use lvpn.Client.Connections as C
use lvpn.Server.Http.Listing.{words}
use lvpn.Server.Http.{Answer, status, with_session, SessionRequest, answer}

bearer_code : String → List String → Option ℕ
bearer_code token (scheme ∷ given ∷ []) = if str_eq given token then none else some 403
bearer_code token _ = some 403

-- `check_authentication`: the code of a refusal. An empty option asks for none.
unfoldable pub check_authentication : String → Option String → Option ℕ
unfolding words bearer_code
check_authentication token header =
    if str_eq token ""
    then none
    else elim header [ none ↦ some 403 | some bearer ↦ bearer_code token (words bearer) ]

module _ {A : Type 0} ⦃m : Money A⦄ where
  unfoldable pub put_payments : List (PayMessage A) → Exec (World A) (Unit {0})
  put_payments [] = pure tt
  put_payments (p ∷ ps) = do emit (pay p.payments p.paymentid); put_payments ps

  -- The first fresh session that is stored for this gate and space.
  pub answer_fresh : Registry A → ℕ → Session A → Exec (World A) (Answer A)
  unfolding put_payments
  answer_fresh reg days s = if is_active s then pure (with_session 200 (get_dict s)) else (do
    auto ← or_raise reg.cfg.auto_pay_days attribute_error
    if ltb days auto && not s.paid
        then (do put_payments (get_pay_msgs s); pure (with_session 402 (get_dict s)))
        else pure (with_session (if s.paid then 200 else 402) (get_dict s)))

  -- A `ManagerException` is answered; any other is not caught.
  pub catch_manager : Result (Answer A) × World A → Result (Answer A) × World A
  catch_manager (err manager_error, w) = (ok (status 501), w)
  catch_manager r = r

module _ {A : Type 0} ⦃m : Money A⦄ (server : Bool → String → String → ℕ → HttpReply A) where
  request_session : Registry A → Gate A → Space A → ℕ → Exec (World A) (Answer A)
  request_session reg gate space days w = catch_manager (
      (do
        d ← create_session server reg gate space (some days)
        s ← load reg d
        save s
        pure (answer s))
        w)

  stored_or_new : Registry A → Gate A → Space A → ℕ → List (Session A) → Exec (World A) (Answer A)
  unfolding answer_fresh request_session catch_manager
  stored_or_new reg gate space days [] = request_session reg gate space days
  stored_or_new reg gate space days (s ∷ ss) = answer_fresh reg days s

  create_found : Registry A → ℕ → Option (Space A) → Option (Gate A) → Exec (World A) (Answer A)
  unfolding stored_or_new
  create_found reg days none gate = pure (status 460)
  create_found reg days (some space) none = pure (status 461)
  create_found reg days (some space) (some gate) =
      if is_for_space gate (space_id space)
      then (do
        fresh ← find reg 0 (record no_filter {
          gateid = some (gate_id gate);
          spaceid = some (space_id space);
          fresh = true;
        })
        stored_or_new reg gate space days fresh)
      else pure (status 416)

  unfoldable pub post_session : Registry A → SessionRequest → Exec (World A) (Answer A)
  unfolding create_found
  post_session reg request =
      create_found reg request.days (reg.get_space request.spaceid) (reg.get_gate request.gateid)

module _ {A : Type 0} ⦃m : Money A⦄ where
  -- After the payments are put, `len(paid) >= session.get_pay_msgs()` compares a number with a list.
  await_payment : Registry A → Session A → Exec (World A) (Answer A)
  await_payment reg s = do
    found ← get reg s.sessionid
    again ← or_raise found attribute_error
    if again.paid then pure (with_session 200 (get_dict again)) else raise type_error

  pay_found : Registry A → Option (Session A) → Exec (World A) (Answer A)
  unfolding put_payments await_payment
  pay_found reg none = pure (status 404)
  pay_found reg (some s) =
      if is_active s
      then pure (status 201)
      else if not s.paid
      then (do put_payments (get_pay_msgs s); await_payment reg s)
      else (do now ← time_time; pure (status (if is_fresh now s then 404 else 405)))

  unfoldable pub pay_session : Registry A → String → Exec (World A) (Answer A)
  unfolding pay_found
  pay_session reg id = do found ← get reg id; pay_found reg found

-- Ten looks at the connections, a second apart.
pub await_connection : ℕ → ℕ → (ℕ → List Connection) → String → ℕ
await_connection zero look connections id = 500
await_connection (suc left) look connections id = elim (get_by_sessionid id (connections look)) [
  | none ↦ await_connection left (suc look) connections id
  | some c ↦ 200
]

pub await_disconnection : ℕ → ℕ → (ℕ → List Connection) → String → ℕ
await_disconnection zero look connections id = 500
await_disconnection (suc left) look connections id = elim (C.get id (connections look)) [
  | none ↦ 200
  | some c ↦ await_disconnection left (suc look) connections id
]

-- `connect`, with the code and whether the message was put.
unfoldable pub connect : {A : Type 0} → Option (Session A) → (ℕ → List Connection) → ℕ × Bool
unfolding await_connection
connect none connections = (404, false)
connect (some s) connections =
    if is_active s then (await_connection 10 0 connections s.sessionid, true) else (402, false)

-- The first look is the handler's own.
unfoldable pub disconnect : (ℕ → List Connection) → String → ℕ × Bool
unfolding await_disconnection
disconnect connections id = elim (C.get id (connections 0)) [
  | none ↦ (404, false)
  | some c ↦ (await_disconnection 10 1 connections c.connectionid, true)
]
