-- ===== src/Manager.antt =====
-- The client's calls of a manager (lib/mngrrpc.py): which answers are results and which raise.
use lvpn.Prelude.{ℕ, String, Bool, true, false, Option, none, some, ◌||◌, ◌==◌, if◌then◌else◌}
use lvpn.Python.{Result, Exec, ok, err, lift, manager_error, ◌>>=◌}
use lvpn.Money.{Money}
use lvpn.Vdp.Objects.{Gate, Space, GateType, is_wg, gate_id, space_id}
use lvpn.Session.Data.{SessionData}
use lvpn.Session.World.{World, Registry}
use lvpn.Session.Creation.{generate}

-- How an HTTP request ends: `requests.exceptions.SSLError`, or a status with a session in the body.
pub data HttpReply (A : Type 0) : Type 0 where
  ssl_error : HttpReply A
  replied : ℕ → SessionData A → HttpReply A

module _ {A : Type 0} where
  pub created : ℕ → SessionData A → Result (SessionData A)
  created status d =
      if status == 200 || status == 402 || status == 465 then ok d else err manager_error

  -- The second request is made with the gate's certificate if the first one fails.
  unfoldable pub read_created : HttpReply A → HttpReply A → Result (SessionData A)
  unfolding created
  read_created (replied status d) second = created status d
  read_created ssl_error (replied status d) = created status d
  read_created ssl_error ssl_error = err manager_error

  -- `get_session_info`: a session that the server does not know is `None`.
  unfoldable pub read_info : ℕ → SessionData A → Result (Option (SessionData A))
  read_info status d =
      if status == 200 || status == 402
      then ok (some d)
      else if status == 404
      then ok none
      else err manager_error

  -- `rekey_session`: only 200 is a new session; 404 is `False`.
  unfoldable pub read_rekeyed : GateType → ℕ → SessionData A → Result (Option (SessionData A))
  read_rekeyed type status d =
      if is_wg type
      then (if status == 200
          then ok (some d)
          else if status == 404
          then ok none
          else err manager_error)
      else err manager_error

  -- `reuse_session`
  unfoldable pub read_reused : ℕ → SessionData A → Result (SessionData A)
  read_reused status d = if status == 402 then ok d else err manager_error

-- A session is generated here as well, for the days that are sent. `post` are the two requests, with
-- the ids and the days.
module _ {A : Type 0} ⦃m : Money A⦄ (post : Bool → String → String → ℕ → HttpReply A) where
  unfoldable pub create_session :
      Registry A → Gate A → Space A → Option ℕ → Exec (World A) (SessionData A)
  unfolding read_created
  create_session reg gate space days = do
    s ← generate reg (gate_id gate) (space_id space) days
    let gateid = gate_id gate
    let spaceid = space_id space
    lift (read_created (post false gateid spaceid s.days) (post true gateid spaceid s.days))
