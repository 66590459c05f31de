-- ===== src/Server/Http.antt =====
-- The session handlers of server/http.py. An answer is its status code with the session in its body.
-- An exception that a handler does not catch is the framework's answer 500.
pub mod Days
pub mod Links
pub mod Listing
use Prim.Native.String.{◌++◌ as text_append}
use lvpn.Prelude.{
  ℕ, String, Bool, true, false, Option, none, some, List, [], ◌∷◌, not, ◌&&◌, if◌then◌else◌,
}
use lvpn.Prelude.Int.{ℤ, pos, ltb_ℤ}
use lvpn.Python.{Exec, pure, raise, type_error, ◌>>=◌, ◌>>◌}
use lvpn.Money.{Money}
use lvpn.Vdp.Objects.{Gate, Space, is_wg, gate_id, space_id, is_for_space}
use lvpn.Session.Data.{Session, SessionData, get_dict, is_active, is_fresh, is_free, days_left}
use lvpn.Session.World.{World, Registry, time_time}
use lvpn.Session.Store.{save}
use lvpn.Session.Creation.{generate}
use lvpn.Session.Reuse.{reuse}
use lvpn.Sessions.{get, find, no_filter}
use lvpn.Wireguard.Preparation.{WgRequest, prepare_server_session}

pub data Answer (A : Type 0) : Type 0 where
  -- a status code and a reason alone
  status : ℕ → Answer A
  with_session : ℕ → SessionData A → Answer A

-- The body of a request for a session.
pub record SessionRequest : Type 0 where
  pub gateid : String
  pub spaceid : String
  pub days : ℕ
  pub wg : Option WgRequest

abbrev pub code_of : {A : Type 0} → Answer A → ℕ
code_of (status code) = code
code_of (with_session code d) = code

module _ {A : Type 0} where
  -- The space, if it is known and local; and the same of the gate.
  local_space : Option (Space A) → Option (Space A)
  local_space none = none
  local_space (some space) = if space.is_local then some space else none

  local_gate : Option (Gate A) → Option (Gate A)
  local_gate none = none
  local_gate (some gate) = if gate.is_local then some gate else none

  -- The answer of a session that is active or waits for its payment.
  pub answer : Session A → Answer A
  answer s =
      if not (is_active s) then with_session 402 (get_dict s) else with_session 200 (get_dict s)

module _ {A : Type 0} ⦃m : Money A⦄ where
  save_and_answer : Session A → Exec (World A) (Answer A)
  unfolding answer
  save_and_answer s = do save s; pure (answer s)

  prepare_wg : Registry A → Option WgRequest → Session A → Exec (World A) (Answer A)
  unfolding save_and_answer
  prepare_wg reg none s = do save s; pure (with_session 465 (get_dict s))
  prepare_wg reg (some request) s = do
    prepared ← prepare_server_session reg s request
    save_and_answer prepared

  -- What becomes of a session that has been generated.
  pub hand_out : Registry A → Option WgRequest → Session A → Exec (World A) (Answer A)
  unfolding prepare_wg save_and_answer
  hand_out reg request s = if is_wg s.gate.type then prepare_wg reg request s else save_and_answer s

  -- `days_left` is only asked of a free session.
  pub check_days : Registry A → Option WgRequest → Session A → Exec (World A) (Answer A)
  unfolding hand_out
  check_days reg request s =
      if is_free s
      then (do
        now ← time_time
        if ltb_ℤ (pos reg.cfg.max_free_session_days) (days_left now s)
            then pure (status 463)
            else hand_out reg request s)
      else hand_out reg request s

  post_found :
      Registry A → SessionRequest → Option (Space A) → Option (Gate A) → Exec (World A) (Answer A)
  unfolding check_days
  post_found reg request none gate = pure (status 460)
  post_found reg request (some space) none = pure (status 461)
  post_found reg request (some space) (some gate) =
      if is_for_space gate (space_id space)
      then (do
        s ← generate reg (gate_id gate) (space_id space) (some request.days)
        check_days reg request.wg s)
      else pure (status 462)

  unfoldable pub post_session : Registry A → SessionRequest → Exec (World A) (Answer A)
  unfolding local_space local_gate post_found
  post_session reg request =
      post_found reg request (local_space (reg.get_space request.spaceid))
        (local_gate (reg.get_gate request.gateid))

  get_answer : Option (Session A) → Answer A
  unfolding answer
  get_answer none = status 404
  get_answer (some s) = answer s

  unfoldable pub get_session : Registry A → Option String → Exec (World A) (Answer A)
  unfolding get_answer
  get_session reg none = pure (status 400)
  get_session reg (some id) = do found ← get reg id; pure (get_answer found)

  rekey : Registry A → Option String → Session A → Exec (World A) (Answer A)
  rekey reg none s = pure (status 400)
  rekey reg (some key) s = do
    t ← prepare_server_session reg s (record { public_key = key; endpoint = some "dynamic" })
    save t
    pure (with_session 200 (get_dict t))

  rekey_found : Registry A → Option String → Option (Session A) → Exec (World A) (Answer A)
  unfolding rekey
  rekey_found reg key none = pure (status 404)
  rekey_found reg key (some s) = if is_wg s.gate.type then rekey reg key s else pure (status 400)

  unfoldable pub rekey_session :
      Registry A → Option String → Option String → Exec (World A) (Answer A)
  unfolding rekey_found
  rekey_session reg none key = pure (status 400)
  rekey_session reg (some id) key = do found ← get reg id; rekey_found reg key found

  -- Days that are given are a text, by which no amount can be multiplied.
  reuse_days : Option String → Session A → Exec (World A) ℕ
  reuse_days none s = pure s.days
  reuse_days (some text) s = raise type_error

  -- `is_fresh` is asked only of a session that is paid.
  reuse_found : Registry A → Option String → Option (Session A) → Exec (World A) (Answer A)
  unfolding reuse_days
  reuse_found reg days none = pure (status 404)
  reuse_found reg days (some s) =
      if s.paid
      then (do
        now ← time_time
        if is_fresh now s
            then (do
              n ← reuse_days days s
              t ← reuse reg n s
              save t
              pure (with_session 402 (get_dict t)))
            else pure (status 414))
      else pure (status 414)

  unfoldable pub reuse_session :
      Registry A → Option String → Option String → Exec (World A) (Answer A)
  unfolding reuse_found
  reuse_session reg none days = pure (status 400)
  reuse_session reg (some id) days = do found ← get reg id; reuse_found reg days found
