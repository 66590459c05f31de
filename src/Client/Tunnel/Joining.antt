-- ===== src/Client/Tunnel/Joining.antt =====
-- The start of the client's service for a WireGuard gate: `WGClientService.postinit`
-- (client/wg_service.py).
pub mod Asked
pub mod Start
use Prim.Native.String.{◌++◌ as text_append}
use lvpn.Prelude.{
  ℕ, String, Bool, true, false, Option, none, some, List, [], ◌∷◌, ◌++◌, not, ◌&&◌, str_eq,
  if◌then◌else◌,
}
use lvpn.Python.{
  Result, Exec, ok, err, pure, lift, gets, modify, or_raise, raise_unless, type_error,
  attribute_error, service_error, ◌>>=◌, ◌>>◌,
}
use lvpn.Money.{Money}
use lvpn.Vdp.Objects.{Gate, Space, gate_id, space_id, get_price, get_manager_url}
use lvpn.Session.Data.{Session, SessionData, WgSession}
use lvpn.Session.World.{World, Registry}
use lvpn.Session.Store.{save, remove}
use lvpn.Session.Loading.{load}
use lvpn.Sessions.{Filter, no_filter, find}
use lvpn.Manager.{HttpReply, read_rekeyed, create_session}
use lvpn.Messages.{Message, connect, gui_popup}
use lvpn.Wireguard.Engine.{get_interface_name}
use lvpn.Wireguard.Dump.{Interface}
use lvpn.Wireguard.Interface.{Templates, Machine, Tunnels, here, attempted, gather}
use lvpn.Client.Tunnel.{
  setup_interface_client, deactivate_interface_client, prepare_session_request,
}

-- What the managers answer: to a session's id and a public key, and to the two requests for a
-- session with or without a public key.
pub record Managers (A : Type 0) : Type 0 where
  pub rekeyed : String → String → ℕ × SessionData A
  pub posts : Option String → Bool → String → String → ℕ → HttpReply A

abbrev pub Note : Type 0 → Type 0
Note A = Message (Session A) (Unit {0})

pub record Service (A : Type 0) : Type 0 where
  pub tunnels : Tunnels A
  pub queue : List (Note A)

-- A session without its tunnel's data, or with another key than the interface's.
pub is_outdated : Option WgSession → Interface → Bool
is_outdated none i = true
is_outdated (some peer) i = not (str_eq i.public peer.client_public_key)

pub missing_gate : String → String
missing_gate name = text_append "Non-existent WG gateway " name

module _ {A : Type 0} ⦃money : Money A⦄ (reg : Registry A) (t : Templates) (m : Machine)
    (managers : Managers A) where
  set_up_read : String → Session A → Option Interface → Exec (Tunnels A) Bool
  unfolding setup_interface_client deactivate_interface_client
  set_up_read iface session (some i) = setup_interface_client reg t m iface session
  set_up_read iface session none = do
    deactivate_interface_client reg t m iface
    setup_interface_client reg t m iface session

  -- The interface may not exist yet.
  pub set_up : String → Session A → Exec (Tunnels A) Bool
  unfolding set_up_read gather attempted
  set_up iface session s =
      attempted ((gather reg t m iface >>= λ d. set_up_read iface session d.iface) s)
        (setup_interface_client reg t m iface session)

  keep : SessionData A → Exec (Tunnels A) (Session A)
  keep d = do session ← here (load reg d); here (save session); pure session

  -- A session that the manager does not know any more is replaced by a new one.
  replace : String → Session A → Exec (Tunnels A) (Session A)
  unfolding keep prepare_session_request
  replace iface session = do
    here (remove reg false session)
    key ← prepare_session_request reg t m iface
    d ←
        here
          (create_session (managers.posts key) reg session.gate session.space (some session.days))
    keep d

  rekeyed_or_new : String → Session A → Option (SessionData A) → Exec (Tunnels A) (Session A)
  unfolding keep replace
  rekeyed_or_new iface session (some d) = keep d
  rekeyed_or_new iface session none = replace iface session

  abbrev pub ask_rekey : Session A → Interface → Result (Option (SessionData A))
  ask_rekey session i =
      let (status, d) = managers.rekeyed session.sessionid i.public in
      read_rekeyed session.gate.type status d

  renew : String → Gate A → Session A → Interface → Exec (Tunnels A) (Session A)
  unfolding rekeyed_or_new
  renew iface gate session i = do
    lift (get_manager_url reg.cfg.forced gate.header gate.provider)
    reply ← lift (ask_rekey session i)
    rekeyed_or_new iface session reply

  -- Only a session that fits the interface is kept as it is.
  pub current : String → Gate A → Session A → Interface → Exec (Tunnels A) (Session A)
  unfolding renew is_outdated
  current iface gate session i =
      if is_outdated session.wg i then renew iface gate session i else pure session

  remove_all : List (Session A) → Exec (World A) (Unit {0})
  remove_all [] = pure tt
  remove_all (s ∷ ss) = do remove reg true s; remove_all ss

  child_days : Space A → Gate A → Option ℕ
  child_days space gate =
      if money.is_zero (get_price space.header) && money.is_zero (get_price gate.header)
      then reg.cfg.free_session_days
      else reg.cfg.auto_pay_days

  abbrev with_parent : String → Session A → Session A
  with_parent id s = record s { data_of = record s.data_of { parent = some id } }

  -- A gate behind the tunnel: free sessions of it are replaced by one whose parent is the tunnel's.
  request_child : Space A → String → Gate A → Exec (Tunnels A) (Note A)
  unfolding remove_all child_days
  request_child space parent gate = do
    fresh ← here (
        find reg 0 (record no_filter {
          active = true;
          free = true;
          gateid = some (gate_id gate);
          spaceid = some (space_id space);
        }))
    here (remove_all fresh)
    lift (get_manager_url reg.cfg.forced space.header space.provider)
    days ← or_raise (child_days space gate) attribute_error
    d ← here (create_session (managers.posts none) reg gate space (some days))
    session ← here (load reg d)
    here (save (with_parent parent session))
    pure (connect (with_parent parent session))

  request_named : Space A → String → String → Option (Gate A) → Exec (Tunnels A) (Note A)
  unfolding request_child missing_gate
  request_named space parent name none = pure (gui_popup (missing_gate name))
  request_named space parent name (some gate) = request_child space parent gate

  pub request_children : Space A → String → List String → Exec (Tunnels A) (List (Note A))
  unfolding request_named
  request_children space parent [] = pure []
  request_children space parent (name ∷ names) = do
    note ← request_named space parent name (reg.get_gate name)
    notes ← request_children space parent names
    pure (note ∷ notes)

  -- `gates` is the entry of the gate with the names of the gates behind it.
  join :
      Gate A
      → Option (List String)
      → Space A
      → Session A
      → Exec (Tunnels A) (Session A × List (Note A))
  unfolding set_up current request_children
  join gate gates space session = do
    raise_unless reg.cfg.enable_wg (service_error 4)
    iface ← lift (get_interface_name reg (gate_id gate))
    set_up iface session
    gathered ← gather reg t m iface
    i ← or_raise gathered.iface type_error
    session ← current iface gate session i
    names ← or_raise gates type_error
    notes ← request_children space session.sessionid names
    pure (session, notes)

  put_all : List (Note A) → Service A → Service A
  put_all notes v = record v { queue = v.queue ++ notes }

  -- The messages are put into the queue after the last of the requests.
  unfoldable pub postinit :
      Gate A → Option (List String) → Space A → Session A → Exec (Service A) (Session A)
  unfolding join put_all
  postinit gate gates space session v =
      let (r, tunnels) = join gate gates space session v.tunnels in
      elim r [
        | ok (s, notes) ↦ (ok s, put_all notes (record v { tunnels = tunnels }))
        | err e ↦ (err e, record v { tunnels = tunnels })
      ]
