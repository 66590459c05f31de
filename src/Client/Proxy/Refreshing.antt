-- ===== src/Client/Proxy/Refreshing.antt =====
-- `Proxy.refresh_connections` (client/proxy.py): what it does with the connections whose processes
-- have ended.
pub mod Taking
pub mod Burying
pub mod Dead
use lvpn.Prelude.{
  ℕ, zero, suc, String, Bool, true, false, Option, none, some, List, [], ◌∷◌, ◌++◌, not, ◌==◌,
  if◌then◌else◌,
}
use lvpn.Prelude.Int.{ℤ, pos, negsuc}
use lvpn.Python.{Exec, ok, pure, lift, gets, modify, when, ◌>>=◌, ◌>>◌}
use lvpn.Money.{Money}
use lvpn.Vdp.Objects.{gate_id, space_id, get_manager_url}
use lvpn.Session.Data.{Session, is_active}
use lvpn.Session.World.{World, Registry}
use lvpn.Session.Store.{save}
use lvpn.Session.Loading.{load}
use lvpn.Session.Creation.{generate}
use lvpn.Manager.{HttpReply, create_session}
use lvpn.Client.Connections.{Connection, Probe, remove, check_connection, check_alive}
use lvpn.Client.Connections as C
use lvpn.Client.Proxy.{
  Child, nothing, popen, forked, same_child, Entry, Options, ProxyState, in_world,
}

-- What the operating system says of the processes: the exit code of a `Popen` that has ended, and
-- whether a `Process` is alive.
pub record System : Type 0 where
  pub exit_code : ℕ → Option ℤ
  pub forked_alive : ℕ → Bool

-- `not p.poll()`: the exit code 0 is as false as `None`.
abbrev pub not_poll : Option ℤ → Bool
not_poll none = true
not_poll (some (pos n)) = n == 0
not_poll (some (negsuc n)) = false

abbrev pub is_alive : System → Child → Bool
is_alive sys nothing = true
is_alive sys (popen pid) = not_poll (sys.exit_code pid)
is_alive sys (forked pid) = sys.forked_alive pid

-- `processes.remove(pinfo)`
pub take_out : Child → List Entry → List Entry
take_out p [] = []
take_out p (e ∷ es) = let rest = take_out p es in if same_child e.process p then es else e ∷ rest

pub remove_all : List String → List Connection → List Connection
remove_all [] conns = conns
remove_all (id ∷ ids) conns = remove_all ids (remove id conns)

pub without : Option Connection → List Connection → List Connection
unfolding remove_all
without none conns = conns
without (some c) conns = remove c.connectionid (remove_all c.children conns)

-- `held` is the session that a connection was made with, and `server` answers the requests of the
-- manager.
module _ {A : Type 0} ⦃m : Money A⦄ (opts : Options) (reg : Registry A) (sys : System)
    (held : Connection → Session A) (server : Bool → String → String → ℕ → HttpReply A) where
  abbrev pub ask : String → Exec (ProxyState A) (Unit {0})
  ask sessionid = modify (λ v. record v { inbox = v.inbox ++ sessionid ∷ [] })

  -- The session that is generated here is dropped; the manager's is stored.
  renew : Session A → Exec (World A) String
  renew s = do
    generate reg (gate_id s.gate) (space_id s.space) (some s.days)
    lift (get_manager_url reg.cfg.forced s.gate.header s.gate.provider)
    d ← create_session server reg s.gate s.space (some s.days)
    t ← load reg d
    save t
    pure t.sessionid

  reconnect : Option Connection → Exec (ProxyState A) (Unit {0})
  unfolding renew
  reconnect none = pure tt
  reconnect (some c) =
      if is_active (held c)
      then ask (held c).sessionid
      else (do id ← in_world (renew (held c)); ask id)

  bury : Entry → Option Connection → Exec (ProxyState A) (Unit {0})
  unfolding take_out without reconnect
  bury e found = do
    modify (λ v. record v {
      processes = take_out e.process v.processes;
      connections = without found v.connections;
    })
    when (not (opts.auto_reconnect == 0)) (reconnect found)

  pub refresh_entries : List Entry → Exec (ProxyState A) (Unit {0})
  unfolding bury
  refresh_entries [] = pure tt
  refresh_entries (e ∷ es) = do
    when (not (is_alive sys e.process))
        (do found ← gets (λ v. C.get e.connectionid v.connections); bury e found)
    refresh_entries es

  -- What `Connections.check_alive` has taken out until it raises is gone.
  check_connections : (Connection → Probe) → Exec (ProxyState A) (Unit {0})
  check_connections probe v =
      let answers = λ (c : Connection). check_connection reg.cfg.enable_wg (probe c) in
      let (r, conns) = check_alive answers v.connections in (r, record v { connections = conns })

  -- One round, over a copy of `processes`. `probe` is what the checks of the connections read.
  unfoldable pub refresh_connections : (Connection → Probe) → Exec (ProxyState A) (Unit {0})
  unfolding refresh_entries check_connections
  refresh_connections probe = do
    copied ← gets (λ v. v.processes)
    refresh_entries copied
    check_connections probe
