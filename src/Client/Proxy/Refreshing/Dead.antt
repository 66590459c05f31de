-- ===== src/Client/Proxy/Refreshing/Dead.antt =====
-- What a round of `Proxy.refresh_connections` leaves (client/proxy.py).
use lvpn.Prelude.{
  ℕ, zero, suc, Option, some, subst, ap, arith, String, ◌≡◌, ◌≢◌, refl, Bool, true, false, none,
  List, [], ◌∷◌, ◌++◌, map, not, ◌==◌, ◌&&◌, select, any, All, All-weaken, str_eq, eq_refl,
}
use mathlib.Core.Path.{fun_ext}
use lvpn.Prelude.Int.{ℤ, pos, negsuc}
use lvpn.Python.{Result, ok, err, os_error, proceed}
use lvpn.Money.{Money}
use lvpn.Session.Data.{Session, is_active}
use lvpn.Session.World.{Registry}
use lvpn.Manager.{HttpReply}
use lvpn.Client.Connections.{Connection, Probe, refused, check_connection, check_alive}
use lvpn.Client.Connections.Ports.{check_connection-refused}
use lvpn.Client.Connections as C
use lvpn.Client.Proxy.{Child, nothing, popen, forked, Entry, Options, ProxyState}
use lvpn.Client.Proxy.Reached.{In}
use lvpn.Client.Proxy.Refreshing.Taking.{HasOwn, get-check_alive, check_alive-Escapes}
use lvpn.Client.Proxy.Refreshing.{
  System, not_poll, is_alive, refresh_entries, check_connections, refresh_connections,
}
use lvpn.Client.Proxy.Refreshing.Burying.{answers_for, or_right, session_of, Looped, loop_lem}

-- The process of a `Popen` has failed if it has an exit code other than 0, that of a `Process` if it
-- is not alive.
is_failure : Option ℤ → Bool
is_failure none = false
is_failure (some (pos zero)) = false
is_failure (some (pos (suc n))) = true
is_failure (some (negsuc n)) = true

pub has_failed : System → Child → Bool
unfolding is_failure
has_failed sys nothing = false
has_failed sys (popen pid) = is_failure (sys.exit_code pid)
has_failed sys (forked pid) = not (sys.forked_alive pid)

not_poll_lem : (code : Option ℤ) → not_poll code ≡ not (is_failure code)
unfolding is_failure
not_poll_lem none = refl
not_poll_lem (some (pos zero)) = refl
not_poll_lem (some (pos (suc n))) = ground arith
not_poll_lem (some (negsuc n)) = refl

is_alive_lem : (sys : System) (p : Child) → is_alive sys p ≡ not (has_failed sys p)
unfolding has_failed
is_alive_lem sys nothing = refl
is_alive_lem sys (popen pid) = not_poll_lem (sys.exit_code pid)
is_alive_lem sys (forked pid) = ground arith

module _ {A : Type 0} ⦃m : Money A⦄ (opts : Options) (reg : Registry A) (sys : System)
    (held : Connection → Session A) (server : Bool → String → String → ℕ → HttpReply A) where
  module _ (alive : Child → Bool) where
    abbrev pub DiedWith : List Entry → String → Type 0
    DiedWith es id = any (λ e. not (alive e.process) && str_eq e.connectionid id) es ≡ true

    -- What a round leaves.
    pub record Refreshed (v w : ProxyState A) : Type 0 where
      pub living : w.processes ≡ select (λ e. alive e.process) v.processes
      pub buried :
          All (λ e. alive e.process ≡ false → C.get e.connectionid w.connections ≡ none) v.processes
      pub asked : List Connection
      pub queued : w.inbox ≡ v.inbox ++ map (session_of held) asked
      pub theirs : All (λ c. In c v.connections × DiedWith v.processes c.connectionid) asked
      pub answered :
          not (opts.auto_reconnect == 0) ≡ true
          → All
              (λ e.
                alive e.process ≡ false
                → C.get e.connectionid v.connections ≢ none
                → answers_for e.connectionid asked ≡ true)
              v.processes

    -- An exception of the round is that of a connection whose port refused the check.
    abbrev pub EndsRefreshed :
        (Connection → Probe) → ProxyState A → Result (Unit {0}) × ProxyState A → Type 0
    EndsRefreshed probe v (ok _, w) = Refreshed v w
    EndsRefreshed probe v (err e, w) =
        Refreshed v w
        × (e ≡ os_error)
        × ((c : Connection) × In c v.connections × ((probe c).socket ≡ refused))

  died :
      (es : List Entry)
      → All (λ e. is_alive sys e.process ≡ false → DiedWith (is_alive sys) es e.connectionid) es
  died [] = tt
  died (e ∷ es) = (
    (λ dead. rw (dead, eq_refl e.connectionid)),
    All-weaken _ _ es (λ f d dead. or_right _ (d dead)) (died es),
  )

  abbrev answers : (Connection → Probe) → Connection → Result Bool
  answers probe c = check_connection reg.cfg.enable_wg (probe c)

  checked-Refreshed :
      (probe : Connection → Probe) (v w : ProxyState A)
      → Looped opts reg sys held server
          (DiedWith (is_alive sys) v.processes)
          []
          v.processes
          v
          (ok tt, w)
      → Refreshed
          (is_alive sys)
          v
          (record w { connections = (check_alive (answers probe) w.connections).1 })
  checked-Refreshed probe v w (p, b, g) = record {
    living = p;
    buried =
        All-weaken _ _ v.processes
          (λ e f dead. get-check_alive (answers probe) e.connectionid w.connections (f dead)) b;
    asked = g.asked;
    queued = g.queued;
    theirs = g.theirs;
    answered = λ on.
        All-weaken _ _ v.processes (λ e f dead there. g.lost on e.connectionid there (f dead)) b;
  }

  finish_refreshed :
      (probe : Connection → Probe) (v : ProxyState A) (q : Result (Unit {0}) × ProxyState A)
      → Looped opts reg sys held server (DiedWith (is_alive sys) v.processes) [] v.processes v q
      → EndsRefreshed
          (is_alive sys)
          probe
          v
          (proceed q λ _. check_connections opts reg sys held server probe)
  unfolding check_connections
  finish_refreshed probe v (err _, w) x = absurd x
  finish_refreshed probe v (ok tt, w) (p, b, g) =
      go (check_alive (answers probe) w.connections) refl
    where
      go :
          (r : Result (Unit {0}) × List Connection)
          → check_alive (answers probe) w.connections ≡ r
          → EndsRefreshed (is_alive sys) probe v (r.0, record w { connections = r.1 })
      go (ok tt, conns) e =
          subst (λ cs. Refreshed (is_alive sys) v (record w { connections = cs })) (ap (λ r. r.1) e)
            (checked-Refreshed probe v w (p, b, g))
      go (err x, conns) e =
          let (c, mem, raises) =
            check_alive-Escapes (answers probe) x w.connections (ap (λ r. r.0) e) in
          let (closed, same) = check_connection-refused reg.cfg.enable_wg (probe c) x raises in
          (
            subst (λ cs. Refreshed (is_alive sys) v (record w { connections = cs }))
                (ap (λ r. r.1) e) (checked-Refreshed probe v w (p, b, g)),
            same,
            (c, g.fewer c mem, closed),
          )

  -- A round over entries with processes of their own, whose connections all have active sessions.
  -- However it ends, the entries whose processes have not failed are left, in order: an exit code of 0
  -- is no failure. The connection of a process that has failed is gone. The sessions that are asked for
  -- belong to connections that there were before and whose processes have failed, and with
  -- `auto_reconnect`, for each connection of such a process its own session is asked for or that of one
  -- that had it as a child. The round returns, or it raises an `OSError` and one of the connections
  -- that there were before had a port that refused the check.
  pub refresh_connections-Refreshed :
      (probe : Connection → Probe) (v : ProxyState A)
      → HasOwn v.processes
      → ((c : Connection) → In c v.connections → is_active (held c) ≡ true)
      → EndsRefreshed
          (λ p. not (has_failed sys p))
          probe
          v
          (refresh_connections opts reg sys held server probe v)
  unfolding refresh_connections
  refresh_connections-Refreshed probe v own active =
      subst
        (λ alive.
          EndsRefreshed alive probe v (refresh_connections opts reg sys held server probe v))
        (fun_ext (is_alive_lem sys))
        (finish_refreshed probe v (refresh_entries opts reg sys held server v.processes v) (
          loop_lem opts reg sys held server (DiedWith (is_alive sys) v.processes) [] v.processes v
            refl own active (died v.processes)))
