-- ===== src/Client/Auto/Asking.antt =====
-- What asking a manager for a session does to the queues of the proxy and the wallet (auto_connect of
-- client.py).
use lvpn.Prelude.{
  ℕ, String, ◌≡◌, refl, ap, subst, Bool, true, false, some, List, [], ◌∷◌, ◌++◌, not, ◌&&◌, ◌==◌,
  inl, inr, Bool-cases, if◌then◌else◌,
}
use lvpn.Python.{
  Result, ok, err, raise, proceed, when, or_raise, attribute_error, vdp_error, stale_session, ◌>>◌,
}
use lvpn.Money.{Money}
use lvpn.Vdp.Objects.{Space, get_manager_url, get_price}
use lvpn.Session.Data.{Session, is_fresh}
use lvpn.Session.World.{World, Registry, time_time}
use lvpn.Session.Store.{save}
use lvpn.Session.Loading.{load}
use lvpn.Session.Invoice.{get_pay_msgs}
use lvpn.Sessions.{find}
use lvpn.Manager.{create_session}
use lvpn.Client.Connections.{Connection}
use lvpn.Client.Auto.{
  AutoState, AutoOptions, in_world, ask_proxy, order_all, choose_days, take_with, take_session,
  ask_for, connect_first, ask_manager, catch_failure, settle, connect_or_ask, found_connection,
}
use lvpn.Client.Auto.Steps.{
  passes, starts, creates, loses, done, further, Steps-trans, Given, Wanted, active_between,
  with_orders, Makes, Makes-same, Makes-call, Makes-known,
}

module _ {A : Type 0} ⦃m : Money A⦄ (reg : Registry A) (opts : AutoOptions A)
    (conns : List Connection) where
  -- The result of the save decides between the two last steps.
  saved-Makes :
      (auto : ℕ) (s : Session A) (v : AutoState A) (w : World A) (r : Result (Unit {0}) × World A)
      → Given reg opts conns v s w
      → reg.cfg.auto_pay_days ≡ some auto
      → save s w ≡ r
      → Makes reg opts conns v (
          proceed
            (r.0, record (with_orders reg opts conns auto s v) { world = r.1 })
            (λ _. ask_proxy s))
  unfolding Makes ask_proxy with_orders
  saved-Makes auto s v w (ok tt, u) given set h = further done (creates auto s w u given set h)
  saved-Makes auto s v w (err e, u) given set h = further done (loses auto s e w u given set h)

  take_with-Makes :
      (auto : ℕ) (s : Session A) (v : AutoState A) (w : World A)
      → Given reg opts conns v s w
      → reg.cfg.auto_pay_days ≡ some auto
      → Makes reg opts conns v (take_with reg opts conns s auto (record v { world = w }))
  unfolding take_with order_all with_orders ask_proxy
  take_with-Makes auto s v w given set =
      subst (Makes reg opts conns v) (ordered (not (auto == 0) && not s.paid))
        (saved-Makes auto s v w (save s w) given set refl)
    where
      ordered :
          (b : Bool)
          → proceed
              (
                (save s w).0,
                record v {
                  world = (save s w).1;
                  orders = if b then v.orders ++ get_pay_msgs s else v.orders;
                },
              )
              (λ _. ask_proxy s)
            ≡ proceed
                (when b (order_all (get_pay_msgs s)) (record v { world = w }))
                (λ _. in_world (save s) >> ask_proxy s)
      ordered true = refl
      ordered false = refl

  take_session-Makes :
      (s : Session A) (v : AutoState A) (w : World A)
      → Given reg opts conns v s w
      → Makes reg opts conns v (take_session reg opts conns s (record v { world = w }))
  unfolding take_session
  take_session-Makes s v w given =
      Makes-known reg opts conns v w reg.cfg.auto_pay_days attribute_error
        (take_with reg opts conns s) λ auto set. take_with-Makes auto s v w given set

  fresh_or_not :
      (s : Session A) (now : ℕ) (v : AutoState A) (u : World A)
      → (is_fresh now s ≡ true → Given reg opts conns v s u)
      → Makes reg opts conns v (
          (if is_fresh now s
              then take_session reg opts conns s
              else raise (vdp_error stale_session))
            (record v { world = u }))
  unfolding Makes
  fresh_or_not s now v u given = elim (Bool-cases (is_fresh now s)) [
    | inl f ↦ rw f (take_session-Makes s v u (given f))
    | inr f ↦ rw f (further done (passes u))
  ]

  ask_manager-Makes :
      (url gateid spaceid : String) (space : Space A) (v : AutoState A)
      → Wanted reg opts conns gateid spaceid
      → reg.get_space spaceid ≡ some space
      → get_manager_url reg.cfg.forced space.header space.provider ≡ ok url
      → Makes reg opts conns v (ask_manager reg opts conns url gateid space v)
  unfolding ask_manager choose_days
  ask_manager-Makes url gateid spaceid space v wanted space_known managed =
      Makes-known reg opts conns v v.world (reg.get_gate gateid) attribute_error _
        λ gate gate_known.
          Makes-known reg opts conns v v.world
            (if m.is_zero (get_price space.header) && m.is_zero (get_price gate.header)
              then reg.cfg.free_session_days
              else reg.cfg.auto_pay_days)
            attribute_error _
            λ days chosen.
              Makes-call reg opts conns v v.world
                (create_session (opts.managers url) reg gate space (some days)) _
                λ d a answered. Makes-call reg opts conns v a (load reg d) _ λ s b loads.
                  Makes-call reg opts conns v b time_time
                    (λ now.
                      if is_fresh now s
                      then take_session reg opts conns s
                      else raise (vdp_error stale_session))
                    λ now c clock_read. fresh_or_not s now v c λ fresh. record {
                      gateid = gateid;
                      spaceid = spaceid;
                      wanted = wanted;
                      gate = gate;
                      gate_known = gate_known;
                      space = space;
                      space_known = space_known;
                      url = url;
                      managed = managed;
                      days = days;
                      chosen = ap (λ o. (or_raise o attribute_error v).0) chosen;
                      answer = d;
                      asked = a;
                      answered = answered;
                      loaded = b;
                      loads = loads;
                      now = now;
                      clock_read = clock_read;
                      fresh = fresh;
                    }

  -- Catching an exception keeps what was done before it.
  settle-Makes :
      {X : Type 0} (v : AutoState A) (r : Result X × AutoState A)
      → Makes reg opts conns v r
      → Makes reg opts conns v (settle reg opts conns r)
  unfolding settle Makes
  settle-Makes v (ok x, w) h = h
  settle-Makes v (err e, w) h = h

  ask_for-Makes :
      (gateid spaceid : String) (v : AutoState A)
      → Wanted reg opts conns gateid spaceid
      → Makes reg opts conns v (ask_for reg opts conns gateid spaceid v)
  unfolding ask_for catch_failure
  ask_for-Makes gateid spaceid v wanted =
      Makes-known reg opts conns v v.world (reg.get_space spaceid) attribute_error _
        λ space space_known.
          go space space_known (get_manager_url reg.cfg.forced space.header space.provider) refl
    where
      go :
          (space : Space A)
          → reg.get_space spaceid ≡ some space
          → (r : Result String) → get_manager_url reg.cfg.forced space.header space.provider ≡ r
          → Makes reg opts conns v (
              proceed
                (r, v)
                (λ url. catch_failure reg opts conns (ask_manager reg opts conns url gateid space)))
      go space known (ok url) h =
          settle-Makes v _ (ask_manager-Makes url gateid spaceid space v wanted known h)
      go space known (err e) h = Makes-same reg opts conns (err e) v

  pub connect_or_ask-Makes :
      (gateid spaceid : String) (found : List (Session A)) (v : AutoState A) (u : World A)
      → Wanted reg opts conns gateid spaceid
      → find reg 0 (active_between reg opts conns gateid spaceid) v.world ≡ (ok found, u)
      → Makes reg opts conns v
          (connect_or_ask reg opts conns gateid spaceid found (record v { world = u }))
  unfolding connect_or_ask connect_first found_connection Makes ask_proxy
  connect_or_ask-Makes gateid spaceid [] v u wanted e =
      Steps-trans reg opts conns (further done (passes u))
        (ask_for-Makes gateid spaceid (record v { world = u }) wanted)
  connect_or_ask-Makes gateid spaceid (s ∷ ss) v u wanted e =
      further done (starts gateid spaceid s ss u wanted e)
