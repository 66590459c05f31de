-- ===== src/Client/Auto/Steps.antt =====
-- What the automatic connections may do to the queues of the proxy and the wallet, as a step relation
-- (auto_connect of client.py).
use mathlib.Core.List.{Mem}
use lvpn.Prelude.{
  ℕ, String, ◌≡◌, refl, ◌⊎◌, true, false, Option, none, some, List, [], ◌∷◌, ◌++◌, not, ◌&&◌, ◌==◌,
  is_some, map, select, if◌then◌else◌,
}
use lvpn.Prelude.Text.{split}
use lvpn.Prelude.Dict.{member}
use lvpn.Python.{Result, Exec, Error, ok, err, proceed, or_raise}
use lvpn.Money.{Money}
use lvpn.Vdp.Objects.{Gate, Space, get_manager_url}
use lvpn.Session.Data.{Session, SessionData, is_fresh}
use lvpn.Session.World.{World, Registry, time_time}
use lvpn.Session.Store.{save}
use lvpn.Session.Loading.{load}
use lvpn.Session.Invoice.{get_pay_msgs}
use lvpn.Sessions.{Filter, no_filter, find}
use lvpn.Manager.{create_session}
use lvpn.Client.Connections.{Connection, get_by_sessionid}
use lvpn.Client.Auto.{AutoState, AutoOptions, in_world, choose_days}

module _ {A : Type 0} ⦃m : Money A⦄ (reg : Registry A) (opts : AutoOptions A)
    (conns : List Connection) where
  -- What is ordered for a session with the option `auto_pay_days`.
  unfoldable pub with_orders : ℕ → Session A → AutoState A → AutoState A
  with_orders auto s v = record v {
    orders = if not (auto == 0) && not s.paid then v.orders ++ get_pay_msgs s else v.orders;
  }

  abbrev pub urls : List String
  urls = split b',' opts.auto_connect

  -- The option `auto_connect` names the two, and both are known.
  abbrev pub Wanted : String → String → Type 0
  Wanted gateid spaceid =
      (url : String) × Mem url urls
      × (split b'/' url ≡ gateid ∷ spaceid ∷ [])
      × (member gateid opts.gate_ids ≡ true)
      × (member spaceid opts.space_ids ≡ true)

  abbrev pub active_between : String → String → Filter
  active_between gateid spaceid = record no_filter {
    gateid = some gateid;
    spaceid = some spaceid;
    active = true;
  }

  -- The query at the start: for paid sessions, or else for active ones, as the option says.
  abbrev pub IsFirstQuery : Filter → Type 0
  IsFirstQuery f =
      ((member "paid" urls ≡ true)
        × (f ≡ record no_filter { paid = true; notfree = true; noparent = true }))
      ⊎ ((member "paid" urls ≡ false)
          × (member "active" urls ≡ true)
          × (f ≡ record no_filter { active = true; noparent = true }))

  -- The ids of the sessions that are not connected yet.
  unfoldable pub unconnected : List (Session A) → List String
  unconnected found =
      map (λ s. s.sessionid)
        (select (λ s. not (is_some (get_by_sessionid s.sessionid conns))) found)

  -- The manager of a wanted space is asked in the world `w`, and what it gives for the gate and the
  -- days is loaded and still fresh when the clock is read, in the world `u`.
  pub record Given (v : AutoState A) (s : Session A) (u : World A) : Type 0 where
    pub gateid : String
    pub spaceid : String
    pub wanted : Wanted gateid spaceid
    pub gate : Gate A
    pub gate_known : reg.get_gate gateid ≡ some gate
    pub space : Space A
    pub space_known : reg.get_space spaceid ≡ some space
    pub url : String
    pub managed : get_manager_url reg.cfg.forced space.header space.provider ≡ ok url
    pub days : ℕ
    pub chosen : (choose_days reg opts conns space gate v).0 ≡ ok days
    pub answer : SessionData A
    pub asked : World A
    pub answered :
        create_session (opts.managers url) reg gate space (some days) v.world ≡ (ok answer, asked)
    pub loaded : World A
    pub loads : load reg answer asked ≡ (ok s, loaded)
    pub now : ℕ
    pub clock_read : time_time loaded ≡ (ok now, u)
    pub fresh : is_fresh now s ≡ true

  pub data Step (v : AutoState A) : AutoState A → Type 0 where
    -- nothing is put into the queues
    passes : (u : World A) → Step v (record v { world = u })
    -- the stored sessions that the query at the start returns are to be connected
    resumes :
        (f : Filter) (found : List (Session A)) (u : World A)
        → IsFirstQuery f
        → find reg 0 f v.world ≡ (ok found, u)
        → Step v (record v { world = u; connects = v.connects ++ unconnected found })
    -- the first active session of a wanted gate and space is to be connected
    starts :
        (gateid spaceid : String) (s : Session A) (ss : List (Session A)) (u : World A)
        → Wanted gateid spaceid
        → find reg 0 (active_between gateid spaceid) v.world ≡ (ok (s ∷ ss), u)
        → Step v (record v { world = u; connects = v.connects ++ s.sessionid ∷ [] })
    -- a new session, ordered if it is not paid and payments are on, is saved and to be connected
    creates :
        (auto : ℕ) (s : Session A) (w u : World A)
        → Given v s w
        → reg.cfg.auto_pay_days ≡ some auto
        → (save s w ≡ (ok tt, u))
        → Step v
            (record (with_orders auto s v) { world = u; connects = v.connects ++ s.sessionid ∷ [] })
    -- the same, but it cannot be saved and is not connected
    loses :
        (auto : ℕ) (s : Session A) (e : Error) (w u : World A)
        → Given v s w
        → reg.cfg.auto_pay_days ≡ some auto
        → (save s w ≡ (err e, u))
        → Step v (record (with_orders auto s v) { world = u })

  pub data Steps (v : AutoState A) : AutoState A → Type 0 where
    done : Steps v v
    further : {w u : AutoState A} → Steps v w → Step w u → Steps v u

  pub Steps-trans : {v w u : AutoState A} → Steps v w → Steps w u → Steps v u
  Steps-trans h done = h
  Steps-trans h (further k s) = further (Steps-trans h k) s

  -- What a call leaves, whether it returns or raises.
  unfoldable pub Makes : {X : Type 0} → AutoState A → Result X × AutoState A → Type 0
  Makes v r = Steps v r.1

  pub Makes-same : {X : Type 0} (r : Result X) (v : AutoState A) → Makes v (r, v)
  unfolding Makes
  Makes-same r v = done

  -- A call that changes the world alone, after which the queues are as in `v`.
  pub Makes-call :
      {X Y : Type 0} (v : AutoState A) (u : World A) (call : Exec (World A) X)
      (f : X → Exec (AutoState A) Y)
      → ((x : X) (w : World A) → call u ≡ (ok x, w) → Makes v (f x (record v { world = w })))
      → Makes v (proceed (in_world call (record v { world = u })) f)
  unfolding Makes
  Makes-call {X} v u call f next = go (call u) refl
    where
      go :
          (r : Result X × World A)
          → call u ≡ r
          → Makes v (proceed (r.0, record v { world = r.1 }) f)
      go (ok x, w) e = next x w e
      go (err e, w) h = further done (passes w)

  pub Makes-known :
      {X Y : Type 0} (v : AutoState A) (u : World A) (o : Option X) (e : Error)
      (f : X → Exec (AutoState A) Y)
      → ((x : X) → o ≡ some x → Makes v (f x (record v { world = u })))
      → Makes v (proceed (or_raise o e (record v { world = u })) f)
  unfolding Makes
  Makes-known {X} v u o e f next = go o refl
    where
      go : (q : Option X) → o ≡ q → Makes v (proceed (or_raise q e (record v { world = u })) f)
      go none h = further done (passes u)
      go (some x) h = next x h
