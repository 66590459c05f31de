-- ===== src/Wireguard/Interface/Traces.antt =====
-- Which commands a call has run (lib/wg_engine.py), whatever the host answers.
use mathlib.Core.List.{append-nil, append_assoc}
use lvpn.Prelude.{
  String, ◌≡◌, refl, inl, inr, sym, ap, ◌∙◌, Bool, true, false, Bool-cases, not, ◌&&◌, Option, none,
  some, List, [], ◌∷◌, ◌++◌, if◌then◌else◌,
}
use lvpn.Python.{Error, Result, Exec, ok, err, proceed, or_raise, raise_unless, when, service_error}
use lvpn.Session.World.{Registry}
use lvpn.Wireguard.Interface.{
  Address, Command, set_ip, unset_ips, interface_up, route, nat, Templates, Machine, Tunnels,
  logged, reported, wg_run_cmd, set_interface_up, add_route,
}

module _ {A : Type 0} where
  -- The call has run commands with the property, however it ended.
  abbrev pub Traces :
      {X : Type 0} → (List Command → Type 0) → Tunnels A → Result X × Tunnels A → Type 0
  Traces R s (r, v) = (cs : List Command) × (v.commands ≡ s.commands ++ cs) × R cs

  -- The same of a call that returns.
  abbrev pub Records :
      {X : Type 0} → (List Command → Type 0) → Tunnels A → Result X × Tunnels A → Type 0
  Records R s (ok x, v) = (cs : List Command) × (v.commands ≡ s.commands ++ cs) × R cs
  Records R s (err e, v) = Unit

  later :
      (s v u : Tunnels A) (cs ds : List Command)
      → v.commands ≡ s.commands ++ cs
      → u.commands ≡ v.commands ++ ds
      → u.commands ≡ s.commands ++ (cs ++ ds)
  later s v u cs ds e f = f ∙ ap (λ (l : List Command). l ++ ds) e ∙ append_assoc s.commands cs ds

  pub Records-proceed :
      {X Y : Type 0} (R Q T : List Command → Type 0) (s : Tunnels A) (r : Result X × Tunnels A)
      (f : X → Exec (Tunnels A) Y)
      → ((cs ds : List Command) → R cs → Q ds → T (cs ++ ds))
      → Records R s r
      → ((x : X) (v : Tunnels A) → Records Q v (f x v))
      → Records T s (proceed r f)
  Records-proceed R Q T s (err e, v) f join first rest = tt
  Records-proceed {Y = Y} R Q T s (ok x, v) f join (cs, e, h) rest = go (f x v) (rest x v)
    where
      go : (q : Result Y × Tunnels A) → Records Q v q → Records T s q
      go (err d, u) k = tt
      go (ok y, u) (ds, d, k) = (cs ++ ds, later s v u cs ds e d, join cs ds h k)

  pub Traces-proceed :
      {X Y : Type 0} (R : List Command → Type 0) (s : Tunnels A) (r : Result X × Tunnels A)
      (f : X → Exec (Tunnels A) Y)
      → ((cs ds : List Command) → R cs → R ds → R (cs ++ ds))
      → Traces R s r
      → ((x : X) (v : Tunnels A) → Traces R v (f x v))
      → Traces R s (proceed r f)
  Traces-proceed R s (err e, v) f join first rest = first
  Traces-proceed R s (ok x, v) f join (cs, e, h) rest =
      let (ds, d, k) = rest x v in (cs ++ ds, later s v (f x v).1 cs ds e d, join cs ds h k)

  pub logged-Records :
      (R : List Command → Type 0) (s : Tunnels A) (r : Result (Unit {0}) × Tunnels A)
      → Traces R s r
      → Records R s (logged r)
  unfolding logged
  logged-Records R s (ok u, v) h = h
  logged-Records R s (err (service_error n), v) h = h
  logged-Records R s (err _, v) h = tt

  pub reported-Traces :
      (R : List Command → Type 0) (s : Tunnels A) (r : Result (Unit {0}) × Tunnels A)
      → Traces R s r
      → Traces R s (reported r)
  unfolding reported
  reported-Traces R s (ok u, v) h = h
  reported-Traces R s (err e, v) h = h

  pub Traces-Records :
      (R : List Command → Type 0) (s : Tunnels A) (r : Result (Unit {0}) × Tunnels A)
      → Traces R s r
      → Records R s r
  Traces-Records R s (ok u, v) h = h
  Traces-Records R s (err e, v) h = tt

  pub nothing-Records :
      {X : Type 0} (R : List Command → Type 0) (s : Tunnels A) (r : Result X)
      → R []
      → Records R s (r, s)
  nothing-Records R s (ok x) h = ([], sym (append-nil s.commands), h)
  nothing-Records R s (err e) h = tt

  pub or_raise-Records :
      {X : Type 0} (R : List Command → Type 0) (s : Tunnels A) (o : Option X) (e : Error)
      → R []
      → Records R s (or_raise o e s)
  or_raise-Records R s (some x) e h = ([], sym (append-nil s.commands), h)
  or_raise-Records R s none e h = tt

  pub or_raise-Traces :
      {X : Type 0} (R : List Command → Type 0) (s : Tunnels A) (o : Option X) (e : Error)
      → R []
      → Traces R s (or_raise o e s)
  or_raise-Traces R s (some x) e h = ([], sym (append-nil s.commands), h)
  or_raise-Traces R s none e h = ([], sym (append-nil s.commands), h)

  pub when-Traces :
      (R : List Command → Type 0) (s : Tunnels A) (given : Bool) (m : Exec (Tunnels A) (Unit {0}))
      → (given ≡ false → R [])
      → (given ≡ true → Traces R s (m s))
      → Traces R s (when given m s)
  when-Traces R s true m none_run run = run refl
  when-Traces R s false m none_run run = ([], sym (append-nil s.commands), none_run refl)

-- The commands of `set_interface_up` and of `add_route`.
pub up_commands : Templates → String → List Command
up_commands t iface = if t.sets_interface_up then interface_up iface ∷ [] else []

pub route_commands : Bool → Templates → String → Address → String → List Command
route_commands is_client t iface gateway net =
    if t.sets_route
    then route iface net gateway ∷ []
    else if is_client && t.sets_nat
    then nat iface net gateway ∷ []
    else []

-- What changes the addresses of an interface.
abbrev pub Addressing : String → Command → Type 0
Addressing iface (unset_ips i) = i ≡ iface
Addressing iface (set_ip i a n) = i ≡ iface
Addressing iface _ = ⊥

module _ {A : Type 0} (reg : Registry A) (t : Templates) (m : Machine) where
  pub wg_run_cmd-Traces :
      (s : Tunnels A) (c : Command) → Traces (λ cs. cs ≡ c ∷ []) s (wg_run_cmd reg t m c s)
  unfolding wg_run_cmd
  wg_run_cmd-Traces s c = (
    c ∷ [],
    kept (not (reg.cfg.is_server && not reg.cfg.enable_wg)) (m.succeeds (s.commands ++ c ∷ [])),
    refl,
  )
    where
      kept :
          (b good : Bool)
          → (when b
              (raise_unless good (service_error 2))
              (record s { commands = s.commands ++ c ∷ [] })).1.commands
            ≡ s.commands ++ c ∷ []
      kept true true = refl
      kept true false = refl
      kept false good = refl

  pub set_interface_up-Records :
      (s : Tunnels A) (iface : String)
      → Records (λ cs. cs ≡ up_commands t iface) s (set_interface_up reg t m iface s)
  unfolding set_interface_up up_commands
  set_interface_up-Records s iface = Traces-Records _ s _ (
      when-Traces _ s t.sets_interface_up _ (λ h. simp h refl)
        (λ h. simp h (wg_run_cmd-Traces s (interface_up iface))))

  run_reported-Traces :
      (s : Tunnels A) (c : Command)
      → Traces (λ cs. cs ≡ c ∷ []) s (reported (wg_run_cmd reg t m c s))
  run_reported-Traces s c =
      reported-Traces (λ cs. cs ≡ c ∷ []) s (wg_run_cmd reg t m c s) (wg_run_cmd-Traces s c)

  route_or_nat :
      (s : Tunnels A) (iface net : String) (gateway : Address) (b : Bool)
      → Traces
          (λ cs. cs ≡ (
            if b
            then route iface net gateway ∷ []
            else if reg.cfg.is_client && t.sets_nat
            then nat iface net gateway ∷ []
            else []))
          s
          ((if b
              then (λ s. reported (wg_run_cmd reg t m (route iface net gateway) s))
              else when
                  (reg.cfg.is_client && t.sets_nat)
                  (λ s. reported (wg_run_cmd reg t m (nat iface net gateway) s)))
            s)
  route_or_nat s iface net gateway true = run_reported-Traces s (route iface net gateway)
  route_or_nat s iface net gateway false =
      when-Traces _ s (reg.cfg.is_client && t.sets_nat) _ (λ h. simp h refl)
        (λ h. simp h (run_reported-Traces s (nat iface net gateway)))

  -- A route that is logged if it fails has been tried, unless its network is no network.
  pub route-Records :
      (s : Tunnels A) (iface net : String) (gateway : Address)
      → Records
          (λ cs. cs ≡ route_commands reg.cfg.is_client t iface gateway net)
          s
          (logged (add_route reg t m iface net gateway s))
  unfolding add_route route_commands logged
  route-Records s iface net gateway = elim (Bool-cases (m.is_network net)) [
    | inl fine ↦ simp fine (logged-Records _ s _ (route_or_nat s iface net gateway t.sets_route))
    | inr bad ↦ simp bad tt
  ]
