-- ===== src/Client/Proxy/Connecting/Routes.antt =====
-- No two connections go to the same space by the same gate (client/proxy.py, client/connection.py).
use lvpn.Prelude.{
  ℕ, ◌+◌, String, ◌≡◌, refl, ◌&&◌, inl, inr, Bool-cases, Option, none, some, Option-cases, List,
  str_eq,
}
use lvpn.Python.{Result, Exec, ok, err, proceed, pure, Result-cases, ◌>>=◌}
use lvpn.Money.{Money}
use lvpn.Vdp.Objects.{
  Gate, GateType, http_proxy, socks_proxy, daemon_rpc_proxy, daemon_p2p_proxy, ssh, wg, other,
  gate_id, space_id, is_for_space, is_wg,
}
use lvpn.Session.Data.{Session}
use lvpn.Session.World.{Registry}
use lvpn.Sessions.{get}
use lvpn.Client.Connections.{Connection, is_connected, add, find_by_gateid}
use lvpn.Client.Proxy.{Options, ProxyState, in_world, disconnect}
use lvpn.Wireguard.Engine.{get_interface_name}
use lvpn.Client.Proxy.Keeping
use lvpn.Client.Proxy.Keeping.{disconnect-Keeps}
use lvpn.Client.Proxy.Connecting.{
  preferred, parent_id, placed, start_browser, is_http, serve, run_tls_proxy, connect_tls,
  connect_ssh, connect_wg, connect_type, disconnect_found, replace, connect_session, connect_found,
  connect,
}
use lvpn.Client.Proxy.Connecting.Single.{IsSingle, IsSingle-append, Joins, Joins-remove}

module _ {A : Type 0} where
  abbrev EndsSingle : {X : Type 0} → Result X × ProxyState A → Type 0
  EndsSingle q = IsSingle q.1.connections

module _ {A : Type 0} ⦃m : Money A⦄ (opts : Options) (reg : Registry A) where
  then_single :
      {X Y : Type 0} (P : List Connection → Type 0) (q : Result X × ProxyState A)
      (f : X → Exec (ProxyState A) Y)
      → P q.1.connections
      → (P q.1.connections → IsSingle q.1.connections)
      → ((x : X) (v : ProxyState A) → P v.connections → EndsSingle (f x v))
      → EndsSingle (proceed q f)
  then_single P (ok x, v) f k single go = go x v k
  then_single P (err e, v) f k single go = single k

  module _ (s : Session A) where
    abbrev Free : List Connection → Type 0
    Free cs = Joins (gate_id s.gate) (space_id s.space) cs

    ssh_single : (v : ProxyState A) → Free v.connections → EndsSingle (connect_ssh opts reg s v)
    unfolding connect_ssh add
    ssh_single v k = elim (Bool-cases (str_eq opts.ssh_engine "ssh")) [
      | inl command ↦ rw command (elim (Bool-cases (opts.ssh_starts s.sessionid)) [
        | inl starts ↦ rw starts (elim (Bool-cases opts.connect_and_exit) [
          | inl exits ↦ rw exits k.0
          | inr stays ↦ rw stays (IsSingle-append v.connections _ k.1 k.0)
        ])
        | inr fails ↦ rw fails k.0
      ])
      | inr library ↦ rw library (IsSingle-append v.connections _ k.1 k.0)
    ]

    wg_single :
        (gate : Gate A) (v : ProxyState A)
        → Free v.connections
        → EndsSingle (connect_wg opts reg gate s v)
    unfolding connect_wg add
    wg_single gate v k = elim (Option-cases gate.wg_data) [
      | inl e ↦ rw e k.0
      | inr (own, e) ↦ rw e (elim (Result-cases (get_interface_name reg (gate_id gate))) [
        | inl (name, n) ↦ rw n (IsSingle-append v.connections _ k.1 k.0)
        | inr (x, n) ↦ rw n k.0
      ])
    ]

    -- Where the proxy listens does not change where the connection goes.
    placed_route :
        (gate : Gate A) (parent : Option (Session A)) (c : Connection)
        → ((placed opts reg gate parent c).gateid ≡ c.gateid)
          × ((placed opts reg gate parent c).spaceid ≡ c.spaceid)
    unfolding placed
    placed_route gate none c = (refl, refl)
    placed_route gate (some parent) c =
        elim (Bool-cases (is_wg parent.gate.type && is_http gate.type)) [
          | inl own ↦ rw own (refl, refl)
          | inr local ↦ rw local (refl, refl)
        ]

    serve_single :
        (gate : Gate A) (c : Connection) (v : ProxyState A)
        → c.gateid ≡ gate_id s.gate
        → c.spaceid ≡ space_id s.space
        → Free v.connections
        → EndsSingle (serve opts reg gate c v)
    unfolding serve start_browser add
    serve_single gate c v g h k =
        let single = IsSingle-append v.connections c (rw (g, h) k.1) k.0 in
        elim (Bool-cases (is_http gate.type)) [
          | inl http ↦ rw http (elim (Bool-cases (str_eq opts.auto_run_browser "")) [
            | inl quiet ↦ rw quiet single
            | inr starts ↦ rw starts single
          ])
          | inr plain ↦ rw plain single
        ]

    proxy_single :
        (gate : Gate A) (port : ℕ) (v : ProxyState A)
        → Free v.connections
        → EndsSingle (
            proceed (run_tls_proxy opts reg s port v) (λ c.
              in_world (get reg (parent_id opts reg s.parent)) >>= λ parent.
              serve opts reg gate (placed opts reg gate parent c)))
    unfolding run_tls_proxy
    proxy_single gate port v k =
        then_single Free (in_world (get reg (parent_id opts reg s.parent)) _)
          (λ parent. serve opts reg gate (placed opts reg gate parent _)) k (λ j. j.0)
          (λ parent w j.
            let (g, h) = placed_route gate parent _ in
            serve_single gate (placed opts reg gate parent _) w g h j)

    tls_single :
        (gate : Gate A) (v : ProxyState A)
        → Free v.connections
        → EndsSingle (connect_tls opts reg gate s v)
    unfolding connect_tls
    tls_single gate v k = elim (Bool-cases (opts.port_is_free (preferred gate.type))) [
      | inl free ↦ rw free (proxy_single gate (preferred gate.type) v k)
      | inr taken ↦
          rw taken
            (proxy_single gate (opts.free_ports v.ports) (record v { ports = v.ports + 1 }) k)
    ]

    type_single :
        (type : GateType) (gate : Gate A) (v : ProxyState A)
        → Free v.connections
        → EndsSingle (connect_type opts reg type gate s v)
    unfolding connect_type
    type_single ssh gate v k = ssh_single v k
    type_single wg gate v k = wg_single gate v k
    type_single (other _) gate v k = k.0
    type_single http_proxy gate v k = tls_single gate v k
    type_single socks_proxy gate v k = tls_single gate v k
    type_single daemon_rpc_proxy gate v k = tls_single gate v k
    type_single daemon_p2p_proxy gate v k = tls_single gate v k

    module _ (depth : ℕ) where
      found-Free :
          (id : Option String) (v : ProxyState A)
          → Free v.connections
          → Free (disconnect_found opts reg depth id v).1.connections
      unfolding disconnect_found
      found-Free none v k = k
      found-Free (some id) v k =
          Keeping.then-Keeps Free (Joins-remove (gate_id s.gate) (space_id s.space))
            (disconnect depth reg id v) (λ _. pure tt)
            (disconnect-Keeps Free (Joins-remove (gate_id s.gate) (space_id s.space)) depth reg id v
              k)
            (λ _ w j. j)

      replace-Free :
          (replaces : Option String) (v : ProxyState A)
          → Free v.connections
          → Free (replace opts reg depth replaces v).1.connections
      unfolding replace
      replace-Free none v k = k
      replace-Free (some gateid) v k = elim (Bool-cases (str_eq gateid "")) [
        | inl empty ↦ rw empty k
        | inr given ↦ rw given (found-Free (find_by_gateid gateid v.connections) v k)
      ]

      session_single :
          (v : ProxyState A) → Free v.connections → EndsSingle (connect_session opts reg depth s v)
      unfolding connect_session
      session_single v k = elim (Option-cases (reg.get_gate (gate_id s.gate))) [
        | inl e ↦ rw e k.0
        | inr (gate, e) ↦ rw e (elim (Option-cases (reg.get_space (space_id s.space))) [
          | inl f ↦ rw f k.0
          | inr (space, f) ↦ rw f (elim (Bool-cases (is_for_space gate (space_id space))) [
            | inl allowed ↦ rw allowed (
                then_single Free (replace opts reg depth gate.replaces v)
                  (λ _. connect_type opts reg gate.type gate s) (replace-Free gate.replaces v k)
                  (λ j. j.0) (λ _ w j. type_single gate.type gate w j))
            | inr refused ↦ rw refused k.0
          ])
        ])
      ]

  found_single :
      (depth : ℕ) (found : Option (Session A)) (v : ProxyState A)
      → IsSingle v.connections
      → EndsSingle (connect_found opts reg depth found v)
  unfolding connect_found
  found_single depth none v k = k
  found_single depth (some s) v k =
      elim (Bool-cases (is_connected (gate_id s.gate) (space_id s.space) v.connections)) [
        | inl there ↦ rw there k
        | inr free ↦ rw free (session_single s depth v (k, free))
      ]

  -- If no two connections go to the same space by the same gate, this is so when `connect` ends,
  -- whether it returns or raises, also where it replaced a connection.
  pub connect-IsSingle :
      (depth : ℕ) (sessionid : String) (v : ProxyState A)
      → IsSingle v.connections
      → IsSingle (connect opts reg depth sessionid v).1.connections
  unfolding connect
  connect-IsSingle depth sessionid v k =
      then_single IsSingle (in_world (get reg sessionid) v) (connect_found opts reg depth) k
        (λ j. j) (λ found w j. found_single depth found w j)
