-- ===== src/Wireguard/Preparation/Collision.antt =====
-- Where the addresses of sessions come from: from the peers of the interface alone.
use lvpn.Prelude.{ℕ, String, ◌≡◌, refl, sym, ap, subst, ◌∙◌, Option, arith}
use lvpn.Python.{
  Result, ok, Returns, Returns-proceed, Returns-map, ok-injective, Exec, pure, or_raise, type_error,
  ◌>>=◌,
}
use lvpn.Vdp.Objects.{Gate, WgGate}
use lvpn.Session.Data.{Session, WgSession}
use lvpn.Session.World.{World, Registry}
use lvpn.Wireguard.Dump.{gather_wg_data}
use lvpn.Wireguard.Addresses.{find_free_ip}
use lvpn.Wireguard.Preparation.{
  WgRequest, with_wg, tunnel, find_free_ipv6, preshared, assemble, prepare_server_session,
}

module _ {A : Type 0} where
  find_free_ip-World :
      (reg : Registry A) (gate : Gate A) (w v : World A)
      → (find_free_ip reg gate w).0 ≡ (find_free_ip reg gate v).0
  unfolding find_free_ip gather_wg_data
  find_free_ip-World reg gate w v = ground arith

  -- A session with this tunnel address, which differs from the given one in nothing else than `wg`.
  abbrev pub HasAddress : Session A → Option ℕ → Session A → Type 0
  HasAddress s address t =
      (peer : WgSession) × (t ≡ with_wg s peer) × (peer.client_ipv4_address ≡ address)

  assemble-HasAddress :
      (reg : Registry A) (s : Session A) (request : WgRequest) (wg : WgGate) (address : Option ℕ)
      (w : World A)
      → Returns (HasAddress s address) (assemble reg s request wg address w)
  unfolding assemble
  assemble-HasAddress reg s request wg address w =
      let done : ℕ → Option String → Exec (World A) (Session A) =
        λ address6 psk. pure (with_wg s (tunnel s request wg address address6 psk)) in
      Returns-proceed (HasAddress s address) (find_free_ipv6 wg w)
        (λ address6. preshared reg wg >>= done address6)
        (λ address6 v _.
          Returns-proceed (HasAddress s address) (preshared reg wg v) (done address6)
            (λ psk _ _. (tunnel s request wg address address6 psk, refl, refl)))

  abbrev pub HasFree : Registry A → Session A → World A → Session A → Type 0
  HasFree reg s w t =
      (address : Option ℕ) × ((find_free_ip reg s.gate w).0 ≡ ok address) × HasAddress s address t

  prepare-HasFree :
      (reg : Registry A) (s : Session A) (request : WgRequest) (w : World A)
      → Returns (HasFree reg s w) (prepare_server_session reg s request w)
  unfolding prepare_server_session
  prepare-HasFree reg s request w =
      Returns-proceed (HasFree reg s w) (or_raise s.gate.wg_data type_error w)
        (λ wg. find_free_ip reg s.gate >>= assemble reg s request wg)
        (λ wg v _.
          Returns-proceed (HasFree reg s w) (find_free_ip reg s.gate v) (assemble reg s request wg)
            (λ address v' e.
              let free : (find_free_ip reg s.gate w).0 ≡ ok address =
                find_free_ip-World reg s.gate w v
                ∙ ap (λ (r : Result (Option ℕ) × World A). r.0) e in
              Returns-map (HasAddress s address) (HasFree reg s w) _ (λ t h. (address, free, h))
                (assemble-HasAddress reg s request wg address v')))

  -- With one answer of `wg show`, two sessions that are prepared on the same gate get tunnels with the
  -- same IPv4 address, whatever the table and the clock are at either time, and nothing else of the
  -- sessions changes.
  pub prepare_server_session-again :
      (reg : Registry A) (s q : Session A) (r r' : WgRequest) (w v : World A) {t u : Session A}
      {w' v' : World A}
      → q.gate ≡ s.gate
      → prepare_server_session reg s r w ≡ (ok t, w')
      → prepare_server_session reg q r' v ≡ (ok u, v')
      → (address : Option ℕ) × HasAddress s address t × HasAddress q address u
  prepare_server_session-again reg s q r r' w v {t} {u} same first second =
      let (address, free, h) =
        subst (Returns (HasFree reg s w)) first (prepare-HasFree reg s r w) in
      let (address', free', h') =
        subst (Returns (HasFree reg q v)) second (prepare-HasFree reg q r' v) in
      let equal : address' ≡ address = ok-injective (
        sym free'
        ∙ ap (λ gate. (find_free_ip reg gate v).0) same
        ∙ find_free_ip-World reg s.gate v w
        ∙ free) in
      (address, h, subst (λ a. HasAddress q a u) equal h')
