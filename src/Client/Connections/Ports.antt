-- ===== src/Client/Connections/Ports.antt =====
-- What escapes from the check of one connection (`Connection.check_alive`, client/connection.py).
use lvpn.Prelude.{ℕ, zero, suc, ◌≡◌, refl, Bool, Bool-cases, Option, none, some, ltb, inl, inr}
use lvpn.Python.{Error, Result, ok, err, os_error}
use lvpn.Vdp.Objects.{
  GateType, http_proxy, socks_proxy, daemon_rpc_proxy, daemon_p2p_proxy, ssh, wg, other,
}
use lvpn.Client.Connections.{
  SocketEnd, opened, timed_out, refused, Probe, by_socket, by_gate, by_port, check_connection,
}

by_socket-refused :
    (end : SocketEnd) (e : Error) → by_socket end ≡ err e → (end ≡ refused) × (e ≡ os_error)
unfolding by_socket
by_socket-refused opened e h = absurd (cc)
by_socket-refused timed_out e h = absurd (cc)
by_socket-refused refused e h = (refl, cc h)

by_gate-refused :
    (t : GateType) (p : Probe) (e : Error)
    → by_gate t p ≡ err e
    → (p.socket ≡ refused) × (e ≡ os_error)
unfolding by_gate
by_gate-refused http_proxy p e h = absurd (cc)
by_gate-refused socks_proxy p e h = absurd (cc)
by_gate-refused daemon_rpc_proxy p e h = absurd (cc)
by_gate-refused daemon_p2p_proxy p e h = by_socket-refused p.socket e h
by_gate-refused ssh p e h = by_socket-refused p.socket e h
by_gate-refused wg p e h = by_socket-refused p.socket e h
by_gate-refused (other name) p e h = by_socket-refused p.socket e h

by_port-refused :
    (enable_wg : Bool) (port : Option ℕ) (p : Probe) (e : Error)
    → by_port enable_wg port p ≡ err e
    → (p.socket ≡ refused) × (e ≡ os_error)
unfolding by_port
by_port-refused enable_wg none p e h = absurd (cc)
by_port-refused enable_wg (some zero) p e h = absurd (cc)
by_port-refused enable_wg (some (suc n)) p e h = by_gate-refused p.gate_type p e h

-- Only a refused socket makes the check of a connection raise.
pub check_connection-refused :
    (enable_wg : Bool) (p : Probe) (e : Error)
    → check_connection enable_wg p ≡ err e
    → (p.socket ≡ refused) × (e ≡ os_error)
unfolding check_connection
check_connection-refused enable_wg p e h = elim (Bool-cases (ltb p.duration 90)) [
  | inl new ↦ absurd (ok≢err (rw new at h))
  | inr settled ↦ by_port-refused enable_wg p.port p e (rw settled at h)
]
  where
    ok≢err : {b : Bool} → ◌≡◌ {A = Result Bool} (ok b) (err e) → ⊥
    ok≢err h = cc
