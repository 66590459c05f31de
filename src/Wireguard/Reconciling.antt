-- ===== src/Wireguard/Reconciling.antt =====
-- One pass of `WGServerService.loop`, with `find_peers_from_sessions` (server/wg_service.py).
pub mod Peers
pub mod Outcome
use lvpn.Prelude.{
  ℕ, ◌+◌, String, Bool, true, false, Option, none, some, List, [], ◌∷◌, not, ◌&&◌, str_eq, ltb,
  if◌then◌else◌,
}
use lvpn.Prelude.Dict.{put, keys, lookup, member}
use lvpn.Python.{
  Exec, Result, ok, err, pure, lift, or_raise, when, type_error, value_error, ◌>>=◌, ◌>>◌,
}
use lvpn.Money.{Money}
use lvpn.Clock.{whole_seconds}
use lvpn.Vdp.Objects.{Gate, gate_id}
use lvpn.Session.Data.{Session, WgSession, is_free}
use lvpn.Session.World.{World, Registry, time_time}
use lvpn.Session.Store.{remove}
use lvpn.Session.Activation.{activate_peer}
use lvpn.Sessions.{Filter, no_filter, find}
use lvpn.Wireguard.Engine.{get_interface_name, engine_remove_peer}
use lvpn.Wireguard.Dump.{Peer, Dump, gather_wg_data}
use lvpn.Wireguard.Addresses.{read_digits}

-- `int(text)` of digits
pub int_of : Option String → Result ℕ
int_of none = err type_error
int_of (some text) =
    if str_eq text ""
    then err value_error
    else elim (read_digits text 0) [ none ↦ err value_error | some n ↦ ok n ]

module _ {A : Type 0} where
  -- The sessions by their clients' keys; of two with one key the later stays.
  by_peer : List (Session A) → List (String × Session A) → List (String × Session A)
  by_peer [] peers = peers
  by_peer (s ∷ ss) peers = elim s.wg [
    | none ↦ by_peer ss peers
    | some wg ↦ by_peer ss (put wg.client_public_key s peers)
  ]

module _ {A : Type 0} ⦃m : Money A⦄ where
  unfoldable pub find_peers_from_sessions :
      Registry A → Gate A → Exec (World A) (List (String × Session A))
  unfolding by_peer
  find_peers_from_sessions reg gate = do
    mine ← find reg 0 (record no_filter { active = true; gateid = some (gate_id gate) })
    pure (by_peer mine [])

  -- A peer that a session needs: that of a free session goes once its handshake is too old.
  pub check_handshake : Registry A → Peer → Session A → Exec (World A) (Unit {0})
  unfolding int_of
  check_handshake reg peer s = do
    now ← time_time
    handshake ← lift (int_of peer.latest_handshake)
    when
        (ltb (handshake + reg.cfg.max_free_wg_handshake_timeout) (whole_seconds now)
          && ltb 0 handshake
          && is_free s)
        (remove reg true s)

  pub check_peer :
      Registry A → String → String → Peer → Option (Session A) → Exec (World A) (Unit {0})
  unfolding check_handshake
  check_peer reg iface public peer (some s) = check_handshake reg peer s
  check_peer reg iface public peer none = engine_remove_peer reg iface public

  pub check_gathered :
      Registry A
      → String
      → List (String × Session A)
      → List (String × Peer)
      → Exec (World A) (Unit {0})
  unfolding check_peer
  check_gathered reg iface needed [] = pure tt
  check_gathered reg iface needed ((public, peer) ∷ peers) = do
    check_peer reg iface public peer (lookup public needed)
    check_gathered reg iface needed peers

  -- `activate_on_server`; a session of `needed` has its `wg` entry.
  pub add_missing_peer : Registry A → Session A → Exec (World A) (Unit {0})
  add_missing_peer reg s = do wg ← or_raise s.wg type_error; activate_peer reg s wg

  pub add_missing : Registry A → List String → List (String × Session A) → Exec (World A) (Unit {0})
  unfolding add_missing_peer
  add_missing reg gathered [] = pure tt
  add_missing reg gathered ((public, s) ∷ needed) = do
    when (not (member public gathered)) (add_missing_peer reg s)
    add_missing reg gathered needed

  unfoldable pub reconcile :
      Registry A
      → String
      → List (String × Peer)
      → List (String × Session A)
      → Exec (World A) (Unit {0})
  unfolding check_gathered add_missing
  reconcile reg iface peers needed = do
    check_gathered reg iface needed peers
    add_missing reg (keys peers) needed

  -- The loop's body up to its pause.
  unfoldable pub loop_pass : Registry A → Gate A → Exec (World A) (Unit {0})
  unfolding find_peers_from_sessions reconcile
  loop_pass reg gate = do
    iface ← lift (get_interface_name reg (gate_id gate))
    gathered ← gather_wg_data reg iface
    needed ← find_peers_from_sessions reg gate
    reconcile reg iface gathered.peers needed
