-- ===== src/Session/Loading.antt =====
-- `Session.__init__` on stored or received data (lib/session.py).
pub mod Drift
use lvpn.Prelude.{
  String, Bool, true, false, Option, none, some, List, [], ◌∷◌, not, ◌&&◌, is_some, if◌then◌else◌,
}
use lvpn.Python.{
  Exec, Result, pure, lift, or_raise, and_then, ok, vdp_error, unknown_gate, unknown_space, ◌>>=◌,
}
use lvpn.Money.{Money}
use lvpn.Vdp.Objects.{is_wg}
use lvpn.Session.Data.{Session, SessionData, is_active, is_free}
use lvpn.Session.World.{World, Config, Registry}
use lvpn.Session.Contributions.{add_contributions}
use lvpn.Session.Activation.{activate}

module _ {A : Type 0} ⦃m : Money A⦄ where
  -- A free WireGuard session that has its peer's data and is not active yet.
  abbrev pub awaits_activation : Session A → Bool
  awaits_activation s = is_free s && is_wg s.gate.type && is_some s.wg && not (is_active s)

  abbrev with_data : Session A → SessionData A → Session A
  with_data s d = record s { data_of = d }

  -- Without the key an empty list is stored; with it the contributions are added again.
  unfoldable pub contribute : Config → SessionData A → Result (SessionData A)
  contribute cfg d = elim d.contributions [
    | none ↦ ok (record d { contributions = some [] })
    | some _ ↦
        if cfg.is_client
        then add_contributions cfg.contributions true d
        else if cfg.is_server
        then add_contributions cfg.contributions false d
        else ok d
  ]

  complete : Registry A → Session A → Exec (World A) (Session A)
  unfolding contribute
  complete reg s =
      if awaits_activation s
      then (do (t, done) ← activate reg s; pure t)
      else (do d ← lift (contribute reg.cfg s.data_of); pure (with_data s d))

  unfoldable pub load : Registry A → SessionData A → Exec (World A) (Session A)
  unfolding complete
  load reg d = do
    gate ← or_raise (reg.get_gate d.gateid) (vdp_error unknown_gate)
    space ← or_raise (reg.get_space d.spaceid) (vdp_error unknown_space)
    complete reg (record { data_of = d; gate = gate; space = space })
