-- ===== src/Session/Store.antt =====
-- `Session.save`, `Session.remove` and `Session.deactivate` (lib/session.py), on the rows of the
-- table `sessions` (lib/db.py), with `Gateway.deactivate_server` and `deactivate_client`
-- (lib/gate.py).
pub mod Rows
pub mod Peers
use Prim.Native.String.{◌++◌ as text_append}
use lvpn.Prelude.{
  ℕ, String, Bool, true, false, Option, none, some, List, [], ◌∷◌, ◌++◌, not, ◌&&◌, map, select,
  str_eq, if◌then◌else◌,
}
use lvpn.Python.{
  Exec, ok, err, pure, raise, lift, modify, when, raise_unless, db_error, process_error,
  service_error, ◌>>=◌, ◌>>◌,
}
use lvpn.Vdp.Objects.{is_wg, gate_id, space_id}
use lvpn.Wireguard.Engine.{get_interface_name, engine_remove_peer}
use lvpn.Session.Data.{Session, WgSession, Price, amount, tuple, get_dict, is_active, is_fresh}
use lvpn.Session.World.{
  World, Row, SqlParent, sql_text, sql_false, Registry, remove_peer, deactivate_on_client, run_hook,
  time_time, emit,
}

-- A missing and an empty parent are alike false.
pub sql_parent : Option String → SqlParent
sql_parent none = sql_false
sql_parent (some id) = if str_eq id "" then sql_false else sql_text id

module _ {A : Type 0} where
  pub row_of : Session A → A → Row A
  unfolding sql_parent
  row_of s p = record {
    id = s.sessionid;
    data_of = get_dict s;
    activated = s.activated;
    created = s.created;
    expires = s.expires;
    paymentid = s.paymentid;
    paid = s.paid;
    gateid = gate_id s.gate;
    spaceid = space_id s.space;
    parent = sql_parent s.parent;
    price = p;
    deleted = false;
  }

  -- `DELETE FROM sessions WHERE id=...`
  abbrev pub without : String → List (Row A) → List (Row A)
  without id rows = select (λ r. not (str_eq r.id id)) rows

  -- The transaction of `save`. A price that is a tuple makes the `INSERT` a syntax error: after its
  -- five attempts `DB.execute` raises, and nothing is committed.
  pub write : Price A → Session A → Exec (World A) (Unit {0})
  unfolding row_of
  write (amount p) s = modify λ w. record w { rows = without s.sessionid w.rows ++ row_of s p ∷ [] }
  write (tuple p) s = raise db_error

  unfoldable pub save : Session A → Exec (World A) (Unit {0})
  unfolding write
  save s = do now ← time_time; when (is_fresh now s) (write s.price s)

  -- `RunCmd.run` of a configured command with the session's file name; `true` if it starts.
  unfoldable pub run_command : Registry A → Option String → Session A → Exec (World A) (Unit {0})
  run_command reg none s = pure tt
  run_command reg (some command) s = do
    emit (run_hook command s.sessionid)
    raise_unless (reg.host.hook_starts command) process_error

  remove_wg_peer : Registry A → Session A → WgSession → Exec (World A) (Unit {0})
  unfolding get_interface_name engine_remove_peer
  remove_wg_peer reg s wg = do
    iface ← lift (get_interface_name reg (gate_id s.gate))
    engine_remove_peer reg iface wg.client_public_key

  -- `WGServerService.deactivate_on_server`
  remove_peer_of : Registry A → Session A → Option WgSession → Exec (World A) (Unit {0})
  unfolding remove_wg_peer
  remove_peer_of reg s none = pure tt
  remove_peer_of reg s (some wg) = remove_wg_peer reg s wg

  deactivate_server : Registry A → Session A → Exec (World A) (Unit {0})
  unfolding remove_peer_of
  deactivate_server reg s = when (is_wg s.gate.type) (remove_peer_of reg s s.wg)

  deactivate_client : Session A → Exec (World A) (Unit {0})
  deactivate_client s = when (is_wg s.gate.type) (emit (deactivate_on_client s.sessionid))

  run_deactivation : Registry A → Session A → Exec (World A) (Unit {0})
  unfolding deactivate_server deactivate_client
  run_deactivation reg s =
      if reg.cfg.is_server
      then deactivate_server reg s
      else when reg.cfg.is_client (deactivate_client s)

  -- The session's `activated` is left as it is.
  pub deactivate : Registry A → Session A → Exec (World A) Bool
  unfolding run_deactivation run_command
  deactivate reg s =
      if is_active s
      then (do run_deactivation reg s; run_command reg reg.cfg.on_session_deactivation s; pure true)
      else pure false

  abbrev pub mark_deleted : String → Row A → Row A
  mark_deleted id r = if str_eq r.id id then record r { deleted = true } else r

  unfoldable pub remove : Registry A → Bool → Session A → Exec (World A) (Unit {0})
  unfolding deactivate
  remove reg deactivating s = do
    when (reg.cfg.is_server && not (str_eq s.sessionid "") && deactivating)
        (deactivate reg s >> pure tt)
    modify (λ w. record w { rows = map (mark_deleted s.sessionid) w.rows })
