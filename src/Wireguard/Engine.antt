-- ===== src/Wireguard/Engine.antt =====
-- The commands of lib/wg_engine.py for a server's peers: `get_interface_name`, `add_peer` and
-- `remove_peer`. Commands are only run if `enable_wg` is set.
pub mod Errors
use Prim.Native.String.{◌++◌ as text_append}
use lvpn.Prelude.{ℕ, String, Option, none, some, List, [], ◌∷◌, ◌||◌, str_eq, if◌then◌else◌}
use lvpn.Prelude.Text.{split}
use lvpn.Python.{Exec, Result, ok, err, when, raise, raise_unless, type_error, service_error, ◌>>◌}
use lvpn.Session.Data.{WgSession}
use lvpn.Session.World.{World, Registry, add_peer, remove_peer, emit}

abbrev pub comma : ℕ
comma = b','

-- `(gid, name) = entry.split(",")`, where any failure is reported alike.
mapped_name : String → List String → Result String → Result String
mapped_name gateid (gid ∷ name ∷ []) rest = if str_eq gateid gid then ok name else rest
mapped_name gateid _ rest = err (service_error 3)

mapped : String → List String → Result String → Result String
unfolding mapped_name
mapped gateid [] generated = generated
mapped gateid (entry ∷ entries) generated =
    mapped_name gateid (split comma entry) (mapped gateid entries generated)

-- An endpoint that is `dynamic` or empty is not passed on.
pub fixed_endpoint : String → Option String
fixed_endpoint endpoint =
    if str_eq endpoint "dynamic" || str_eq endpoint "" then none else some endpoint

module _ {A : Type 0} where
  generated_name : Registry A → String → String
  generated_name reg gateid =
      text_append (if reg.cfg.is_client then "lvpnc_" else "lvpns_") (reg.host.sha1_prefix gateid)

  unfoldable pub get_interface_name : Registry A → String → Result String
  unfolding mapped generated_name
  get_interface_name reg gateid =
      mapped gateid reg.cfg.wg_map_device (ok (generated_name reg gateid))

  -- `WGEngine.remove_peer`
  unfoldable pub engine_remove_peer : Registry A → String → String → Exec (World A) (Unit {0})
  engine_remove_peer reg iface public = when reg.cfg.enable_wg (do
    emit (remove_peer iface public)
    raise_unless (reg.host.wg_removes_peer public) (service_error 2))

  -- `WGEngine.add_peer`, with the preshared key that `activate_on_server` passes: the whole `wg`
  -- dictionary, which `save_key` cannot write to a file.
  unfoldable pub engine_add_peer : Registry A → String → WgSession → Exec (World A) (Unit {0})
  unfolding fixed_endpoint
  engine_add_peer reg iface peer = elim peer.psk [
    | some key ↦ raise type_error
    | none ↦ when reg.cfg.enable_wg (do
      emit (
          add_peer iface peer.client_public_key (peer.client_ipv4_address, peer.client_ipv6_address)
            (fixed_endpoint peer.client_endpoint))
      raise_unless (reg.host.wg_accepts_peer peer.client_public_key) (service_error 2))
  ]
