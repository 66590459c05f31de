-- ===== src/Wireguard/Engine/Errors.antt =====
-- The exceptions of lib/wg_engine.py: all of them are `ServiceException`s with one of two codes.
use lvpn.Prelude.{ℕ, String, ◌≡◌, refl, inl, inr, Bool-cases, List, [], ◌∷◌, str_eq, arith}
use lvpn.Prelude.Text.{split}
use lvpn.Python.{Error, Result, ok, err, service_error}
use lvpn.Session.World.{World, Registry}
use lvpn.Wireguard.Engine.{
  mapped_name, mapped, comma, generated_name, get_interface_name, engine_remove_peer,
}

abbrev Fails : ℕ → Result String → Type 0
Fails code (ok _) = Unit
Fails code (err e) = e ≡ service_error code

mapped_name-Fails :
    (gateid : String) (fields : List String) (rest : Result String)
    → Fails 3 rest
    → Fails 3 (mapped_name gateid fields rest)
unfolding mapped_name
mapped_name-Fails gateid [] rest h = refl
mapped_name-Fails gateid (gid ∷ []) rest h = refl
mapped_name-Fails gateid (gid ∷ name ∷ []) rest h = elim (Bool-cases (str_eq gateid gid)) [
  | inl same ↦ rw same tt
  | inr other ↦ rw other h
]
mapped_name-Fails gateid (gid ∷ name ∷ more ∷ others) rest h = refl

mapped-Fails :
    (gateid : String) (entries : List String) (r : Result String)
    → Fails 3 r
    → Fails 3 (mapped gateid entries r)
unfolding mapped
mapped-Fails gateid [] r h = h
mapped-Fails gateid (entry ∷ entries) r h =
    mapped_name-Fails gateid (split comma entry) (mapped gateid entries r)
      (mapped-Fails gateid entries r h)

Fails-err :
    (code : ℕ) (r : Result String) {e : Error} → Fails code r → r ≡ err e → e ≡ service_error code
Fails-err code (ok name) f h = cc
Fails-err code (err x) f h = cc

module _ {A : Type 0} (reg : Registry A) where
  pub get_interface_name_err :
      (gateid : String) {e : Error} → get_interface_name reg gateid ≡ err e → e ≡ service_error 3
  unfolding get_interface_name
  get_interface_name_err gateid h =
      Fails-err 3 _ (mapped-Fails gateid reg.cfg.wg_map_device (ok (generated_name reg gateid)) tt)
        h

  pub engine_remove_peer_err :
      (iface public : String) (w : World A) {e : Error}
      → (engine_remove_peer reg iface public w).0 ≡ err e
      → e ≡ service_error 2
  unfolding engine_remove_peer
  engine_remove_peer_err iface public w h = ground arith
