-- ===== src/Vdp/Refreshing.antt =====
-- The command refresh-vdp of mgmt.py, with the queries of VDP.objects (lib/vdp.py) that it makes.
pub mod Own
pub mod Passes
use lvpn.Prelude.{
  ℕ, String, Bool, true, false, Option, none, some, List, [], ◌∷◌, not, ◌&&◌, ◌||◌, select, str_eq,
  if◌then◌else◌,
}
use lvpn.Python.{
  Exec, ok, pure, raise, gets, or_raise, vdp_error, unknown_provider, system_exit, ◌>>=◌, ◌>>◌,
}
use lvpn.Clock.{is_before}
use lvpn.Vdp.Objects.{set_as_fresh}
use lvpn.Vdp.Table.{
  ObjectType, provider_type, space_type, gate_type, same_type, VdpObject, VdpRow, lookup_object,
}
use lvpn.Vdp.Importing.{Importer, store, read_clock}

-- The rows that a query selects; a filter that is not set adds no condition.
pub selected : {A : Type 0} → ObjectType → Bool → Bool → ℕ → VdpRow A → Bool
selected tpe my_only fresh now r =
    same_type r.tpe tpe && (not my_only || r.my) && (not fresh || is_before now r.expiry)

module _ {A : Type 0} where
  -- `set_as_fresh` and `save`
  pub renew_object : VdpObject A → Exec (Importer A) (Unit {0})
  renew_object o = do now ← read_clock; store (record o { header = set_as_fresh o.header now })

  pub renew_objects : List (VdpObject A) → Exec (Importer A) (Unit {0})
  unfolding renew_object
  renew_objects [] = pure tt
  renew_objects (o ∷ os) = do renew_object o; renew_objects os

-- `own` is the provider's id that VDP.objects finds out: the option, the key's file, or "none".
module _ {A : Type 0} (own : String) where
  -- `set_as_local` looks at the object's own id, also for spaces and gates.
  pub local_object : VdpRow A → Bool → VdpObject A
  local_object r inherited = record r.data_of {
    is_local = inherited || r.my || str_eq r.data_of.id own;
  }

  -- The object of a row; a space or a gate needs its provider.
  pub row_object : ObjectType → VdpRow A → Exec (Importer A) (VdpObject A)
  unfolding local_object
  row_object provider_type r = pure (local_object r false)
  row_object tpe r = do
    known ← gets (λ v. lookup_object provider_type r.data_of.providerid v.rows)
    p ← or_raise known (vdp_error unknown_provider)
    pure (local_object r (p.my || str_eq p.id own))

  pub row_objects : ObjectType → List (VdpRow A) → Exec (Importer A) (List (VdpObject A))
  unfolding row_object
  row_objects tpe [] = pure []
  row_objects tpe (r ∷ rs) = do o ← row_object tpe r; os ← row_objects tpe rs; pure (o ∷ os)

  -- `VDP.objects`; the clock is only read for the objects that have not expired.
  pub objects : ObjectType → Bool → Bool → Exec (Importer A) (List (VdpObject A))
  unfolding row_objects selected
  objects tpe my_only fresh = do
    now ← if fresh then read_clock else pure 0
    rows ← gets (λ v. select (selected tpe my_only fresh now) v.rows)
    row_objects tpe rows

  pub renew_type : ObjectType → Exec (Importer A) (Unit {0})
  unfolding objects renew_objects
  renew_type tpe = do os ← objects tpe true false; renew_objects os

  -- With an argument the command only says how to use it: the branch for a gate is never reached.
  unfoldable pub refresh_vdp : List String → Exec (Importer A) (Unit {0})
  unfolding renew_type
  refresh_vdp (arg ∷ args) = raise system_exit
  refresh_vdp [] = do renew_type gate_type; renew_type space_type; renew_type provider_type
