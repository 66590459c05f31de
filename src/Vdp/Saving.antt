-- ===== src/Vdp/Saving.antt =====
-- Saving a whole description (VDP.save of lib/vdp.py), and the requests that post one (post_vdp of
-- server/http.py).
pub mod Partition
pub mod Posting
use lvpn.Prelude.{
  ℕ, ◌+◌, String, Bool, true, false, Option, none, some, List, [], ◌∷◌, ◌||◌, str_eq, if◌then◌else◌,
}
use lvpn.Prelude.Dict.{member}
use lvpn.Python.{
  Result, Exec, Error, ok, err, pure, gets, or_raise, attribute_error, vdp_error, unknown_provider,
  bad_file, raise, proceed, ◌>>=◌, ◌>>◌,
}
use lvpn.Vdp.Table.{
  ObjectType, provider_type, space_type, gate_type, VdpObject, VdpRow, lookup_object,
}
use lvpn.Vdp.Importing.{Importer, VdpFile, object_ids, store, import_vdp}

-- How many objects of a type were saved, and how many were not since their provider is read-only.
pub record Counts : Type 0 where
  pub saved : ℕ
  pub ignored : ℕ

pub record Summary : Type 0 where
  pub gates : Counts
  pub spaces : Counts
  pub providers : Counts

abbrev pub no_counts : Counts
no_counts = record { saved = 0; ignored = 0 }

pub count_saved : Counts → Counts
count_saved c = record c { saved = c.saved + 1 }

pub count_ignored : Counts → Counts
count_ignored c = record c { ignored = c.ignored + 1 }

-- The answer to a posted description: its code, and the counts of what was saved.
pub data Posted : Type 0 where
  bad_request : Posted
  accepted : Option Summary → Posted

-- The data of the request: none at all, no JSON, or a description.
pub data Body (A : Type 0) : Type 0 where
  no_data no_json : Body A
  description : VdpFile A → Body A

is_vdp_error : Error → Bool
is_vdp_error (vdp_error fault) = true
is_vdp_error _ = false

-- `own` is the option `provider_id`, `readonly` the option `readonly_providers`.
module _ {A : Type 0} (own : String) (readonly : List String) where
  -- The object of a row, with what `set_as_local` and its provider's row say of it.
  pub object_of : VdpRow A → VdpRow A → VdpObject A
  object_of r provider = record r.data_of {
    is_local = provider.my || str_eq provider.id own || r.my || str_eq r.data_of.providerid own;
    readonly = member r.data_of.providerid readonly;
  }

  pub provider_of : VdpRow A → VdpObject A
  provider_of r = record r.data_of {
    is_local = r.my || str_eq r.data_of.id own;
    readonly = member r.data_of.id readonly;
  }

  -- `get_gate` or `get_space`: an object that is gone by now is `None`.
  pub read_object : ObjectType → String → Exec (Importer A) (VdpObject A)
  unfolding object_of
  read_object tpe id = do
    found ← gets (λ v. lookup_object tpe id v.rows)
    r ← or_raise found attribute_error
    known ← gets (λ v. lookup_object provider_type r.data_of.providerid v.rows)
    provider ← or_raise known (vdp_error unknown_provider)
    pure (object_of r provider)

  pub save_if_own : Counts → VdpObject A → Exec (Importer A) Counts
  unfolding count_saved count_ignored
  save_if_own c o =
      if o.readonly then pure (count_ignored c) else (do store o; pure (count_saved c))

  -- The gates or the spaces with these ids.
  pub save_objects : ObjectType → List String → Counts → Exec (Importer A) Counts
  unfolding read_object save_if_own
  save_objects tpe [] c = pure c
  save_objects tpe (id ∷ ids) c = do
    o ← read_object tpe id
    d ← save_if_own c o
    save_objects tpe ids d

  -- A read-only provider is not even looked up.
  pub save_provider : Counts → String → Exec (Importer A) Counts
  unfolding provider_of count_saved count_ignored
  save_provider c id = if member id readonly then pure (count_ignored c) else (do
    found ← gets (λ v. lookup_object provider_type id v.rows)
    r ← or_raise found attribute_error
    store (provider_of r)
    pure (count_saved c))

  pub save_providers : List String → Counts → Exec (Importer A) Counts
  unfolding save_provider
  save_providers [] c = pure c
  save_providers (id ∷ ids) c = do d ← save_provider c id; save_providers ids d

  unfoldable pub save_vdp : Exec (Importer A) Summary
  unfolding save_objects save_providers
  save_vdp = do
    gate_ids ← object_ids gate_type
    gates ← save_objects gate_type gate_ids no_counts
    space_ids ← object_ids space_type
    spaces ← save_objects space_type space_ids no_counts
    provider_ids ← object_ids provider_type
    providers ← save_providers provider_ids no_counts
    pure (record { gates = gates; spaces = spaces; providers = providers })

  -- A `VDPException` is answered, any other is not caught.
  pub answer_posted : Result (Option Summary) × Importer A → Result Posted × Importer A
  unfolding is_vdp_error
  answer_posted (ok saved, v) = (ok (accepted saved), v)
  answer_posted (err e, v) = (if is_vdp_error e then ok bad_request else err e, v)

  -- Reading the description imports its objects, also with `checkOnly`; without data nothing is read.
  read_posted : (VdpFile A → Bool) → (VdpObject A → Bool) → Body A → Exec (Importer A) (Unit {0})
  read_posted valid_file valid no_data = pure tt
  read_posted valid_file valid no_json = raise (vdp_error bad_file)
  read_posted valid_file valid (description file) = import_vdp valid_file valid own file

  unfoldable pub post_vdp :
      (VdpFile A → Bool) → (VdpObject A → Bool) → Bool → Body A → Exec (Importer A) Posted
  unfolding save_vdp answer_posted read_posted
  post_vdp valid_file valid check body v = answer_posted (
      proceed (read_posted valid_file valid body v)
        (λ _. if check then pure none else (do s ← save_vdp; pure (some s))))
