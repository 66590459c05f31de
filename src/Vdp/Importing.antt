-- ===== src/Vdp/Importing.antt =====
-- The import of a description file, `VDP.__init__` (lib/vdp.py), with the ids of `VDP.objects` behind
-- their cache of 60 seconds.
pub mod References
pub mod Files
use lvpn.Prelude.{
  ℕ, ◌+◌, ◌*◌, String, Bool, true, false, Option, none, some, List, [], ◌∷◌, not, ◌&&◌, ◌||◌, ltb,
  map, select, str_eq, if◌then◌else◌,
}
use lvpn.Prelude.Dict.{member}
use lvpn.Python.{
  Exec, ok, pure, raise, gets, modify, when, or_raise, raise_unless, vdp_error, unknown_provider,
  bad_schema, missing_provider, missing_space, system_exit, ◌>>=◌, ◌>>◌,
}
use lvpn.Clock.{tick, is_before}
use lvpn.Vdp.Table.{
  ObjectType, provider_type, space_type, gate_type, same_type, VdpObject, VdpRow, save_object,
  lookup_object,
}

-- `gate_ids`, `space_ids` or `provider_ids`: the rows of a type that have not expired.
pub live_ids : {A : Type 0} → ObjectType → ℕ → List (VdpRow A) → List String
live_ids tpe now rows =
    map (λ r. r.id) (select (λ r. same_type r.tpe tpe && is_before now r.expiry) rows)

pub record Importer (A : Type 0) : Type 0 where
  pub rows : List (VdpRow A)
  -- the time of the nth reading of a clock, and how often clocks were read
  pub times : ℕ → ℕ
  pub readings : ℕ
  -- when the ids of a type were stored, and the ids
  pub cached : ObjectType → Option (ℕ × List String)

-- The contents of a file: whether it is of the right type, and its objects.
pub record VdpFile (A : Type 0) : Type 0 where
  pub is_description : Bool
  pub providers : List (VdpObject A)
  pub spaces : List (VdpObject A)
  pub gates : List (VdpObject A)

-- What the cache still answers.
valid_ids : ℕ → Option (ℕ × List String) → Option (List String)
valid_ids now none = none
valid_ids now (some (stored, ids)) = if ltb now (stored + 60 * tick) then some ids else none

module _ {A : Type 0} where
  abbrev pub read_clock : Exec (Importer A) ℕ
  read_clock v = (ok (v.times v.readings), record v { readings = v.readings + 1 })

  cache : ObjectType → ℕ → List String → Importer A → Importer A
  cache tpe now ids v = record v {
    cached = λ t. if same_type t tpe then some (now, ids) else v.cached t;
  }

  query_ids : ObjectType → Exec (Importer A) (List String)
  unfolding live_ids cache
  query_ids tpe = do
    now ← read_clock
    ids ← gets (λ v. live_ids tpe now v.rows)
    stored ← read_clock
    modify (cache tpe stored ids)
    pure ids

  answer_ids : ObjectType → Option (List String) → Exec (Importer A) (List String)
  unfolding query_ids
  answer_ids tpe none = query_ids tpe
  answer_ids tpe (some ids) = pure ids

  unfoldable pub object_ids : ObjectType → Exec (Importer A) (List String)
  unfolding valid_ids answer_ids
  object_ids tpe = do
    now ← read_clock
    entry ← gets (λ v. v.cached tpe)
    answer_ids tpe (valid_ids now entry)

  unfoldable pub store : VdpObject A → Exec (Importer A) (Unit {0})
  store o v =
      let (r, rows) = save_object o (v.times v.readings) v.rows in
      (r, record v { rows = rows; readings = v.readings + 1 })

  -- The provider of a space or a gate decides whether it is local: `set_as_local` marks that of a
  -- row that is `my` and that of the option `provider_id`.
  placed : ObjectType → String → VdpRow A → VdpObject A → VdpObject A
  placed tpe own r o = record o { tpe = tpe; is_local = r.my || str_eq r.id own }

  import_providers : (VdpObject A → Bool) → List (VdpObject A) → Exec (Importer A) (Unit {0})
  unfolding store
  import_providers valid [] = pure tt
  import_providers valid (p ∷ ps) = do
    raise_unless (valid p) (vdp_error bad_schema)
    store (record p { tpe = provider_type; is_local = false })
    import_providers valid ps

  pub with_provider : ObjectType → String → VdpObject A → Exec (Importer A) (VdpObject A)
  unfolding placed object_ids
  with_provider tpe own o = do
    found ← gets (λ v. lookup_object provider_type o.providerid v.rows)
    r ← or_raise found (vdp_error unknown_provider)
    ids ← object_ids provider_type
    raise_unless (member o.providerid ids) (vdp_error missing_provider)
    pure (placed tpe own r o)

  import_spaces : (VdpObject A → Bool) → String → List (VdpObject A) → Exec (Importer A) (Unit {0})
  unfolding with_provider store
  import_spaces valid own [] = pure tt
  import_spaces valid own (s ∷ ss) = do
    raise_unless (valid s) (vdp_error bad_schema)
    o ← with_provider space_type own s
    store o
    import_spaces valid own ss

  pub check_spaces : List String → Exec (Importer A) (Unit {0})
  unfolding object_ids
  check_spaces [] = pure tt
  check_spaces (id ∷ ids) = do
    known ← object_ids space_type
    raise_unless (member id known) (vdp_error missing_space)
    check_spaces ids

  -- A gate is only checked against the schema when it comes from a file of its own.
  import_gates : String → List (VdpObject A) → Exec (Importer A) (Unit {0})
  unfolding with_provider check_spaces store
  import_gates own [] = pure tt
  import_gates own (g ∷ gs) = do
    o ← with_provider gate_type own g
    check_spaces g.spaces
    store o
    import_gates own gs

  -- `valid_file` and `valid` are the checks against the schema; `own` is the option `provider_id`.
  unfoldable pub import_vdp :
      (VdpFile A → Bool) → (VdpObject A → Bool) → String → VdpFile A → Exec (Importer A) (Unit {0})
  unfolding import_providers import_spaces import_gates
  import_vdp valid_file valid own file = do
    raise_unless (valid_file file) (vdp_error bad_schema)
    raise_unless file.is_description system_exit
    import_providers valid file.providers
    import_spaces valid own file.spaces
    import_gates own file.gates
