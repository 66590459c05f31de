-- ===== src/Vdp/Table.antt =====
-- The table `vdp` and `VDPObject.save` (lib/vdpobject.py, lib/db.py), with the lookups by id of
-- lib/vdp.py. No statement of the program marks an object as deleted.
pub mod Revisions
pub mod Rows
pub mod Recent
use lvpn.Prelude.{
  ℕ, String, Bool, true, false, Option, none, some, List, [], ◌∷◌, ◌++◌, not, ◌&&◌, ltb, ◌==◌, any,
  find, select, length, str_eq, if◌then◌else◌,
}
use lvpn.Python.{Exec, ok, err, integrity_error}
use lvpn.Vdp.Objects.{Header, get_revision, get_ttl, get_expiry}

pub data ObjectType : Type 0 where
  provider_type space_type gate_type : ObjectType

abbrev pub same_type : ObjectType → ObjectType → Bool
same_type provider_type provider_type = true
same_type space_type space_type = true
same_type gate_type gate_type = true
same_type _ _ = false

-- What is read of an object: `get_id`, its provider, the spaces of a gate, `is_local`, and whether its
-- provider is read-only.
pub record VdpObject (A : Type 0) : Type 0 where
  pub tpe : ObjectType
  pub id : String
  pub providerid : String
  pub spaces : List String
  pub header : Header A
  pub is_local : Bool
  pub readonly : Bool

pub record VdpRow (A : Type 0) : Type 0 where
  pub id : String
  pub tpe : ObjectType
  pub data_of : VdpObject A
  pub my : Bool
  pub readonly : Bool
  pub expiry : ℕ
  pub revision : ℕ
  pub ttl : ℕ

module _ {A : Type 0} where
  -- `tpe='...' and id='...'`
  abbrev pub is_row : ObjectType → String → VdpRow A → Bool
  is_row tpe id r = same_type r.tpe tpe && str_eq r.id id

  pub vdp_row : VdpObject A → ℕ → VdpRow A
  vdp_row o now = record {
    id = o.id;
    tpe = o.tpe;
    data_of = o;
    my = o.is_local;
    readonly = o.readonly;
    expiry = get_expiry o.header now;
    revision = get_revision o.header;
    ttl = get_ttl o.header;
  }

  -- The rows of a fresher object. An object without a revision is not compared.
  pub fresher : VdpObject A → List (VdpRow A) → List (VdpRow A)
  fresher o rows =
      if get_revision o.header == 0
      then []
      else select (λ r. is_row o.tpe o.id r && ltb (get_revision o.header) r.revision) rows

  -- The transaction: the id is the primary key, whatever the type, and a second row with one id rolls
  -- the deletion back.
  pub replace : VdpObject A → ℕ → Exec (List (VdpRow A)) (Unit {0})
  unfolding vdp_row
  replace o now rows =
      let others = select (λ r. not (is_row o.tpe o.id r)) rows in
      if any (λ r. str_eq r.id o.id) others
      then (err integrity_error, rows)
      else (ok tt, others ++ vdp_row o now ∷ [])

  unfoldable pub save_object : VdpObject A → ℕ → Exec (List (VdpRow A)) (Unit {0})
  unfolding fresher replace
  save_object o now rows =
      if length (fresher o rows) == 0 then replace o now rows else (ok tt, rows)

  -- `VDP.get_gate`, `get_space` and `get_provider` take the first row.
  abbrev pub lookup_object : ObjectType → String → List (VdpRow A) → Option (VdpRow A)
  lookup_object tpe id rows = find (is_row tpe id) rows
