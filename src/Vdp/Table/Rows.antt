-- ===== src/Vdp/Table/Rows.antt =====
-- Saving an object takes none out of the table (lib/vdpobject.py).
use lvpn.Prelude.{
  ◌++◌, ℕ, String, ◌≡◌, refl, Bool, true, false, Bool-cases, some, List, [], ◌∷◌, not, ◌&&◌, ltb,
  ◌==◌, any, find, any-append, or_true, true≢false, select, length, inl, inr, str_eq, eq_refl,
  eq_iff, arith,
}
use lvpn.Python.{Error, ok, err}
use lvpn.Vdp.Objects.{get_revision}
use lvpn.Vdp.Table.{
  ObjectType, provider_type, space_type, gate_type, same_type, VdpObject, VdpRow, is_row, vdp_row,
  fresher, replace, save_object, lookup_object,
}

same_type_refl : (t : ObjectType) → same_type t t ≡ true
same_type_refl provider_type = refl
same_type_refl space_type = refl
same_type_refl gate_type = refl

pub same_type_eq : (t u : ObjectType) → same_type t u ≡ true → t ≡ u
same_type_eq provider_type provider_type h = refl
same_type_eq space_type space_type h = refl
same_type_eq gate_type gate_type h = refl
same_type_eq provider_type space_type h = cc
same_type_eq provider_type gate_type h = cc
same_type_eq space_type provider_type h = cc
same_type_eq space_type gate_type h = cc
same_type_eq gate_type provider_type h = cc
same_type_eq gate_type space_type h = cc

err≢ok : {X : Type 0} {x : X} {e : Error} → err e ≡ ok x → ⊥
err≢ok h = cc

select_has :
    {X : Type 0} (p q : X → Bool) (xs : List X)
    → (length (select (λ x. p x && q x) xs) == 0) ≡ false
    → any p xs ≡ true
select_has p q [] h = absurd (true≢false h)
select_has p q (x ∷ xs) h = ground (arith, select_has p q xs)

module _ {A : Type 0} where
  -- The table has a row of the type with the id.
  abbrev pub Has : ObjectType → String → List (VdpRow A) → Type 0
  Has tpe id rows = any (is_row tpe id) rows ≡ true

  pub Has-lookup :
      (tpe : ObjectType) (id : String) (rows : List (VdpRow A)) {r : VdpRow A}
      → lookup_object tpe id rows ≡ some r
      → Has tpe id rows
  Has-lookup tpe id [] h = absurd (cc)
  Has-lookup tpe id (q ∷ qs) {r} h = ground (arith, Has-lookup tpe id qs {r = r})

  others_have :
      (o : VdpObject A) (tpe : ObjectType) (id : String) (rows : List (VdpRow A))
      → (same_type o.tpe tpe && str_eq o.id id) ≡ false
      → Has tpe id rows
      → Has tpe id (select (λ r. not (is_row o.tpe o.id r)) rows)
  others_have o tpe id [] n h = h
  others_have o tpe id (r ∷ rs) n h = ground (
    arith,
    others_have o tpe id rs,
    eq_iff r.id id,
    eq_iff r.id o.id,
    eq_iff o.id id,
    same_type_eq r.tpe tpe,
    same_type_eq r.tpe o.tpe,
    same_type_refl r.tpe,
  )

  replace-Has :
      (o : VdpObject A) (now : ℕ) (tpe : ObjectType) (id : String) (rows : List (VdpRow A))
      → Has tpe id rows
      → Has tpe id (replace o now rows).1
  unfolding replace vdp_row
  replace-Has o now tpe id rows h =
      let others = select (λ r. not (is_row o.tpe o.id r)) rows in
      elim (Bool-cases (any (λ r. str_eq r.id o.id) others)) [
        | inl taken ↦ rw taken h
        | inr fresh ↦
            rw (fresh, any-append (is_row tpe id) others (vdp_row o now ∷ []))
              (elim (Bool-cases (same_type o.tpe tpe && str_eq o.id id)) [
                | inl same ↦ rw same (or_true _)
                | inr other ↦ rw (others_have o tpe id rows other h)
              ])
      ]

  pub Has-save_object :
      (o : VdpObject A) (now : ℕ) (tpe : ObjectType) (id : String) (rows : List (VdpRow A))
      → Has tpe id rows
      → Has tpe id (save_object o now rows).1
  unfolding save_object
  Has-save_object o now tpe id rows h = elim (Bool-cases (length (fresher o rows) == 0)) [
    | inl old ↦ rw old (replace-Has o now tpe id rows h)
    | inr fresh ↦ rw fresh h
  ]

  fresher-Has :
      (o : VdpObject A) (rows : List (VdpRow A))
      → (length (fresher o rows) == 0) ≡ false
      → Has o.tpe o.id rows
  unfolding fresher
  fresher-Has o rows h = elim (Bool-cases (get_revision o.header == 0)) [
    | inl unrevised ↦ absurd (true≢false (rw unrevised at h))
    | inr revised ↦
        select_has (is_row o.tpe o.id) (λ r. ltb (get_revision o.header) r.revision) rows
          (rw revised at h)
  ]

  -- After an object was saved it is there, or a fresher one.
  pub save_object-Has :
      (o : VdpObject A) (now : ℕ) (rows : List (VdpRow A))
      → (save_object o now rows).0 ≡ ok tt
      → Has o.tpe o.id (save_object o now rows).1
  unfolding save_object replace vdp_row
  save_object-Has o now rows h = elim (Bool-cases (length (fresher o rows) == 0)) [
    | inl old ↦
        (let others = select (λ r. not (is_row o.tpe o.id r)) rows in
          elim (Bool-cases (any (λ r. str_eq r.id o.id) others)) [
            | inl taken ↦ absurd (err≢ok (rw (old, taken) at h))
            | inr free ↦
                rw
                  (
                    old,
                    free,
                    any-append (is_row o.tpe o.id) others (vdp_row o now ∷ []),
                    same_type_refl o.tpe,
                    eq_refl o.id,
                  )
                  (or_true _)
          ])
    | inr fresh ↦ rw fresh (fresher-Has o rows fresh)
  ]

-- Saving an object leaves what is found of all others.
module _ {A : Type 0} where
  others_find :
      (o : VdpObject A) (row : VdpRow A) (tpe : ObjectType) (id : String) (rows : List (VdpRow A))
      → (same_type o.tpe tpe && str_eq o.id id) ≡ false
      → is_row tpe id row ≡ false
      → find (is_row tpe id) (select (λ r. not (is_row o.tpe o.id r)) rows ++ row ∷ [])
        ≡ find (is_row tpe id) rows
  others_find o row tpe id [] n h = ground (arith, h)
  others_find o row tpe id (r ∷ rs) n h = ground (
    arith,
    others_find o row tpe id rs n h,
    eq_iff r.id id,
    eq_iff r.id o.id,
    eq_iff o.id id,
    same_type_eq r.tpe tpe,
    same_type_eq r.tpe o.tpe,
    same_type_refl r.tpe,
  )

  replace_other :
      (o : VdpObject A) (now : ℕ) (tpe : ObjectType) (id : String) (rows : List (VdpRow A))
      → (same_type o.tpe tpe && str_eq o.id id) ≡ false
      → lookup_object tpe id (replace o now rows).1 ≡ lookup_object tpe id rows
  unfolding replace vdp_row
  replace_other o now tpe id rows n =
      elim (Bool-cases
        (any (λ r. str_eq r.id o.id) (select (λ r. not (is_row o.tpe o.id r)) rows))) [
          | inl taken ↦ rw taken refl
          | inr free ↦ rw free (others_find o (vdp_row o now) tpe id rows n n)
        ]

  pub save_object_other :
      (o : VdpObject A) (now : ℕ) (tpe : ObjectType) (id : String) (rows : List (VdpRow A))
      → (same_type o.tpe tpe && str_eq o.id id) ≡ false
      → lookup_object tpe id (save_object o now rows).1 ≡ lookup_object tpe id rows
  unfolding save_object
  save_object_other o now tpe id rows n = elim (Bool-cases (length (fresher o rows) == 0)) [
    | inl old ↦ rw old (replace_other o now tpe id rows n)
    | inr fresh ↦ rw fresh refl
  ]
