-- ===== src/Vdp/Table/Revisions.antt =====
-- Revisions in the table do not go back.
use lvpn.Prelude.{
  ℕ, ◌≤◌, ◌<◌, String, ◌≡◌, ◌≢◌, refl, subst, Bool, true, false, Option, none, some, List, [], ◌∷◌,
  ◌++◌, not, ◌&&◌, ltb, ◌==◌, any, any-append, find, select, length, str_eq, eq_refl, eq_iff, arith,
  Bool-cases, inl, inr,
}
use lvpn.Python.{Result, ok, err}
use lvpn.Vdp.Objects.{get_revision}
use lvpn.Vdp.Table.{
  ObjectType, provider_type, space_type, gate_type, same_type, VdpObject, VdpRow, is_row, vdp_row,
  fresher, replace, save_object, lookup_object,
}

same_type_refl : (t : ObjectType) → same_type t t ≡ true
same_type_refl provider_type = refl
same_type_refl space_type = refl
same_type_refl gate_type = refl

module _ {A : Type 0} where
  -- No two rows have one id.
  abbrev pub IsKeyed : List (VdpRow A) → Type 0
  IsKeyed [] = Unit
  IsKeyed (r ∷ rs) = (any (λ q. str_eq q.id r.id) rs ≡ false) × IsKeyed rs

  -- What is found is not older than this.
  abbrev pub IsAtLeast : ℕ → Option (VdpRow A) → Type 0
  IsAtLeast revision none = Unit
  IsAtLeast revision (some r) = revision ≤ r.revision

  find-append_last :
      (p : VdpRow A → Bool) (rows : List (VdpRow A)) (r : VdpRow A)
      → p r ≡ true
      → find p (select (λ q. not (p q)) rows ++ r ∷ []) ≡ some r
  find-append_last p [] r h = ground (arith, h)
  find-append_last p (q ∷ qs) r h = ground (arith, h, find-append_last p qs r h)

  none_fresher :
      (tpe : ObjectType) (id : String) (revision : ℕ) (rows : List (VdpRow A)) (q : VdpRow A)
      → length (select (λ r. is_row tpe id r && ltb revision r.revision) rows) ≡ 0
      → find (is_row tpe id) rows ≡ some q
      → q.revision ≤ revision
  none_fresher tpe id revision [] q h e = cc
  none_fresher tpe id revision (r ∷ rs) q h e = ground (arith, none_fresher tpe id revision rs q)

  any_of_fresher :
      (tpe : ObjectType) (id : String) (revision : ℕ) (rows : List (VdpRow A))
      → length (select (λ r. is_row tpe id r && ltb revision r.revision) rows) ≢ 0
      → any (λ q. str_eq q.id id) rows ≡ true
  any_of_fresher tpe id revision [] h = absurd (h refl)
  any_of_fresher tpe id revision (r ∷ rs) h = ground (arith, h, any_of_fresher tpe id revision rs)

  -- With one row for each id, a fresher row is the row that is found.
  found_fresher :
      (tpe : ObjectType) (id : String) (revision : ℕ) (rows : List (VdpRow A))
      → IsKeyed rows
      → length (select (λ r. is_row tpe id r && ltb revision r.revision) rows) ≢ 0
      → (r : VdpRow A) × (find (is_row tpe id) rows ≡ some r) × (revision < r.revision)
  found_fresher tpe id revision [] k h = absurd (h refl)
  found_fresher tpe id revision (r ∷ rs) k h = elim (Bool-cases (is_row tpe id r)) [
    | inl here ↦ (
      r,
      ground (arith, here),
      elim (Bool-cases (ltb revision r.revision)) [
        | inl l ↦ ground (arith, l)
        | inr l ↦
            let same : r.id ≡ id = ground (arith, here, eq_iff r.id id) in
            let again : any (λ q. str_eq q.id id) rs ≡ true =
              any_of_fresher tpe id revision rs (λ z. h (ground (arith, l, z))) in
            cc (again, subst (λ i. any (λ (q : VdpRow A). str_eq q.id i) rs ≡ false) same k.0)
      ],
    )
    | inr other ↦
        let (q, e, l) = found_fresher tpe id revision rs k.1 (λ z. h (ground (arith, other, z))) in
        (q, ground (arith, other, e), l)
  ]

  any-select :
      (p q : VdpRow A → Bool) (rows : List (VdpRow A))
      → any p rows ≡ false
      → any p (select q rows) ≡ false
  any-select p q [] h = refl
  any-select p q (r ∷ rs) h = ground (arith, any-select p q rs)

  IsKeyed-select :
      (q : VdpRow A → Bool) (rows : List (VdpRow A)) → IsKeyed rows → IsKeyed (select q rows)
  IsKeyed-select q [] k = tt
  IsKeyed-select q (r ∷ rs) k = elim (Bool-cases (q r)) [
    | inl e ↦ simp e (any-select (λ x. str_eq x.id r.id) q rs k.0, IsKeyed-select q rs k.1)
    | inr e ↦ simp e (IsKeyed-select q rs k.1)
  ]

  IsKeyed-append :
      (rows : List (VdpRow A)) (r : VdpRow A)
      → IsKeyed rows
      → any (λ q. str_eq q.id r.id) rows ≡ false
      → IsKeyed (rows ++ r ∷ [])
  IsKeyed-append [] r k h = (refl, tt)
  IsKeyed-append (q ∷ qs) r k h = (
    ground (
      arith,
      any-append (λ (x : VdpRow A). str_eq x.id q.id) qs (r ∷ []),
      k.0,
      h,
      eq_iff q.id r.id,
      eq_iff r.id q.id,
    ),
    IsKeyed-append qs r k.1 (ground (arith, h)),
  )

  -- What a save leaves of the object's row.
  abbrev pub Saved : VdpObject A → List (VdpRow A) → List (VdpRow A) → Type 0
  Saved o before rows =
      (r : VdpRow A) × (lookup_object o.tpe o.id rows ≡ some r)
      × (get_revision o.header ≤ r.revision)
      × ((q : VdpRow A) → lookup_object o.tpe o.id before ≡ some q → q.revision ≤ r.revision)

  abbrev pub Ended : VdpObject A → List (VdpRow A) → Result (Unit {0}) × List (VdpRow A) → Type 0
  Ended o before (ok _, rows) = IsKeyed rows × Saved o before rows
  Ended o before (err _, rows) = rows ≡ before

  replace-Ended :
      (o : VdpObject A) (now : ℕ) (rows : List (VdpRow A))
      → IsKeyed rows
      → ((q : VdpRow A)
          → lookup_object o.tpe o.id rows ≡ some q
          → q.revision ≤ get_revision o.header)
      → Ended o rows (replace o now rows)
  unfolding replace vdp_row
  replace-Ended o now rows k oldest =
      let row = vdp_row o now in
      let others = select (λ r. not (is_row o.tpe o.id r)) rows in
      elim (Bool-cases (any (λ (r : VdpRow A). str_eq r.id o.id) others)) [
        | inl clash ↦ simp clash refl
        | inr new ↦ simp new (
          IsKeyed-append others row (IsKeyed-select _ rows k) new,
          (
            row,
            find-append_last (is_row o.tpe o.id) rows row
                (ground (arith, same_type_refl o.tpe, eq_refl o.id)),
            omega arith,
            oldest,
          ),
        )
      ]

  -- Saving an object that has a revision to a table with one row for each id: the object is then in
  -- the table at its own revision or a later one, no earlier than the row that was there, and ids
  -- stay unique; if the save raises, the table is as before.
  pub save_object-Ended :
      (o : VdpObject A) (now : ℕ) (rows : List (VdpRow A))
      → IsKeyed rows
      → get_revision o.header ≢ 0
      → Ended o rows (save_object o now rows)
  unfolding save_object fresher
  save_object-Ended o now rows k has =
      let revision = get_revision o.header in
      let known : (revision == 0) ≡ false = ground (arith, has) in
      let newer =
        length (select (λ (r : VdpRow A). is_row o.tpe o.id r && ltb revision r.revision) rows) in
      elim (Bool-cases (newer == 0)) [
        | inl e ↦
            simp (known, e)
              (replace-Ended o now rows k
                (λ q f. none_fresher o.tpe o.id revision rows q (ground (arith, e)) f))
        | inr e ↦
            simp (known, e)
              (
                k,
                (let (r, f, l) = found_fresher o.tpe o.id revision rows k (ground (arith, e)) in
                    (r, f, omega (arith, l), λ q g. ground (arith, f, g))),
              )
      ]
