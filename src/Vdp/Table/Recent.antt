-- ===== src/Vdp/Table/Recent.antt =====
-- How old the objects in the table are (VDPObject.save of lib/vdpobject.py).
use lvpn.Prelude.{
  ℕ, ◌≤◌, ◌≡◌, ◌≢◌, refl, sym, ap, subst, ◌∙◌, String, Bool, true, false, Bool-cases, some, List,
  [], ◌∷◌, not, ◌&&◌, ◌==◌, any, find, select, length, All, All-append, inl, inr, eq_iff, str_eq,
  arith,
}
use lvpn.Python.{ok}
use lvpn.Vdp.Objects.{get_revision}
use lvpn.Vdp.Table.{
  ObjectType, same_type, VdpObject, VdpRow, is_row, vdp_row, fresher, replace, save_object,
  lookup_object,
}
use lvpn.Vdp.Table.Rows.{same_type_eq, save_object_other}
use lvpn.Vdp.Table.Revisions.{Ended}

both_true : (a b : Bool) → (a && b) ≡ true → (a ≡ true) × (b ≡ true)
both_true true true h = (refl, refl)
both_true true false h = absurd (cc h)
both_true false b h = absurd (cc h)

module _ {A : Type 0} where
  -- The table has the object, and not in a revision before `n`.
  abbrev pub Recent : ℕ → ObjectType → String → List (VdpRow A) → Type 0
  Recent n tpe id rows = (r : VdpRow A) × (lookup_object tpe id rows ≡ some r) × (n ≤ r.revision)

  own_Recent :
      (n : ℕ) (o : VdpObject A) (rows after : List (VdpRow A))
      → Ended o rows (ok tt, after)
      → Recent n o.tpe o.id rows
      → Recent n o.tpe o.id after
  own_Recent n o rows after (_, (r, f, _, later)) (q, found, l) =
      let m = later q found in (r, f, omega (arith, l, m))

  pub at_least :
      (n : ℕ) (o : VdpObject A) (rows after : List (VdpRow A))
      → n ≤ get_revision o.header
      → Ended o rows (ok tt, after)
      → Recent n o.tpe o.id after
  at_least n o rows after l (_, (r, f, m, _)) = (r, f, omega (arith, l, m))

  -- A save makes no object older.
  pub kept-Recent :
      (n : ℕ) (o : VdpObject A) (now : ℕ) (tpe : ObjectType) (id : String)
      (rows after : List (VdpRow A))
      → Ended o rows (ok tt, after)
      → save_object o now rows ≡ (ok tt, after)
      → Recent n tpe id rows
      → Recent n tpe id after
  kept-Recent n o now tpe id rows after ended e (q, found, l) =
      elim (Bool-cases (same_type o.tpe tpe && str_eq o.id id)) [
        | inl same ↦
            let (a, b) = both_true (same_type o.tpe tpe) (str_eq o.id id) same in
            let t = same_type_eq o.tpe tpe a in
            let i = (eq_iff o.id id).0 b in
            subst (λ u. Recent n u id after) t
              (subst (λ j. Recent n o.tpe j after) i
                (own_Recent n o rows after ended (
                  subst (λ j. Recent n o.tpe j rows) (sym i)
                    (subst (λ u. Recent n u id rows) (sym t) (q, found, l)))))
        | inr other ↦
            (q, rw (sym (ap (λ r. r.1) e)) (save_object_other o now tpe id rows other ∙ found), l)
      ]

  abbrev pub HasRevision : VdpObject A → Type 0
  HasRevision o = get_revision o.header ≢ 0

  -- Each row is that of an object with a revision.
  abbrev pub AllRevised : List (VdpRow A) → Type 0
  AllRevised rows = All (λ r. HasRevision r.data_of) rows

  select-AllRevised :
      (p : VdpRow A → Bool) (rows : List (VdpRow A)) → AllRevised rows → AllRevised (select p rows)
  select-AllRevised p [] h = tt
  select-AllRevised p (r ∷ rs) (h, k) = elim (Bool-cases (p r)) [
    | inl e ↦ rw e (h, select-AllRevised p rs k)
    | inr e ↦ rw e (select-AllRevised p rs k)
  ]

  pub find-HasRevision :
      (p : VdpRow A → Bool) (rows : List (VdpRow A)) {r : VdpRow A}
      → AllRevised rows
      → find p rows ≡ some r
      → HasRevision r.data_of
  find-HasRevision p [] h e = absurd (cc)
  find-HasRevision p (q ∷ qs) {r} (h, k) e = elim (Bool-cases (p q)) [
    | inl here ↦ subst (λ x. HasRevision x.data_of) (some-at (rw here at e)) h
    | inr other ↦ find-HasRevision p qs k (rw other at e)
  ]
    where
      some-at : {x y : VdpRow A} → some x ≡ some y → x ≡ y
      some-at h = cc

  replace-AllRevised :
      (o : VdpObject A) (now : ℕ) (rows : List (VdpRow A))
      → HasRevision o
      → AllRevised rows
      → AllRevised (replace o now rows).1
  unfolding replace vdp_row
  replace-AllRevised o now rows has h =
      let others = select (λ r. not (is_row o.tpe o.id r)) rows in
      elim (Bool-cases (any (λ r. str_eq r.id o.id) others)) [
        | inl taken ↦ rw taken h
        | inr free ↦
            rw free
              (All-append _ others (vdp_row o now ∷ []) (select-AllRevised _ rows h) (has, tt))
      ]

  pub save_object-AllRevised :
      (o : VdpObject A) (now : ℕ) (rows : List (VdpRow A))
      → HasRevision o
      → AllRevised rows
      → AllRevised (save_object o now rows).1
  unfolding save_object
  save_object-AllRevised o now rows has h = elim (Bool-cases (length (fresher o rows) == 0)) [
    | inl old ↦ rw old (replace-AllRevised o now rows has h)
    | inr fresh ↦ rw fresh h
  ]
