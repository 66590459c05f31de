-- ===== src/Vdp/Refreshing/Passes.antt =====
-- What refresh-vdp of mgmt.py leaves of the provider's own objects.
use lvpn.Prelude.{
  ℕ, ◌<◌, ◌≡◌, refl, sym, subst, ◌∙◌, String, true, false, List, [], ◌∷◌, Option-cases, select, All,
  inl, inr,
}
use lvpn.Python.{Leaves, Leaves-proceed, Leaves-weaken}
use lvpn.Vdp.Table.{
  ObjectType, provider_type, space_type, gate_type, VdpObject, VdpRow, lookup_object,
}
use lvpn.Vdp.Table.Revisions.{IsKeyed}
use lvpn.Vdp.Table.Recent.{Recent}
use lvpn.Vdp.Importing.{Importer}
use lvpn.Vdp.Refreshing.{
  selected, local_object, row_object, row_objects, objects, renew_objects, renew_type,
}
use lvpn.Vdp.Refreshing.Own.{Renewed, RunsFrom, renew_objects-Renewed}

-- Ids are unique, each object is still there in a revision not before the one it had, and the provider's own rows of the type stand for
-- objects in revisions from `n` on.
pub Passed : {A : Type 0} → ℕ → ObjectType → Importer A → Importer A → Type 0
Passed n tpe v w =
    IsKeyed w.rows
    × ((k : ℕ) (t : ObjectType) (id : String) → Recent k t id v.rows → Recent k t id w.rows)
    × All (λ r. Recent n r.data_of.tpe r.data_of.id w.rows)
        (select (selected tpe true false 0) v.rows)

module _ {A : Type 0} (own : String) where
  -- Reading an object changes nothing, and keeps its type and its id.
  IsRead : VdpRow A → Importer A → VdpObject A → Importer A → Type 0
  IsRead r v o w = (w ≡ v) × (o.tpe ≡ r.data_of.tpe) × (o.id ≡ r.data_of.id)

  row_object-IsRead :
      (tpe : ObjectType) (r : VdpRow A) (v : Importer A)
      → Leaves (IsRead r v) (row_object own tpe r v)
  unfolding row_object local_object IsRead
  row_object-IsRead provider_type r v = (refl, refl, refl)
  row_object-IsRead space_type r v =
      elim (Option-cases (lookup_object provider_type r.data_of.providerid v.rows)) [
        | inl h ↦ rw h tt
        | inr (p, h) ↦ rw h (refl, refl, refl)
      ]
  row_object-IsRead gate_type r v =
      elim (Option-cases (lookup_object provider_type r.data_of.providerid v.rows)) [
        | inl h ↦ rw h tt
        | inr (p, h) ↦ rw h (refl, refl, refl)
      ]

  -- What holds of all objects that were read holds of their rows.
  Covers : ℕ → List (VdpRow A) → Importer A → List (VdpObject A) → Importer A → Type 0
  Covers n rows v os w =
      (w ≡ v)
      × ((x : Importer A)
          → All (λ o. Recent n o.tpe o.id x.rows) os
          → All (λ r. Recent n r.data_of.tpe r.data_of.id x.rows) rows)

  row_objects-Covers :
      (n : ℕ) (tpe : ObjectType) (rows : List (VdpRow A)) (v : Importer A)
      → Leaves (Covers n rows v) (row_objects own tpe rows v)
  unfolding row_objects Covers IsRead
  row_objects-Covers n tpe [] v = (refl, λ x h. tt)
  row_objects-Covers n tpe (r ∷ rs) v = Leaves-proceed _ (row_object own tpe r v) _ λ o w e.
      let here = subst (Leaves (IsRead r v)) e (row_object-IsRead tpe r v) in
      Leaves-proceed _ (row_objects own tpe rs w) _ λ os u f.
        let rest = subst (Leaves (Covers n rs w)) f (row_objects-Covers n tpe rs w) in
        (joined r v w u o os here rest)
    where
      joined :
          (r : VdpRow A) (v w u : Importer A) (o : VdpObject A) (os : List (VdpObject A))
          → IsRead r v o w
          → Covers n rs w os u
          → Covers n (r ∷ rs) v (o ∷ os) u
      joined r v w u o os (a, b, c) (d, f) = (
        d ∙ a,
        λ x (h, k). (
          subst (λ t. Recent n t r.data_of.id x.rows) b (subst (λ i. Recent n o.tpe i x.rows) c h),
          f x k,
        ),
      )

  -- One type of objects in refresh-vdp, from a table with unique ids, with clocks that show `n` seconds
  -- at least: if it returns, each row of the type that is marked as the provider's own stands for an
  -- object that is now in the table in revision `n` or a later one; each object of the table, of any
  -- type, is still there in a revision not before the one it had, and ids are unique.
  pub renew_type-Renewed :
      (n : ℕ) (tpe : ObjectType) (v : Importer A)
      → 0 < n
      → RunsFrom n v
      → IsKeyed v.rows
      → Leaves (λ _ w. Passed n tpe v w) (renew_type own tpe v)
  unfolding renew_type objects Covers Renewed Passed
  renew_type-Renewed n tpe v positive runs keyed =
      let rows = select (selected tpe true false 0) v.rows in
      Leaves-proceed _ (row_objects own tpe rows v) _ λ os w e.
        let both : Covers n rows v os w =
          subst (Leaves (Covers n rows v)) e (row_objects-Covers n tpe rows v) in
        subst (λ u. Leaves (λ _ x. Passed n tpe v x) (renew_objects os u)) (sym both.0)
          (Leaves-weaken (λ _ x. Renewed n os v x) (λ _ x. Passed n tpe v x) (renew_objects os v)
            (λ _ x r. (r.0, r.2, both.1 x r.3)) (renew_objects-Renewed n os v positive runs keyed))
