-- ===== src/Vdp/Refreshing/Own.antt =====
-- What it does to the table to save objects as fresh (refresh-vdp of mgmt.py).
use lvpn.Prelude.{ℕ, ◌+◌, ◌≤◌, ◌<◌, ◌≡◌, refl, sym, subst, ◌∙◌, String, List, [], ◌∷◌, All, arith}
use lvpn.Python.{Result, ok, err, Leaves, Leaves-proceed, Leaves-weaken}
use lvpn.Clock.{whole_seconds}
use lvpn.Vdp.Objects.{get_revision, set_as_fresh}
use lvpn.Vdp.Table.{ObjectType, VdpObject, VdpRow, save_object}
use lvpn.Vdp.Table.Revisions.{IsKeyed, Ended, save_object-Ended}
use lvpn.Vdp.Table.Recent.{Recent, at_least, kept-Recent}
use lvpn.Vdp.Importing.{Importer, store}
use lvpn.Vdp.Refreshing.{renew_object, renew_objects}

module _ {A : Type 0} where
  -- What a part of the command leaves: unique ids, no object older than before, and these objects in
  -- revisions from `n` on.
  unfoldable pub Renewed : ℕ → List (VdpObject A) → Importer A → Importer A → Type 0
  Renewed n os v w =
      IsKeyed w.rows
      × (w.times ≡ v.times)
      × ((k : ℕ) (tpe : ObjectType) (id : String) → Recent k tpe id v.rows → Recent k tpe id w.rows)
      × All (λ o. Recent n o.tpe o.id w.rows) os

  -- All clocks show `n` seconds at least.
  unfoldable pub RunsFrom : ℕ → Importer A → Type 0
  RunsFrom n v = (k : ℕ) → n ≤ whole_seconds (v.times k)

  renew_object-Renewed :
      (n : ℕ) (o : VdpObject A) (v : Importer A)
      → 0 < n
      → RunsFrom n v
      → IsKeyed v.rows
      → Leaves (λ _ w. Renewed n (o ∷ []) v w) (renew_object o v)
  unfolding renew_object store set_as_fresh get_revision Renewed RunsFrom
  renew_object-Renewed n o v positive runs keyed = go (save_object p later v.rows) refl
    where
      now : ℕ
      now = v.times v.readings

      later : ℕ
      later = v.times (v.readings + 1)

      p : VdpObject A
      p = record o { header = set_as_fresh o.header now }

      recent : n ≤ get_revision p.header
      recent = runs v.readings

      go :
          (r : Result (Unit {0}) × List (VdpRow A))
          → save_object p later v.rows ≡ r
          → Leaves
              (λ _ w. Renewed n (o ∷ []) v w)
              (r.0, record v { rows = r.1; readings = v.readings + 1 + 1 })
      go (err e, rows) h = tt
      go (ok u, rows) h =
          let ended =
            subst (Ended p v.rows) h
              (save_object-Ended p later v.rows keyed (ground (arith, recent, positive))) in
          (
            ended.0,
            refl,
            (λ k tpe id was. kept-Recent k p later tpe id v.rows rows ended h was),
            (at_least n p v.rows rows recent ended, tt),
          )

  pub renew_objects-Renewed :
      (n : ℕ) (os : List (VdpObject A)) (v : Importer A)
      → 0 < n
      → RunsFrom n v
      → IsKeyed v.rows
      → Leaves (λ _ w. Renewed n os v w) (renew_objects os v)
  unfolding renew_objects Renewed RunsFrom
  renew_objects-Renewed n [] v positive runs keyed = (keyed, refl, (λ k t i h. h), tt)
  renew_objects-Renewed n (o ∷ os) v positive runs keyed =
      Leaves-proceed _ (renew_object o v) _ λ u w e.
        let first =
          subst (Leaves (λ _ x. Renewed n (o ∷ []) v x)) e
            (renew_object-Renewed n o v positive runs keyed) in
        Leaves-weaken (λ _ x. Renewed n os w x) _ (renew_objects os w)
          (λ _ x rest. (
            rest.0,
            rest.1 ∙ first.1,
            (λ k t i h. rest.2 k t i (first.2 k t i h)),
            (rest.2 n o.tpe o.id first.3.0, rest.3),
          ))
          (renew_objects-Renewed n os w positive
            (λ k. subst (λ times. n ≤ whole_seconds (times k)) (sym first.1) (runs k)) first.0)
