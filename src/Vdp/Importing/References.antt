-- ===== src/Vdp/Importing/References.antt =====
-- What an import leaves in the table (lib/vdp.py): objects that refer to others find them there.
use lvpn.Prelude.{
  ℕ, ◌+◌, ◌*◌, String, ◌≡◌, refl, sym, subst, Bool, true, false, Bool-cases, Option, some,
  Option-cases, List, [], ◌∷◌, false≢true, All, ltb, inl, inr, arith,
}
use lvpn.Prelude.Dict.{member}
use lvpn.Python.{Error, Result, Exec, ok, err, proceed, raise_unless}
use lvpn.Clock.{tick}
use lvpn.Vdp.Table.{
  ObjectType, provider_type, space_type, gate_type, same_type, VdpObject, VdpRow, save_object,
  lookup_object,
}
use lvpn.Vdp.Table.Rows.{Has, Has-save_object, same_type_eq}
use lvpn.Vdp.Objects.{get_revision}
use lvpn.Vdp.Table.Revisions.{IsKeyed, Ended, save_object-Ended}
use lvpn.Vdp.Table.Recent.{
  Recent, HasRevision, AllRevised, at_least, kept-Recent, save_object-AllRevised,
}
use lvpn.Vdp.Importing.{
  live_ids, Importer, valid_ids, cache, query_ids, object_ids, store, placed, with_provider,
  check_spaces,
}

some-second :
    {X Y : Type 0} {a c : X} {b d : Y}
    → ◌≡◌ {A = Option (X × Y)} (some (a, b)) (some (c, d))
    → b ≡ d
some-second h = cc

module _ {A : Type 0} where
  live_ids-Has :
      (tpe : ObjectType) (now : ℕ) (rows : List (VdpRow A)) (id : String)
      → member id (live_ids tpe now rows) ≡ true
      → Has tpe id rows
  unfolding live_ids
  live_ids-Has tpe now [] id h = absurd (false≢true h)
  live_ids-Has tpe now (r ∷ rs) id h = ground (arith, live_ids-Has tpe now rs id)

  -- What the cache answers is in the table; ids are unique, and each row has an object with a
  -- revision.
  abbrev pub IsSound : Importer A → Type 0
  IsSound v =
      ((tpe : ObjectType) (n : ℕ) (ids : List String)
        → v.cached tpe ≡ some (n, ids)
        → (id : String) → member id ids ≡ true
        → Has tpe id v.rows)
      × IsKeyed v.rows
      × AllRevised v.rows

  -- Nothing is taken out of the table, and no object in it becomes older.
  abbrev pub Grows : Importer A → Importer A → Type 0
  Grows v w =
      ((tpe : ObjectType) (id : String) → Has tpe id v.rows → Has tpe id w.rows)
      × ((k : ℕ) (tpe : ObjectType) (id : String) → Recent k tpe id v.rows → Recent k tpe id w.rows)

  pub unchanged : (v : Importer A) → Grows v v
  unchanged v = ((λ tpe id h. h), λ k tpe id h. h)

  pub Grows-trans : (v w u : Importer A) → Grows v w → Grows w u → Grows v u
  Grows-trans v w u g h =
      ((λ tpe id k. h.0 tpe id (g.0 tpe id k)), λ n tpe id k. h.1 n tpe id (g.1 n tpe id k))

  -- How a call ends, and what holds if it returns.
  abbrev pub Ends :
      {X : Type 0} → (X → Importer A → Type 0) → Importer A → Result X × Importer A → Type 0
  Ends Q v (ok x, w) = IsSound w × Grows v w × Q x w
  Ends Q v (err _, w) = IsSound w × Grows v w

  pub then-Ends :
      {X Y : Type 0} (Q : X → Importer A → Type 0) (R : Y → Importer A → Type 0) (v : Importer A)
      (q : Result X × Importer A) (f : X → Exec (Importer A) Y)
      → Ends Q v q
      → ((x : X) (w : Importer A) → IsSound w → Grows v w → Q x w → Ends R w (f x w))
      → Ends R v (proceed q f)
  then-Ends Q R v (err e, w) f k go = k
  then-Ends {Y = Y} Q R v (ok x, w) f (s, g, k) go = after (f x w) (go x w s g k)
    where
      after : (r : Result Y × Importer A) → Ends R w r → Ends R v r
      after (ok y, u) (s', g', k') = (s', Grows-trans v w u g g', k')
      after (err e, u) (s', g') = (s', Grows-trans v w u g g')

  abbrev Nothing : {X : Type 0} → X → Importer A → Type 0
  Nothing x w = Unit {0}

  pub unless-Ends :
      (b : Bool) (e : Error) (v : Importer A)
      → IsSound v
      → Ends (λ _ _. b ≡ true) v (raise_unless b e v)
  unless-Ends true e v s = (s, unchanged v, refl)
  unless-Ends false e v s = (s, unchanged v)

  abbrev pub Known : ObjectType → List String → Importer A → Type 0
  Known tpe ids w = (id : String) → member id ids ≡ true → Has tpe id w.rows

  query-Ends :
      (tpe : ObjectType) (v : Importer A) → IsSound v → Ends (Known tpe) v (query_ids tpe v)
  unfolding query_ids cache
  query-Ends tpe v s = (
    (sound_cache, s.1, s.2),
    unchanged v,
    λ id h. live_ids-Has tpe (v.times v.readings) v.rows id h,
  )
    where
      sound_cache :
          (t : ObjectType) (n : ℕ) (ids : List String)
          → (query_ids tpe v).1.cached t ≡ some (n, ids)
          → (id : String) → member id ids ≡ true
          → Has t id v.rows
      sound_cache t n ids e id h = elim (Bool-cases (same_type t tpe)) [
        | inl same ↦ rw (same_type_eq t tpe same) (
            live_ids-Has tpe (v.times v.readings) v.rows id
              (rw (sym (some-second (rw same at e))) at h))
        | inr other ↦ s.0 t n ids (rw other at e) id h
      ]

  pub object_ids-Ends :
      (tpe : ObjectType) (v : Importer A) → IsSound v → Ends (Known tpe) v (object_ids tpe v)
  unfolding object_ids
  object_ids-Ends tpe v s = elim (Option-cases (v.cached tpe)) [
    | inl e ↦ rw (e, valid_ids) (query-Ends tpe (record v { readings = v.readings + 1 }) s)
    | inr ((n, ids), e) ↦
        rw (e, valid_ids)
          (elim (Bool-cases (ltb (v.times v.readings) (n + 60 * tick))) [
            | inl valid ↦ rw valid (s, unchanged v, s.0 tpe n ids e)
            | inr old ↦ rw old (query-Ends tpe (record v { readings = v.readings + 1 }) s)
          ])
  ]

  -- Storing an object with a revision.
  pub store-Ends :
      (o : VdpObject A) (v : Importer A)
      → HasRevision o
      → IsSound v
      → Ends (λ _ w. Recent (get_revision o.header) o.tpe o.id w.rows) v (store o v)
  unfolding store
  store-Ends o v has (cached, keyed, revised) =
      go (save_object o now v.rows) refl (save_object-Ended o now v.rows keyed has)
        (λ tpe id h. Has-save_object o now tpe id v.rows h)
        (save_object-AllRevised o now v.rows has revised)
    where
      now : ℕ
      now = v.times v.readings

      go :
          (q : Result (Unit {0}) × List (VdpRow A))
          → save_object o now v.rows ≡ q
          → Ended o v.rows q
          → ((tpe : ObjectType) (id : String) → Has tpe id v.rows → Has tpe id q.1)
          → AllRevised q.1
          → Ends
              (λ _ w. Recent (get_revision o.header) o.tpe o.id w.rows)
              v
              (q.0, record v { rows = q.1; readings = v.readings + 1 })
      go (ok u, rows) e ended has_all all = (
        ((λ t n ids c id h. has_all t id (cached t n ids c id h)), ended.0, all),
        (has_all, λ k tpe id was. kept-Recent k o now tpe id v.rows rows ended e was),
        at_least (get_revision o.header) o v.rows rows (omega arith) ended,
      )
      go (err x, rows) e same has_all all = (
        (
          (λ t n ids c id h. has_all t id (cached t n ids c id h)),
          subst IsKeyed (sym same) keyed,
          all,
        ),
        (has_all, λ k tpe id was. subst (λ u. Recent k tpe id u) (sym same) was),
      )

  -- What an object refers to is in the table.
  abbrev pub RefersTo : VdpObject A → Importer A → Type 0
  RefersTo o w = Has provider_type o.providerid w.rows

  abbrev pub AllKnown : List String → Importer A → Type 0
  AllKnown ids w = All (λ id. Has space_type id w.rows) ids

  pub Ends-weaken :
      {X : Type 0} (Q R : X → Importer A → Type 0) (v : Importer A) (q : Result X × Importer A)
      → ((x : X) (w : Importer A) → Grows v w → Q x w → R x w)
      → Ends Q v q
      → Ends R v q
  Ends-weaken Q R v (ok x, w) f (s, g, k) = (s, g, f x w g k)
  Ends-weaken Q R v (err e, w) f k = k

  pub with_provider-Ends :
      (tpe : ObjectType) (own : String) (o : VdpObject A) (v : Importer A)
      → IsSound v
      → Ends
          (λ p w. (p.tpe ≡ tpe) × (p.id ≡ o.id) × (p.header ≡ o.header) × RefersTo o w)
          v
          (with_provider tpe own o v)
  unfolding with_provider placed
  with_provider-Ends tpe own o v s =
      elim (Option-cases (lookup_object provider_type o.providerid v.rows)) [
        | inl missing ↦ rw missing (s, unchanged v)
        | inr (r, found) ↦ rw found (
            then-Ends (Known provider_type) _ v (object_ids provider_type v) _
              (object_ids-Ends provider_type v s)
              (λ ids w sw g k. elim (Bool-cases (member o.providerid ids)) [
                | inl known ↦ rw known (sw, unchanged w, (refl, refl, refl, k o.providerid known))
                | inr other ↦ rw other (sw, unchanged w)
              ]))
      ]

  pub check_spaces-Ends :
      (ids : List String) (v : Importer A)
      → IsSound v
      → Ends (λ _ w. AllKnown ids w) v (check_spaces ids v)
  unfolding check_spaces
  check_spaces-Ends [] v s = (s, unchanged v, tt)
  check_spaces-Ends (id ∷ ids) v s =
      then-Ends (Known space_type) _ v (object_ids space_type v) _ (object_ids-Ends space_type v s)
        (λ known w sw g k. elim (Bool-cases (member id known)) [
          | inl there ↦ rw there (
              Ends-weaken (λ _ u. AllKnown ids u) _ w (check_spaces ids w)
                (λ _ u h a. (h.0 space_type id (k id there), a)) (check_spaces-Ends ids w sw))
          | inr other ↦ rw other (sw, unchanged w)
        ])

  -- What the import of each object leaves: it, or a fresher one.
  abbrev pub ProviderIn : VdpObject A → Importer A → Type 0
  ProviderIn p w = Recent (get_revision p.header) provider_type p.id w.rows

  abbrev pub SpaceIn : VdpObject A → Importer A → Type 0
  SpaceIn s w = Recent (get_revision s.header) space_type s.id w.rows × RefersTo s w

  abbrev pub GateIn : VdpObject A → Importer A → Type 0
  GateIn g w =
      Recent (get_revision g.header) gate_type g.id w.rows
      × RefersTo g w
      × All (λ id. Has space_type id w.rows) g.spaces
