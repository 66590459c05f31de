-- ===== src/Vdp/Saving/Partition.antt =====
-- What saving a whole description leaves in the table and counts (VDP.save of lib/vdp.py).
use lvpn.Prelude.{
  ℕ, ◌+◌, String, ◌≡◌, refl, Bool, true, false, Option, none, some, List, [], ◌∷◌, length, arith,
  if◌then◌else◌,
}
use lvpn.Prelude.Dict.{member}
use lvpn.Python.{
  Error, pure, gets, or_raise, attribute_error, vdp_error, unknown_provider, ◌>>=◌, ◌>>◌,
}
use lvpn.Vdp.Table.{
  ObjectType, provider_type, space_type, gate_type, VdpObject, lookup_object, is_row,
}
use lvpn.Vdp.Table.Recent.{HasRevision, find-HasRevision}
use lvpn.Vdp.Importing.{Importer, object_ids, store}
use lvpn.Vdp.Importing.References.{
  IsSound, unchanged, Ends, then-Ends, store-Ends, object_ids-Ends, Ends-weaken, Known,
}
use lvpn.Vdp.Saving.{
  Counts, Summary, no_counts, count_saved, count_ignored, read_object, save_if_own, save_objects,
  save_provider, save_providers, save_vdp, object_of, provider_of,
}

-- All objects that a count has met.
pub total : Counts → ℕ
total c = c.saved + c.ignored

from_none : (n : ℕ) (c : Counts) → total c ≡ total no_counts + n → total c ≡ n
unfolding total
from_none n c h = omega (arith, h)

module _ {A : Type 0} (own : String) (readonly : List String) where
  -- A step that only reads.
  reads-Ends :
      {X : Type 0} (v : Importer A) (o : Option X) (e : Error)
      → IsSound v
      → Ends (λ x _. o ≡ some x) v (or_raise o e v)
  reads-Ends v none e s = (s, unchanged v)
  reads-Ends v (some x) e s = (s, unchanged v, refl)

  read_object-Ends :
      (tpe : ObjectType) (id : String) (v : Importer A)
      → IsSound v
      → Ends (λ o _. HasRevision o) v (read_object own readonly tpe id v)
  unfolding read_object object_of
  read_object-Ends tpe id v s =
      then-Ends _ _ v (or_raise (lookup_object tpe id v.rows) attribute_error v) _
        (reads-Ends v (lookup_object tpe id v.rows) attribute_error s)
        (λ r w sw g found.
          then-Ends _ _ w
            (or_raise (lookup_object provider_type r.data_of.providerid w.rows)
              (vdp_error unknown_provider) w)
            _
            (reads-Ends w (lookup_object provider_type r.data_of.providerid w.rows)
              (vdp_error unknown_provider) sw)
            (λ p x sx h _. (sx, unchanged x, find-HasRevision (is_row tpe id) v.rows s.2 found)))

  save_if_own-Ends :
      (c : Counts) (o : VdpObject A) (v : Importer A)
      → HasRevision o
      → IsSound v
      → Ends (λ d _. total d ≡ total c + 1) v (save_if_own own readonly c o v)
  unfolding save_if_own count_saved count_ignored total
  save_if_own-Ends c o v has s = go o.readonly
    where
      go :
          (b : Bool)
          → Ends
              (λ d _. total d ≡ total c + 1)
              v
              ((if b then pure (count_ignored c) else (do store o; pure (count_saved c))) v)
      go true = (s, unchanged v, omega arith)
      go false =
          then-Ends _ _ v (store o v) _ (store-Ends o v has s)
            (λ _ w sw g _. (sw, unchanged w, omega arith))

  save_objects-Ends :
      (tpe : ObjectType) (ids : List String) (c : Counts) (v : Importer A)
      → IsSound v
      → Ends (λ d _. total d ≡ total c + length ids) v (save_objects own readonly tpe ids c v)
  unfolding save_objects
  save_objects-Ends tpe [] c v s = (s, unchanged v, omega arith)
  save_objects-Ends tpe (id ∷ ids) c v s =
      then-Ends (λ o _. HasRevision o) _ v (read_object own readonly tpe id v) _
        (read_object-Ends tpe id v s)
        λ o w sw g has.
          then-Ends (λ d _. total d ≡ total c + 1) _ w (save_if_own own readonly c o w) _
            (save_if_own-Ends c o w has sw)
            λ d x sx h e.
              Ends-weaken (λ f _. total f ≡ total d + length ids) _ x
                (save_objects own readonly tpe ids d x) (λ f _ i k. omega (arith, e, k))
                (save_objects-Ends tpe ids d x sx)

  save_provider-Ends :
      (c : Counts) (id : String) (v : Importer A)
      → IsSound v
      → Ends (λ d _. total d ≡ total c + 1) v (save_provider own readonly c id v)
  unfolding save_provider provider_of count_saved count_ignored total
  save_provider-Ends c id v s = go (member id readonly)
    where
      go :
          (b : Bool)
          → Ends
              (λ d _. total d ≡ total c + 1)
              v
              ((if b then pure (count_ignored c) else (do
                found ← gets (λ v. lookup_object provider_type id v.rows)
                r ← or_raise found attribute_error
                store (provider_of own readonly r)
                pure (count_saved c)))
                v)
      go true = (s, unchanged v, omega arith)
      go false =
          then-Ends _ _ v (or_raise (lookup_object provider_type id v.rows) attribute_error v) _
            (reads-Ends v (lookup_object provider_type id v.rows) attribute_error s)
            λ r w sw g found.
              then-Ends _ _ w (store (provider_of own readonly r) w) _
                (store-Ends (provider_of own readonly r) w
                  (find-HasRevision (is_row provider_type id) v.rows s.2 found) sw)
                λ _ x sx h _. (sx, unchanged x, omega arith)

  save_providers-Ends :
      (ids : List String) (c : Counts) (v : Importer A)
      → IsSound v
      → Ends (λ d _. total d ≡ total c + length ids) v (save_providers own readonly ids c v)
  unfolding save_providers
  save_providers-Ends [] c v s = (s, unchanged v, omega arith)
  save_providers-Ends (id ∷ ids) c v s =
      then-Ends (λ d _. total d ≡ total c + 1) _ v (save_provider own readonly c id v) _
        (save_provider-Ends c id v s)
        λ d x sx h e.
          Ends-weaken (λ f _. total f ≡ total d + length ids) _ x
            (save_providers own readonly ids d x) (λ f _ i k. omega (arith, e, k))
            (save_providers-Ends ids d x sx)

  -- Each id of these lists was met once, and has its row.
  pub Partitions : Summary → Importer A → Type 0
  Partitions s w =
      (gates : List String) × (spaces : List String) × (providers : List String) × (total s.gates
        ≡ length gates)
      × (total s.spaces ≡ length spaces)
      × (total s.providers ≡ length providers)
      × Known gate_type gates w
      × Known space_type spaces w
      × Known provider_type providers w

  -- Saving a whole description takes nothing out of the table. If it returns, then each gate, space and
  -- provider that its queries have listed was either saved or, for a read-only provider, ignored, but not
  -- both, and each of them has its row.
  pub save_vdp-Ends : (v : Importer A) → IsSound v → Ends Partitions v (save_vdp own readonly v)
  unfolding save_vdp Partitions
  save_vdp-Ends v s =
      then-Ends _ _ v (object_ids gate_type v) _ (object_ids-Ends gate_type v s) λ gs a sa ga ka.
        then-Ends _ _ a (save_objects own readonly gate_type gs no_counts a) _
          (save_objects-Ends gate_type gs no_counts a sa)
          λ c b sb gb cb.
            then-Ends _ _ b (object_ids space_type b) _ (object_ids-Ends space_type b sb)
              λ ss d sd gd kd.
                then-Ends _ _ d (save_objects own readonly space_type ss no_counts d) _
                  (save_objects-Ends space_type ss no_counts d sd)
                  λ e f sf gf ef.
                    then-Ends _ _ f (object_ids provider_type f) _
                      (object_ids-Ends provider_type f sf)
                      λ ps g sg gg kg.
                        then-Ends _ _ g (save_providers own readonly ps no_counts g) _
                          (save_providers-Ends ps no_counts g sg)
                          λ h i si gi hi. (
                            si,
                            unchanged i,
                            (
                              gs,
                              ss,
                              ps,
                              from_none (length gs) c cb,
                              from_none (length ss) e ef,
                              from_none (length ps) h hi,
                              (λ id k. gi.0 gate_type id (
                                  gg.0 gate_type id (
                                    gf.0 gate_type id
                                      (gd.0 gate_type id (gb.0 gate_type id (ka id k)))))),
                              (λ id k.
                                  gi.0 space_type id
                                    (gg.0 space_type id (gf.0 space_type id (kd id k)))),
                              λ id k. gi.0 provider_type id (kg id k),
                            ),
                          )
