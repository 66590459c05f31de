-- ===== src/Vdp/Importing/Files.antt =====
-- What the import of a whole file leaves in the table (lib/vdp.py).
use lvpn.Prelude.{String, ◌≡◌, sym, ap, ◌∙◌, Bool, true, false, List, [], ◌∷◌, All, All-weaken}
use lvpn.Python.{raise_unless, vdp_error, bad_schema, system_exit}
use lvpn.Vdp.Table.{provider_type, space_type, gate_type, VdpObject}
use lvpn.Vdp.Objects.{get_revision}
use lvpn.Vdp.Table.Recent.{Recent, HasRevision}
use lvpn.Vdp.Importing.{
  Importer, VdpFile, store, import_providers, with_provider, import_spaces, check_spaces,
  import_gates, import_vdp,
}
use lvpn.Vdp.Importing.References.{
  IsSound, Grows, Grows-trans, unchanged, Ends, then-Ends, unless-Ends, store-Ends, Ends-weaken,
  with_provider-Ends, check_spaces-Ends, AllKnown, RefersTo, ProviderIn, SpaceIn, GateIn,
}

module _ {A : Type 0} where
  ProviderIn-Grows :
      (o : VdpObject A) (v w : Importer A) → Grows v w → ProviderIn o v → ProviderIn o w
  ProviderIn-Grows o v w g h = g.1 (get_revision o.header) provider_type o.id h

  SpaceIn-Grows : (o : VdpObject A) (v w : Importer A) → Grows v w → SpaceIn o v → SpaceIn o w
  SpaceIn-Grows o v w g (h, k) =
      (g.1 (get_revision o.header) space_type o.id h, g.0 provider_type o.providerid k)

  AllKnown-Grows :
      (ids : List String) (v w : Importer A) → Grows v w → AllKnown ids v → AllKnown ids w
  AllKnown-Grows [] v w g h = tt
  AllKnown-Grows (id ∷ ids) v w g (h, k) = (g.0 space_type id h, AllKnown-Grows ids v w g k)

  GateIn-Grows : (o : VdpObject A) (v w : Importer A) → Grows v w → GateIn o v → GateIn o w
  GateIn-Grows o v w g (h, k, l) = (
    g.1 (get_revision o.header) gate_type o.id h,
    g.0 provider_type o.providerid k,
    AllKnown-Grows o.spaces v w g l,
  )

  import_providers-Ends :
      (valid : VdpObject A → Bool) (os : List (VdpObject A)) (v : Importer A)
      → All (λ o. HasRevision o) os
      → IsSound v
      → Ends (λ _ w. All (λ o. ProviderIn o w) os) v (import_providers valid os v)
  unfolding import_providers
  import_providers-Ends valid [] v has s = (s, unchanged v, tt)
  import_providers-Ends valid (o ∷ os) v (has, all) s =
      then-Ends (λ _ _. valid o ≡ true) _ v (raise_unless (valid o) (vdp_error bad_schema) v) _
        (unless-Ends (valid o) (vdp_error bad_schema) v s)
        (λ _ w sw g _.
          then-Ends (λ _ u. ProviderIn o u) _ w
            (store (record o { tpe = provider_type; is_local = false }) w) _
            (store-Ends (record o { tpe = provider_type; is_local = false }) w has sw)
            (λ _ u su h k.
              Ends-weaken (λ _ x. All (λ p. ProviderIn p x) os) _ u (import_providers valid os u)
                (λ _ x i a. (ProviderIn-Grows o u x i k, a))
                (import_providers-Ends valid os u all su)))

  header_revised : (o p : VdpObject A) → p.header ≡ o.header → HasRevision o → HasRevision p
  header_revised o p e h k = h (ap (λ x. get_revision x) (sym e) ∙ k)

  space_stored :
      (s o : VdpObject A) (w : Importer A)
      → o.tpe ≡ space_type
      → o.id ≡ s.id
      → o.header ≡ s.header
      → Recent (get_revision o.header) o.tpe o.id w.rows
      → RefersTo s w
      → SpaceIn s w
  space_stored s o w e f hd h k = (rw (sym e, sym f, sym hd) h, k)

  import_spaces-Ends :
      (valid : VdpObject A → Bool) (own : String) (os : List (VdpObject A)) (v : Importer A)
      → All (λ o. HasRevision o) os
      → IsSound v
      → Ends (λ _ w. All (λ o. SpaceIn o w) os) v (import_spaces valid own os v)
  unfolding import_spaces
  import_spaces-Ends valid own [] v has s = (s, unchanged v, tt)
  import_spaces-Ends valid own (o ∷ os) v (has, all) s =
      then-Ends (λ _ _. valid o ≡ true) _ v (raise_unless (valid o) (vdp_error bad_schema) v) _
        (unless-Ends (valid o) (vdp_error bad_schema) v s)
        (λ _ w sw g _.
          then-Ends _ _ w (with_provider space_type own o w) _
            (with_provider-Ends space_type own o w sw)
            (λ p x sx h (tpe, id, head, refers).
              then-Ends (λ _ y. Recent (get_revision p.header) p.tpe p.id y.rows) _ x (store p x) _
                (store-Ends p x (header_revised o p head has) sx)
                (λ _ y sy i k.
                  Ends-weaken (λ _ z. All (λ q. SpaceIn q z) os) _ y (import_spaces valid own os y)
                    (λ _ z j a. (
                      SpaceIn-Grows o y z j (
                          space_stored o p y tpe id head k (i.0 provider_type o.providerid refers)),
                      a,
                    ))
                    (import_spaces-Ends valid own os y all sy))))

  gate_stored :
      (g o : VdpObject A) (w : Importer A)
      → o.tpe ≡ gate_type
      → o.id ≡ g.id
      → o.header ≡ g.header
      → Recent (get_revision o.header) o.tpe o.id w.rows
      → RefersTo g w
      → AllKnown g.spaces w
      → GateIn g w
  gate_stored g o w e f hd h k l = (rw (sym e, sym f, sym hd) h, k, l)

  import_gates-Ends :
      (own : String) (os : List (VdpObject A)) (v : Importer A)
      → All (λ o. HasRevision o) os
      → IsSound v
      → Ends (λ _ w. All (λ o. GateIn o w) os) v (import_gates own os v)
  unfolding import_gates
  import_gates-Ends own [] v has s = (s, unchanged v, tt)
  import_gates-Ends own (o ∷ os) v (has, all) s =
      then-Ends _ _ v (with_provider gate_type own o v) _ (with_provider-Ends gate_type own o v s)
        (λ p w sw g (tpe, id, head, refers).
          then-Ends (λ _ x. AllKnown o.spaces x) _ w (check_spaces o.spaces w) _
            (check_spaces-Ends o.spaces w sw)
            (λ _ x sx h known.
              then-Ends (λ _ y. Recent (get_revision p.header) p.tpe p.id y.rows) _ x (store p x) _
                (store-Ends p x (header_revised o p head has) sx)
                (λ _ y sy i k.
                  Ends-weaken (λ _ z. All (λ q. GateIn q z) os) _ y (import_gates own os y)
                    (λ _ z j a. (
                      GateIn-Grows o y z j (
                          gate_stored o p y tpe id head k
                            (i.0 provider_type o.providerid (h.0 provider_type o.providerid refers))
                            (AllKnown-Grows o.spaces x y i known)),
                      a,
                    ))
                    (import_gates-Ends own os y all sy))))

  -- Every object of the file has a revision.
  abbrev pub IsRevised : VdpFile A → Type 0
  IsRevised file =
      All (λ o. HasRevision o) file.providers
      × All (λ o. HasRevision o) file.spaces
      × All (λ o. HasRevision o) file.gates

  -- Every object of the file, or a fresher one, is in the table with what it refers to.
  abbrev pub FileIn : VdpFile A → Importer A → Type 0
  FileIn file w =
      All (λ o. ProviderIn o w) file.providers
      × All (λ o. SpaceIn o w) file.spaces
      × All (λ o. GateIn o w) file.gates

  All-Grows :
      (P : VdpObject A → Importer A → Type 0)
      → ((o : VdpObject A) (v w : Importer A) → Grows v w → P o v → P o w)
      → (os : List (VdpObject A)) (v w : Importer A) → Grows v w
      → All (λ o. P o v) os
      → All (λ o. P o w) os
  All-Grows P f os v w g h = All-weaken (λ o. P o v) (λ o. P o w) os (λ o p. f o v w g p) h

  pub FileIn-Grows :
      (file : VdpFile A) (v w : Importer A) → Grows v w → FileIn file v → FileIn file w
  FileIn-Grows file v w g (a, b, c) = (
    All-Grows ProviderIn ProviderIn-Grows file.providers v w g a,
    All-Grows SpaceIn SpaceIn-Grows file.spaces v w g b,
    All-Grows GateIn GateIn-Grows file.gates v w g c,
  )

  -- However the import of a file of objects with revisions ends, no object is taken out of the table,
  -- and none gets a revision before the one it had. If the import returns, each provider, space and
  -- gate of the file is found by its type and id in its own revision or a later one; the provider of
  -- each space and gate is in the table, and so are all the spaces of each gate. This holds from any
  -- table of objects with revisions and unique ids, and any cache of ids in which each id stands for
  -- a row.
  pub import_vdp-Ends :
      (valid_file : VdpFile A → Bool) (valid : VdpObject A → Bool) (own : String) (file : VdpFile A)
      (v : Importer A)
      → IsRevised file
      → IsSound v
      → Ends (λ _ w. FileIn file w) v (import_vdp valid_file valid own file v)
  unfolding import_vdp
  import_vdp-Ends valid_file valid own file v (hp, hs, hg) s =
      then-Ends _ _ v (raise_unless (valid_file file) (vdp_error bad_schema) v) _
        (unless-Ends (valid_file file) (vdp_error bad_schema) v s)
        (λ _ w sw g _.
          then-Ends _ _ w (raise_unless file.is_description system_exit w) _
            (unless-Ends file.is_description system_exit w sw)
            (λ _ x sx h _.
              then-Ends _ _ x (import_providers valid file.providers x) _
                (import_providers-Ends valid file.providers x hp sx)
                (λ _ y sy i a.
                  then-Ends _ _ y (import_spaces valid own file.spaces y) _
                    (import_spaces-Ends valid own file.spaces y hs sy)
                    (λ _ z sz j b.
                      Ends-weaken _ _ z (import_gates own file.gates z)
                        (λ _ u k c. (
                          All-Grows ProviderIn ProviderIn-Grows file.providers y u
                              (Grows-trans y z u j k) a,
                          All-Grows SpaceIn SpaceIn-Grows file.spaces z u k b,
                          c,
                        ))
                        (import_gates-Ends own file.gates z hg sz)))))
