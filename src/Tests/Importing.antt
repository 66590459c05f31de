-- ===== src/Tests/Importing.antt =====
-- The import of description files at a concrete file.
use lvpn.Prelude.{◌*◌, arith, ◌≡◌, refl, true, false, none, [], ◌∷◌}
use lvpn.Prelude.Int.{ℤ, pos}
use lvpn.Python.{ok, Leaves}
use lvpn.Clock.{tick}
use lvpn.Vdp.Table.{VdpObject, save_object, provider_type, space_type, gate_type}
use lvpn.Vdp.Objects.{get_revision, get_expiry}
use lvpn.Vdp.Importing.{Importer, VdpFile, import_vdp}
use lvpn.Vdp.Importing.References.{IsSound, Ends}
use lvpn.Vdp.Importing.Files.{import_vdp-Ends, FileIn, IsRevised}
use lvpn.Vdp.Saving as S
use lvpn.Vdp.Refreshing.{renew_type}
use lvpn.Vdp.Refreshing.Own.{RunsFrom}
use lvpn.Vdp.Refreshing.Passes.{Passed, renew_type-Renewed}
use lvpn.Tests.Samples.{header}

abbrev provider_object : VdpObject ℤ
provider_object = record {
  tpe = provider_type;
  id = "p";
  providerid = "p";
  spaces = [];
  header = header (pos 1);
  is_local = false;
  readonly = false;
}

abbrev space_object : VdpObject ℤ
space_object = record provider_object { tpe = space_type; id = "p.s" }

abbrev gate_object : VdpObject ℤ
gate_object = record provider_object { tpe = gate_type; id = "p.g"; spaces = "p.s" ∷ [] }

abbrev description : VdpFile ℤ
description = record {
  is_description = true;
  providers = provider_object ∷ [];
  spaces = space_object ∷ [];
  gates = gate_object ∷ [];
}

abbrev empty_table : Importer ℤ
empty_table = record { rows = []; times = λ n. n; readings = 0; cached = λ t. none }

-- Its objects have the revision of `header`.
description-IsRevised : IsRevised description
unfolding get_revision
description-IsRevised = (((λ h. cc), tt), ((λ h. cc), tt), ((λ h. cc), tt))

empty-IsSound : IsSound empty_table
empty-IsSound = ((λ t n ids h id k. absurd (cc)), tt, tt)

imported : (import_vdp (λ _. true) (λ _. true) "p" description empty_table).0 ≡ ok tt
unfolding import_vdp save_object get_revision get_expiry
imported = refl

import_vdp-Ends_example :
    Ends
      (λ _ w. FileIn description w)
      empty_table
      (import_vdp (λ _. true) (λ _. true) "p" description empty_table)
import_vdp-Ends_example =
    import_vdp-Ends (λ _. true) (λ _. true) "p" description empty_table description-IsRevised
      empty-IsSound

-- A provider's own row, and clocks at 5000 seconds.
abbrev own_table : Importer ℤ
own_table = record empty_table {
  rows =
      record {
        id = "p";
        tpe = provider_type;
        data_of = provider_object;
        my = true;
        readonly = false;
        expiry = 0;
        revision = 1;
        ttl = 3600;
      }
      ∷ [];
  times = λ _. 5000 * tick;
}

renew_type-Renewed_example :
    Leaves
      (λ _ w. Passed 5000 provider_type own_table w)
      (renew_type "none" provider_type own_table)
unfolding RunsFrom
renew_type-Renewed_example =
    renew_type-Renewed "none" 5000 provider_type own_table (omega arith) (λ k. ground arith)
      (refl, tt)
