-- ===== src/Vdp/Saving/Posting.antt =====
-- What a posted description leaves in the table (post_vdp of server/http.py).
use lvpn.Prelude.{String, Option, none, some, List}
use lvpn.Python.{◌>>=◌}
use lvpn.Vdp.Importing.{Importer, VdpFile}
use lvpn.Vdp.Importing.Files.{FileIn}
use lvpn.Vdp.Saving.{Summary, Posted, bad_request, accepted}
use lvpn.Vdp.Saving.Partition.{Partitions}

module _ {A : Type 0} (own : String) (readonly : List String) where
  -- A description that is accepted is in the table; the counts are those of its objects.
  pub Holds : VdpFile A → Posted → Importer A → Type 0
  Holds file bad_request w = Unit
  Holds file (accepted none) w = FileIn file w
  Holds file (accepted (some s)) w = FileIn file w × Partitions own readonly s w

  Returned : VdpFile A → Option Summary → Importer A → Type 0
  Returned file none w = FileIn file w
  Returned file (some s) w = FileIn file w × Partitions own readonly s w
