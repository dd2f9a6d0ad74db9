-- ===== src/Ingest/Sidecars.antt =====
-- services/library/ingest/planner.rs: the subchannel corrections (.sbi), which go to the rom of their
-- disc.
use teatro.Prelude.{
  ℕ, ◌+◌, Bool, true, false, not, ◌&&◌, Option, none, some, List, [], ◌∷◌, ◌++◌, map, retain,
  nat_beq, ◌==◌, nat_eq, list_eq, if◌then◌else◌,
}
use teatro.Prelude.Text.{Text, codes, is_empty}
use teatro.Prelude.Text.Slices.{rsplit_once}
use teatro.Ingest.{
  no_members, FileRole, PlanFileKey, uploaded, generated_m3u, PreparedPlanFile, IngestPlanFile,
  IngestPlanRom, plan_file,
}
use teatro.Ingest.Descriptors.{or_default}
use teatro.Ingest.DiscSets.{maximum}

-- `Path::file_stem` of a path of one component, which is a file's name or `..`.
abbrev pub stem_before : Text → Option (Text × Text) → Text
stem_before file_name none = file_name
stem_before file_name (some (before, after)) = if is_empty before then file_name else before

abbrev pub file_stem : Text → Text
file_stem file_name =
    if file_name == codes ".."
    then file_name
    else stem_before file_name (rsplit_once b'.' file_name)

abbrev pub is_disc_role : FileRole → Bool
is_disc_role FileRole.descriptor = true
is_disc_role FileRole.disc_image = true
is_disc_role _ = false

abbrev pub is_owner : Text → IngestPlanFile → Bool
is_owner stem file = is_disc_role file.role && file_stem file.original_file_name == stem

-- The first file of a rom that owns the stem.
unfoldable pub owning_file : Text → List IngestPlanFile → Option IngestPlanFile
owning_file stem [] = none
owning_file stem (file ∷ rest) = if is_owner stem file then some file else owning_file stem rest

abbrev pub with_sidecar : PreparedPlanFile → IngestPlanFile → IngestPlanRom → IngestPlanRom
with_sidecar sidecar owner rom = record rom {
  files =
      rom.files
      ++ plan_file sidecar owner.group_key FileRole.metadata_sidecar
          (or_default 0 (maximum (map (λ (file : IngestPlanFile). file.sort_index) rom.files)) + 1)
          owner.disc_index none false no_members
        ∷ [];
}

abbrev pub attach_here :
    PreparedPlanFile
    → IngestPlanRom
    → List IngestPlanRom
    → Option (List IngestPlanRom)
    → Option IngestPlanFile
    → Option (List IngestPlanRom)
attach_here sidecar rom rest later (some owner) = some (with_sidecar sidecar owner rom ∷ rest)
attach_here sidecar rom rest none none = none
attach_here sidecar rom rest (some later) none = some (rom ∷ later)

-- The roms with the sidecar in the first that owns it, where there is one.
unfoldable pub attach_sidecar : PreparedPlanFile → List IngestPlanRom → Option (List IngestPlanRom)
attach_sidecar sidecar [] = none
attach_sidecar sidecar (rom ∷ rest) =
    attach_here sidecar rom rest (attach_sidecar sidecar rest)
      (owning_file (file_stem sidecar.input.original_file_name) rom.files)

abbrev pub is_key : PlanFileKey → ℕ → Bool
is_key (uploaded other) index = nat_beq other index
is_key (generated_m3u rom_index) index = false

-- A rom of the sidecar alone.
abbrev pub is_alone : ℕ → List IngestPlanFile → Bool
is_alone index (file ∷ []) = is_key file.key index
is_alone index _ = false

abbrev pub without_alone : ℕ → List IngestPlanRom → Option (List IngestPlanRom) → List IngestPlanRom
without_alone index roms none = roms
without_alone index roms (some attached) = retain (λ rom. not (is_alone index rom.files)) attached

abbrev pub move_sidecar : PreparedPlanFile → List IngestPlanRom → List IngestPlanRom
move_sidecar sidecar roms = without_alone sidecar.input.index roms (attach_sidecar sidecar roms)

-- The loop over the files of a batch.
unfoldable pub move_sidecars : List PreparedPlanFile → List IngestPlanRom → List IngestPlanRom
move_sidecars [] roms = roms
move_sidecars (file ∷ rest) roms =
    move_sidecars rest (if file.extension == codes "sbi" then move_sidecar file roms else roms)
