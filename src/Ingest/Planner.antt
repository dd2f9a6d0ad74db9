-- ===== src/Ingest/Planner.antt =====
-- services/library/ingest/planner.rs: the plan of a batch. How serde writes dump flags as JSON is a
-- parameter.
use teatro.Prelude.{
  ℕ, Bool, true, false, not, ◌||◌, Option, none, some, ◌>>=◌, List, [], ◌∷◌, ◌++◌, map, length,
  ◌==◌, is_some, nat_eq, list_eq, if◌then◌else◌,
}
use teatro.Prelude.Fallible.{Result, ok, err}
use teatro.Prelude.Text.{Text, codes, is_empty}
use teatro.Prelude.Text.Slices.{trim, to_ascii_lowercase}
use teatro.Prelude.Int.{ℤ}
use teatro.Table.{Table}
use teatro.Filename.Tokens.{DumpFlags}
use teatro.Normalization.Slugs.{slugify}
use teatro.Normalization.Playlists.{is_disc_image_extension}
use teatro.Ingest.{
  no_members, FileRole, FileGroupKind, PlanInputFile, PreparedPlanFile, IngestPlanError,
  IngestPlanWarning, IngestPlanRom, plan_file, is_used,
}
use teatro.Ingest.Descriptors.{disc_part, use_index, plan_id_of, plan_descriptor_rom}
use teatro.Ingest.Playlists.{is_descriptor_extension, plan_m3u_rom}
use teatro.Ingest.DiscSets.{plan_generated_m3u_rom}
use teatro.Ingest.DiscSets.Candidates.{has_descriptor_references, generated_m3u_candidate_groups}
use teatro.Ingest.Prepared.{PreparedInputs, ingest_warning, prepare_inputs}
use teatro.Ingest.Sidecars.{move_sidecars}

pub record IngestPlan : Type 0 where
  pub platform_id : ℤ
  pub platform_slug : Text
  pub roms : List IngestPlanRom
  pub warnings : List IngestPlanWarning
  pub errors : List IngestPlanError

-- What the loops of `plan_prepared_inputs` write to.
pub record Planning : Type 0 where
  pub used : List ℕ
  pub roms : List IngestPlanRom
  pub errors : List IngestPlanError

abbrev pub PlannedRom : Type 0
PlannedRom = Result (List IngestPlanError) IngestPlanRom × List ℕ

abbrev pub collect_planned_rom : Planning → PlannedRom → Planning
collect_planned_rom planning (ok rom, used) = record planning {
  used = used;
  roms = planning.roms ++ rom ∷ [];
}
collect_planned_rom planning (err errors, used) = record planning {
  used = used;
  errors = planning.errors ++ errors;
}

-- The loops that collect roms: `skips` is the test that continues, and the planner is given the
-- indices used and the number of roms.
module _ {ℓ} {X : Type ℓ} (skips : X → List ℕ → Bool)
    (planner : X → List ℕ → ℕ → Option PlannedRom) where
  abbrev pub plan_next : X → Planning → Option Planning
  plan_next x planning =
      if skips x planning.used
      then some planning
      else planner x planning.used (length planning.roms) >>= λ planned.
          some (collect_planned_rom planning planned)

  unfoldable pub plan_each : List X → Planning → Option Planning
  plan_each [] planning = some planning
  plan_each (x ∷ rest) planning = plan_next x planning >>= plan_each rest

abbrev pub is_no_playlist : PreparedPlanFile → List ℕ → Bool
is_no_playlist file used =
    not (file.extension == codes "m3u")
    || not (is_some file.manifest.m3u)
    || is_used used file.input.index

abbrev pub is_no_descriptor : PreparedPlanFile → List ℕ → Bool
is_no_descriptor file used =
    not (is_descriptor_extension file.extension)
    || is_used used file.input.index
    || not (has_descriptor_references file.manifest)

abbrev pub independent_role : Text → FileRole
independent_role extension =
    if extension == codes "m3u"
    then FileRole.launch_manifest
    else if is_descriptor_extension extension
    then FileRole.descriptor
    else if is_disc_image_extension extension
    then FileRole.disc_image
    else FileRole.content

abbrev pub plan_single_rom : PreparedPlanFile → ℕ → IngestPlanRom
plan_single_rom file rom_index =
    let title = file.parsed.clean_title in
    let group_key = plan_id_of rom_index ++ codes ":single" in
    let disc_index = disc_part (λ marker. marker.index) file.parsed.disc in
    record {
      plan_id = plan_id_of rom_index;
      title = title;
      slug = slugify title;
      regions = file.parsed.regions;
      groups =
          record {
            key = group_key;
            kind = FileGroupKind.single;
            display_name = title;
            group_key = some (slugify title);
            disc_index = disc_index;
            disc_count = disc_part (λ marker. marker.count) file.parsed.disc;
            launchable = true;
            metadata = no_members;
          }
          ∷ [];
      files =
          plan_file file (some group_key) (independent_role file.extension) 0 disc_index none true
            no_members
          ∷ [];
      dependencies = [];
    }

abbrev pub plan_single : PreparedPlanFile → Planning → Planning
plan_single file planning =
    if is_used planning.used file.input.index then planning else record planning {
      used = use_index planning.used file.input.index;
      roms = planning.roms ++ plan_single_rom file (length planning.roms) ∷ [];
    }

unfoldable pub plan_singles : List PreparedPlanFile → Planning → Planning
plan_singles [] planning = planning
plan_singles (file ∷ rest) planning = plan_singles rest (plan_single file planning)

abbrev pub nothing_planned : Planning
nothing_planned = record { used = []; roms = []; errors = [] }

abbrev pub reserved_names : Table Text ℕ → List Text
reserved_names name_to_index = map (λ (entry : Text × ℕ). to_ascii_lowercase entry.0) name_to_index

abbrev pub plan_disc_sets :
    List PreparedPlanFile → Table Text ℕ → Planning → List (List ℕ) → Option Planning
plan_disc_sets prepared name_to_index planning groups =
    plan_each (λ (candidate_indices : List ℕ) (used : List ℕ). false)
      (λ candidate_indices used rom_index.
        plan_generated_m3u_rom prepared name_to_index candidate_indices
          (reserved_names name_to_index) used rom_index)
      groups planning

-- The loops that collect roms.
abbrev pub plan_playlists : List PreparedPlanFile → Table Text ℕ → Option Planning
plan_playlists prepared name_to_index =
    plan_each is_no_playlist
      (λ file used rom_index. plan_m3u_rom prepared name_to_index file.input.index used rom_index)
      prepared nothing_planned

abbrev pub plan_descriptors : List PreparedPlanFile → Table Text ℕ → Planning → Option Planning
plan_descriptors prepared name_to_index planning =
    plan_each is_no_descriptor
      (λ file used rom_index.
        plan_descriptor_rom prepared name_to_index file.input.index used rom_index)
      prepared planning

abbrev pub overridden :
    Text → List IngestPlanRom → List IngestPlanWarning → List IngestPlanRom × List IngestPlanWarning
overridden title (rom ∷ []) warnings =
    (record rom { title = title; slug = slugify title } ∷ [], warnings)
overridden title roms warnings = (
  roms,
  warnings
      ++ ingest_warning (codes "title_override_ignored")
          (codes "title override is ignored for batch uploads that create multiple ROMs") none
        ∷ [],
)

abbrev pub apply_title_override :
    Option Text
    → List IngestPlanRom
    → List IngestPlanWarning
    → List IngestPlanRom × List IngestPlanWarning
apply_title_override none roms warnings = (roms, warnings)
apply_title_override (some title) roms warnings =
    if is_empty (trim title) then (roms, warnings) else overridden (trim title) roms warnings

abbrev pub with_override :
    ℤ → Text → Option Text → PreparedInputs → List IngestPlanRom × List IngestPlanError → IngestPlan
with_override platform_id platform_slug title_override prepared (roms, errors) =
    let (titled, warnings) = apply_title_override title_override roms prepared.warnings in
    record {
      platform_id = platform_id;
      platform_slug = platform_slug;
      roms = titled;
      warnings = warnings;
      errors = prepared.errors ++ errors;
    }

module _ (dump_flags_json : DumpFlags → Text) where
  abbrev pub plan_sets : List PreparedPlanFile → Table Text ℕ → Planning → Option Planning
  plan_sets prepared name_to_index planning =
      generated_m3u_candidate_groups dump_flags_json prepared planning.used
      >>= plan_disc_sets prepared name_to_index planning

  -- The roms and the errors.
  unfoldable pub plan_prepared_inputs :
      List PreparedPlanFile → Table Text ℕ → Option (List IngestPlanRom × List IngestPlanError)
  plan_prepared_inputs prepared name_to_index =
      plan_playlists prepared name_to_index
      >>= plan_sets prepared name_to_index
      >>= plan_descriptors prepared name_to_index
      >>= λ planning.
          let planned = plan_singles prepared planning in
          some (move_sidecars prepared planned.roms, planned.errors)

  abbrev pub plan_valid : PreparedInputs → Option (List IngestPlanRom × List IngestPlanError)
  plan_valid prepared =
      if is_empty prepared.errors
      then plan_prepared_inputs prepared.files prepared.name_to_index
      else some ([], [])

  unfoldable pub build_ingest_plan : ℤ → Text → List PlanInputFile → Option Text → Option IngestPlan
  build_ingest_plan platform_id platform_slug inputs title_override =
      prepare_inputs inputs >>= λ prepared. plan_valid prepared >>= λ planned.
      some (with_override platform_id platform_slug title_override prepared planned)
