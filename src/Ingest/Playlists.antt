-- ===== src/Ingest/Playlists.antt =====
-- services/library/ingest/disc_sets.rs: the plan of a playlist that the user uploads.
use teatro.Prelude.{
  ℕ, suc, ◌+◌, ◌*◌, Bool, true, not, ◌&&◌, ◌||◌, Option, none, some, ◌>>=◌, List, [], ◌∷◌, ◌++◌,
  length, nat_beq, ◌==◌, nat_eq, list_eq, if◌then◌else◌,
}
use teatro.Prelude.Fallible.{Result, ok, err}
use teatro.Prelude.Text.{Text, codes, is_empty}
use teatro.Prelude.Text.Decimal.{decimal}
use teatro.Table.{Table}
use teatro.Normalization.Slugs.{slugify}
use teatro.Normalization.Playlists.{is_disc_image_extension}
use teatro.Ingest.{
  no_members, preferred_launch, user_supplied, PlanMetadata, FileRole, FileGroupKind,
  DependencyKind, PlanFileKey, PreparedPlanFile, IngestPlanGroup, IngestPlanError, IngestPlanRom,
  ingest_error, file_key, resolve_manifest_reference, plan_file, is_used, file_at,
}
use teatro.Ingest.Descriptors.{
  Placing, with_error, add_descriptor_dependencies, disc_part, use_index, or_default, plan_id_of,
}

-- What the plan of a playlist has after some entries: the groups, and the files, the dependencies, the
-- errors and the indices used. Its other parts do not change.
pub record PlaylistPlan : Type 0 where
  pub groups : List IngestPlanGroup
  pub placing : Placing

abbrev pub is_descriptor_extension : Text → Bool
is_descriptor_extension extension = extension == codes "cue" || extension == codes "gdi"

abbrev pub child_group_kind : Text → FileGroupKind
child_group_kind extension =
    if is_descriptor_extension extension then FileGroupKind.track_set else FileGroupKind.disc

-- The disc of a child's name, or the number of its entry, from 1.
abbrev pub display_index : PreparedPlanFile → ℕ → ℕ
display_index child ref_index =
    or_default (ref_index + 1) (disc_part (λ marker. marker.index) child.parsed.disc)

abbrev pub with_groups : List IngestPlanGroup → Option Placing → Option PlaylistPlan
with_groups groups none = none
with_groups groups (some placing) = some (record { groups = groups; placing = placing })

module _ (prepared : List PreparedPlanFile) (name_to_index : Table Text ℕ)
    (parent_key : PlanFileKey) where
  -- The file and the dependency of a child.
  abbrev pub push_child : ℕ → ℕ → PreparedPlanFile → Text → FileRole → Option ℕ → Placing → Placing
  push_child ref_index child_index child group_key role disc_index placing = record placing {
    used = use_index placing.used child_index;
    files =
        placing.files
        ++ plan_file child (some group_key) role (10 + ref_index * 10) disc_index none true
            no_members
          ∷ [];
    dependencies =
        placing.dependencies
        ++ record {
          parent_file_key = parent_key;
          child_file_key = file_key child_index;
          dependency_kind = DependencyKind.playlist_entry;
          sort_index = ref_index;
        }
          ∷ [];
  }

  -- The tracks of a child that is a descriptor.
  abbrev pub place_tracks_of : ℕ → ℕ → PreparedPlanFile → Text → Option ℕ → Placing → Option Placing
  place_tracks_of ref_index child_index child group_key disc_index placing =
      if is_descriptor_extension child.extension
      then add_descriptor_dependencies prepared name_to_index child_index child group_key disc_index
          (11 + ref_index * 10) placing
      else some placing

  -- A child's group, the child, and its tracks.
  abbrev pub place_child :
      ℕ → ℕ → PreparedPlanFile → IngestPlanGroup → FileRole → PlaylistPlan → Option PlaylistPlan
  place_child ref_index child_index child group role plan =
      with_groups (plan.groups ++ group ∷ []) (
        place_tracks_of ref_index child_index child group.key group.disc_index
          (push_child ref_index child_index child group.key role group.disc_index plan.placing))

abbrev pub entry_role : Text → FileRole
entry_role extension =
    if is_descriptor_extension extension
    then FileRole.descriptor
    else if is_disc_image_extension extension
    then FileRole.disc_image
    else FileRole.content

abbrev pub entry_group : Text → Text → ℕ → ℕ → PreparedPlanFile → IngestPlanGroup
entry_group plan_id slug disc_count ref_index child = record {
  key = plan_id ++ codes ":disc-" ++ decimal (ref_index + 1);
  kind = child_group_kind child.extension;
  display_name = codes "Disc " ++ decimal (display_index child ref_index);
  group_key = some (slug ++ codes ":disc-" ++ decimal (display_index child ref_index));
  disc_index = some (display_index child ref_index);
  disc_count = some (or_default disc_count (disc_part (λ marker. marker.count) child.parsed.disc));
  launchable = true;
  metadata = no_members;
}

abbrev pub plan_with_error : Text → Text → Text → PlaylistPlan → PlaylistPlan
plan_with_error code message file_name plan = record plan {
  placing = with_error code message file_name plan.placing;
}

-- `UserM3uContext`, and what it gives the plan.
module _ (prepared : List PreparedPlanFile) (name_to_index : Table Text ℕ) (m3u_index : ℕ)
    (m3u_file : PreparedPlanFile) (disc_count : ℕ) (plan_id slug : Text) where
  abbrev pub add_found : ℕ → ℕ → PlaylistPlan → Option PreparedPlanFile → Option PlaylistPlan
  add_found ref_index child_index plan none = none
  add_found ref_index child_index plan (some child) =
      if is_used plan.placing.used child_index && not (nat_beq child_index m3u_index)
      then some (
          plan_with_error (codes "file_used_by_multiple_groups")
            (codes "a batch file is referenced by more than one planned ROM")
            child.input.original_file_name plan)
      else place_child prepared name_to_index (file_key m3u_index) ref_index child_index child
          (entry_group plan_id slug disc_count ref_index child) (entry_role child.extension) plan

  abbrev pub add_resolved : ℕ → Text → PlaylistPlan → Option ℕ → Option PlaylistPlan
  add_resolved ref_index reference plan none = some (
      plan_with_error (codes "missing_manifest_dependency")
        (codes "manifest dependency " ++ reference ++ codes " is missing from the batch")
        m3u_file.input.original_file_name plan)
  add_resolved ref_index reference plan (some child_index) =
      add_found ref_index child_index plan (file_at prepared child_index)

  unfoldable pub add_reference : ℕ → Text → PlaylistPlan → Option PlaylistPlan
  add_reference ref_index reference plan =
      add_resolved ref_index reference plan (resolve_manifest_reference reference name_to_index)

  -- The loop over the references, from the number of the first.
  unfoldable pub add_references : ℕ → List Text → PlaylistPlan → Option PlaylistPlan
  add_references index [] plan = some plan
  add_references index (reference ∷ rest) plan =
      add_reference index reference plan >>= add_references (suc index) rest

-- `finish`, and the indices used: where there is no error, the rom with the groups, the files and the
-- dependencies of the plan.
abbrev pub finish :
    IngestPlanRom → PlaylistPlan → Result (List IngestPlanError) IngestPlanRom × List ℕ
finish rom plan = (
  (if is_empty plan.placing.errors
      then ok (record rom {
        groups = plan.groups;
        files = plan.placing.files;
        dependencies = plan.placing.dependencies;
      })
      else err plan.placing.errors),
  plan.placing.used,
)

abbrev pub finish_plan :
    IngestPlanRom
    → Option PlaylistPlan
    → Option (Result (List IngestPlanError) IngestPlanRom × List ℕ)
finish_plan rom none = none
finish_plan rom (some plan) = some (finish rom plan)

-- The parts of a rom that are there before its entries.
abbrev pub playlist_rom : PreparedPlanFile → ℕ → IngestPlanRom
playlist_rom first rom_index = record {
  plan_id = plan_id_of rom_index;
  title = first.parsed.clean_title;
  slug = slugify first.parsed.clean_title;
  regions = first.parsed.regions;
  groups = [];
  files = [];
  dependencies = [];
}

abbrev pub playlist_key : ℕ → Text
playlist_key rom_index = plan_id_of rom_index ++ codes ":playlist"

abbrev pub playlist_group : PreparedPlanFile → ℕ → ℕ → PlanMetadata → IngestPlanGroup
playlist_group first rom_index disc_count metadata = record {
  key = playlist_key rom_index;
  kind = FileGroupKind.playlist;
  display_name = first.parsed.clean_title;
  group_key = some (slugify first.parsed.clean_title ++ codes ":playlist");
  disc_index = none;
  disc_count = some disc_count;
  launchable = true;
  metadata = metadata;
}

-- The playlist alone, before its entries.
abbrev pub m3u_plan : PreparedPlanFile → ℕ → ℕ → List ℕ → ℕ → PlaylistPlan
m3u_plan m3u_file m3u_index disc_count used rom_index = record {
  groups = playlist_group m3u_file rom_index disc_count preferred_launch ∷ [];
  placing = record {
    used = use_index used m3u_index;
    files =
        plan_file m3u_file (some (playlist_key rom_index)) FileRole.launch_manifest 0 none none true
          user_supplied
        ∷ [];
    dependencies = [];
    errors = [];
  };
}

abbrev pub references_or_none : Option (List Text) → List Text
references_or_none none = []
references_or_none (some references) = references

abbrev pub plan_m3u :
    List PreparedPlanFile
    → Table Text ℕ
    → ℕ
    → List ℕ
    → ℕ
    → Option PreparedPlanFile
    → Option (Result (List IngestPlanError) IngestPlanRom × List ℕ)
plan_m3u prepared name_to_index m3u_index used rom_index none = none
plan_m3u prepared name_to_index m3u_index used rom_index (some m3u_file) =
    let references = references_or_none m3u_file.manifest.m3u in
    if is_empty references
    then some (
      err (
          ingest_error (codes "empty_manifest") (codes "m3u manifest does not reference any files")
            (some m3u_file.input.original_file_name)
          ∷ []),
      used,
    )
    else finish_plan (playlist_rom m3u_file rom_index) (
        add_references prepared name_to_index m3u_index m3u_file (length references)
          (plan_id_of rom_index) (slugify m3u_file.parsed.clean_title) 0 references
          (m3u_plan m3u_file m3u_index (length references) used rom_index))

unfoldable pub plan_m3u_rom :
    List PreparedPlanFile
    → Table Text ℕ
    → ℕ
    → List ℕ
    → ℕ
    → Option (Result (List IngestPlanError) IngestPlanRom × List ℕ)
plan_m3u_rom prepared name_to_index m3u_index used rom_index =
    plan_m3u prepared name_to_index m3u_index used rom_index (file_at prepared m3u_index)
