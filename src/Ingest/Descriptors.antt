-- ===== src/Ingest/Descriptors.antt =====
-- services/library/ingest/descriptors.rs: the plan of a cue sheet or a GDI descriptor and its tracks.
use teatro.Prelude.{
  ℕ, suc, ◌+◌, true, false, Option, none, some, ◌>>=◌, List, [], ◌∷◌, ◌++◌, map, ◌==◌, nat_eq,
  list_eq, if◌then◌else◌,
}
use teatro.Prelude.Fallible.{Result, ok, err}
use teatro.Prelude.Text.{Text, codes, is_empty}
use teatro.Prelude.Text.Decimal.{decimal}
use teatro.Filename.Disc.{DiscMarker}
use teatro.Manifests.{GdiTrackReference}
use teatro.Normalization.Slugs.{slugify}
use teatro.Table.{Table}
use teatro.Ingest.{
  no_members, descriptor_format, ingest_error, FileRole, FileGroupKind, DependencyKind,
  PreparedPlanFile, IngestPlanFile, IngestPlanDependency, IngestPlanError, IngestPlanRom, file_key,
  resolve_manifest_reference, plan_file, is_used, file_at,
}

pub record DescriptorTrackRef : Type 0 where
  pub file_name : Text
  pub track_index : Option ℕ

abbrev pub cue_references : ℕ → List Text → List DescriptorTrackRef
cue_references index [] = []
cue_references index (file_name ∷ rest) =
    record { file_name = file_name; track_index = some (index + 1) }
    ∷ cue_references (suc index) rest

abbrev pub gdi_reference : GdiTrackReference → DescriptorTrackRef
gdi_reference reference = record {
  file_name = reference.file_name;
  track_index = some (reference.track_number);
}

abbrev pub gdi_references : Option (List GdiTrackReference) → List DescriptorTrackRef
gdi_references none = []
gdi_references (some references) = map gdi_reference references

abbrev pub references_of :
    Option (List Text) → Option (List GdiTrackReference) → List DescriptorTrackRef
references_of (some cue) gdi = cue_references 0 cue
references_of none gdi = gdi_references gdi

abbrev pub descriptor_track_references : PreparedPlanFile → List DescriptorTrackRef
descriptor_track_references descriptor =
    references_of descriptor.manifest.cue descriptor.manifest.gdi

abbrev pub descriptor_dependency_kind : Text → DependencyKind
descriptor_dependency_kind extension =
    if extension == codes "gdi" then DependencyKind.gdi_track else DependencyKind.cue_file

-- What the loop over the references writes to.
pub record Placing : Type 0 where
  pub used : List ℕ
  pub files : List IngestPlanFile
  pub dependencies : List IngestPlanDependency
  pub errors : List IngestPlanError

abbrev pub with_error : Text → Text → Text → Placing → Placing
with_error code message file_name placing = record placing {
  errors = placing.errors ++ ingest_error code message (some file_name) ∷ [];
}

abbrev pub or_default : ℕ → Option ℕ → ℕ
or_default n none = n
or_default n (some m) = m

module _ (prepared : List PreparedPlanFile) (name_to_index : Table Text ℕ) (descriptor_index : ℕ)
    (descriptor : PreparedPlanFile) (group_key : Text) (disc_index : Option ℕ)
    (base_sort_index : ℕ) where
  -- A track that is found and free.
  abbrev pub push_track : ℕ → DescriptorTrackRef → ℕ → PreparedPlanFile → Placing → Placing
  push_track index track_ref track_index track_file placing = record placing {
    used = placing.used ++ track_index ∷ [];
    files =
        placing.files
        ++ plan_file track_file (some group_key) FileRole.track (base_sort_index + index) disc_index
            (some (or_default (index + 1) track_ref.track_index)) false no_members
          ∷ [];
    dependencies =
        placing.dependencies
        ++ record {
          parent_file_key = file_key descriptor_index;
          child_file_key = file_key track_index;
          dependency_kind = descriptor_dependency_kind descriptor.extension;
          sort_index = index;
        }
          ∷ [];
  }

  abbrev pub place_found :
      ℕ → DescriptorTrackRef → ℕ → Placing → Option PreparedPlanFile → Option Placing
  place_found index track_ref track_index placing none = none
  place_found index track_ref track_index placing (some track_file) =
      if is_used placing.used track_index
      then some (
          with_error (codes "file_used_by_multiple_groups")
            (codes "a batch file is referenced by more than one planned ROM")
            track_file.input.original_file_name placing)
      else some (push_track index track_ref track_index track_file placing)

  abbrev pub place_track : ℕ → DescriptorTrackRef → Placing → Option ℕ → Option Placing
  place_track index track_ref placing none = some (
      with_error (codes "missing_manifest_dependency")
        (codes "descriptor dependency "
          ++ track_ref.file_name
          ++ codes " is missing from the batch")
        descriptor.input.original_file_name placing)
  place_track index track_ref placing (some track_index) =
      place_found index track_ref track_index placing (file_at prepared track_index)

  -- The loop over the references, from the number of the first.
  unfoldable pub place_tracks : ℕ → List DescriptorTrackRef → Placing → Option Placing
  place_tracks index [] placing = some placing
  place_tracks index (track_ref ∷ rest) placing =
      place_track index track_ref placing
        (resolve_manifest_reference track_ref.file_name name_to_index)
      >>= place_tracks (suc index) rest

  unfoldable pub add_descriptor_dependencies : Placing → Option Placing
  add_descriptor_dependencies placing =
      let track_refs = descriptor_track_references descriptor in
      if is_empty track_refs
      then some (
          with_error (codes "empty_manifest")
            (codes "descriptor does not reference any track files")
            descriptor.input.original_file_name placing)
      else place_tracks 0 track_refs placing

abbrev pub disc_part : (DiscMarker → Option ℕ) → Option DiscMarker → Option ℕ
disc_part part none = none
disc_part part (some marker) = part marker

abbrev pub track_set_name : Text → Option ℕ → Text
track_set_name title none = title
track_set_name title (some index) = codes "Disc " ++ decimal index ++ codes " track set"

-- `used.insert`.
abbrev pub use_index : List ℕ → ℕ → List ℕ
use_index used index = if is_used used index then used else used ++ index ∷ []

-- The end: the rom where there is no error, and the errors otherwise.
abbrev pub planned_rom :
    IngestPlanRom → Placing → Result (List IngestPlanError) IngestPlanRom × List ℕ
planned_rom rom placing =
    if is_empty placing.errors
    then (
      ok (record rom { files = placing.files; dependencies = placing.dependencies }),
      placing.used,
    )
    else (err placing.errors, placing.used)

abbrev pub with_placing :
    IngestPlanRom → Option Placing → Option (Result (List IngestPlanError) IngestPlanRom × List ℕ)
with_placing rom none = none
with_placing rom (some placing) = some (planned_rom rom placing)

abbrev pub plan_id_of : ℕ → Text
plan_id_of rom_index = codes "rom-" ++ decimal (rom_index + 1)

abbrev pub track_set_key : ℕ → Text
track_set_key rom_index = plan_id_of rom_index ++ codes ":track-set"

abbrev pub track_set_rom : PreparedPlanFile → ℕ → IngestPlanRom
track_set_rom descriptor rom_index =
    let title = descriptor.parsed.clean_title in
    let disc_index = disc_part (λ marker. marker.index) descriptor.parsed.disc in
    record {
      plan_id = plan_id_of rom_index;
      title = title;
      slug = slugify title;
      regions = descriptor.parsed.regions;
      groups =
          record {
            key = track_set_key rom_index;
            kind = FileGroupKind.track_set;
            display_name = track_set_name title disc_index;
            group_key = some (slugify title ++ codes ":track-set");
            disc_index = disc_index;
            disc_count = disc_part (λ marker. marker.count) descriptor.parsed.disc;
            launchable = true;
            metadata = descriptor_format descriptor.extension;
          }
          ∷ [];
      files = [];
      dependencies = [];
    }

-- The descriptor alone, before its tracks.
abbrev pub descriptor_placing : PreparedPlanFile → ℕ → ℕ → List ℕ → Placing
descriptor_placing descriptor descriptor_index rom_index used = record {
  used = use_index used descriptor_index;
  files =
      plan_file descriptor (some (track_set_key rom_index)) FileRole.descriptor 0
        (disc_part (λ marker. marker.index) descriptor.parsed.disc) none true
        (descriptor_format descriptor.extension)
      ∷ [];
  dependencies = [];
  errors = [];
}

abbrev pub plan_descriptor :
    List PreparedPlanFile
    → Table Text ℕ
    → ℕ
    → List ℕ
    → ℕ
    → Option PreparedPlanFile
    → Option (Result (List IngestPlanError) IngestPlanRom × List ℕ)
plan_descriptor prepared name_to_index descriptor_index used rom_index none = none
plan_descriptor prepared name_to_index descriptor_index used rom_index (some descriptor) =
    with_placing (track_set_rom descriptor rom_index) (
      add_descriptor_dependencies prepared name_to_index descriptor_index descriptor
        (track_set_key rom_index) (disc_part (λ marker. marker.index) descriptor.parsed.disc) 1
        (descriptor_placing descriptor descriptor_index rom_index used))

unfoldable pub plan_descriptor_rom :
    List PreparedPlanFile
    → Table Text ℕ
    → ℕ
    → List ℕ
    → ℕ
    → Option (Result (List IngestPlanError) IngestPlanRom × List ℕ)
plan_descriptor_rom prepared name_to_index descriptor_index used rom_index =
    plan_descriptor prepared name_to_index descriptor_index used rom_index
      (file_at prepared descriptor_index)
