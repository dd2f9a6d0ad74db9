-- ===== src/Ingest.antt =====
-- The plan of an upload: services/library/types.rs, and of domain/ingest.rs and domain/rom.rs the keys
-- and the roles of its files. Descriptors has services/library/ingest/descriptors.rs.
pub mod Descriptors
pub mod Placed
pub mod Planned
pub mod Playlists
pub mod DiscSets
pub mod Prepared
pub mod Sidecars
pub mod Planner
pub mod Titles
pub mod Covered
use teatro.Prelude.{
  ℕ, zero, suc, Bool, Option, none, some, List, [], ◌∷◌, any, nat_beq, ◌||◌, if◌then◌else◌, ◌>>=◌,
}
use teatro.Prelude.Text.{Text}
use teatro.Filename.Disc.{DiscMarker}
use teatro.Filename.Parse.{ParsedFilename}
use teatro.Manifests.{GdiTrackReference, is_separator}
use teatro.Table.{Table, lookup}
use teatro.Prelude.{nat_eq, list_eq}

pub data FileRole : Type 0 where
  content launch_manifest descriptor disc_image track archive_volume : FileRole
  manual patch dlc metadata_sidecar : FileRole

pub data FileGroupKind : Type 0 where
  single playlist disc track_set : FileGroupKind

pub data DependencyKind : Type 0 where
  playlist_entry cue_file gdi_track : DependencyKind

pub data PlanFileKey : Type 0 where
  uploaded generated_m3u : ℕ → PlanFileKey

pub record PlanInputFile : Type 0 where
  pub index : ℕ
  pub original_file_name : Text
  pub file_size_bytes : Option ℕ
  pub staged_path : Option Text
  pub manifest_contents : Option Text

pub record ManifestReferences : Type 0 where
  pub m3u : Option (List Text)
  pub cue : Option (List Text)
  pub gdi : Option (List GdiTrackReference)

pub record PreparedPlanFile : Type 0 where
  pub input : PlanInputFile
  pub parsed : ParsedFilename
  pub extension : Text
  pub manifest : ManifestReferences

-- The JSON objects that the planners give a group or a file: `{}`, `{"descriptor_format": e}`,
-- `{"preferred_launch": true}`, `{"source": "user_supplied"}`, the last two of a playlist that is
-- generated, `{"preferred_launch": true, "source": "generated"}`, and `{"disc_marker": d}`.
pub data PlanMetadata : Type 0 where
  no_members preferred_launch user_supplied generated_launch : PlanMetadata
  descriptor_format : Text → PlanMetadata
  disc_marker : Option DiscMarker → PlanMetadata

pub record IngestPlanGroup : Type 0 where
  pub key : Text
  pub kind : FileGroupKind
  pub display_name : Text
  pub group_key : Option Text
  pub disc_index : Option ℕ
  pub disc_count : Option ℕ
  pub launchable : Bool
  pub metadata : PlanMetadata

pub record IngestPlanFile : Type 0 where
  pub key : PlanFileKey
  pub group_key : Option Text
  pub original_file_name : Text
  pub file_size_bytes : Option ℕ
  pub role : FileRole
  pub sort_index : ℕ
  pub disc_index : Option ℕ
  pub track_index : Option ℕ
  pub launchable : Bool
  pub metadata : PlanMetadata
  pub parsed_filename : ParsedFilename

pub record IngestPlanDependency : Type 0 where
  pub parent_file_key : PlanFileKey
  pub child_file_key : PlanFileKey
  pub dependency_kind : DependencyKind
  pub sort_index : ℕ

pub record IngestPlanError : Type 0 where
  pub code : Text
  pub message : Text
  pub file_name : Option Text

abbrev pub ingest_error : Text → Text → Option Text → IngestPlanError
ingest_error code message file_name = record {
  code = code;
  message = message;
  file_name = file_name;
}

pub record IngestPlanWarning : Type 0 where
  pub code : Text
  pub message : Text
  pub file_name : Option Text

pub record IngestPlanRom : Type 0 where
  pub plan_id : Text
  pub title : Text
  pub slug : Text
  pub regions : List Text
  pub groups : List IngestPlanGroup
  pub files : List IngestPlanFile
  pub dependencies : List IngestPlanDependency

abbrev pub file_key : ℕ → PlanFileKey
file_key index = PlanFileKey.uploaded index

-- A reference names a file of the batch by its name alone.
abbrev pub resolve_manifest_reference : Text → Table Text ℕ → Option ℕ
resolve_manifest_reference reference name_to_index =
    if any is_separator reference then none else lookup reference name_to_index

abbrev pub plan_file :
    PreparedPlanFile
    → Option Text
    → FileRole
    → ℕ
    → Option ℕ
    → Option ℕ
    → Bool
    → PlanMetadata
    → IngestPlanFile
plan_file file group_key role sort_index disc_index track_index launchable metadata = record {
  key = file_key file.input.index;
  group_key = group_key;
  original_file_name = file.input.original_file_name;
  file_size_bytes = file.input.file_size_bytes;
  role = role;
  sort_index = sort_index;
  disc_index = disc_index;
  track_index = track_index;
  launchable = launchable;
  metadata = metadata;
  parsed_filename = file.parsed;
}

-- `used.contains`, of a set of indices that is kept in the order of the insertions.
abbrev pub is_used : List ℕ → ℕ → Bool
is_used used index = any (λ other. nat_beq other index) used

-- `prepared[index]`: `none` is a panic.
abbrev pub file_at : List PreparedPlanFile → ℕ → Option PreparedPlanFile
file_at [] index = none
file_at (file ∷ rest) zero = some file
file_at (file ∷ rest) (suc index) = file_at rest index

-- The files that the indices stand for.
abbrev pub files_at : List PreparedPlanFile → List ℕ → Option (List (ℕ × PreparedPlanFile))
files_at prepared [] = some []
files_at prepared (index ∷ rest) = file_at prepared index >>= λ file.
    files_at prepared rest >>= λ files. some ((index, file) ∷ files)
