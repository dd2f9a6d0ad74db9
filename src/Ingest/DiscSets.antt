-- ===== src/Ingest/DiscSets.antt =====
-- services/library/ingest/disc_sets.rs: the playlist that is generated for a set of discs. Candidates
-- has the sets of a batch.
pub mod Candidates
pub mod Counting
pub mod Numbered
pub mod Whole
use Prim.Native.Nat.{◌-◌}
use teatro.Prelude.{
  ℕ, zero, suc, ◌+◌, ◌*◌, max, Bool, true, false, not, ◌&&◌, ◌||◌, Option, none, some, ◌>>=◌, List,
  [], ◌∷◌, ◌++◌, map, any, retain, length, nat_beq, ltb, leb, is_some, compare, Ordering, ◌==◌,
  nat_eq, list_eq, if◌then◌else◌,
}
use teatro.Prelude.Fallible.{Result, ok, err}
use teatro.Prelude.Text.{Text, codes, is_empty, byte_len, text_le}
use teatro.Prelude.Text.Slices.{to_ascii_lowercase}
use teatro.Prelude.Text.Decimal.{decimal}
use teatro.Table.{Table}
use teatro.Filename.Disc.{DiscMarker}
use teatro.Filename.Tokens.{DumpFlags}
use teatro.Filename.Parse.{ParsedFilename, parse}
use teatro.Normalization.{LibraryServiceError, sanitize_upload_file_name}
use teatro.Normalization.Slugs.{slugify}
use teatro.Normalization.Playlists.{is_disc_image_extension, generated_m3u_file_name}
use teatro.Manifests.{GdiTrackReference}
use teatro.Ingest.{
  generated_launch, disc_marker, FileRole, FileGroupKind, generated_m3u, ManifestReferences,
  PreparedPlanFile, IngestPlanGroup, IngestPlanError, IngestPlanRom, ingest_error, is_used,
  files_at,
}
use teatro.Ingest.Descriptors.{Placing, disc_part, or_default, plan_id_of}
use teatro.Ingest.Playlists.{
  PlaylistPlan, is_descriptor_extension, child_group_kind, display_index, place_child, finish_plan,
  playlist_rom, playlist_key, playlist_group,
}

-- A file of the batch with the index that led to it.
abbrev pub Candidate : Type 0
Candidate = ℕ × PreparedPlanFile

abbrev pub candidate_disc : Candidate → Option ℕ
candidate_disc (index, file) = disc_part (λ marker. marker.index) file.parsed.disc

abbrev pub candidate_count : Candidate → Option ℕ
candidate_count (index, file) = disc_part (λ marker. marker.count) file.parsed.disc

-- `filter_map`.
abbrev pub push_some {ℓ} : {A : Type ℓ} → Option A → List A → List A
push_some none rest = rest
push_some (some a) rest = a ∷ rest

abbrev pub filter_map {ℓ κ} : {A : Type ℓ} {B : Type κ} → (A → Option B) → List A → List B
filter_map f [] = []
filter_map f (a ∷ rest) = push_some (f a) (filter_map f rest)

-- `Iterator::max`.
abbrev pub maximum : List ℕ → Option ℕ
maximum [] = none
maximum (n ∷ rest) = some (max n (or_default 0 (maximum rest)))

unfoldable pub generated_disc_count : List Candidate → ℕ
generated_disc_count candidates =
    let explicit_count = maximum (filter_map candidate_count candidates) in
    let max_index =
      or_default (length candidates) (maximum (filter_map candidate_disc candidates)) in
    max (max (or_default max_index explicit_count) max_index) (length candidates)

-- The first loop: the discs that are present, and an error for each that is there again.
abbrev pub note_disc :
    PreparedPlanFile → List ℕ × List IngestPlanError → Option ℕ → List ℕ × List IngestPlanError
note_disc file (present, errors) none = (present, errors)
note_disc file (present, errors) (some disc_index) =
    if is_used present disc_index
    then (
      present,
      errors
          ++ ingest_error (codes "duplicate_disc_index")
              (codes "multi-disc set contains more than one file for disc " ++ decimal disc_index)
              (some file.input.original_file_name)
            ∷ [],
    )
    else (present ++ disc_index ∷ [], errors)

unfoldable pub note_discs :
    List Candidate → List ℕ × List IngestPlanError → List ℕ × List IngestPlanError
note_discs [] noted = noted
note_discs (candidate ∷ rest) noted =
    note_discs rest (note_disc candidate.1 noted (candidate_disc candidate))

-- Those of `1..=disc_count` that are not present, from the number of rounds left.
unfoldable pub missing_discs : List ℕ → ℕ → ℕ → List ℕ
missing_discs present zero disc_index = []
missing_discs present (suc rounds) disc_index =
    let rest = missing_discs present rounds (suc disc_index) in
    if is_used present disc_index then rest else disc_index ∷ rest

-- `join` with a text between.
abbrev pub join_with : Text → List Text → Text
join_with separator [] = []
join_with separator (part ∷ []) = part
join_with separator (part ∷ next ∷ parts) = part ++ separator ++ join_with separator (next ∷ parts)

abbrev pub with_missing :
    PreparedPlanFile → ℕ → List ℕ → List IngestPlanError → List IngestPlanError
with_missing first disc_count missing errors =
    if is_empty missing
    then errors
    else errors
      ++ ingest_error (codes "missing_disc_file")
          (codes "multi-disc set is missing disc "
            ++ join_with (codes ", ") (map decimal missing)
            ++ codes " of "
            ++ decimal disc_count)
          (some first.input.original_file_name)
        ∷ []

unfoldable pub validate_generated_disc_set :
    PreparedPlanFile → List Candidate → ℕ → List IngestPlanError
validate_generated_disc_set first candidates disc_count =
    let noted = note_discs candidates ([], []) in
    with_missing first disc_count (missing_discs noted.0 disc_count 1) noted.1

-- `expect`: a name that is refused is a panic.
abbrev pub accepted : Result LibraryServiceError Text → Option Text
accepted (ok file_name) = some file_name
accepted (err error) = none

abbrev pub preview_file_names : List Candidate → Option (List Text)
preview_file_names [] = some []
preview_file_names (candidate ∷ rest) =
    accepted (sanitize_upload_file_name candidate.1.input.original_file_name) >>= λ file_name.
    preview_file_names rest >>= λ file_names. some (file_name ∷ file_names)

abbrev pub preview_contents : List Text → Text
preview_contents file_names = join_with (b'\n' ∷ []) file_names ++ b'\n' ∷ []

-- The generated playlist alone, before its discs.
abbrev pub generated_plan :
    PreparedPlanFile → ℕ → List ℕ → ℕ → Text → List Text → ParsedFilename → PlaylistPlan
generated_plan first disc_count used rom_index generated_file_name file_names parsed_filename =
    record {
      groups = playlist_group first rom_index disc_count generated_launch ∷ [];
      placing = record {
        used = used;
        files =
            record {
              key = generated_m3u rom_index;
              group_key = some (playlist_key rom_index);
              original_file_name = generated_file_name;
              file_size_bytes = some (byte_len (preview_contents file_names));
              role = FileRole.launch_manifest;
              sort_index = 0;
              disc_index = none;
              track_index = none;
              launchable = true;
              metadata = generated_launch;
              parsed_filename = parsed_filename;
            }
            ∷ [];
        dependencies = [];
        errors = [];
      };
    }

abbrev pub disc_group : ℕ → Text → ℕ → ℕ → PreparedPlanFile → IngestPlanGroup
disc_group rom_index slug disc_count ref_index child = record {
  key = plan_id_of rom_index ++ codes ":disc-" ++ decimal (display_index child ref_index);
  kind = child_group_kind child.extension;
  display_name = codes "Disc " ++ decimal (display_index child ref_index);
  group_key = some (slug ++ codes ":disc-" ++ decimal (display_index child ref_index));
  disc_index = some (display_index child ref_index);
  disc_count = some disc_count;
  launchable = true;
  metadata = disc_marker child.parsed.disc;
}

abbrev pub disc_role : Text → FileRole
disc_role extension =
    if is_descriptor_extension extension then FileRole.descriptor else FileRole.disc_image

module _ (prepared : List PreparedPlanFile) (name_to_index : Table Text ℕ) (slug : Text)
    (disc_count rom_index : ℕ) where
  -- The loop over the discs, from the number of the first.
  unfoldable pub add_discs : ℕ → List Candidate → PlaylistPlan → Option PlaylistPlan
  add_discs ref_index [] plan = some plan
  add_discs ref_index ((child_index, child) ∷ rest) plan =
      place_child prepared name_to_index (generated_m3u rom_index) ref_index child_index child
        (disc_group rom_index slug disc_count ref_index child) (disc_role child.extension) plan
      >>= add_discs (suc ref_index) rest

  abbrev pub plan_discs :
      PreparedPlanFile
      → List Candidate
      → List ℕ
      → Text
      → Option (Result (List IngestPlanError) IngestPlanRom × List ℕ)
  plan_discs first candidates used generated_file_name =
      preview_file_names candidates >>= λ file_names.
      parse generated_file_name >>= λ parsed_filename. finish_plan (playlist_rom first rom_index) (
        add_discs 0 candidates (
          generated_plan first disc_count used rom_index generated_file_name file_names
            parsed_filename))

abbrev pub plan_generated :
    List PreparedPlanFile
    → Table Text ℕ
    → List Candidate
    → List Text
    → List ℕ
    → ℕ
    → Option (Result (List IngestPlanError) IngestPlanRom × List ℕ)
plan_generated prepared name_to_index [] reserved_file_names used rom_index = none
plan_generated prepared name_to_index ((index, first) ∷ rest) reserved_file_names used rom_index =
    let candidates = (index, first) ∷ rest in
    let disc_count = generated_disc_count candidates in
    let errors = validate_generated_disc_set first candidates disc_count in
    if is_empty errors
    then plan_discs prepared name_to_index (slugify first.parsed.clean_title) disc_count rom_index
        first candidates used (generated_m3u_file_name first.parsed reserved_file_names)
    else some (err errors, used)

-- Each index of the candidates is looked up, `none` is a panic.
unfoldable pub plan_generated_m3u_rom :
    List PreparedPlanFile
    → Table Text ℕ
    → List ℕ
    → List Text
    → List ℕ
    → ℕ
    → Option (Result (List IngestPlanError) IngestPlanRom × List ℕ)
plan_generated_m3u_rom prepared name_to_index candidate_indices reserved_file_names used rom_index =
    files_at prepared candidate_indices >>= λ candidates.
    plan_generated prepared name_to_index candidates reserved_file_names used rom_index
