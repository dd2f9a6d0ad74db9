-- ===== src/Ingest/Prepared.antt =====
-- services/library/ingest/planner.rs: what is read of the files of an upload before they are planned.
use teatro.Prelude.{
  ℕ, ◌&&◌, not, Option, none, some, ◌>>=◌, List, [], ◌∷◌, ◌++◌, ◌==◌, is_some, nat_eq, list_eq,
  if◌then◌else◌,
}
use teatro.Prelude.Fallible.{Result, ok, err}
use teatro.Prelude.Text.{Text, codes}
use teatro.Table.{Table, insert, contains_key}
use teatro.Filename.Parse.{ParsedFilename, parse}
use teatro.Manifests.{
  ManifestParseError, empty_path, absolute_path, parent_traversal, unsafe_character,
  invalid_gdi_track_count, invalid_gdi_track_row, parse_m3u_lines, parse_cue_file_references,
  parse_gdi_track_references,
}
use teatro.Normalization.{LibraryServiceError, sanitize_upload_file_name}
use teatro.Normalization.Playlists.{extension_lower, is_manifest_extension}
use teatro.Ingest.{
  PlanInputFile, ManifestReferences, PreparedPlanFile, IngestPlanError, IngestPlanWarning,
  ingest_error,
}

pub record PreparedInputs : Type 0 where
  pub files : List PreparedPlanFile
  pub name_to_index : Table Text ℕ
  pub warnings : List IngestPlanWarning
  pub errors : List IngestPlanError

abbrev pub ingest_warning : Text → Text → Option Text → IngestPlanWarning
ingest_warning code message file_name = record {
  code = code;
  message = message;
  file_name = file_name;
}

-- `to_string` of the errors of a manifest.
abbrev pub manifest_error_text : ManifestParseError → Text
manifest_error_text empty_path = codes "manifest path is empty"
manifest_error_text absolute_path = codes "manifest path is absolute"
manifest_error_text parent_traversal = codes "manifest path contains parent traversal"
manifest_error_text unsafe_character = codes "manifest path contains an unsafe character"
manifest_error_text invalid_gdi_track_count = codes "GDI track count is invalid"
manifest_error_text invalid_gdi_track_row = codes "GDI track row is invalid"

abbrev pub no_references : ManifestReferences
no_references = record { m3u = none; cue = none; gdi = none }

abbrev pub mapped {ℓ κ} :
    {A : Type ℓ} {B : Type κ} → (A → B) → Result ManifestParseError A → Result ManifestParseError B
mapped f (ok a) = ok (f a)
mapped f (err error) = err error

abbrev pub parse_contents : Text → Text → Result ManifestParseError ManifestReferences
parse_contents extension contents =
    if extension == codes "m3u"
    then mapped (λ found. record no_references { m3u = some found }) (parse_m3u_lines contents)
    else if extension == codes "cue"
    then mapped (λ found. record no_references { cue = some found })
        (parse_cue_file_references contents)
    else if extension == codes "gdi"
    then mapped (λ found. record no_references { gdi = some found })
        (parse_gdi_track_references contents)
    else ok no_references

abbrev pub parse_manifest_references :
    Text → Option Text → Result ManifestParseError ManifestReferences
parse_manifest_references extension none = ok no_references
parse_manifest_references extension (some contents) = parse_contents extension contents

abbrev pub push_error : Text → Text → Text → PreparedInputs → PreparedInputs
push_error code message file_name prepared = record prepared {
  errors = prepared.errors ++ ingest_error code message (some file_name) ∷ [];
}

-- The name of an input, under which later references find it.
abbrev pub if_duplicate : Text → ℕ → PreparedInputs → PreparedInputs
if_duplicate file_name index prepared =
    let inserted = record prepared {
      name_to_index = insert file_name index prepared.name_to_index;
    } in
    if contains_key file_name prepared.name_to_index
    then push_error (codes "duplicate_file_name")
        (codes "batch uploads cannot contain duplicate filenames") file_name inserted
    else inserted

abbrev pub name_input :
    PlanInputFile → PreparedInputs → Result LibraryServiceError Text → PreparedInputs
name_input input prepared (ok file_name) = if_duplicate file_name input.index prepared
name_input input prepared (err error) =
    push_error (codes "invalid_file_name") (codes "upload filename is invalid")
      input.original_file_name prepared

abbrev pub refuse_split : PlanInputFile → ParsedFilename → PreparedInputs → PreparedInputs
refuse_split input parsed prepared =
    if is_some parsed.split_archive
    then push_error (codes "unsupported_split_archive")
        (codes "split archive uploads are not supported yet") input.original_file_name prepared
    else prepared

-- The references, and those none and an error where the manifest is not read.
abbrev pub read_manifest :
    PlanInputFile
    → PreparedInputs
    → Result ManifestParseError ManifestReferences
    → PreparedInputs × ManifestReferences
read_manifest input prepared (ok manifest) = (prepared, manifest)
read_manifest input prepared (err error) = (
  push_error (codes "invalid_manifest") (manifest_error_text error) input.original_file_name
      prepared,
  no_references,
)

abbrev pub warn_unread : PlanInputFile → Text → PreparedInputs → PreparedInputs
warn_unread input extension prepared =
    if is_manifest_extension extension && not (is_some input.manifest_contents)
    then record prepared {
      warnings =
          prepared.warnings
          ++ ingest_warning (codes "manifest_not_validated")
              (codes
                "manifest dependencies require file contents and will be validated during upload")
              (some input.original_file_name)
            ∷ [];
    }
    else prepared

abbrev pub push_file :
    PlanInputFile → ParsedFilename → Text → PreparedInputs × ManifestReferences → PreparedInputs
push_file input parsed extension (prepared, manifest) =
    let warned = warn_unread input extension prepared in
    record warned {
      files =
          warned.files
          ++ record { input = input; parsed = parsed; extension = extension; manifest = manifest }
            ∷ [];
    }

abbrev pub prepare_parsed : PlanInputFile → PreparedInputs → ParsedFilename → PreparedInputs
prepare_parsed input prepared parsed =
    let extension = extension_lower input.original_file_name in
    push_file input parsed extension (
      read_manifest input (refuse_split input parsed prepared)
        (parse_manifest_references extension input.manifest_contents))

-- `none` is a parser that does not end.
unfoldable pub prepare_input : PlanInputFile → PreparedInputs → Option PreparedInputs
prepare_input input prepared = parse input.original_file_name >>= λ parsed. some (
    prepare_parsed input
      (name_input input prepared (sanitize_upload_file_name input.original_file_name)) parsed)

unfoldable pub prepare_each : List PlanInputFile → PreparedInputs → Option PreparedInputs
prepare_each [] prepared = some prepared
prepare_each (input ∷ rest) prepared = prepare_input input prepared >>= prepare_each rest

abbrev pub nothing_prepared : PreparedInputs
nothing_prepared = record { files = []; name_to_index = []; warnings = []; errors = [] }

unfoldable pub prepare_inputs : List PlanInputFile → Option PreparedInputs
prepare_inputs inputs = prepare_each inputs nothing_prepared
