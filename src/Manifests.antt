-- ===== src/Manifests.antt =====
-- services/ingest/manifests.rs: the paths that a playlist, a cue sheet and a GDI descriptor name.
pub mod Validation
pub mod References
use teatro.Prelude.{
  ℕ, Bool, true, false, not, ◌||◌, ◌&&◌, Option, none, some, List, [], ◌∷◌, map, any, retain, take,
  drop, length, ltb, nat_beq, ◌==◌, nat_eq, list_eq, if◌then◌else◌,
}
use teatro.Prelude.Fallible.{Result, ok, err, push_result, collect}
use teatro.Prelude.Text.{Text, codes, is_empty, is_control, strip_prefix}
use teatro.Prelude.Text.Slices.{
  trim, trim_start, starts_with, split, split_whitespace, eq_ignore_ascii_case, max_u32,
}
use teatro.Prelude.Text.Lines.{lines, split_once, parse_unsigned, max_usize}

pub data ManifestParseError : Type 0 where
  empty_path absolute_path parent_traversal unsafe_character : ManifestParseError
  invalid_gdi_track_count invalid_gdi_track_row : ManifestParseError

pub record GdiTrackReference : Type 0 where
  pub track_number : ℕ
  pub file_name : Text

-- Where `split(['/', '\\'])` splits.
abbrev pub is_separator : ℕ → Bool
is_separator c = nat_beq c b'/' || nat_beq c b'\\'

abbrev pub is_colon : ℕ → Bool
is_colon c = nat_beq c b':'

-- A segment that leaves its directory, or names none.
abbrev pub is_traversal : Text → Bool
is_traversal segment = is_empty segment || segment == codes "." || segment == codes ".."

abbrev pub is_unsafe : ℕ → Bool
is_unsafe c = nat_beq c 0 || is_control c

-- The tests on the trimmed path.
abbrev pub validate_trimmed : Text → Result ManifestParseError Text
validate_trimmed path =
    if is_empty path
    then err empty_path
    else if starts_with (codes "/") path || starts_with (codes "\\") path || any is_colon path
    then err absolute_path
    else if any is_unsafe path
    then err unsafe_character
    else if any is_traversal (split is_separator path)
    then err parent_traversal
    else ok path

unfoldable pub validate_relative_manifest_path : Text → Result ManifestParseError Text
validate_relative_manifest_path path = validate_trimmed (trim path)

-- A line of a playlist that names a path.
abbrev pub is_entry : Text → Bool
is_entry line = not (is_empty line) && not (starts_with (codes "#") line)

unfoldable pub parse_m3u_lines : Text → Result ManifestParseError (List Text)
parse_m3u_lines contents =
    collect validate_relative_manifest_path (retain is_entry (map trim (lines contents)))

abbrev pub first_word : List Text → Option Text
first_word [] = none
first_word (word ∷ words) = some word

abbrev pub before_quote : Option (Text × Text) → Option Text
before_quote none = none
before_quote (some (before, after)) = some before

abbrev pub quoted_or_word : Text → Option Text → Option Text
quoted_or_word rest (some after_quote) = before_quote (split_once b'"' after_quote)
quoted_or_word rest none = first_word (split_whitespace rest)

unfoldable pub parse_cue_file_operand : Text → Option Text
parse_cue_file_operand rest = quoted_or_word rest (strip_prefix (codes "\"") rest)

-- One round of the loop with what its operand is, before the references of the lines after it.
abbrev pub push_reference :
    Option Text → Result ManifestParseError (List Text) → Result ManifestParseError (List Text)
push_reference none references = references
push_reference (some file_name) references =
    push_result (validate_relative_manifest_path file_name) references

abbrev pub is_file_line : Text → Bool
is_file_line line = eq_ignore_ascii_case (take 4 line) (codes "FILE")

-- The loop over the lines.
unfoldable pub cue_references : List Text → Result ManifestParseError (List Text)
cue_references [] = ok []
cue_references (raw ∷ rest) =
    let references = cue_references rest in
    let line = trim_start raw in
    if not (is_file_line line)
    then references
    else push_reference (parse_cue_file_operand (trim_start (drop 4 line))) references

unfoldable pub parse_cue_file_references : Text → Result ManifestParseError (List Text)
parse_cue_file_references contents = cue_references (lines contents)

abbrev pub with_file_name :
    ℕ → Result ManifestParseError Text → Result ManifestParseError GdiTrackReference
with_file_name number (err error) = err error
with_file_name number (ok name) = ok (record { track_number = number; file_name = name })

abbrev pub with_track_number : Option ℕ → Text → Result ManifestParseError GdiTrackReference
with_track_number none path = err invalid_gdi_track_row
with_track_number (some number) path = with_file_name number (validate_relative_manifest_path path)

-- A row: its number, then four columns, of which the path is the last, and one more at least.
abbrev pub parse_gdi_row : List Text → Result ManifestParseError GdiTrackReference
parse_gdi_row (number ∷ _ ∷ _ ∷ _ ∷ path ∷ _ ∷ _) =
    with_track_number (parse_unsigned max_u32 number) path
parse_gdi_row _ = err invalid_gdi_track_row

abbrev pub parse_gdi_line : Text → Result ManifestParseError GdiTrackReference
parse_gdi_line line = parse_gdi_row (split_whitespace line)

-- The test after the loop.
abbrev pub if_counted :
    ℕ
    → Result ManifestParseError (List GdiTrackReference)
    → Result ManifestParseError (List GdiTrackReference)
if_counted track_count (err error) = err error
if_counted track_count (ok tracks) =
    if not (nat_beq (length tracks) track_count) then err invalid_gdi_track_count else ok tracks

abbrev pub gdi_tracks : Option ℕ → List Text → Result ManifestParseError (List GdiTrackReference)
gdi_tracks none rows = err invalid_gdi_track_count
gdi_tracks (some track_count) rows =
    if_counted track_count (collect parse_gdi_line (take track_count rows))

-- The lines that are not empty: the first is the count, the others are the rows.
abbrev pub gdi_lines : List Text → Result ManifestParseError (List GdiTrackReference)
gdi_lines [] = err invalid_gdi_track_count
gdi_lines (count ∷ rows) = gdi_tracks (parse_unsigned max_usize count) rows

abbrev pub is_full : Text → Bool
is_full line = not (is_empty line)

unfoldable pub parse_gdi_track_references :
    Text → Result ManifestParseError (List GdiTrackReference)
parse_gdi_track_references contents = gdi_lines (retain is_full (map trim (lines contents)))
