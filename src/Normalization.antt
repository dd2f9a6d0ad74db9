-- ===== src/Normalization.antt =====
-- services/library/normalization.rs: the names and the texts that an upload or an edit gives. The
-- children have the slugs, the names of archives, and the names that are still free.
pub mod Slugs
pub mod Archives
pub mod Free
pub mod Values
pub mod Playlists
use teatro.Prelude.{
  ℕ, Bool, true, false, not, ◌||◌, ◌&&◌, Option, none, some, List, [], ◌∷◌, any, length, leb,
  nat_beq, ◌==◌, nat_eq, list_eq, if◌then◌else◌,
}
use teatro.Prelude.Int.{ℤ, pos, negsuc}
use teatro.Prelude.Fallible.{Result, ok, err}
use teatro.Prelude.Text.{Text, codes, is_empty, is_control}
use teatro.Prelude.Text.Slices.{trim, to_ascii_lowercase, rsplit_once}
use teatro.Paths.{is_slash}
use teatro.Filename.Parse.{ParsedFilename, parse}

-- Those errors of `LibraryServiceError` that these functions return, and the planner.
pub data LibraryServiceError : Type 0 where
  invalid_file_name invalid_title invalid_metadata_field : LibraryServiceError
  invalid_ingest_plan : Text → LibraryServiceError

abbrev pub is_text_control : ℕ → Bool
is_text_control c = nat_beq c 0 || is_control c

abbrev pub is_name_separator : ℕ → Bool
is_name_separator c = is_slash c || nat_beq c b'\\' || is_text_control c

-- The tests on the trimmed name. A name that passes the second test has one component for
-- `Path::components`, so that the third test of the source never fails after it.
abbrev pub sanitize_trimmed : Text → Result LibraryServiceError Text
sanitize_trimmed file_name =
    if is_empty file_name || file_name == codes "." || file_name == codes ".."
    then err invalid_file_name
    else if any is_name_separator file_name
    then err invalid_file_name
    else ok file_name

unfoldable pub sanitize_upload_file_name : Text → Result LibraryServiceError Text
sanitize_upload_file_name file_name = sanitize_trimmed (trim file_name)

abbrev pub if_clean_title : Text → Result LibraryServiceError Text
if_clean_title title = if any is_text_control title then err invalid_title else ok title

abbrev pub title_of : Option ParsedFilename → Option Text
title_of none = none
title_of (some parsed) = some (parsed.clean_title)

unfoldable pub title_from_file_name : Text → Option Text
title_from_file_name file_name = title_of (parse file_name)

abbrev pub some_clean_title : Option Text → Option (Result LibraryServiceError Text)
some_clean_title none = none
some_clean_title (some title) = some (if_clean_title title)

-- The title that is asked for, if it is not blank, or that of the file's name. `none` is a parser
-- that does not end.
abbrev pub requested_or : Text → Option Text → Option (Result LibraryServiceError Text)
requested_or file_name none = some_clean_title (title_from_file_name file_name)
requested_or file_name (some requested) = elim (is_empty (trim requested)) [
  | true ↦ some_clean_title (title_from_file_name file_name)
  | false ↦ some (if_clean_title (trim requested))
]

unfoldable pub normalized_title : Option Text → Text → Option (Result LibraryServiceError Text)
normalized_title requested_title file_name = requested_or file_name requested_title

abbrev pub edit_trimmed : Text → Result LibraryServiceError Text
edit_trimmed title =
    if is_empty title || any is_text_control title then err invalid_title else ok title

unfoldable pub normalized_edit_title : Text → Result LibraryServiceError Text
normalized_edit_title title = edit_trimmed (trim title)

abbrev pub is_nul : ℕ → Bool
is_nul c = nat_beq c 0

abbrev pub clean_trimmed : Text → Result LibraryServiceError (Option Text)
clean_trimmed value =
    if any is_nul value
    then err invalid_metadata_field
    else if is_empty value
    then ok none
    else ok (some value)

unfoldable pub clean_optional_text : Text → Result LibraryServiceError (Option Text)
clean_optional_text value = clean_trimmed (trim value)

-- One more value, before those that the rest of the loop pushes.
abbrev pub push_value :
    Text → Result LibraryServiceError (List Text) → Result LibraryServiceError (List Text)
push_value value (ok normalized) = ok (value ∷ normalized)
push_value value (err error) = err error

abbrev pub is_seen : Text → List Text → Bool
is_seen key seen = any (λ known. known == key) seen

-- The loop, from the keys that were seen.
unfoldable pub normalize_values : List Text → List Text → Result LibraryServiceError (List Text)
normalize_values seen [] = ok []
normalize_values seen (raw ∷ values) =
    let value = trim raw in
    let key = to_ascii_lowercase value in
    elim (is_empty value) [
      | true ↦ normalize_values seen values
      | false ↦ elim (any is_text_control value) [
        | true ↦ err invalid_metadata_field
        | false ↦ elim (is_seen key seen) [
          | true ↦ normalize_values seen values
          | false ↦ push_value value (normalize_values (key ∷ seen) values)
        ]
      ]
    ]

unfoldable pub normalize_metadata_list : List Text → Result LibraryServiceError (List Text)
normalize_metadata_list values = normalize_values [] values

abbrev pub is_year : ℤ → Bool
is_year (pos year) = leb year 9999
is_year (negsuc n) = false

unfoldable pub normalize_release_year : Option ℤ → Result LibraryServiceError (Option ℤ)
normalize_release_year none = ok none
normalize_release_year (some year) =
    if is_year year then ok (some year) else err invalid_metadata_field
