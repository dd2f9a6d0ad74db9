-- ===== src/Normalization/Playlists.antt =====
-- services/library/normalization.rs: the file name of a playlist that is generated for a set of
-- discs, and the tests and the roles by which an upload is told apart.
use teatro.Prelude.{
  ℕ, suc, ◌+◌, ◌≡◌, refl, Bool, true, false, not, ◌||◌, ◌&&◌, Option, none, some, List, [], ◌∷◌,
  ◌++◌, any, all, length, take, drop, nat_beq, ◌==◌, nat_eq, list_eq, if◌then◌else◌,
}
use teatro.Prelude.Fallible.{Result, ok, err}
use teatro.Prelude.Text.{Text, codes, is_empty}
use teatro.Prelude.Text.Slices.{
  trim, to_ascii_lowercase, is_whitespace, trim_start_matches, trim_end_matches, starts_with, rfind,
  rsplit_once, split, split_whitespace, join,
}
use teatro.Filename.Disc.{DiscMarker}
use teatro.Filename.Parse.{ParsedFilename}
use teatro.Normalization.{sanitize_upload_file_name}
use teatro.Normalization.Free.{NameError, attempts, first_free, collision_file_name}

-- `str::find` of a text: how many characters stand before its first occurrence.
abbrev pub after_found : Bool → Option ℕ → Option ℕ
after_found true later = some 0
after_found false none = none
after_found false (some i) = some (suc i)

unfoldable pub find : Text → Text → Option ℕ
find pattern [] = if is_empty pattern then some 0 else none
find pattern (c ∷ s) = after_found (starts_with pattern (c ∷ s)) (find pattern s)

-- `replace_range(index..index + len, "")`.
abbrev pub cut_out : ℕ → ℕ → Text → Text
cut_out index len s = take index s ++ drop (index + len) s

abbrev pub is_gap : ℕ → Bool
is_gap c = is_whitespace c || nat_beq c b'-' || nat_beq c b'_'

-- The loop that makes each run of white space one blank, from whether the last one was.
abbrev pub single_blanks : Bool → Text → Text
single_blanks previous_space [] = []
single_blanks previous_space (c ∷ s) =
    let blank = single_blanks true s in
    let other = c ∷ single_blanks false s in
    if is_whitespace c then (if previous_space then blank else b' ' ∷ blank) else other

abbrev pub or_generated : Text → Text
or_generated cleaned = if is_empty cleaned then codes "generated" else cleaned

unfoldable pub clean_generated_base_name : Text → Text
clean_generated_base_name base_name =
    let cleaned = single_blanks false (trim base_name) in
    or_generated
      (join (split_whitespace (trim_end_matches is_gap (trim_start_matches is_gap cleaned))))

-- `before.chars().last().is_some_and(p)`.
abbrev pub last_is : (ℕ → Bool) → Text → Bool
last_is p [] = false
last_is p (c ∷ []) = p c
last_is p (c ∷ d ∷ s) = last_is p (d ∷ s)

-- A marker that stands at the end, after a gap.
abbrev pub cut_suffix : Text → Text → Option ℕ → Option Text
cut_suffix base_name raw none = none
cut_suffix base_name raw (some index) =
    if all is_gap (drop (index + length raw) base_name) && last_is is_gap (take index base_name)
    then some (clean_generated_base_name (cut_out index (length raw) base_name))
    else none

-- The loop over the two tokens, and what comes after it.
abbrev pub cut_wrapped : Text → Text → Option ℕ → Option Text → Option Text
cut_wrapped base_name token none rest = rest
cut_wrapped base_name token (some index) rest =
    some (clean_generated_base_name (cut_out index (length token) base_name))

abbrev pub cut_marker : Text → Text → Option Text
cut_marker base_name raw =
    let round = b'(' ∷ (raw ++ b')' ∷ []) in
    let square = b'[' ∷ (raw ++ b']' ∷ []) in
    cut_wrapped base_name round (find round base_name) (
      cut_wrapped base_name square (find square base_name)
        (cut_suffix base_name raw (rfind (to_ascii_lowercase raw) (to_ascii_lowercase base_name))))

abbrev pub strip_marker : Text → Option DiscMarker → Option Text
strip_marker base_name none = none
strip_marker base_name (some disc) = cut_marker base_name (trim disc.raw)

-- Of the file of the first disc, what its name is parsed as.
unfoldable pub strip_disc_marker_from_base_name : ParsedFilename → Option Text
strip_disc_marker_from_base_name parsed = strip_marker parsed.base_name parsed.disc

abbrev pub filled_or : Text → Option Text → Text
filled_or clean_title none = clean_title
filled_or clean_title (some base_name) =
    if is_empty (trim base_name) then clean_title else base_name

abbrev pub is_ok {ℓ κ} : {E : Type ℓ} {A : Type κ} → Result E A → Bool
is_ok (ok a) = true
is_ok (err error) = false

-- Whether a name is refused: a file of the batch has it, in any case, or no upload may have it.
abbrev pub is_refused : List Text → Text → Bool
is_refused reserved_file_names file_name =
    any (λ reserved. reserved == to_ascii_lowercase file_name) reserved_file_names
    || not (is_ok (sanitize_upload_file_name file_name))

abbrev pub or_fallback : Result (NameError (Unit {0})) Text → Text
or_fallback (ok file_name) = file_name
or_fallback (err error) = codes "generated.m3u"

abbrev pub desired_file_name : ParsedFilename → Text
desired_file_name parsed =
    clean_generated_base_name
      (filled_or parsed.clean_title (strip_disc_marker_from_base_name parsed))
    ++ codes ".m3u"

unfoldable pub generated_m3u_file_name : ParsedFilename → List Text → Text
generated_m3u_file_name parsed reserved_file_names = or_fallback (
    first_free (collision_file_name (desired_file_name parsed))
      (λ file_name. ok (is_refused reserved_file_names file_name)) attempts 0)

abbrev pub extension_of : Option (Text × Text) → Text
extension_of none = []
extension_of (some (stem, extension)) = to_ascii_lowercase extension

unfoldable pub extension_lower : Text → Text
extension_lower file_name = extension_of (rsplit_once b'.' file_name)

abbrev pub is_among : List Text → Text → Bool
is_among names name = any (λ other. other == name) names

abbrev pub is_manifest_extension : Text → Bool
is_manifest_extension extension = is_among (codes "m3u" ∷ codes "cue" ∷ codes "gdi" ∷ []) extension

abbrev pub is_manifest_file_name : Text → Bool
is_manifest_file_name file_name = is_manifest_extension (extension_lower file_name)

abbrev pub is_disc_image_extension : Text → Bool
is_disc_image_extension extension =
    is_among (codes "chd" ∷ codes "iso" ∷ codes "img" ∷ codes "cso" ∷ codes "rvz" ∷ []) extension

stripped : cut_marker (codes "Game - Disc 2") (codes "Disc 2") ≡ some (codes "Game")
unfolding trim split split_whitespace rfind find clean_generated_base_name
stripped = refl
