-- ===== src/Filename/Disc.antt =====
-- services/ingest/filename.rs: the disc that a name or one of its tokens gives.
pub mod Markers
use teatro.Prelude.{
  ℕ, ◌+◌, ◌-◌, Bool, true, false, not, ◌&&◌, ◌||◌, Option, none, some, List, [], ◌∷◌, ◌++◌, nat_beq,
  leb, ltb, length, drop, if◌then◌else◌,
}
use teatro.Prelude.Text.{
  Text, codes, is_ascii_digit, is_ascii_alphabetic, is_ascii_alphanumeric, is_empty, strip_prefix,
}
use teatro.Prelude.Text.Slices.{
  char_to_upper, to_ascii_lowercase, trim, trim_start, trim_start_matches, take_while, parse_digits,
}
use teatro.Filename.Title.{clean_title}

pub data DiscMarkerKind : Type 0 where
  disc disk cd side : DiscMarkerKind

pub record DiscMarker : Type 0 where
  pub raw : Text
  pub kind : DiscMarkerKind
  pub index : Option ℕ
  pub count : Option ℕ
  pub side_name : Option Text

abbrev pub is_side : DiscMarkerKind → Bool
is_side side = true
is_side _ = false

-- The characters of `trim_start_matches([' ', '-', '_'])`.
abbrev pub is_gap : ℕ → Bool
is_gap c = nat_beq c b' ' || nat_beq c b'-' || nat_beq c b'_'

-- The index, the side and what stands after them.
abbrev pub MarkerIndex : Type 0
MarkerIndex = ℕ × Option Text × Text

abbrev pub digits_index : Text → Option ℕ → Option MarkerIndex
digits_index after none = none
digits_index after (some value) =
    if nat_beq value 0 then none else some (value, none, trim_start after)

abbrev pub starts_alphanumeric : Text → Bool
starts_alphanumeric [] = false
starts_alphanumeric (c ∷ s) = is_ascii_alphanumeric c

abbrev pub original_letter : Text → ℕ → Text
original_letter [] letter = letter ∷ []
original_letter (c ∷ s) letter = char_to_upper c ∷ []

abbrev pub letter_index : ℕ → Text → Text → Bool → Option MarkerIndex
letter_index letter remainder rest_original prefer_side =
    if not (leb b'A' letter && leb letter b'D')
    then none
    else if starts_alphanumeric remainder
    then none
    else some (
      letter - b'A' + 1,
      (if prefer_side then some (original_letter rest_original letter) else none),
      trim_start remainder,
    )

unfoldable pub parse_marker_index : Text → Text → Bool → Option MarkerIndex
parse_marker_index [] rest_original prefer_side = none
parse_marker_index (first ∷ rest) rest_original prefer_side =
    if is_ascii_digit first
    then digits_index (trim_start_matches is_ascii_digit (first ∷ rest))
        (parse_digits (take_while is_ascii_digit (first ∷ rest)))
    else if is_ascii_alphabetic first
    then letter_index (char_to_upper first) rest rest_original prefer_side
    else none

-- `.filter(|count| *count > 0)`.
abbrev pub if_positive : Option ℕ → Option ℕ
if_positive none = none
if_positive (some count) = if ltb 0 count then some count else none

abbrev pub count_after : Option Text → Option ℕ
count_after none = none
count_after (some rest) =
    if_positive (parse_digits (take_while is_ascii_digit (trim_start_matches is_gap rest)))

unfoldable pub parse_marker_count : Text → Option ℕ
parse_marker_count remainder =
    count_after (strip_prefix (codes "of") (trim_start_matches is_gap remainder))

abbrev pub marker_of : Text → DiscMarkerKind → Option MarkerIndex → Option DiscMarker
marker_of trimmed kind none = none
marker_of trimmed kind (some (index, side_name, remainder)) = some (record {
  raw = trimmed;
  kind = kind;
  index = some index;
  count = parse_marker_count remainder;
  side_name = side_name;
})

-- One round of the loop: `continue` where the prefix does not stand there.
abbrev pub marker_after :
    Text → Text → DiscMarkerKind → Option Text → Option DiscMarker → Option DiscMarker
marker_after trimmed start kind none next = next
marker_after trimmed start kind (some rest) next = marker_of trimmed kind (
    parse_marker_index (trim_start_matches is_gap rest)
      (trim_start_matches is_gap (drop (length start) trimmed)) (is_side kind))

abbrev pub marker_prefixes : List (Text × DiscMarkerKind)
marker_prefixes =
    (codes "disc", disc) ∷ (codes "disk", disk) ∷ (codes "cd", cd) ∷ (codes "side", side) ∷ []

unfoldable pub marker_in : Text → List (Text × DiscMarkerKind) → Option DiscMarker
marker_in trimmed [] = none
marker_in trimmed ((start, kind) ∷ more) =
    marker_after trimmed start kind (strip_prefix start (to_ascii_lowercase trimmed))
      (marker_in trimmed more)

unfoldable pub parse_disc_marker_text : Text → Option DiscMarker
parse_disc_marker_text raw =
    let trimmed = trim raw in if is_empty trimmed then none else marker_in trimmed marker_prefixes

-- The body of the loop at one index, with the title before and from it.
abbrev pub stripped_with : Text → Option DiscMarker → Option (Text × DiscMarker)
stripped_with before none = none
stripped_with before (some found) =
    if not (is_empty (clean_title before)) then some (clean_title before, found) else none

unfoldable pub strip_at : Text → Text → Option (Text × DiscMarker)
strip_at before suffix =
    let trimmed_suffix = trim_start_matches is_gap suffix in
    if nat_beq (length trimmed_suffix) (length suffix)
    then none
    else stripped_with before (parse_disc_marker_text trimmed_suffix)

abbrev pub or_at :
    Option (Text × DiscMarker) → Option (Text × DiscMarker) → Option (Text × DiscMarker)
or_at (some answer) earlier = some answer
or_at none earlier = earlier

-- The indices from the last to the first.
unfoldable pub strip_from : Text → Text → Option (Text × DiscMarker)
strip_from before [] = none
strip_from before (c ∷ suffix) =
    or_at (strip_from (before ++ c ∷ []) suffix) (strip_at before (c ∷ suffix))

unfoldable pub strip_trailing_disc_marker : Text → Option (Text × DiscMarker)
strip_trailing_disc_marker title = strip_from [] title
