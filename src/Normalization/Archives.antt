-- ===== src/Normalization/Archives.antt =====
-- `archive_file_name` of services/library/normalization.rs.
pub mod Bases
pub mod Devices
pub mod Portable
use teatro.Prelude.{
  ℕ, Bool, true, false, not, ◌+◌, ◌||◌, ◌&&◌, Option, none, some, List, [], ◌∷◌, ◌++◌, length, drop,
  leb, nat_beq, ◌==◌, nat_eq, list_eq, if◌then◌else◌,
}
use teatro.Prelude.Text.{Text, codes, is_empty, is_control, byte_len, strip_prefix}
use teatro.Prelude.Text.Slices.{
  trim, is_whitespace, trim_start_matches, trim_end_matches, to_ascii_uppercase,
}

-- The characters that are replaced.
abbrev pub is_unsafe_character : ℕ → Bool
is_unsafe_character c =
    is_control c
    || nat_beq c b'<'
    || nat_beq c b'>'
    || nat_beq c b':'
    || nat_beq c b'"'
    || nat_beq c b'/'
    || nat_beq c b'\\'
    || nat_beq c b'|'
    || nat_beq c b'?'
    || nat_beq c b'*'

abbrev pub replaced : ℕ → ℕ
replaced c = if is_unsafe_character c then b'_' else c

-- What a round pushes, by whether the character before was a separator.
abbrev pub is_separator : ℕ → Bool
is_separator c = nat_beq (replaced c) b'_' || is_whitespace (replaced c)

abbrev pub pushed : Bool → ℕ → Text
pushed previous_separator c =
    if is_separator c then (if not previous_separator then b' ' ∷ [] else []) else replaced c ∷ []

abbrev pub max_base : ℕ
max_base = 180

-- The loop, from the bytes that `base` has and the separator before: what it pushes on.
unfoldable pub archive_from : Bool → ℕ → Text → Text
archive_from previous_separator len [] = []
archive_from previous_separator len (c ∷ s) =
    let more = pushed previous_separator c in
    let rest = archive_from (is_separator c) (len + byte_len more) s in
    more ++ (if leb max_base (len + byte_len more) then [] else rest)

abbrev pub is_base_edge : ℕ → Bool
is_base_edge c = nat_beq c b' ' || nat_beq c b'.'

abbrev pub or_game : Text → Text
or_game base = if is_empty base then codes "Game" else base

unfoldable pub archive_base : Text → Text
archive_base title = or_game (
    trim_end_matches is_base_edge
      (trim_start_matches is_base_edge (archive_from false 0 (trim title))))

-- The part before the first dot.
abbrev pub first_part : Text → Text
first_part [] = []
first_part (c ∷ s) = let rest = first_part s in if nat_beq c b'.' then [] else c ∷ rest

abbrev pub is_port : Text → Bool
is_port [] = false
is_port (c ∷ []) = leb b'1' c && leb c b'9'
is_port (c ∷ d ∷ s) = false

abbrev pub is_port_of : Option Text → Bool
is_port_of none = false
is_port_of (some suffix) = is_port suffix

abbrev pub or_else : Option Text → Option Text → Option Text
or_else (some suffix) other = some suffix
or_else none other = other

-- The names of devices.
abbrev pub is_reserved : Text → Bool
is_reserved uppercase =
    uppercase == codes "CON"
    || uppercase == codes "PRN"
    || uppercase == codes "AUX"
    || uppercase == codes "NUL"
    || is_port_of
        (or_else (strip_prefix (codes "COM") uppercase) (strip_prefix (codes "LPT") uppercase))

-- The insertion stands after as many characters as the upper case of the first part has.
abbrev pub unreserved : Text → Text → Text
unreserved base first =
    if is_reserved (to_ascii_uppercase first)
    then first ++ (codes " Game" ++ drop (length first) base)
    else base

unfoldable pub archive_file_name : Text → Text → Text
archive_file_name title extension =
    let base = archive_base title in unreserved base (first_part base) ++ b'.' ∷ extension
