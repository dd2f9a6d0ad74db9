-- ===== src/Filename/SplitArchive.antt =====
-- services/ingest/filename.rs: the volumes of a split archive.
pub mod Volumes
pub mod RoundTrip
use teatro.Prelude.{
  ℕ, ◌+◌, ◌-◌, ◌≤◌, ◌<◌, ◌≡◌, ◌↔◌, refl, ◌⊎◌, inl, inr, Bool, true, false, not, ◌&&◌, ◌||◌, Option,
  none, some, List, [], ◌∷◌, ◌==◌, nat_eq, list_eq, arith, nat_beq, ltb, all, any, length, take,
  drop, Bool-cases, Option-cases, if◌then◌else◌,
}
use teatro.Prelude.Text.{Text, codes, byte_len, is_ascii_digit, is_empty}
use teatro.Prelude.Text.Slices.{
  to_ascii_lowercase, trim, rsplit_once, rfind, without_last, ends_with, parse_digits, starts_with,
}
use teatro.Filename.{SplitArchiveVolume, basename}

-- How a test of the source ends: on to the next one, or with a `return`.
pub data Outcome : Type 0 where
  goes_on : Outcome
  returns : Option SplitArchiveVolume → Outcome

abbrev pub or_else : Outcome → Option SplitArchiveVolume → Option SplitArchiveVolume
or_else goes_on next = next
or_else (returns answer) next = answer

abbrev pub known_formats : List Text
known_formats = codes "7z" ∷ codes "zip" ∷ codes "rar" ∷ []

abbrev pub volume : Text → Text → Text → ℕ → SplitArchiveVolume
volume raw archive_format set_name volume_index = record {
  raw = raw;
  archive_format = archive_format;
  set_name = trim set_name;
  volume_index = volume_index;
  is_first_volume = nat_beq volume_index 1;
}

-- A volume where the index is a number, and not 0; where it is no number the function ends.
abbrev pub if_positive : Text → Text → Text → Option ℕ → Outcome
if_positive raw archive_format set_name none = returns none
if_positive raw archive_format set_name (some index) =
    if ltb 0 index then returns (some (volume raw archive_format set_name index)) else goes_on

-- `.7z.001`: three digits after the name of the format.
abbrev pub numbered_of : Text → Text → Option (Text × Text) → Outcome
numbered_of file_name numeric_suffix none = goes_on
numbered_of file_name numeric_suffix (some (set_name_lower, archive_format)) =
    if any (λ known. known == archive_format) known_formats
    then if_positive file_name archive_format
        (without_last (length archive_format + 1)
          (without_last (length numeric_suffix + 1) file_name))
        (parse_digits numeric_suffix)
    else goes_on

unfoldable pub numbered : Text → Text → Text → Outcome
numbered file_name stem numeric_suffix =
    if nat_beq (byte_len numeric_suffix) 3 && all is_ascii_digit numeric_suffix
    then numbered_of file_name numeric_suffix (rsplit_once b'.' stem)
    else goes_on

-- `.z01`.
unfoldable pub zip_part : Text → Text → Outcome
zip_part file_name suffix =
    if nat_beq (byte_len suffix) 3
      && starts_with (codes "z") suffix
      && all is_ascii_digit (drop 1 suffix)
    then if_positive file_name (codes "zip") (without_last (length suffix + 1) file_name)
        (parse_digits (drop 1 suffix))
    else goes_on

abbrev pub legacy_volume : Text → Text → Option ℕ → Outcome
legacy_volume file_name set_name none = returns none
legacy_volume file_name set_name (some legacy_index) = returns (
    some (record {
      raw = file_name;
      archive_format = codes "rar";
      set_name = trim set_name;
      volume_index = legacy_index + 2;
      is_first_volume = false;
    }))

-- `.r00`, the second volume.
unfoldable pub rar_part : Text → Text → Outcome
rar_part file_name suffix =
    if nat_beq (byte_len suffix) 3
      && starts_with (codes "r") suffix
      && all is_ascii_digit (drop 1 suffix)
    then legacy_volume file_name (without_last (length suffix + 1) file_name)
        (parse_digits (drop 1 suffix))
    else goes_on

abbrev pub new_rar_at : Text → Text → Option ℕ → Option SplitArchiveVolume
new_rar_at file_name lower none = none
new_rar_at file_name lower (some part_index) =
    let digits = drop (part_index + 5) (without_last 4 lower) in
    if not (is_empty digits) && all is_ascii_digit digits
    then or_else
        (if_positive file_name (codes "rar") (take part_index (without_last 4 file_name))
          (parse_digits digits))
        none
    else none

-- `.part1.rar`.
unfoldable pub new_rar : Text → Text → Option SplitArchiveVolume
new_rar file_name lower =
    if ends_with (codes ".rar") lower
    then new_rar_at file_name lower (rfind (codes ".part") (without_last 4 lower))
    else none

abbrev pub by_suffix :
    Text → Option (Text × Text) → Option SplitArchiveVolume → Option SplitArchiveVolume
by_suffix file_name none next = next
by_suffix file_name (some (stem, suffix)) next =
    or_else (numbered file_name stem suffix)
      (or_else (zip_part file_name suffix) (or_else (rar_part file_name suffix) next))

unfoldable pub detect_split_archive : Text → Option SplitArchiveVolume
detect_split_archive path =
    let file_name = trim (basename path) in
    let lower = to_ascii_lowercase file_name in
    by_suffix file_name (rsplit_once b'.' lower) (new_rar file_name lower)
