-- ===== src/Filename/SplitArchive/Volumes.antt =====
-- What a detected volume is: `detect_split_archive` of services/ingest/filename.rs.
use teatro.Prelude.{
  ℕ, ◌+◌, ◌<◌, ◌≡◌, ◌↔◌, refl, inl, inr, Bool, true, false, not, ◌&&◌, Option, none, some, ◌==◌,
  nat_eq, list_eq, arith, ltb, all, any, drop, Bool-cases, if◌then◌else◌,
}
use teatro.Prelude.Text.{Text, codes, is_ascii_digit, is_empty}
use teatro.Prelude.Text.Slices.{
  to_ascii_lowercase, trim, rsplit_once, rfind, without_last, ends_with, parse_digits,
}
use teatro.Filename.{SplitArchiveVolume, basename}
use teatro.Filename.SplitArchive.{
  Outcome, goes_on, returns, or_else, known_formats, if_positive, numbered_of, numbered, zip_part,
  legacy_volume, rar_part, new_rar_at, new_rar, by_suffix, detect_split_archive,
}

-- A volume of a known format, counted from 1, the first one marked as such and no other.
pub record IsVolume (file_name : Text) (v : SplitArchiveVolume) : Type 0 where
  pub named : v.raw ≡ file_name
  pub counted : 0 < v.volume_index
  pub marked : (v.is_first_volume ≡ true) ↔ (v.volume_index ≡ 1)
  pub known : any (λ known. known == v.archive_format) known_formats ≡ true

-- Where an answer gives a volume, it is one of the file.
abbrev Gives : Text → Option SplitArchiveVolume → Type 0
Gives file_name none = Unit
Gives file_name (some v) = IsVolume file_name v

abbrev Ends : Text → Outcome → Type 0
Ends file_name goes_on = Unit
Ends file_name (returns answer) = Gives file_name answer

or_else-Gives :
    (file_name : Text) (o : Outcome) (next : Option SplitArchiveVolume)
    → Ends file_name o
    → Gives file_name next
    → Gives file_name (or_else o next)
or_else-Gives file_name goes_on next h k = k
or_else-Gives file_name (returns answer) next h k = h

if_positive-Ends :
    (raw archive_format set_name : Text) (index : Option ℕ)
    → any (λ known. known == archive_format) known_formats ≡ true
    → Ends raw (if_positive raw archive_format set_name index)
if_positive-Ends raw archive_format set_name none h = tt
if_positive-Ends raw archive_format set_name (some index) h = elim (Bool-cases (ltb 0 index)) [
  | inl positive ↦
      rw (positive, if_positive)
        (record { named = refl; counted = ground arith; marked = ground arith; known = h })
  | inr nought ↦ rw (nought, if_positive) tt
]

numbered_of-Ends :
    (file_name numeric_suffix : Text) (split : Option (Text × Text))
    → Ends file_name (numbered_of file_name numeric_suffix split)
numbered_of-Ends file_name numeric_suffix none = tt
numbered_of-Ends file_name numeric_suffix (some (set_name, archive_format)) =
    elim (Bool-cases (any (λ known. known == archive_format) known_formats)) [
      | inl known ↦
          rw (known, numbered_of)
            (if_positive-Ends file_name archive_format _ (parse_digits numeric_suffix) known)
      | inr other ↦ rw (other, numbered_of) tt
    ]

-- A test that goes on where its condition fails.
if-Ends :
    (file_name : Text) (b : Bool) (o : Outcome)
    → Ends file_name o
    → Ends file_name (if b then o else goes_on)
if-Ends file_name true o h = h
if-Ends file_name false o h = tt

numbered-Ends : (file_name stem suffix : Text) → Ends file_name (numbered file_name stem suffix)
unfolding numbered
numbered-Ends file_name stem suffix =
    if-Ends file_name _ _ (numbered_of-Ends file_name suffix (rsplit_once b'.' stem))

zip_part-Ends : (file_name suffix : Text) → Ends file_name (zip_part file_name suffix)
unfolding zip_part
zip_part-Ends file_name suffix =
    if-Ends file_name _ _
      (if_positive-Ends file_name (codes "zip") _ (parse_digits (drop 1 suffix)) refl)

legacy_volume-Ends :
    (file_name set_name : Text) (index : Option ℕ)
    → Ends file_name (legacy_volume file_name set_name index)
legacy_volume-Ends file_name set_name none = tt
legacy_volume-Ends file_name set_name (some index) = record {
  named = refl;
  counted = omega arith;
  marked = ground arith;
  known = refl;
}

rar_part-Ends : (file_name suffix : Text) → Ends file_name (rar_part file_name suffix)
unfolding rar_part
rar_part-Ends file_name suffix =
    if-Ends file_name _ _ (legacy_volume-Ends file_name _ (parse_digits (drop 1 suffix)))

new_rar_at-Gives :
    (file_name lower : Text) (found : Option ℕ) → Gives file_name (new_rar_at file_name lower found)
new_rar_at-Gives file_name lower none = tt
new_rar_at-Gives file_name lower (some part_index) =
    let digits = drop (part_index + 5) (without_last 4 lower) in
    elim (Bool-cases (not (is_empty digits) && all is_ascii_digit digits)) [
      | inl number ↦
          rw (number, new_rar_at)
            (or_else-Gives file_name _ none
              (if_positive-Ends file_name (codes "rar") _ (parse_digits digits) refl) tt)
      | inr other ↦ rw (other, new_rar_at) tt
    ]

new_rar-Gives : (file_name lower : Text) → Gives file_name (new_rar file_name lower)
unfolding new_rar
new_rar-Gives file_name lower = elim (Bool-cases (ends_with (codes ".rar") lower)) [
  | inl rar ↦
      rw (rar, new_rar)
        (new_rar_at-Gives file_name lower (rfind (codes ".part") (without_last 4 lower)))
  | inr other ↦ rw (other, new_rar) tt
]

by_suffix-Gives :
    (file_name : Text) (split : Option (Text × Text)) (next : Option SplitArchiveVolume)
    → Gives file_name next
    → Gives file_name (by_suffix file_name split next)
by_suffix-Gives file_name none next h = h
by_suffix-Gives file_name (some (stem, suffix)) next h =
    or_else-Gives file_name _ _ (numbered-Ends file_name stem suffix) (
      or_else-Gives file_name _ _ (zip_part-Ends file_name suffix)
        (or_else-Gives file_name _ next (rar_part-Ends file_name suffix) h))

-- A volume that is detected is one of the file, of format 7z, zip or rar and counted from 1, and it
-- is marked as the first exactly where it is the number 1.
pub detect_split_archive-IsVolume :
    (path : Text) (v : SplitArchiveVolume)
    → detect_split_archive path ≡ some v
    → IsVolume (trim (basename path)) v
unfolding detect_split_archive
detect_split_archive-IsVolume path v e =
    let file_name = trim (basename path) in
    let lower = to_ascii_lowercase file_name in
    let given =
      by_suffix-Gives file_name (rsplit_once b'.' lower) (new_rar file_name lower)
        (new_rar-Gives file_name lower) in
    rw e at given
