-- ===== src/Filename/SplitArchive/RoundTrip.antt =====
-- The names of the volumes that archivers number: `detect_split_archive` of
-- services/ingest/filename.rs reads back what they were made of.
pub mod Appended
use teatro.Prelude.Appends.{append_assoc}
use teatro.Prelude.{
  ℕ, ◌+◌, ◌*◌, ◌-◌, ◌≤◌, ◌<◌, ◌≡◌, refl, ap, sym, ◌∙◌, Bool, true, false, ◌&&◌, ◌||◌, none, some,
  [], ◌∷◌, ◌++◌, ◌==◌, nat_eq, list_eq, arith, nat_beq, ltb, all, any, length, length-append, take,
}
use teatro.Prelude.Text.{Text, codes, byte_len, is_ascii_digit, is_empty}
use teatro.Prelude.Text.Slices.{
  to_ascii_lowercase, is_whitespace, trim, trim_start, trim_end, rsplit_once, without_last,
  digits_value, parse_digits,
}
use teatro.Filename.{basename, is_separator}
use teatro.Filename.SplitArchive.{returns, known_formats, volume, numbered, detect_split_archive}
use teatro.Filename.SplitArchive.RoundTrip.Appended.{
  basename_plain, any-append, to_ascii_lowercase-append, rsplit_once-none, rsplit_once-append,
  take-append, without_last-append, is_empty-append, trim_end-append, trim_plain,
}

digit_le : (d : ℕ) → is_ascii_digit d ≡ true → d - b'0' ≤ 9
digit_le d h = ground arith

-- Three digits.
abbrev pub is_number : ℕ → ℕ → ℕ → Bool
is_number a b c = is_ascii_digit a && is_ascii_digit b && is_ascii_digit c

parse_digits_three :
    (a b c : ℕ)
    → is_number a b c ≡ true
    → parse_digits (a ∷ b ∷ c ∷ []) ≡ some (digits_value 0 (a ∷ b ∷ c ∷ []))
unfolding parse_digits
parse_digits_three a b c h =
    let da = digit_le a (ground arith) in
    let db = digit_le b (ground arith) in let dc = digit_le c (ground arith) in ground arith

-- The formats that are split in this way.
pub data ArchiveFormat : Type 0 where
  seven_zip zip rar : ArchiveFormat

abbrev pub format_text : ArchiveFormat → Text
format_text seven_zip = codes "7z"
format_text zip = codes "zip"
format_text rar = codes "rar"

-- What an archiver puts after the name of the set: `.7z.001`.
abbrev pub numbered_suffix : ArchiveFormat → Text → Text
numbered_suffix format digits = b'.' ∷ format_text format ++ b'.' ∷ digits

lower_digits :
    (a b c : ℕ) → is_number a b c ≡ true → to_ascii_lowercase (a ∷ b ∷ c ∷ []) ≡ a ∷ b ∷ c ∷ []
lower_digits a b c h = ground arith

no_dot : (a b c : ℕ) → is_number a b c ≡ true → any (λ x. nat_beq x b'.') (a ∷ b ∷ c ∷ []) ≡ false
no_dot a b c h = ground arith

lower_suffix :
    (format : ArchiveFormat) (a b c : ℕ)
    → is_number a b c ≡ true
    → to_ascii_lowercase (numbered_suffix format (a ∷ b ∷ c ∷ []))
      ≡ numbered_suffix format (a ∷ b ∷ c ∷ [])
lower_suffix seven_zip a b c h = rw (lower_digits a b c h) refl
lower_suffix zip a b c h = rw (lower_digits a b c h) refl
lower_suffix rar a b c h = rw (lower_digits a b c h) refl

visible_digit :
    (d : ℕ) → is_ascii_digit d ≡ true → (is_whitespace d ≡ false) × (is_separator d ≡ false)
visible_digit d h = ground arith

no_separator : (a b c : ℕ) → is_number a b c ≡ true → any is_separator (a ∷ b ∷ c ∷ []) ≡ false
no_separator a b c h = ground (
  arith,
  visible_digit a (ground arith),
  visible_digit b (ground arith),
  visible_digit c (ground arith),
)

last_digit : (a b c : ℕ) → is_number a b c ≡ true → is_whitespace c ≡ false
last_digit a b c h = (visible_digit c (ground arith)).0

suffix_plain :
    (format : ArchiveFormat) (a b c : ℕ)
    → is_number a b c ≡ true
    → (any is_separator (numbered_suffix format (a ∷ b ∷ c ∷ [])) ≡ false)
      × (trim_end (numbered_suffix format (a ∷ b ∷ c ∷ []))
          ≡ numbered_suffix format (a ∷ b ∷ c ∷ []))
suffix_plain seven_zip a b c h = (no_separator a b c h, rw (last_digit a b c h) refl)
suffix_plain zip a b c h = (no_separator a b c h, rw (last_digit a b c h) refl)
suffix_plain rar a b c h = (no_separator a b c h, rw (last_digit a b c h) refl)

dotted-split :
    (format : ArchiveFormat) (stem : Text) (a b c : ℕ)
    → is_number a b c ≡ true
    → rsplit_once b'.' (stem ++ numbered_suffix format (a ∷ b ∷ c ∷ []))
      ≡ some (stem ++ b'.' ∷ format_text format, a ∷ b ∷ c ∷ [])
dotted-split format stem a b c h =
    ap (rsplit_once b'.')
      (sym (append_assoc stem (b'.' ∷ format_text format) (b'.' ∷ a ∷ b ∷ c ∷ [])))
    ∙ rsplit_once-append b'.' (stem ++ b'.' ∷ format_text format) (a ∷ b ∷ c ∷ []) (no_dot a b c h)

stem-split :
    (format : ArchiveFormat) (stem : Text)
    → rsplit_once b'.' (stem ++ b'.' ∷ format_text format) ≡ some (stem, format_text format)
stem-split seven_zip stem = rsplit_once-append b'.' stem (codes "7z") refl
stem-split zip stem = rsplit_once-append b'.' stem (codes "zip") refl
stem-split rar stem = rsplit_once-append b'.' stem (codes "rar") refl

known_format :
    (format : ArchiveFormat) → any (λ known. known == format_text format) known_formats ≡ true
known_format seven_zip = refl
known_format zip = refl
known_format rar = refl

three_bytes : (a b c : ℕ) → is_number a b c ≡ true → byte_len (a ∷ b ∷ c ∷ []) ≡ 3
three_bytes a b c h = ground arith

three_digits : (a b c : ℕ) → is_number a b c ≡ true → all is_ascii_digit (a ∷ b ∷ c ∷ []) ≡ true
three_digits a b c h = ground arith

set_name_of :
    (format : ArchiveFormat) (set_name : Text) (a b c : ℕ)
    → without_last
        (length (format_text format) + 1)
        (without_last 4 (set_name ++ numbered_suffix format (a ∷ b ∷ c ∷ [])))
      ≡ set_name
set_name_of format set_name a b c =
    ap (without_last (length (format_text format) + 1)) (
      ap (without_last 4)
        (sym (append_assoc set_name (b'.' ∷ format_text format) (b'.' ∷ a ∷ b ∷ c ∷ [])))
      ∙ without_last-append 4 (set_name ++ b'.' ∷ format_text format) (b'.' ∷ a ∷ b ∷ c ∷ []) refl)
    ∙ without_last-append _ set_name (b'.' ∷ format_text format) (omega arith)

numbered_found :
    (format : ArchiveFormat) (file_name set_name stem : Text) (a b c : ℕ)
    → is_number a b c ≡ true
    → 0 < digits_value 0 (a ∷ b ∷ c ∷ [])
    → file_name ≡ set_name ++ numbered_suffix format (a ∷ b ∷ c ∷ [])
    → numbered file_name (stem ++ b'.' ∷ format_text format) (a ∷ b ∷ c ∷ [])
      ≡ returns
          (some (volume file_name (format_text format) set_name (digits_value 0 (a ∷ b ∷ c ∷ []))))
unfolding numbered
numbered_found format file_name set_name stem a b c h positive e =
    let counted : ltb 0 (digits_value 0 (a ∷ b ∷ c ∷ [])) ≡ true = ground arith in
    let cut =
      ap (λ x. without_last (length (format_text format) + 1) (without_last 4 x)) e
      ∙ set_name_of format set_name a b c in
    rw
      (
        numbered,
        three_bytes a b c h,
        three_digits a b c h,
        stem-split format stem,
        known_format format,
        parse_digits_three a b c h,
        counted,
      )
      (ap
        (λ x.
          returns
            (some (volume file_name (format_text format) x (digits_value 0 (a ∷ b ∷ c ∷ [])))))
        cut)

-- The number that three digits write.
abbrev pub number_of : ℕ → ℕ → ℕ → ℕ
number_of a b c = 100 * (a - b'0') + 10 * (b - b'0') + (c - b'0')

digits_value-three : (a b c : ℕ) → digits_value 0 (a ∷ b ∷ c ∷ []) ≡ number_of a b c
digits_value-three a b c = omega arith

trim_visible : (c : ℕ) (s : Text) → is_whitespace c ≡ false → trim (c ∷ s) ≡ trim_end (c ∷ s)
unfolding trim
trim_visible c s visible =
    let start : trim_start (c ∷ s) ≡ c ∷ s = rw visible refl in ap trim_end start

volume_read :
    (raw format : Text) (first : ℕ) (name : Text) (a b c : ℕ)
    → is_whitespace first ≡ false
    → volume raw format (first ∷ name) (digits_value 0 (a ∷ b ∷ c ∷ [])) ≡ record {
      raw = raw;
      archive_format = format;
      set_name = trim_end (first ∷ name);
      volume_index = number_of a b c;
      is_first_volume = nat_beq (number_of a b c) 1;
    }
volume_read raw format first name a b c visible =
    ap (volume raw format (first ∷ name)) (digits_value-three a b c)
    ∙ ap
        (λ (set_name : Text). record {
          raw = raw;
          archive_format = format;
          set_name = set_name;
          volume_index = number_of a b c;
          is_first_volume = nat_beq (number_of a b c) 1;
        })
        (trim_visible first name visible)

-- The name of a set that starts with a visible character and has no separator, a format (7z, zip or
-- rar) and a three-digit number above 0, put together as an archiver does (`Game.7z.012`), are read
-- back from the name of the volume, which is kept: the name of the set without the white space at
-- its end, the format, the number, and whether it is 1.
pub detect_split_archive-numbered :
    (format : ArchiveFormat) (first : ℕ) (name : Text) (a b c : ℕ)
    → is_whitespace first ≡ false
    → any is_separator (first ∷ name) ≡ false
    → is_number a b c ≡ true
    → 0 < number_of a b c
    → detect_split_archive (first ∷ name ++ numbered_suffix format (a ∷ b ∷ c ∷ []))
      ≡ some (record {
        raw = first ∷ name ++ numbered_suffix format (a ∷ b ∷ c ∷ []);
        archive_format = format_text format;
        set_name = trim_end (first ∷ name);
        volume_index = number_of a b c;
        is_first_volume = nat_beq (number_of a b c) 1;
      })
unfolding detect_split_archive
detect_split_archive-numbered format first name a b c visible plain h positive =
    let suffix = numbered_suffix format (a ∷ b ∷ c ∷ []) in
    let path : Text = first ∷ name ++ suffix in
    let ends = suffix_plain format a b c h in
    let separate : any is_separator path ≡ false =
      any-append is_separator (first ∷ name) suffix ∙ rw (plain, ends.0) refl in
    let file_name : trim (basename path) ≡ path =
      ap trim (basename_plain path separate) ∙ trim_plain first name suffix visible ends.1 refl in
    let lower : to_ascii_lowercase path ≡ to_ascii_lowercase (first ∷ name) ++ suffix =
      to_ascii_lowercase-append (first ∷ name) suffix
      ∙ ap (λ x. to_ascii_lowercase (first ∷ name) ++ x) (lower_suffix format a b c h) in
    rw
      (
        detect_split_archive,
        file_name,
        lower,
        dotted-split format (to_ascii_lowercase (first ∷ name)) a b c h,
      )
      (rw
        (numbered_found format path (first ∷ name) (to_ascii_lowercase (first ∷ name)) a b c h
          (rw (digits_value-three a b c) positive) refl)
        (ap (λ found. some found) (volume_read path (format_text format) first name a b c visible)))
