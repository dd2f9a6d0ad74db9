-- ===== src/Filename/Tokens.antt =====
-- services/ingest/filename.rs: the tokens in parentheses and brackets at the end of a name, and what
-- each of them adds to the state of the parser.
pub mod Accounting
pub mod Dumps
use teatro.Prelude.{
  ℕ, suc, ◌+◌, ◌-◌, Bool, true, false, not, ◌&&◌, ◌||◌, Option, none, some, List, [], ◌∷◌, ◌++◌,
  ◌==◌, nat_eq, list_eq, nat_beq, leb, all, any, is_some, drop, if◌then◌else◌,
}
use teatro.Prelude.Text.{
  Text, codes, byte_len, is_ascii_digit, is_ascii_alphabetic, is_empty, strip_prefix,
}
use teatro.Prelude.Text.Slices.{
  is_whitespace, to_ascii_lowercase, to_ascii_uppercase, eq_ignore_ascii_case, trim, starts_with,
  ends_with, without_last, parse_digits,
}
use teatro.Filename.Regions.{add_unique, add_unique_many, parse_region_token}
use teatro.Filename.Disc.{DiscMarker, parse_disc_marker_text}

pub data TokenDelimiter : Type 0 where
  parentheses brackets : TokenDelimiter

pub record RawToken : Type 0 where
  pub delimiter : TokenDelimiter
  pub value : Text

pub record TranslationFlag : Type 0 where
  pub raw : Text
  pub current : Bool
  pub language : Option Text

pub record DumpFlags : Type 0 where
  pub verified_good_dump : Bool
  pub pending_dump : Bool
  pub alternate : Option Text
  pub bad_dump : Option Text
  pub fixed : Option Text
  pub hack : Option Text
  pub overdump : Option Text
  pub trainer : Option Text
  pub pirate : Option Text
  pub unlicensed : Bool
  pub translation : Option TranslationFlag
  pub multilingual_count : Option ℕ
  pub checksum : Option Text
  pub checksum_good : Bool
  pub checksum_bad : Bool
  pub rom_size : Option Text
  pub raw_tokens : List Text

pub record ParseState : Type 0 where
  pub regions : List Text
  pub revision : Option ℕ
  pub version : Option Text
  pub languages : List Text
  pub disc : Option DiscMarker
  pub dump_flags : DumpFlags
  pub special_hardware : List Text
  pub unknown_tokens : List Text
  pub recognized_tokens : ℕ
  pub goodtools_tokens : ℕ
  pub no_intro_tokens : ℕ

-- `parse` of an unsigned number, with its plus sign.
abbrev pub without_plus : Text → Text
without_plus [] = []
without_plus (c ∷ s) = if nat_beq c b'+' then s else c ∷ s

abbrev pub parse_u32 : Text → Option ℕ
parse_u32 s = parse_digits (without_plus s)

abbrev pub at_most : ℕ → Option ℕ → Option ℕ
at_most bound none = none
at_most bound (some n) = if leb n bound then some n else none

abbrev pub or_else {ℓ} : {A : Type ℓ} → Option A → Option A → Option A
or_else none next = next
or_else (some a) next = some a

abbrev pub one_letter : Text → Option ℕ
one_letter (c ∷ []) = if is_ascii_alphabetic c then some (c - b'A' + 1) else none
one_letter _ = none

-- The value is in capitals and has no dash: an `i32` in it is not negative.
unfoldable pub parse_revision_value : Text → Option ℕ
parse_revision_value value =
    if is_empty value
    then none
    else or_else (at_most 2_147_483_647 (parse_u32 value)) (one_letter value)

-- The characters that `filter` keeps.
abbrev pub compact_of : Text → Text
compact_of [] = []
compact_of (c ∷ s) =
    let rest = compact_of s in
    if not (is_whitespace c) && not (nat_beq c b'-') && not (nat_beq c b'_') then c ∷ rest else rest

abbrev pub revision_after : Option Text → Option Text → Option ℕ
revision_after (some rest) prg = parse_revision_value rest
revision_after none (some rest) = parse_revision_value rest
revision_after none none = none

unfoldable pub parse_revision_token : Text → Option ℕ
parse_revision_token raw =
    let compact = to_ascii_uppercase (compact_of raw) in
    revision_after (strip_prefix (codes "REV") compact) (strip_prefix (codes "PRG") compact)

abbrev pub numbered_version : Option Text → Option Text
numbered_version none = none
numbered_version (some []) = none
numbered_version (some (c ∷ s)) = if is_ascii_digit c then some (c ∷ s) else none

-- The arms of a `match` on a text.
abbrev pub arm_of : Text → List (List Text × Text) → Option Text
arm_of key [] = none
arm_of key ((names, answer) ∷ arms) =
    if any (λ known. known == key) names then some answer else arm_of key arms

unfoldable pub parse_version_token : Text → Option Text
parse_version_token raw =
    let trimmed = trim raw in
    or_else
      (numbered_version
        (or_else (strip_prefix (codes "V") trimmed) (strip_prefix (codes "v") trimmed)))
      (arm_of (to_ascii_lowercase trimmed) (
        (codes "alpha" ∷ [], codes "Alpha")
        ∷ (codes "beta" ∷ [], codes "Beta")
        ∷ (codes "prototype" ∷ codes "proto" ∷ [], codes "Prototype")
        ∷ (codes "pre-release" ∷ codes "prerelease" ∷ [], codes "Pre-Release")
        ∷ (codes "old" ∷ [], codes "Old")
        ∷ []))

unfoldable pub parse_special_hardware : Text → Option Text
parse_special_hardware raw = arm_of (to_ascii_lowercase (trim raw)) (
    (codes "j-cart" ∷ [], codes "J-Cart")
    ∷ (codes "pc10" ∷ [], codes "PlayChoice-10")
    ∷ (codes "vs" ∷ [], codes "Nintendo VS.")
    ∷ (codes "bs" ∷ [], codes "Broadcast Satellaview")
    ∷ (codes "st" ∷ [], codes "Sufami Turbo")
    ∷ (codes "np" ∷ [], codes "Nintendo Power")
    ∷ (codes "adam" ∷ [], codes "Coleco ADAM")
    ∷ [])

abbrev pub language_in : Text → List (List Text × Text) → Option Text
language_in lower [] = none
language_in lower ((starts, language) ∷ arms) =
    if any (λ start. starts_with start lower) starts then some language else language_in lower arms

unfoldable pub parse_translation_language : Text → Option Text
parse_translation_language raw = language_in (to_ascii_lowercase raw) (
    (codes "fre" ∷ codes "fra" ∷ codes "fr" ∷ [], codes "French")
    ∷ (codes "eng" ∷ codes "en" ∷ [], codes "English")
    ∷ (codes "ger" ∷ codes "de" ∷ [], codes "German")
    ∷ (codes "spa" ∷ codes "es" ∷ [], codes "Spanish")
    ∷ (codes "ita" ∷ codes "it" ∷ [], codes "Italian")
    ∷ (codes "por" ∷ codes "pt" ∷ [], codes "Portuguese")
    ∷ (codes "dut" ∷ codes "nl" ∷ [], codes "Dutch")
    ∷ (codes "rus" ∷ codes "ru" ∷ [], codes "Russian")
    ∷ (codes "jap" ∷ codes "jpn" ∷ codes "ja" ∷ [], codes "Japanese")
    ∷ (codes "chi" ∷ codes "zh" ∷ [], codes "Chinese")
    ∷ (codes "kor" ∷ codes "ko" ∷ [], codes "Korean")
    ∷ [])

-- The two counters that a token of the No-Intro names raises.
abbrev pub recognize : ParseState → ParseState
recognize state = record state {
  recognized_tokens = state.recognized_tokens + 1;
  no_intro_tokens = state.no_intro_tokens + 1;
}

abbrev pub unknown : ParseState → Text → ParseState
unknown state token = record state { unknown_tokens = state.unknown_tokens ++ token ∷ [] }

unfoldable pub recognize_dump_token : ParseState → Text → DumpFlags → ParseState
recognize_dump_token state raw flags = record state {
  dump_flags = record flags { raw_tokens = flags.raw_tokens ++ (b'[' ∷ raw ++ b']' ∷ []) ∷ [] };
  recognized_tokens = state.recognized_tokens + 1;
  goodtools_tokens = state.goodtools_tokens + 1;
}

abbrev pub with_hardware : ParseState → Text → Option Text → ParseState
with_hardware state raw (some hardware) =
    recognize (record state { special_hardware = add_unique state.special_hardware hardware })
with_hardware state raw none = unknown state (b'(' ∷ raw ++ b')' ∷ [])

abbrev pub if_unlicensed : ParseState → Text → ParseState
if_unlicensed state raw =
    if eq_ignore_ascii_case raw (codes "unl") || eq_ignore_ascii_case raw (codes "unlicensed")
    then record state {
      dump_flags = record state.dump_flags { unlicensed = true };
      recognized_tokens = state.recognized_tokens + 1;
      goodtools_tokens = state.goodtools_tokens + 1;
    }
    else with_hardware state raw (parse_special_hardware raw)

abbrev pub with_version : ParseState → Text → Option Text → ParseState
with_version state raw (some version) = recognize (record state { version = some version })
with_version state raw none = if_unlicensed state raw

abbrev pub with_revision : ParseState → Text → Option ℕ → ParseState
with_revision state raw (some revision) = recognize (record state { revision = some revision })
with_revision state raw none = with_version state raw (parse_version_token raw)

abbrev pub with_regions : ParseState → Text → Option (List Text) → ParseState
with_regions state raw (some regions) =
    recognize (record state { regions = add_unique_many state.regions regions })
with_regions state raw none = with_revision state raw (parse_revision_token raw)

abbrev pub with_disc : ParseState → Text → Option DiscMarker → ParseState
with_disc state raw (some disc) = recognize (record state { disc = some disc })
with_disc state raw none = with_regions state raw (parse_region_token raw)

unfoldable pub classify_parenthesized_token : ParseState → Text → ParseState
classify_parenthesized_token state token =
    let raw = trim token in
    if is_empty raw
    then unknown state (codes "()")
    else with_disc state raw (parse_disc_marker_text raw)
