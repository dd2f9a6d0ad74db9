-- ===== src/Filename/Tokens/Dumps.antt =====
-- services/ingest/filename.rs: the tokens in brackets, the flags of a dump.
pub mod Complete
use teatro.Prelude.{
  ℕ, ◌+◌, Bool, true, false, not, ◌&&◌, ◌||◌, Option, none, some, List, [], ◌∷◌, ◌++◌, ◌==◌, nat_eq,
  list_eq, nat_beq, leb, all, drop, if◌then◌else◌,
}
use teatro.Prelude.Text.{Text, codes, byte_len, is_ascii_digit, is_empty, strip_prefix}
use teatro.Prelude.Text.Slices.{to_ascii_lowercase, trim, starts_with, ends_with, without_last}
use teatro.Filename.Regions.{add_unique}
use teatro.Filename.Tokens.{
  TokenDelimiter, parentheses, brackets, RawToken, TranslationFlag, DumpFlags, ParseState,
  parse_u32, parse_translation_language, unknown, recognize_dump_token,
  classify_parenthesized_token,
}

abbrev pub with_languages : ParseState → Option Text → ParseState
with_languages state none = state
with_languages state (some language) = record state {
  languages = add_unique state.languages language;
}

abbrev pub translated : ParseState → Text → ParseState
translated state raw =
    let language = parse_translation_language (drop 2 raw) in
    recognize_dump_token (with_languages state language) raw (record state.dump_flags {
      translation =
          some (record { raw = raw; current = starts_with (codes "T+") raw; language = language });
    })

-- The last `match`, on the first character in lower case.
abbrev pub flagged : ParseState → Text → Text → ParseState
flagged state raw [] = state
flagged state raw (flag ∷ lower) =
    let flags = state.dump_flags in
    if nat_beq flag b'a'
    then recognize_dump_token state raw (record flags { alternate = some raw })
    else if nat_beq flag b'b'
    then recognize_dump_token state raw (record flags { bad_dump = some raw })
    else if nat_beq flag b'f'
    then recognize_dump_token state raw (record flags { fixed = some raw })
    else if nat_beq flag b'h'
    then recognize_dump_token state raw (record flags { hack = some raw })
    else if nat_beq flag b'o'
    then recognize_dump_token state raw (record flags { overdump = some raw })
    else if nat_beq flag b't'
    then recognize_dump_token state raw (record flags { trainer = some raw })
    else if nat_beq flag b'p'
    then recognize_dump_token state raw (record flags { pirate = some raw })
    else unknown state (b'[' ∷ raw ++ b']' ∷ [])

abbrev pub is_size_digit : ℕ → Bool
is_size_digit c = is_ascii_digit c || nat_beq c b'?'

abbrev pub is_rom_size : Text → Bool
is_rom_size lower =
    (ends_with (codes "k") lower && all is_size_digit (without_last 1 lower))
    || lower == codes "-"
    || starts_with (codes "zzz") lower

-- From the test of a checksum on.
abbrev pub sized : ParseState → Text → Text → ParseState
sized state raw lower =
    let flags = state.dump_flags in
    if all is_ascii_digit raw && leb 3 (byte_len raw)
    then recognize_dump_token state raw (record flags { checksum = some raw })
    else if is_rom_size lower
    then recognize_dump_token state raw (record flags { rom_size = some raw })
    else if raw == codes "c"
    then recognize_dump_token state raw (record flags { checksum_good = true })
    else if raw == codes "x"
    then recognize_dump_token state raw (record flags { checksum_bad = true })
    else flagged state raw lower

abbrev pub counted : ParseState → Text → Text → Option ℕ → ParseState
counted state raw lower (some count) =
    recognize_dump_token state raw (record state.dump_flags { multilingual_count = some count })
counted state raw lower none = sized state raw lower

-- `.strip_prefix('m').filter(|suffix| !suffix.is_empty()).and_then(..)`.
abbrev pub count_of : Option Text → Option ℕ
count_of none = none
count_of (some suffix) = if not (is_empty suffix) then parse_u32 suffix else none

abbrev pub add_hardware : ParseState → Text → ParseState
add_hardware state hardware = record state {
  special_hardware = add_unique state.special_hardware hardware;
}

unfoldable pub classify_bracketed : ParseState → Text → ParseState
classify_bracketed state raw =
    let lower = to_ascii_lowercase raw in
    let flags = state.dump_flags in
    if raw == codes "!"
    then recognize_dump_token state raw (record flags { verified_good_dump = true })
    else if raw == codes "C"
    then recognize_dump_token (add_hardware state (codes "Game Boy Color")) raw flags
    else if raw == codes "S"
    then recognize_dump_token (add_hardware state (codes "Super Game Boy")) raw flags
    else if raw == codes "BF"
    then recognize_dump_token (add_hardware state (codes "Bung Fix")) raw flags
    else if lower == codes "!p"
    then recognize_dump_token state raw (record flags { pending_dump = true })
    else if lower == codes "unl"
    then recognize_dump_token state raw (record flags { unlicensed = true })
    else if starts_with (codes "T+") raw || starts_with (codes "T-") raw
    then translated state raw
    else counted state raw lower (count_of (strip_prefix (codes "m") lower))

unfoldable pub classify_bracketed_token : ParseState → Text → ParseState
classify_bracketed_token state token =
    let raw = trim token in
    if is_empty raw then unknown state (codes "[]") else classify_bracketed state raw

unfoldable pub classify_token : ParseState → RawToken → ParseState
classify_token state token = elim token.delimiter [
  | parentheses ↦ classify_parenthesized_token state token.value
  | brackets ↦ classify_bracketed_token state token.value
]

-- The loop of `parse` over the tokens.
unfoldable pub classify_tokens : ParseState → List RawToken → ParseState
classify_tokens state [] = state
classify_tokens state (token ∷ tokens) = classify_tokens (classify_token state token) tokens
