-- ===== src/Filename/Extraction.antt =====
-- services/ingest/filename.rs: the extensions and the tokens that are cut off the end of a name.
pub mod Fuel
use teatro.Prelude.{
  ℕ, zero, suc, Bool, true, false, ◌||◌, Option, none, some, List, [], ◌∷◌, ◌==◌, nat_eq, list_eq,
  nat_beq, any, length, if◌then◌else◌,
}
use teatro.Prelude.Text.{Text, codes, is_empty}
use teatro.Prelude.Text.Slices.{trim, trim_end, rsplit_once, without_last, to_ascii_lowercase}
use teatro.Filename.Tokens.{TokenDelimiter, parentheses, brackets, RawToken}

abbrev pub known_extensions : List Text
known_extensions =
    codes "zip"
    ∷ codes "7z"
    ∷ codes "rar"
    ∷ codes "nes"
    ∷ codes "sfc"
    ∷ codes "smc"
    ∷ codes "gen"
    ∷ codes "md"
    ∷ codes "gb"
    ∷ codes "gbc"
    ∷ codes "gba"
    ∷ codes "n64"
    ∷ codes "z64"
    ∷ codes "v64"
    ∷ codes "32x"
    ∷ codes "bin"
    ∷ codes "iso"
    ∷ codes "img"
    ∷ codes "cue"
    ∷ codes "gdi"
    ∷ codes "chd"
    ∷ codes "m3u"
    ∷ codes "raw"
    ∷ []

abbrev pub without_extension : Text → Option (Text × Text) → (Text → Text) → Text
without_extension current none next = current
without_extension current (some (stem, extension)) next =
    if is_empty stem || is_empty extension
    then current
    else if any (λ known. known == to_ascii_lowercase extension) known_extensions
    then next (trim_end stem)
    else current

-- The rounds of the loop that are left.
unfoldable pub strip_rounds : ℕ → Text → Text
strip_rounds zero current = current
strip_rounds (suc rounds) current =
    without_extension current (rsplit_once b'.' current) (strip_rounds rounds)

unfoldable pub strip_known_extensions : Text → Text
strip_known_extensions file_name = strip_rounds 8 (trim file_name)

abbrev pub last : Text → Option ℕ
last [] = none
last (c ∷ []) = some c
last (c ∷ d ∷ s) = last (d ∷ s)

-- The opening sign of a closing one.
abbrev pub opening_of : Option ℕ → Option (ℕ × TokenDelimiter)
opening_of none = none
opening_of (some c) =
    if nat_beq c b')'
    then some (b'(', parentheses)
    else if nat_beq c b']'
    then some (b'[', brackets)
    else none

abbrev pub cut_token : TokenDelimiter → Option (Text × Text) → Option (RawToken × Text)
cut_token delimiter none = none
cut_token delimiter (some (before, after)) =
    some (record { delimiter = delimiter; value = trim (without_last 1 after) }, before)

abbrev pub cut_at : Text → Option (ℕ × TokenDelimiter) → Option (RawToken × Text)
cut_at trimmed none = none
cut_at trimmed (some (opening, delimiter)) = cut_token delimiter (rsplit_once opening trimmed)

abbrev pub go_on :
    Text
    → List RawToken
    → Option (RawToken × Text)
    → (Text → List RawToken → Option (Text × List RawToken))
    → Option (Text × List RawToken)
go_on trimmed tokens none next = some (trim_end trimmed, tokens)
go_on trimmed tokens (some (token, before)) next = next before (token ∷ tokens)

-- The loop on fuel, `none` where it does not end in time. A token goes in front of those that were
-- cut off before it, which is the order after `reverse`.
unfoldable pub extract_loop : ℕ → Text → List RawToken → Option (Text × List RawToken)
extract_loop zero remaining tokens = none
extract_loop (suc fuel) remaining tokens =
    let trimmed = trim_end remaining in
    go_on trimmed tokens (cut_at trimmed (opening_of (last trimmed))) (extract_loop fuel)

unfoldable pub extract_trailing_tokens : Text → Option (Text × List RawToken)
extract_trailing_tokens base_name =
    extract_loop (suc (length (trim_end base_name))) (trim_end base_name) []
