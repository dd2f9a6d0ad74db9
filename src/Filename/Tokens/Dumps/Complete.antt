-- ===== src/Filename/Tokens/Dumps/Complete.antt =====
-- No token of services/ingest/filename.rs is lost: each is recognized or listed as unknown.
use teatro.Prelude.{
  ℕ, suc, ◌+◌, ◌≡◌, Bool, true, false, ◌||◌, ◌&&◌, ◌==◌, nat_eq, list_eq, nat_beq, leb, all, drop,
  Option, none, some, List, [], ◌∷◌, ◌++◌, arith, length, if◌then◌else◌,
}
use teatro.Prelude.Text.{Text, codes, is_empty, byte_len, is_ascii_digit, strip_prefix}
use teatro.Prelude.Text.Slices.{trim, char_to_lower, to_ascii_lowercase, starts_with}
use teatro.Filename.Tokens.{
  RawToken, TokenDelimiter, parentheses, brackets, DumpFlags, ParseState, unknown,
  recognize_dump_token, parse_translation_language,
}
use teatro.Filename.Tokens.Accounting.{
  accounted, unknown-accounted, classify_parenthesized_token-accounted,
}
use teatro.Filename.Tokens.Dumps.{
  with_languages, flagged, is_rom_size, sized, counted, count_of, add_hardware, classify_bracketed,
  classify_bracketed_token, classify_token, classify_tokens,
}

-- The state accounts for one token more.
pub record OneMore (state next : ParseState) : Type 0 where
  pub more : accounted next ≡ suc (accounted state)

if-OneMore :
    (state : ParseState) (b : Bool) (x y : ParseState)
    → OneMore state x
    → OneMore state y
    → OneMore state (if b then x else y)
if-OneMore state true x y h k = h
if-OneMore state false x y h k = k

recognize-OneMore :
    (state : ParseState) (raw : Text) (flags : DumpFlags)
    → OneMore state (recognize_dump_token state raw flags)
unfolding recognize_dump_token
recognize-OneMore state raw flags = record { more = omega arith }

hardware-OneMore :
    (state : ParseState) (hardware raw : Text)
    → OneMore state (recognize_dump_token (add_hardware state hardware) raw state.dump_flags)
unfolding recognize_dump_token
hardware-OneMore state hardware raw = record { more = omega arith }

translated-OneMore :
    (state : ParseState) (raw : Text) (flags : DumpFlags) (language : Option Text)
    → OneMore state (recognize_dump_token (with_languages state language) raw flags)
unfolding recognize_dump_token
translated-OneMore state raw flags none = record { more = omega arith }
translated-OneMore state raw flags (some language) = record { more = omega arith }

flagged-OneMore :
    (state : ParseState) (raw : Text) (flag : ℕ) (lower : Text)
    → OneMore state (flagged state raw (flag ∷ lower))
flagged-OneMore state raw flag lower =
    let step = recognize-OneMore state raw in
    if-OneMore state (nat_beq flag b'a') _ _ (step _) (
      if-OneMore state (nat_beq flag b'b') _ _ (step _) (
        if-OneMore state (nat_beq flag b'f') _ _ (step _) (
          if-OneMore state (nat_beq flag b'h') _ _ (step _) (
            if-OneMore state (nat_beq flag b'o') _ _ (step _) (
              if-OneMore state (nat_beq flag b't') _ _ (step _) (
                if-OneMore state (nat_beq flag b'p') _ _ (step _)
                  (record { more = unknown-accounted state (b'[' ∷ raw ++ b']' ∷ []) })))))))

sized-OneMore :
    (state : ParseState) (raw : Text) (flag : ℕ) (lower : Text)
    → OneMore state (sized state raw (flag ∷ lower))
sized-OneMore state raw flag lower =
    let step = recognize-OneMore state raw in
    if-OneMore state (all is_ascii_digit raw && leb 3 (byte_len raw)) _ _ (step _) (
      if-OneMore state (is_rom_size (flag ∷ lower)) _ _ (step _) (
        if-OneMore state (raw == codes "c") _ _ (step _) (
          if-OneMore state (raw == codes "x") _ _ (step _) (flagged-OneMore state raw flag lower))))

counted-OneMore :
    (state : ParseState) (raw : Text) (flag : ℕ) (lower : Text) (found : Option ℕ)
    → OneMore state (counted state raw (flag ∷ lower) found)
counted-OneMore state raw flag lower none = sized-OneMore state raw flag lower
counted-OneMore state raw flag lower (some count) = recognize-OneMore state raw _

classify_bracketed-OneMore :
    (state : ParseState) (c : ℕ) (s : Text) → OneMore state (classify_bracketed state (c ∷ s))
unfolding classify_bracketed
classify_bracketed-OneMore state c s =
    let raw : Text = c ∷ s in
    let lower = to_ascii_lowercase raw in
    let step = recognize-OneMore state raw in
    if-OneMore state (raw == codes "!") _ _ (step _) (
      if-OneMore state (raw == codes "C") _ _ (hardware-OneMore state (codes "Game Boy Color") raw)
        (if-OneMore state (raw == codes "S") _ _
          (hardware-OneMore state (codes "Super Game Boy") raw)
          (if-OneMore state (raw == codes "BF") _ _ (hardware-OneMore state (codes "Bung Fix") raw)
            (if-OneMore state (lower == codes "!p") _ _ (step _) (
              if-OneMore state (lower == codes "unl") _ _ (step _) (
                if-OneMore state (starts_with (codes "T+") raw || starts_with (codes "T-") raw) _ _
                  (translated-OneMore state raw _ (parse_translation_language (drop 2 raw)))
                  (counted-OneMore state raw (char_to_lower c) (to_ascii_lowercase s)
                    (count_of (strip_prefix (codes "m") lower)))))))))

bracketed-OneMore :
    (state : ParseState) (raw : Text)
    → OneMore state
        (if is_empty raw then unknown state (codes "[]") else classify_bracketed state raw)
bracketed-OneMore state [] = record { more = unknown-accounted state (codes "[]") }
bracketed-OneMore state (c ∷ s) = classify_bracketed-OneMore state c s

token-OneMore :
    (state : ParseState) (delimiter : TokenDelimiter) (value : Text)
    → OneMore state (classify_token state (record { delimiter = delimiter; value = value }))
unfolding classify_token classify_bracketed_token
token-OneMore state parentheses value = record {
  more = classify_parenthesized_token-accounted state value;
}
token-OneMore state brackets value = bracketed-OneMore state (trim value)

-- No token of a name is lost or counted twice: after the tokens are classified, those recognized
-- and those listed as unknown are together as many more as there are tokens.
pub classify_tokens-accounted :
    (state : ParseState) (tokens : List RawToken)
    → accounted (classify_tokens state tokens) ≡ accounted state + length tokens
unfolding classify_tokens
classify_tokens-accounted state [] = omega arith
classify_tokens-accounted state (token ∷ tokens) = omega (
  arith,
  classify_tokens-accounted (classify_token state token) tokens,
  (token-OneMore state token.delimiter token.value).more,
)
