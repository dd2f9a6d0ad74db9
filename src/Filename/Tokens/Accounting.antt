-- ===== src/Filename/Tokens/Accounting.antt =====
-- Every token of services/ingest/filename.rs is accounted for.
use teatro.Prelude.{
  ℕ, suc, ◌+◌, ◌≡◌, inl, inr, ◌||◌, Option, none, some, List, [], ◌∷◌, arith, length, length-append,
  Bool-cases,
}
use teatro.Prelude.Text.{Text, codes, is_empty}
use teatro.Prelude.Text.Slices.{eq_ignore_ascii_case, trim}
use teatro.Filename.Regions.{parse_region_token}
use teatro.Filename.Disc.{DiscMarker, parse_disc_marker_text}
use teatro.Filename.Tokens.{
  ParseState, parse_special_hardware, parse_version_token, parse_revision_token, unknown,
  with_hardware, if_unlicensed, with_version, with_revision, with_regions, with_disc,
  classify_parenthesized_token,
}

-- How many tokens a state accounts for: those that were recognized, and those that are listed as
-- unknown.
abbrev pub accounted : ParseState → ℕ
accounted state = state.recognized_tokens + length state.unknown_tokens

pub unknown-accounted :
    (state : ParseState) (token : Text) → accounted (unknown state token) ≡ suc (accounted state)
unknown-accounted state token = omega (arith, length-append state.unknown_tokens (token ∷ []))

with_hardware-accounted :
    (state : ParseState) (raw : Text) (found : Option Text)
    → accounted (with_hardware state raw found) ≡ suc (accounted state)
with_hardware-accounted state raw none = unknown-accounted state _
with_hardware-accounted state raw (some hardware) = omega arith

if_unlicensed-accounted :
    (state : ParseState) (raw : Text) → accounted (if_unlicensed state raw) ≡ suc (accounted state)
if_unlicensed-accounted state raw =
    elim (Bool-cases
      (eq_ignore_ascii_case raw (codes "unl") || eq_ignore_ascii_case raw (codes "unlicensed"))) [
        | inl free ↦ rw (free, if_unlicensed) (omega arith)
        | inr other ↦
            rw (other, if_unlicensed)
              (with_hardware-accounted state raw (parse_special_hardware raw))
      ]

with_version-accounted :
    (state : ParseState) (raw : Text) (found : Option Text)
    → accounted (with_version state raw found) ≡ suc (accounted state)
with_version-accounted state raw none = if_unlicensed-accounted state raw
with_version-accounted state raw (some version) = omega arith

with_revision-accounted :
    (state : ParseState) (raw : Text) (found : Option ℕ)
    → accounted (with_revision state raw found) ≡ suc (accounted state)
with_revision-accounted state raw none = with_version-accounted state raw (parse_version_token raw)
with_revision-accounted state raw (some revision) = omega arith

with_regions-accounted :
    (state : ParseState) (raw : Text) (found : Option (List Text))
    → accounted (with_regions state raw found) ≡ suc (accounted state)
with_regions-accounted state raw none = with_revision-accounted state raw (parse_revision_token raw)
with_regions-accounted state raw (some regions) = omega arith

with_disc-accounted :
    (state : ParseState) (raw : Text) (found : Option DiscMarker)
    → accounted (with_disc state raw found) ≡ suc (accounted state)
with_disc-accounted state raw none = with_regions-accounted state raw (parse_region_token raw)
with_disc-accounted state raw (some disc) = omega arith

-- A token in parentheses is accounted for once.
pub classify_parenthesized_token-accounted :
    (state : ParseState) (token : Text)
    → accounted (classify_parenthesized_token state token) ≡ suc (accounted state)
unfolding classify_parenthesized_token
classify_parenthesized_token-accounted state token = elim (Bool-cases (is_empty (trim token))) [
  | inl nothing ↦ rw (nothing, classify_parenthesized_token) (unknown-accounted state (codes "()"))
  | inr full ↦
      rw (full, classify_parenthesized_token)
        (with_disc-accounted state (trim token) (parse_disc_marker_text (trim token)))
]
