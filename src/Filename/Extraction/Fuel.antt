-- ===== src/Filename/Extraction/Fuel.antt =====
-- The loop over the trailing tokens of services/ingest/filename.rs ends.
use teatro.Prelude.{
  ℕ, zero, suc, ◌≤◌, ◌<◌, ◌≡◌, refl, inl, inr, Option, none, some, List, [], ◌∷◌, nat_beq, arith,
  length, Bool-cases, ◌&&◌,
}
use teatro.Prelude.Text.{Text, is_empty}
use teatro.Prelude.Text.Slices.{is_whitespace, trim_end, rsplit_once, before_split}
use teatro.Filename.Tokens.{RawToken, TokenDelimiter}
use teatro.Filename.Extraction.{
  last, opening_of, cut_token, cut_at, go_on, extract_loop, extract_trailing_tokens,
}

length-trim_end : (s : Text) → length (trim_end s) ≤ length s
length-trim_end [] = omega arith
length-trim_end (c ∷ s) = elim (Bool-cases (is_empty (trim_end s) && is_whitespace c)) [
  | inl cut ↦ rw cut (omega arith)
  | inr kept ↦ rw kept (omega (arith, length-trim_end s))
]

-- What is left of a text before a split is shorter than the text.
abbrev pub Shorter : Text → Option (Text × Text) → Type 0
Shorter s none = Unit
Shorter s (some (before, after)) = length before < length s

before_split-Shorter :
    (d c : ℕ) (s : Text) (found : Option (Text × Text))
    → Shorter s found
    → Shorter (c ∷ s) (before_split d c s found)
before_split-Shorter d c s (some (a, b)) h = omega (arith, h)
before_split-Shorter d c s none h = elim (Bool-cases (nat_beq c d)) [
  | inl hit ↦ rw hit (omega arith)
  | inr miss ↦ rw miss tt
]

rsplit_once-Shorter : (d : ℕ) (s : Text) → Shorter s (rsplit_once d s)
unfolding rsplit_once
rsplit_once-Shorter d [] = tt
rsplit_once-Shorter d (c ∷ s) =
    before_split-Shorter d c s (rsplit_once d s) (rsplit_once-Shorter d s)

abbrev Leaves : Text → Option (RawToken × Text) → Type 0
Leaves s none = Unit
Leaves s (some (token, before)) = length before < length s

cut_token-Leaves :
    (s : Text) (delimiter : TokenDelimiter) (found : Option (Text × Text))
    → Shorter s found
    → Leaves s (cut_token delimiter found)
cut_token-Leaves s delimiter none h = tt
cut_token-Leaves s delimiter (some (before, after)) h = h

cut_at-Leaves : (s : Text) (opening : Option (ℕ × TokenDelimiter)) → Leaves s (cut_at s opening)
cut_at-Leaves s none = tt
cut_at-Leaves s (some (opening, delimiter)) =
    cut_token-Leaves s delimiter (rsplit_once opening s) (rsplit_once-Shorter opening s)

go_on-some :
    (s : Text) (tokens : List RawToken) (found : Option (RawToken × Text))
    (next : Text → List RawToken → Option (Text × List RawToken))
    → Leaves s found
    → ((before : Text) (ts : List RawToken)
        → length before < length s
        → (r : Text × List RawToken) × (next before ts ≡ some r))
    → (r : Text × List RawToken) × (go_on s tokens found next ≡ some r)
go_on-some s tokens none next h f = (_, refl)
go_on-some s tokens (some (token, before)) next h f = f before (token ∷ tokens) h

extract_loop-some :
    (fuel : ℕ) (remaining : Text) (tokens : List RawToken)
    → length remaining < fuel
    → (r : Text × List RawToken) × (extract_loop fuel remaining tokens ≡ some r)
unfolding extract_loop
extract_loop-some zero remaining tokens h = ground arith
extract_loop-some (suc fuel) remaining tokens h =
    let trimmed = trim_end remaining in
    go_on-some trimmed tokens (cut_at trimmed (opening_of (last trimmed))) (extract_loop fuel)
      (cut_at-Leaves trimmed (opening_of (last trimmed)))
      (λ before ts short.
        extract_loop-some fuel before ts (omega (arith, short, h, length-trim_end remaining)))

-- The loop that cuts the trailing tokens off a name ends for every name, within as many rounds as
-- the name has characters and one more.
pub extract_trailing_tokens-some :
    (base_name : Text) → (r : Text × List RawToken) × (extract_trailing_tokens base_name ≡ some r)
unfolding extract_trailing_tokens
extract_trailing_tokens-some base_name =
    extract_loop-some (suc (length (trim_end base_name))) (trim_end base_name) [] (omega arith)
