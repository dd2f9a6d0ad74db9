-- ===== src/Examples/Tokens.antt =====
-- services/ingest/filename.rs on the tokens of a name of its unit tests.
use teatro.Prelude.{refl, ◌+◌, ◌≡◌, false, [], ◌∷◌, List, length}
use teatro.Prelude.Text.{codes}
use teatro.Prelude.{some}
use teatro.Prelude.Text.Slices.{rsplit_once, trim}
use teatro.Filename.Extraction.{
  extract_trailing_tokens, extract_loop, strip_known_extensions, strip_rounds,
}
use teatro.Filename.Parse.{default_state}
use teatro.Filename.Parse.Total.{parse-some}
use teatro.Filename.Parse.{ParsedFilename, parse}
use teatro.Prelude.Text.{is_empty}
use teatro.Filename.Tokens.{RawToken, parentheses, brackets}
use teatro.Filename.Tokens.Accounting.{accounted}
use teatro.Filename.Tokens.Dumps.{classify_tokens}
use teatro.Filename.Tokens.Dumps.Complete.{classify_tokens-accounted}

-- Of `Addams Family, The (Beta) [b] [UI]`.
abbrev addams_tokens : List RawToken
addams_tokens =
    record { delimiter = parentheses; value = codes "Beta" }
    ∷ record { delimiter = brackets; value = codes "b" }
    ∷ record { delimiter = brackets; value = codes "UI" }
    ∷ []

classify_tokens-accounted_example :
    accounted (classify_tokens default_state addams_tokens)
    ≡ accounted default_state + length addams_tokens
classify_tokens-accounted_example = classify_tokens-accounted default_state addams_tokens

extracts_tokens :
    extract_trailing_tokens (codes "Addams Family, The (Beta) [b] [UI]")
    ≡ some (codes "Addams Family, The", addams_tokens)
unfolding extract_trailing_tokens extract_loop rsplit_once trim
extracts_tokens = refl

strips_extensions : strip_known_extensions (codes "Zoop.gen.ZIP") ≡ codes "Zoop"
unfolding strip_known_extensions strip_rounds rsplit_once trim
strips_extensions = refl

parse-some_example :
    (parsed : ParsedFilename) × (parse (codes "Zoop (U) [!].gen") ≡ some parsed)
    × (is_empty parsed.clean_title ≡ false)
parse-some_example = parse-some (codes "Zoop (U) [!].gen")
