-- ===== src/Filename/Parse/Total.antt =====
-- `parse` of services/ingest/filename.rs answers for every name.
use teatro.Prelude.{◌≡◌, refl, false, some}
use teatro.Prelude.Text.{Text, is_empty}
use teatro.Prelude.Text.Slices.{trim}
use teatro.Filename.{basename}
use teatro.Filename.SplitArchive.{detect_split_archive}
use teatro.Filename.Disc.Markers.{clean_title_full}
use teatro.Filename.Extraction.Fuel.{extract_trailing_tokens-some}
use teatro.Filename.Parse.{ParsedFilename, base_of, parse}

-- Every file name is parsed, and to a title that is not empty.
pub parse-some :
    (name : Text)
    → (parsed : ParsedFilename) × (parse name ≡ some parsed) × (is_empty parsed.clean_title ≡ false)
unfolding parse
parse-some name =
    let file_name = trim (basename name) in
    let base_name = base_of file_name (detect_split_archive file_name) in
    let (r, e) = extract_trailing_tokens-some base_name in
    rw (parse, e) (_, refl, clean_title_full _)
