-- ===== src/Filename/Title.antt =====
-- services/ingest/filename.rs: the title that is left of a name.
use teatro.Prelude.{ℕ, Bool, ◌||◌, nat_beq, if◌then◌else◌}
use teatro.Prelude.Text.{Text, codes, is_empty}
use teatro.Prelude.Text.Slices.{
  is_whitespace, trim_start_matches, trim_end_matches, split_whitespace, join, replace_char,
}

abbrev pub is_title_edge : ℕ → Bool
is_title_edge c = is_whitespace c || nat_beq c b'-' || nat_beq c b'_'

unfoldable pub clean_title : Text → Text
clean_title raw =
    let spaced = replace_char b'_' b' ' raw in
    let title = join (
      split_whitespace
        (trim_end_matches is_title_edge (trim_start_matches is_title_edge spaced))) in
    if is_empty title then codes "Untitled ROM" else title
