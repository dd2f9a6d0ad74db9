-- ===== src/Filename.antt =====
-- services/ingest/filename.rs and its types in domain/ingest.rs: what the name of an uploaded file
-- says of the game in it. A slice of the source that cuts ASCII characters off the end of a text is
-- here a slice by characters.
pub mod SplitArchive
pub mod Regions
pub mod Title
pub mod Disc
pub mod Tokens
pub mod Extraction
pub mod Parse
use teatro.Prelude.{
  ℕ, Bool, true, false, not, ◌&&◌, ◌||◌, List, [], ◌∷◌, nat_beq, any, if◌then◌else◌,
}
use teatro.Prelude.Text.{Text}

pub record SplitArchiveVolume : Type 0 where
  pub raw : Text
  pub archive_format : Text
  pub set_name : Text
  pub volume_index : ℕ
  pub is_first_volume : Bool

abbrev pub is_separator : ℕ → Bool
is_separator c = nat_beq c b'/' || nat_beq c b'\\'

-- What stands after the last separator.
unfoldable pub basename : Text → Text
basename [] = []
basename (c ∷ path) =
    let rest = basename path in
    if any is_separator path then rest else if is_separator c then path else c ∷ path
