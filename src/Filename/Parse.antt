-- ===== src/Filename/Parse.antt =====
-- services/ingest/filename.rs: `parse`, which puts the parts together.
pub mod Total
use teatro.Prelude.{
  ℕ, suc, ◌+◌, Bool, true, false, not, ◌||◌, Option, none, some, List, [], ◌∷◌, ltb, leb, is_some,
  if◌then◌else◌,
}
use teatro.Prelude.Text.{Text, codes, is_empty}
use teatro.Prelude.Text.Slices.{trim}
use teatro.Filename.{SplitArchiveVolume, basename}
use teatro.Filename.SplitArchive.{detect_split_archive}
use teatro.Filename.Disc.{DiscMarker, strip_trailing_disc_marker}
use teatro.Filename.Title
use teatro.Filename.Tokens.{RawToken, DumpFlags, ParseState}
use teatro.Filename.Tokens.Dumps.{classify_tokens}
use teatro.Filename.Extraction.{strip_known_extensions, extract_trailing_tokens}

pub data ParseConfidence : Type 0 where
  low medium high : ParseConfidence

pub record ParsedFilename : Type 0 where
  pub original_filename : Text
  pub base_name : Text
  pub clean_title : Text
  pub naming_convention_guess : Option Text
  pub regions : List Text
  pub revision : Option ℕ
  pub version : Option Text
  pub languages : List Text
  pub disc : Option DiscMarker
  pub dump_flags : DumpFlags
  pub special_hardware : List Text
  pub unknown_tokens : List Text
  pub split_archive : Option SplitArchiveVolume
  pub confidence : ParseConfidence

abbrev pub no_flags : DumpFlags
no_flags = record {
  verified_good_dump = false;
  pending_dump = false;
  alternate = none;
  bad_dump = none;
  fixed = none;
  hack = none;
  overdump = none;
  trainer = none;
  pirate = none;
  unlicensed = false;
  translation = none;
  multilingual_count = none;
  checksum = none;
  checksum_good = false;
  checksum_bad = false;
  rom_size = none;
  raw_tokens = [];
}

-- `ParseState::default()`.
abbrev pub default_state : ParseState
default_state = record {
  regions = [];
  revision = none;
  version = none;
  languages = [];
  disc = none;
  dump_flags = no_flags;
  special_hardware = [];
  unknown_tokens = [];
  recognized_tokens = 0;
  goodtools_tokens = 0;
  no_intro_tokens = 0;
}

unfoldable pub confidence_of : ParseState → Option SplitArchiveVolume → ParseConfidence
confidence_of state split_archive =
    if state.dump_flags.verified_good_dump
      || not (is_empty state.regions)
      || is_some state.revision
      || leb 2 state.recognized_tokens
    then high
    else if ltb 0 state.recognized_tokens || is_some split_archive
    then medium
    else low

abbrev pub base_of : Text → Option SplitArchiveVolume → Text
base_of file_name none = trim (strip_known_extensions file_name)
base_of file_name (some volume) = trim volume.set_name

-- The title and the state after the test for a marker that trails the title.
abbrev pub with_trailing : Text → ParseState → Option (Text × DiscMarker) → Text × ParseState
with_trailing title state none = (title, state)
with_trailing title state (some (stripped_title, disc)) = (
  stripped_title,
  record state {
    disc = some disc;
    recognized_tokens = state.recognized_tokens + 1;
    no_intro_tokens = state.no_intro_tokens + 1;
  },
)

abbrev pub trailing_disc : Text → ParseState → Text × ParseState
trailing_disc title state =
    if is_some state.disc
    then (title, state)
    else with_trailing title state (strip_trailing_disc_marker title)

abbrev pub guess_of : ParseState → Option Text
guess_of state =
    if ltb 0 state.goodtools_tokens
    then some (codes "goodtools")
    else if ltb 0 state.no_intro_tokens
    then some (codes "no-intro")
    else none

abbrev pub parsed_with :
    Text → Text → Option SplitArchiveVolume → Text × ParseState → ParsedFilename
parsed_with file_name base_name split_archive (title, state) = record {
  original_filename = file_name;
  base_name = base_name;
  clean_title = Title.clean_title title;
  naming_convention_guess = guess_of state;
  regions = state.regions;
  revision = state.revision;
  version = state.version;
  languages = state.languages;
  disc = state.disc;
  dump_flags = state.dump_flags;
  special_hardware = state.special_hardware;
  unknown_tokens = state.unknown_tokens;
  split_archive = split_archive;
  confidence = confidence_of state split_archive;
}

abbrev pub parse_tokens :
    Text → Text → Option SplitArchiveVolume → Option (Text × List RawToken) → Option ParsedFilename
parse_tokens file_name base_name split_archive none = none
parse_tokens file_name base_name split_archive (some (title_source, tokens)) = some (
    parsed_with file_name base_name split_archive
      (trailing_disc title_source (classify_tokens default_state tokens)))

-- `none` is a loop over the tokens that ran out of fuel.
unfoldable pub parse : Text → Option ParsedFilename
parse original_filename =
    let file_name = trim (basename original_filename) in
    let split_archive = detect_split_archive file_name in
    let base_name = base_of file_name split_archive in
    parse_tokens file_name base_name split_archive (extract_trailing_tokens base_name)
