-- ===== src/Examples/Filenames.antt =====
-- services/ingest/filename.rs on names of its unit tests.
use teatro.Prelude.{◌≡◌, refl, false, some, none, List, [], ◌∷◌, arith, nat_eq, list_eq}
use teatro.Prelude.Text.{Text, codes, is_empty}
use teatro.Prelude.Text.Slices.{trim, rsplit_once, rfind, parse_digits, split}
use teatro.Filename.{SplitArchiveVolume, basename}
use teatro.Filename.SplitArchive.{
  detect_split_archive, volume, numbered, zip_part, rar_part, new_rar,
}
use teatro.Filename.SplitArchive.Volumes.{IsVolume, detect_split_archive-IsVolume}
use teatro.Filename.SplitArchive.RoundTrip.{seven_zip, detect_split_archive-numbered}
use teatro.Filename.Regions.{
  parse_region_token, map_region_name_or_code, parts_regions, letters_regions,
  map_single_letter_region, add_unique,
}
use teatro.Filename.Regions.Known.{AreRegions, parse_region_token-AreRegions}
use teatro.Filename.Disc.{
  DiscMarker, disc, parse_disc_marker_text, marker_in, parse_marker_index, parse_marker_count,
  strip_trailing_disc_marker,
}
use teatro.Filename.Disc.Markers.{
  IsMarker, unguarded_from, parse_disc_marker_text-IsMarker, strip_trailing_disc_marker-unguarded,
}

abbrev new_style : Text
new_style = codes "in/Game.part2.rar"

abbrev part_2 : SplitArchiveVolume
part_2 = volume (codes "Game.part2.rar") (codes "rar") (codes "Game") 2

detects_part_2 : detect_split_archive new_style ≡ some part_2
unfolding detect_split_archive basename trim rsplit_once rfind numbered zip_part rar_part new_rar
    parse_digits
detects_part_2 = refl

detect_split_archive-IsVolume_example : IsVolume (trim (basename new_style)) part_2
detect_split_archive-IsVolume_example =
    detect_split_archive-IsVolume new_style part_2 detects_part_2

detect_split_archive-numbered_example :
    detect_split_archive (codes "Game .7z.012")
    ≡ some (record {
      raw = codes "Game .7z.012";
      archive_format = codes "7z";
      set_name = codes "Game";
      volume_index = 12;
      is_first_volume = false;
    })
detect_split_archive-numbered_example =
    detect_split_archive-numbered seven_zip b'G' (codes "ame ") b'0' b'1' b'2' refl refl refl
      (omega arith)

abbrev usa_europe : List Text
usa_europe = codes "USA" ∷ codes "Europe" ∷ []

reads_usa_europe : parse_region_token (codes "USA, Europe/u") ≡ some usa_europe
unfolding parse_region_token trim split parts_regions map_region_name_or_code add_unique
reads_usa_europe = refl

reads_letters : parse_region_token (codes "UE") ≡ some usa_europe
unfolding parse_region_token trim letters_regions map_region_name_or_code map_single_letter_region
    add_unique
reads_letters = refl

parse_region_token-AreRegions_example : AreRegions usa_europe × (is_empty usa_europe ≡ false)
parse_region_token-AreRegions_example =
    parse_region_token-AreRegions (codes "USA, Europe/u") usa_europe reads_usa_europe

abbrev disc_1_of_3 : DiscMarker
disc_1_of_3 = record {
  raw = codes "Disc 1 of 3";
  kind = disc;
  index = some 1;
  count = some 3;
  side_name = none;
}

reads_disc : parse_disc_marker_text (codes "Disc 1 of 3") ≡ some disc_1_of_3
unfolding parse_disc_marker_text trim marker_in parse_marker_index parse_marker_count parse_digits
reads_disc = refl

parse_disc_marker_text-IsMarker_example : IsMarker (trim (codes "Disc 1 of 3")) disc_1_of_3
parse_disc_marker_text-IsMarker_example =
    parse_disc_marker_text-IsMarker (codes "Disc 1 of 3") disc_1_of_3 reads_disc

strip_trailing_disc_marker-unguarded_example :
    strip_trailing_disc_marker (codes "Game - CD2") ≡ unguarded_from [] (codes "Game - CD2")
strip_trailing_disc_marker-unguarded_example =
    strip_trailing_disc_marker-unguarded (codes "Game - CD2")
