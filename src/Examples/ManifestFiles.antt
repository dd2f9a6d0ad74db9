-- ===== src/Examples/ManifestFiles.antt =====
-- services/ingest/manifests.rs on the texts of its unit tests.
use teatro.Prelude.{◌≡◌, refl, some, List, [], ◌∷◌, nat_eq, list_eq, All}
use teatro.Prelude.Fallible.{ok, err}
use teatro.Prelude.Text.{Text, codes}
use teatro.Prelude.Text.Slices.{split, split_whitespace, trim}
use teatro.Prelude.Text.Lines.{lines, split_once, parse_unsigned}
use teatro.Manifests.{
  GdiTrackReference, parent_traversal, absolute_path, invalid_gdi_track_count,
  invalid_gdi_track_row, validate_relative_manifest_path, parse_m3u_lines, parse_cue_file_operand,
  cue_references, parse_cue_file_references, parse_gdi_track_references,
}
use teatro.Manifests.Validation.{IsListed}
use teatro.Manifests.References.{
  IsTrack, declared, full_lines, parse_m3u_lines-IsListed, parse_cue_file_references-IsListed,
  parse_gdi_track_references-counted,
}

abbrev playlist : Text
playlist = codes "# comment\n\nDisc 1/game.cue\r\nDisc 2/game.cue\n"

abbrev discs : List Text
discs = codes "Disc 1/game.cue" ∷ codes "Disc 2/game.cue" ∷ []

reads_playlist : parse_m3u_lines playlist ≡ ok discs
unfolding parse_m3u_lines validate_relative_manifest_path trim split lines
reads_playlist = refl

refuses_secret : parse_m3u_lines (codes "../secret.bin") ≡ err parent_traversal
unfolding parse_m3u_lines validate_relative_manifest_path trim split lines
refuses_secret = refl

refuses_drive : parse_m3u_lines (codes "C:game.bin") ≡ err absolute_path
unfolding parse_m3u_lines validate_relative_manifest_path trim split lines
refuses_drive = refl

parse_m3u_lines-IsListed_example : All IsListed discs
parse_m3u_lines-IsListed_example = parse_m3u_lines-IsListed playlist discs reads_playlist

abbrev sheet : Text
sheet = codes "FILE \"Track 01.bin\" BINARY\n  file audio.wav WAVE\nFILE\nREM FILE x\n"

abbrev tracks : List Text
tracks = codes "Track 01.bin" ∷ codes "audio.wav" ∷ []

reads_sheet : parse_cue_file_references sheet ≡ ok tracks
unfolding parse_cue_file_references cue_references parse_cue_file_operand
    validate_relative_manifest_path trim split lines split_once split_whitespace
reads_sheet = refl

parse_cue_file_references-IsListed_example : All IsListed tracks
parse_cue_file_references-IsListed_example =
    parse_cue_file_references-IsListed sheet tracks reads_sheet

abbrev descriptor : Text
descriptor = codes "2\n1 0 4 2352 track01.bin 0\n2 450 0 2352 track02.raw 0\n"

abbrev two_tracks : List GdiTrackReference
two_tracks =
    record { track_number = 1; file_name = codes "track01.bin" }
    ∷ record { track_number = 2; file_name = codes "track02.raw" }
    ∷ []

reads_descriptor : parse_gdi_track_references descriptor ≡ ok two_tracks
unfolding parse_gdi_track_references parse_unsigned validate_relative_manifest_path trim split lines
    split_whitespace
reads_descriptor = refl

refuses_short_count :
    parse_gdi_track_references (codes "2\n1 0 4 2352 track01.bin 0\n") ≡ err invalid_gdi_track_count
unfolding parse_gdi_track_references parse_unsigned validate_relative_manifest_path trim split lines
    split_whitespace
refuses_short_count = refl

refuses_short_row :
    parse_gdi_track_references (codes "1\n1 0 4 2352 track01.bin\n") ≡ err invalid_gdi_track_row
unfolding parse_gdi_track_references parse_unsigned validate_relative_manifest_path trim split lines
    split_whitespace
refuses_short_row = refl

parse_gdi_track_references-counted_example :
    (declared (full_lines descriptor) ≡ some 2) × All IsTrack two_tracks
parse_gdi_track_references-counted_example =
    parse_gdi_track_references-counted descriptor two_tracks reads_descriptor
