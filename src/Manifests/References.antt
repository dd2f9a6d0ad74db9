-- ===== src/Manifests/References.antt =====
-- What the three readers of services/ingest/manifests.rs return.
use teatro.Prelude.{
  ℕ, ◌≡◌, ap, inl, inr, true, not, Option, none, some, List, [], ◌∷◌, leb, ◌&&◌, all, map, retain,
  take, drop, length, nat_beq, All, Bool-cases, arith,
}
use teatro.Prelude.Fallible.{
  Result, ok, err, collect, Holds, Holds-ok, push_result-Holds, collect-Holds,
}
use teatro.Prelude.Text.{Text, codes, is_empty, is_ascii_digit, strip_prefix}
use teatro.Prelude.Text.Slices.{trim, trim_start, split_whitespace, max_u32, digits_value}
use teatro.Prelude.Text.Lines.{lines, parse_unsigned, max_usize, or_unsigned, parse_value}
use teatro.Manifests.{
  ManifestParseError, GdiTrackReference, validate_relative_manifest_path, is_entry, parse_m3u_lines,
  parse_cue_file_operand, push_reference, is_file_line, cue_references, parse_cue_file_references,
  with_file_name, with_track_number, parse_gdi_row, parse_gdi_line, if_counted, gdi_tracks,
  gdi_lines, is_full, parse_gdi_track_references,
}
use teatro.Manifests.Validation.{IsListed, validate-IsListed}

-- Where a playlist is read, each path that it names may be named by a manifest: the storage cleans
-- it to itself, part by part, and it has no colon and no control character, and no part at a slash
-- or a backslash that is empty, `.` or `..`.
pub parse_m3u_lines-IsListed :
    (contents : Text) (paths : List Text) → parse_m3u_lines contents ≡ ok paths → All IsListed paths
unfolding parse_m3u_lines
parse_m3u_lines-IsListed contents paths e =
    Holds-ok (All IsListed) (parse_m3u_lines contents) paths
      (collect-Holds IsListed validate_relative_manifest_path validate-IsListed
        (retain is_entry (map trim (lines contents))))
      e

push_reference-Holds :
    (operand : Option Text) (references : Result ManifestParseError (List Text))
    → Holds (All IsListed) references
    → Holds (All IsListed) (push_reference operand references)
push_reference-Holds none references h = h
push_reference-Holds (some name) references h =
    push_result-Holds IsListed (validate_relative_manifest_path name) references
      (validate-IsListed name) h

cue_references-Holds : (rows : List Text) → Holds (All IsListed) (cue_references rows)
unfolding cue_references
cue_references-Holds [] = tt
cue_references-Holds (raw ∷ rest) = elim (Bool-cases (is_file_line (trim_start raw))) [
  | inl named ↦
      rw (named, cue_references)
        (push_reference-Holds (parse_cue_file_operand (trim_start (drop 4 (trim_start raw))))
          (cue_references rest) (cue_references-Holds rest))
  | inr other ↦ rw (other, cue_references) (cue_references-Holds rest)
]

-- Where a cue sheet is read, each path that it names may be named by a manifest: the storage cleans
-- it to itself, part by part, and it has no colon and no control character, and no part at a slash
-- or a backslash that is empty, `.` or `..`.
pub parse_cue_file_references-IsListed :
    (contents : Text) (paths : List Text)
    → parse_cue_file_references contents ≡ ok paths
    → All IsListed paths
unfolding parse_cue_file_references
parse_cue_file_references-IsListed contents paths e =
    Holds-ok (All IsListed) (parse_cue_file_references contents) paths
      (cue_references-Holds (lines contents)) e

-- A track whose number fits its type, and whose file is one that a manifest may name.
pub record IsTrack (track : GdiTrackReference) : Type 0 where
  pub fits : leb (track.track_number) max_u32 ≡ true
  pub listed : IsListed (track.file_name)

with_file_name-IsTrack :
    (number : ℕ) (found : Result ManifestParseError Text)
    → leb number max_u32 ≡ true
    → Holds IsListed found
    → Holds IsTrack (with_file_name number found)
with_file_name-IsTrack number (ok name) f h = record { fits = f; listed = h }
with_file_name-IsTrack number (err error) f h = tt

-- The number that is read is at most the largest.
abbrev Fits : ℕ → Option ℕ → Type 0
Fits limit none = Unit
Fits limit (some n) = leb n limit ≡ true

parse_value-Fits : (limit : ℕ) (s : Text) → Fits limit (parse_value limit s)
parse_value-Fits limit s =
    elim (Bool-cases (not (is_empty s) && all is_ascii_digit s && leb (digits_value 0 s) limit)) [
      | inl number ↦ rw number (ground arith)
      | inr other ↦ rw other tt
    ]

or_unsigned-Fits :
    (limit : ℕ) (s : Text) (digits : Option Text) → Fits limit (or_unsigned limit s digits)
or_unsigned-Fits limit s none = parse_value-Fits limit s
or_unsigned-Fits limit s (some digits) = parse_value-Fits limit digits

parse_unsigned-Fits : (limit : ℕ) (s : Text) → Fits limit (parse_unsigned limit s)
unfolding parse_unsigned
parse_unsigned-Fits limit s = or_unsigned-Fits limit s (strip_prefix (codes "+") s)

with_track_number-IsTrack :
    (number : Option ℕ) (path : Text)
    → Fits max_u32 number
    → Holds IsTrack (with_track_number number path)
with_track_number-IsTrack none path f = tt
with_track_number-IsTrack (some number) path f =
    with_file_name-IsTrack number (validate_relative_manifest_path path) f (validate-IsListed path)

parse_gdi_row-IsTrack : (parts : List Text) → Holds IsTrack (parse_gdi_row parts)
parse_gdi_row-IsTrack [] = tt
parse_gdi_row-IsTrack (a ∷ []) = tt
parse_gdi_row-IsTrack (a ∷ b ∷ []) = tt
parse_gdi_row-IsTrack (a ∷ b ∷ c ∷ []) = tt
parse_gdi_row-IsTrack (a ∷ b ∷ c ∷ d ∷ []) = tt
parse_gdi_row-IsTrack (a ∷ b ∷ c ∷ d ∷ e ∷ []) = tt
parse_gdi_row-IsTrack (a ∷ b ∷ c ∷ d ∷ e ∷ f ∷ parts) =
    with_track_number-IsTrack (parse_unsigned max_u32 a) e (parse_unsigned-Fits max_u32 a)

-- The count that the first line of some lines gives.
abbrev pub declared : List Text → Option ℕ
declared [] = none
declared (count ∷ rows) = parse_unsigned max_usize count

abbrev Declared : Option ℕ → List GdiTrackReference → Type 0
Declared count tracks = (count ≡ some (length tracks)) × All IsTrack tracks

if_counted-Declared :
    (count : ℕ) (found : Result ManifestParseError (List GdiTrackReference))
    → Holds (All IsTrack) found
    → Holds (Declared (some count)) (if_counted count found)
if_counted-Declared count (err error) h = tt
if_counted-Declared count (ok tracks) h = elim (Bool-cases (nat_beq (length tracks) count)) [
  | inl same ↦ rw same (ap (λ n. some n) (ground arith), h)
  | inr other ↦ rw other tt
]

gdi_tracks-Declared :
    (count : Option ℕ) (rows : List Text) → Holds (Declared count) (gdi_tracks count rows)
gdi_tracks-Declared none rows = tt
gdi_tracks-Declared (some count) rows =
    if_counted-Declared count (collect parse_gdi_line (take count rows)) (
      collect-Holds IsTrack parse_gdi_line (λ line. parse_gdi_row-IsTrack (split_whitespace line))
        (take count rows))

gdi_lines-Declared : (rows : List Text) → Holds (Declared (declared rows)) (gdi_lines rows)
gdi_lines-Declared [] = tt
gdi_lines-Declared (count ∷ rows) = gdi_tracks-Declared (parse_unsigned max_usize count) rows

-- The lines of a descriptor that are not blank, trimmed.
abbrev pub full_lines : Text → List Text
full_lines contents = retain is_full (map trim (lines contents))

-- Where a GDI descriptor is read, its first line that is not blank is the number of tracks that are
-- returned, the number of each track is a `u32`, and its file is a path that a manifest may name.
pub parse_gdi_track_references-counted :
    (contents : Text) (tracks : List GdiTrackReference)
    → parse_gdi_track_references contents ≡ ok tracks
    → (declared (full_lines contents) ≡ some (length tracks)) × All IsTrack tracks
unfolding parse_gdi_track_references
parse_gdi_track_references-counted contents tracks e =
    Holds-ok (Declared (declared (full_lines contents))) (parse_gdi_track_references contents)
      tracks (gdi_lines-Declared (full_lines contents)) e
