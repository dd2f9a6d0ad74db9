-- ===== src/Examples/Plans.antt =====
-- A batch of a cue sheet and its track.
use mathlib.Core.Option.{some-injective}
use teatro.Prelude.{
  ℕ, ◌≡◌, refl, inl, inr, subst, Option, none, some, List, [], ◌∷◌, nat_eq, list_eq, ◌==◌,
  Bool-cases,
}
use teatro.Prelude.Text.{Text, codes}
use teatro.Filename.Parse.{ParsedFilename, no_flags, low}
use teatro.Table.{Table, lookup}
use teatro.Ingest.{PreparedPlanFile, file_at}
use teatro.Ingest.Descriptors.{descriptor_track_references, plan_descriptor_rom}
use teatro.Ingest.Placed.{IsIndexed}
use teatro.Ingest.Planned.{Plans, plan_descriptor_rom-Plans}

abbrev parsed_game : ParsedFilename
parsed_game = record {
  original_filename = codes "Game";
  base_name = codes "Game";
  clean_title = codes "Game";
  naming_convention_guess = none;
  regions = [];
  revision = none;
  version = none;
  languages = [];
  disc = none;
  dump_flags = no_flags;
  special_hardware = [];
  unknown_tokens = [];
  split_archive = none;
  confidence = low;
}

abbrev file_of : ℕ → Text → Text → Option (List Text) → PreparedPlanFile
file_of index name extension cue = record {
  input = record {
    index = index;
    original_file_name = name;
    file_size_bytes = none;
    staged_path = none;
    manifest_contents = none;
  };
  parsed = parsed_game;
  extension = extension;
  manifest = record { m3u = none; cue = cue; gdi = none };
}

abbrev sheet : PreparedPlanFile
sheet = file_of 0 (codes "Game.cue") (codes "cue") (some (codes "Game.bin" ∷ []))

abbrev batch : List PreparedPlanFile
batch = sheet ∷ file_of 1 (codes "Game.bin") (codes "bin") none ∷ []

abbrev names : Table Text ℕ
names = (codes "Game.cue", 0) ∷ (codes "Game.bin", 1) ∷ []

indexed_at :
    (i index : ℕ) (file : PreparedPlanFile)
    → file_at batch i ≡ some file
    → file.input.index ≡ i
    → some i ≡ some index
    → (found : PreparedPlanFile) × (file_at batch index ≡ some found) × (found.input.index ≡ index)
indexed_at i index file h e s =
    subst
      (λ n. (found : PreparedPlanFile) × (file_at batch n ≡ some found) × (found.input.index ≡ n))
      (some-injective i index s) (file, h, e)

names-IsIndexed : IsIndexed batch names
unfolding lookup
names-IsIndexed name index e = elim (Bool-cases (codes "Game.cue" == name)) [
  | inl first ↦ indexed_at 0 index sheet refl refl (rw (first, lookup) at e)
  | inr other ↦ elim (Bool-cases (codes "Game.bin" == name)) [
    | inl second ↦
        indexed_at 1 index (file_of 1 (codes "Game.bin") (codes "bin") none) refl refl
          (rw (other, second, lookup) at e)
    | inr missing ↦ cc (rw (other, missing, lookup) at e)
  ]
]

plan_descriptor_rom-Plans_example :
    Plans (descriptor_track_references sheet) [] 0 (plan_descriptor_rom batch names 0 [] 0)
plan_descriptor_rom-Plans_example =
    plan_descriptor_rom-Plans batch names 0 0 [] sheet names-IsIndexed refl refl tt refl
