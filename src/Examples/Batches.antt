-- ===== src/Examples/Batches.antt =====
-- Batches that are planned: a disc with a sidecar, and a set of two discs.
use mathlib.Core.Option.{some-injective}
use teatro.Prelude.{
  ℕ, zero, suc, ◌-◌, ◌≡◌, refl, ap, sym, subst, true, Option, none, some, List, [], ◌∷◌, is_some,
}
use teatro.Prelude.Int.{pos}
use teatro.Prelude.Text.{Text, codes}
use teatro.Filename.Disc
use teatro.Filename.Parse.{no_flags, low}
use teatro.Filename.Tokens.{DumpFlags}
use teatro.Ingest.{PlanInputFile, PreparedPlanFile, file_at}
use teatro.Ingest.Planner.{build_ingest_plan}
use teatro.Ingest.DiscSets.{Candidate, accepted, plan_generated_m3u_rom}
use teatro.Ingest.DiscSets.Whole.{PlansSet, plan_generated_m3u_rom-PlansSet}
use teatro.Ingest.Covered.{IsNumbered}
use teatro.Ingest.Covered.Roms.{IsBatch}
use teatro.Normalization.{sanitize_upload_file_name}
use teatro.Prelude.Text.Slices.{trim}
use teatro.Table.{lookup}
use teatro.Ingest.Covered.Complete.{PlansBelow, build_ingest_plan-PlansBelow}

abbrev input_of : ℕ → Text → Option Text → PlanInputFile
input_of index name contents = record {
  index = index;
  original_file_name = name;
  file_size_bytes = none;
  staged_path = none;
  manifest_contents = contents;
}

abbrev inputs : List PlanInputFile
inputs =
    input_of 0 (codes "Game.cue") (some (codes "FILE \"Game.bin\" BINARY"))
    ∷ input_of 1 (codes "Game.bin") none
    ∷ input_of 2 (codes "Game.sbi") none
    ∷ []

abbrev no_json : DumpFlags → Text
no_json flags = []

build_ingest_plan-PlansBelow_example :
    PlansBelow 3 (build_ingest_plan no_json (pos 1) (codes "psx") inputs none)
build_ingest_plan-PlansBelow_example =
    build_ingest_plan-PlansBelow no_json (pos 1) (codes "psx") inputs none
      (refl, (refl, (refl, tt)))

abbrev disc_of : ℕ → Text → PreparedPlanFile
disc_of disc name = record {
  input = input_of (disc - 1) name none;
  parsed = record {
    original_filename = name;
    base_name = codes "Game";
    clean_title = codes "Game";
    naming_convention_guess = none;
    regions = [];
    revision = none;
    version = none;
    languages = [];
    disc = some (record {
      raw = codes "Disc";
      kind = Disc.disc;
      index = some disc;
      count = none;
      side_name = none;
    });
    dump_flags = no_flags;
    special_hardware = [];
    unknown_tokens = [];
    split_archive = none;
    confidence = low;
  };
  extension = codes "chd";
  manifest = record { m3u = none; cue = none; gdi = none };
}

abbrev first_disc : PreparedPlanFile
first_disc = disc_of 1 (codes "Game (Disc 1).chd")

abbrev second_disc : PreparedPlanFile
second_disc = disc_of 2 (codes "Game (Disc 2).chd")

abbrev two_discs : List PreparedPlanFile
two_discs = first_disc ∷ second_disc ∷ []

abbrev both : List Candidate
both = (0, first_disc) ∷ (1, second_disc) ∷ []

discs_numbered : IsNumbered two_discs
discs_numbered zero file e =
    ap (λ (f : PreparedPlanFile). f.input.index) (sym (some-injective first_disc file e))
discs_numbered (suc zero) file e =
    ap (λ (f : PreparedPlanFile). f.input.index) (sym (some-injective second_disc file e))
discs_numbered (suc (suc index)) file e = cc

abbrev IsNamed : PreparedPlanFile → Type 0
IsNamed file = is_some (accepted (sanitize_upload_file_name file.input.original_file_name)) ≡ true

first-IsNamed : IsNamed first_disc
unfolding sanitize_upload_file_name trim
first-IsNamed = refl

second-IsNamed : IsNamed second_disc
unfolding sanitize_upload_file_name trim
second-IsNamed = refl

discs-IsNamed :
    (index : ℕ) (file : PreparedPlanFile) → file_at two_discs index ≡ some file → IsNamed file
discs-IsNamed zero file e = subst IsNamed (some-injective first_disc file e) first-IsNamed
discs-IsNamed (suc zero) file e = subst IsNamed (some-injective second_disc file e) second-IsNamed
discs-IsNamed (suc (suc index)) file e = cc

none_found : {index : ℕ} → none ≡ some index → ⊥
none_found h = cc

discs-IsBatch : IsBatch two_discs []
unfolding lookup
discs-IsBatch = record {
  indexed = λ name index e. absurd (none_found e);
  numbered = discs_numbered;
  named = discs-IsNamed;
}

plan_generated_m3u_rom-PlansSet_example :
    PlansSet [] both (plan_generated_m3u_rom two_discs [] (0 ∷ 1 ∷ []) [] [] 0)
plan_generated_m3u_rom-PlansSet_example =
    plan_generated_m3u_rom-PlansSet two_discs [] both [] [] 0 discs-IsBatch refl (refl, (refl, tt))
