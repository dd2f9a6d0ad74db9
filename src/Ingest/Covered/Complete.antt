-- ===== src/Ingest/Covered/Complete.antt =====
-- What `build_ingest_plan` of services/library/ingest/planner.rs answers for a batch.
use teatro.Prelude.Appends.{empty_left, empty_right}
use teatro.Prelude.{
  ℕ, ◌≡◌, ◌<◌, ◌∙◌, inl, inr, refl, subst, true, Option, none, some, ◌>>=◌, List, [], ◌∷◌, length,
  Bool-cases, arith,
}
use teatro.Prelude.Int.{ℤ}
use teatro.Prelude.Text.{Text, is_empty}
use teatro.Prelude.Text.Slices.{trim}
use teatro.Table.{lookup}
use teatro.Filename.Tokens.{DumpFlags}
use teatro.Ingest.{PlanInputFile, IngestPlanError, IngestPlanRom, IngestPlanWarning}
use teatro.Ingest.Prepared.{PreparedInputs, prepare_inputs, nothing_prepared}
use teatro.Ingest.Planner.{
  IngestPlan, overridden, apply_title_override, with_override, plan_valid, plan_prepared_inputs,
  build_ingest_plan,
}
use teatro.Ingest.Covered.Sidecars.{planned}
use teatro.Ingest.Covered.Plans.{PlansAll, plan_prepared_inputs-PlansAll}
use teatro.Ingest.Covered.Positions.{AreNumbered, file_at-some, All-at, index_at}
use teatro.Ingest.Covered.Batches.{
  IsPrepared, prepare_each-IsPrepared, IsPrepared-Stands, IsPrepared-IsBatch,
}

overridden-planned :
    (title : Text) (roms : List IngestPlanRom) (warnings : List IngestPlanWarning) (index : ℕ)
    → planned (overridden title roms warnings).0 index ≡ planned roms index
overridden-planned title [] warnings index = refl
overridden-planned title (rom ∷ []) warnings index = refl
overridden-planned title (rom ∷ other ∷ rest) warnings index = refl

apply_title_override-planned :
    (title : Option Text) (roms : List IngestPlanRom) (warnings : List IngestPlanWarning)
    (index : ℕ)
    → planned (apply_title_override title roms warnings).0 index ≡ planned roms index
apply_title_override-planned none roms warnings index = refl
apply_title_override-planned (some title) roms warnings index =
    elim (Bool-cases (is_empty (trim title))) [
      | inl blank ↦ rw blank refl
      | inr given ↦ rw given (overridden-planned (trim title) roms warnings index)
    ]

-- A plan that is there, and has every index below a number where it has no error.
abbrev pub PlansBelow : ℕ → Option IngestPlan → Type 0
PlansBelow count none = ⊥
PlansBelow count (some plan) =
    is_empty plan.errors ≡ true → (index : ℕ) → index < count → planned plan.roms index ≡ true

module _ (platform_id : ℤ) (platform_slug : Text) (title_override : Option Text)
    (prepared : PreparedInputs) (h : IsPrepared prepared) where
  planned_below :
      (found : Option (List IngestPlanRom × List IngestPlanError))
      → PlansAll prepared.files found
      → PlansBelow (length prepared.files) (
          found >>= λ planned.
          some (with_override platform_id platform_slug title_override prepared planned))
  planned_below none k = absurd k
  planned_below (some (roms, errors)) k = λ fine index below.
      let (file, here) = file_at-some prepared.files index below in
      let own =
        All-at _ prepared.files index file (k (empty_right prepared.errors errors fine)) here in
      apply_title_override-planned title_override roms prepared.warnings index
      ∙ subst (λ i. planned roms i ≡ true)
          (index_at 0 prepared.files index file h.numbered here ∙ omega arith) own

  plan_valid-PlansBelow :
      (dump_flags_json : DumpFlags → Text)
      → PlansBelow (length prepared.files) (
          plan_valid dump_flags_json prepared >>= λ planned.
          some (with_override platform_id platform_slug title_override prepared planned))
  plan_valid-PlansBelow dump_flags_json = elim (Bool-cases (is_empty prepared.errors)) [
    | inl fine ↦ rw fine (
        planned_below (plan_prepared_inputs dump_flags_json prepared.files prepared.name_to_index) (
          plan_prepared_inputs-PlansAll prepared.files prepared.name_to_index
            (IsPrepared-IsBatch prepared h fine) (IsPrepared-Stands prepared h) dump_flags_json))
    | inr wrong ↦ rw wrong (λ fine index below. cc (empty_left prepared.errors [] fine))
  ]

none_found : {index : ℕ} → none ≡ some index → ⊥
none_found h = cc

-- For inputs that are numbered in their order, whatever they are named and hold:
-- `build_ingest_plan` ends without a panic, and where the plan has no error, every input is a file
-- of a rom of the plan.
pub build_ingest_plan-PlansBelow :
    (dump_flags_json : DumpFlags → Text) (platform_id : ℤ) (platform_slug : Text)
    (inputs : List PlanInputFile) (title_override : Option Text)
    → AreNumbered 0 inputs
    → PlansBelow
        (length inputs)
        (build_ingest_plan dump_flags_json platform_id platform_slug inputs title_override)
unfolding build_ingest_plan prepare_inputs lookup
build_ingest_plan-PlansBelow dump_flags_json platform_id platform_slug inputs title_override n =
    let (prepared, e, h, long) = prepare_each-IsPrepared inputs nothing_prepared n (record {
      numbered = tt;
      indexed = λ name index l. absurd (none_found l);
      named = λ fine. tt;
    }) in
    let same : length prepared.files ≡ length inputs = omega (arith, long) in
    rw (e, build_ingest_plan, prepare_inputs)
      (rw (← same)
        (plan_valid-PlansBelow platform_id platform_slug title_override prepared h dump_flags_json))
