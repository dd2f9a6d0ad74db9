-- ===== src/Ingest/Covered/Plans.antt =====
-- The plan of a batch (services/library/ingest/planner.rs) loses no file: the loops that collect roms.
use teatro.Prelude.Appends.{empty_right, any_snoc}
use teatro.Prelude.{
  ℕ, ◌≡◌, inl, inr, Bool, true, ◌||◌, Option, none, some, ◌>>=◌, List, [], ◌∷◌, ◌++◌, length, All,
  All-mono, nat_beq, Bool-cases, arith,
}
use teatro.Prelude.Fallible.{ok, err}
use teatro.Prelude.Text.{Text, is_empty}
use teatro.Table.{Table}
use teatro.Filename.Tokens.{DumpFlags}
use teatro.Ingest.{PreparedPlanFile, IngestPlanError, IngestPlanRom, is_used}
use teatro.Ingest.Sidecars.{move_sidecars}
use teatro.Ingest.Planner.{
  Planning, PlannedRom, collect_planned_rom, plan_next, plan_each, is_no_playlist, is_no_descriptor,
  plan_single_rom, plan_single, plan_singles, nothing_planned, reserved_names, plan_sets,
  plan_prepared_inputs,
}
use teatro.Ingest.Covered.{has_key}
use teatro.Ingest.Covered.Roms.{
  PlansCovered, IsBatch, plan_m3u_rom-Covers, plan_descriptor_rom-Covers,
  plan_generated_m3u_rom-Covers,
}
use teatro.Ingest.Covered.Sidecars.{planned, move_sidecars_keeps}
use teatro.Ingest.Covered.Sets.{Stands, IndexSet, candidate_groups-IndexSet}

-- Where there is no error, every index that is used is that of a planned file.
abbrev pub IsPlanning : Planning → Type 0
IsPlanning planning =
    is_empty planning.errors ≡ true
    → (index : ℕ) → is_used planning.used index ≡ true
    → planned planning.roms index ≡ true

abbrev KeepsPlanning : Option Planning → Type 0
KeepsPlanning none = ⊥
KeepsPlanning (some planning) = IsPlanning planning

planned_snoc :
    (roms : List IngestPlanRom) (rom : IngestPlanRom) (index : ℕ)
    → planned (roms ++ rom ∷ []) index ≡ (planned roms index || has_key rom.files index)
planned_snoc roms rom index = any_snoc (λ (r : IngestPlanRom). has_key r.files index) roms rom

collect_planned_rom-IsPlanning :
    (planning : Planning) (result : PlannedRom)
    → PlansCovered planning.used (some result)
    → IsPlanning planning
    → IsPlanning (collect_planned_rom planning result)
collect_planned_rom-IsPlanning planning (ok rom, used) c h fine index u =
    elim (Bool-cases (is_used planning.used index)) [
      | inl old ↦ ground (arith, planned_snoc planning.roms rom index, h fine index old)
      | inr new ↦ ground (arith, planned_snoc planning.roms rom index, c index u, new)
    ]
collect_planned_rom-IsPlanning planning (err errors, used) c h fine index u =
    cc (empty_right planning.errors errors fine)

bind-KeepsPlanning :
    (step : Option Planning) (next : Planning → Option Planning)
    → KeepsPlanning step
    → ((planning : Planning) → IsPlanning planning → KeepsPlanning (next planning))
    → KeepsPlanning (step >>= next)
bind-KeepsPlanning none next h f = absurd h
bind-KeepsPlanning (some planning) next h f = f planning h

collected-KeepsPlanning :
    (planning : Planning) (found : Option PlannedRom)
    → PlansCovered planning.used found
    → IsPlanning planning
    → KeepsPlanning (found >>= λ result. some (collect_planned_rom planning result))
collected-KeepsPlanning planning none c h = absurd c
collected-KeepsPlanning planning (some result) c h =
    collect_planned_rom-IsPlanning planning result c h

module _ {ℓ κ} {X : Type ℓ} (skips : X → List ℕ → Bool)
    (planner : X → List ℕ → ℕ → Option PlannedRom) (Valid : X → Type κ)
    (covers : (x : X) (used : List ℕ) (n : ℕ)
      → Valid x
      → PlansCovered used (planner x used n)) where
  plan_next-KeepsPlanning :
      (x : X) (planning : Planning)
      → Valid x
      → IsPlanning planning
      → KeepsPlanning (plan_next skips planner x planning)
  plan_next-KeepsPlanning x planning v h = elim (Bool-cases (skips x planning.used)) [
    | inl skipped ↦ rw skipped h
    | inr taken ↦ rw taken (
        collected-KeepsPlanning planning (planner x planning.used (length planning.roms))
          (covers x planning.used (length planning.roms) v) h)
  ]

  plan_each-KeepsPlanning :
      (xs : List X) (planning : Planning)
      → All Valid xs
      → IsPlanning planning
      → KeepsPlanning (plan_each skips planner xs planning)
  unfolding plan_each
  plan_each-KeepsPlanning [] planning v h = h
  plan_each-KeepsPlanning (x ∷ rest) planning v h =
      bind-KeepsPlanning _ _ (plan_next-KeepsPlanning x planning v.0 h)
        (λ after k. plan_each-KeepsPlanning rest after v.1 k)

-- The files that no rom has become roms of their own.
plan_single-IsPlanning :
    (file : PreparedPlanFile) (planning : Planning)
    → IsPlanning planning
    → IsPlanning (plan_single file planning)
plan_single-IsPlanning file planning h =
    elim (Bool-cases (is_used planning.used file.input.index)) [
      | inl old ↦ rw old h
      | inr new ↦ rw new (λ fine index u. ground (
        arith,
        planned_snoc planning.roms (plan_single_rom file (length planning.roms)) index,
        any_snoc (λ (other : ℕ). nat_beq other index) planning.used file.input.index,
        h fine index,
        u,
      ))
    ]

plan_single_uses :
    (file : PreparedPlanFile) (planning : Planning) (index : ℕ)
    → is_used planning.used index ≡ true
    → is_used (plan_single file planning).used index ≡ true
plan_single_uses file planning index u =
    ground (arith, any_snoc (λ (other : ℕ). nat_beq other index) planning.used file.input.index, u)

plan_single_own :
    (file : PreparedPlanFile) (planning : Planning)
    → is_used (plan_single file planning).used file.input.index ≡ true
plan_single_own file planning =
    ground (
      arith,
      any_snoc (λ (other : ℕ). nat_beq other file.input.index) planning.used file.input.index,
    )

plan_singles_uses :
    (files : List PreparedPlanFile) (planning : Planning) (index : ℕ)
    → is_used planning.used index ≡ true
    → is_used (plan_singles files planning).used index ≡ true
unfolding plan_singles
plan_singles_uses [] planning index u = u
plan_singles_uses (file ∷ rest) planning index u =
    plan_singles_uses rest (plan_single file planning) index
      (plan_single_uses file planning index u)

plan_singles-All :
    (files : List PreparedPlanFile) (planning : Planning)
    → IsPlanning planning
    → IsPlanning (plan_singles files planning)
      × All
          (λ (file : PreparedPlanFile).
            is_used (plan_singles files planning).used file.input.index ≡ true)
          files
unfolding plan_singles
plan_singles-All [] planning h = (h, tt)
plan_singles-All (file ∷ rest) planning h =
    let after = plan_single file planning in
    let (k, uses) = plan_singles-All rest after (plan_single-IsPlanning file planning h) in
    (k, (plan_singles_uses rest after file.input.index (plan_single_own file planning), uses))

-- What the end of `plan_prepared_inputs` answers.
abbrev pub PlansAll :
    List PreparedPlanFile → Option (List IngestPlanRom × List IngestPlanError) → Type 0
PlansAll prepared none = ⊥
PlansAll prepared (some (roms, errors)) =
    is_empty errors ≡ true
    → All (λ (file : PreparedPlanFile). planned roms file.input.index ≡ true) prepared

module _ (prepared : List PreparedPlanFile) (name_to_index : Table Text ℕ)
    (batch : IsBatch prepared name_to_index) (stands : All (Stands prepared) prepared) where
  end-PlansAll :
      (found : Option Planning)
      → KeepsPlanning found
      → PlansAll prepared (
          found >>= λ planning.
          let planned = plan_singles prepared planning in
          some (move_sidecars prepared planned.roms, planned.errors))
  end-PlansAll none h = absurd h
  end-PlansAll (some planning) h = λ fine.
      let (k, uses) = plan_singles-All prepared planning h in
      All-mono _ _
        (λ file u.
          move_sidecars_keeps prepared (plan_singles prepared planning).roms file.input.index
            (k fine file.input.index u))
        prepared uses

  plan_sets-KeepsPlanning :
      (dump_flags_json : DumpFlags → Text) (planning : Planning)
      → IsPlanning planning
      → KeepsPlanning (plan_sets dump_flags_json prepared name_to_index planning)
  plan_sets-KeepsPlanning dump_flags_json planning h =
      let (groups, e, sets) =
        candidate_groups-IndexSet prepared dump_flags_json planning.used stands in
      rw e (
        plan_each-KeepsPlanning _ _ (IndexSet prepared)
          (λ indices used n (group, same, full, k). rw same (
            plan_generated_m3u_rom-Covers prepared name_to_index batch used group
              (reserved_names name_to_index) n full k))
          groups planning sets h)

  pub plan_prepared_inputs-PlansAll :
      (dump_flags_json : DumpFlags → Text)
      → PlansAll prepared (plan_prepared_inputs dump_flags_json prepared name_to_index)
  unfolding plan_prepared_inputs
  plan_prepared_inputs-PlansAll dump_flags_json = end-PlansAll _ (
      bind-KeepsPlanning _ _
        (bind-KeepsPlanning _ _
          (plan_each-KeepsPlanning is_no_playlist _ (Stands prepared)
            (λ file used n k.
              plan_m3u_rom-Covers prepared name_to_index batch used file.input.index n file k)
            prepared nothing_planned stands (λ fine index u. cc))
          (plan_sets-KeepsPlanning dump_flags_json))
        (λ planning h.
          plan_each-KeepsPlanning is_no_descriptor _ (Stands prepared)
            (λ file used n k.
              plan_descriptor_rom-Covers prepared name_to_index batch used file.input.index n file
                k)
            prepared planning stands h))
