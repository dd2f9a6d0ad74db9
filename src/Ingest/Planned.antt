-- ===== src/Ingest/Planned.antt =====
-- What `plan_descriptor_rom` of services/library/ingest/descriptors.rs answers.
use teatro.Prelude.{
  ℕ, ◌≡◌, inl, inr, refl, false, Option, none, some, List, [], ◌∷◌, ◌++◌, map, length, nat_eq,
  list_eq, Bool-cases, arith,
}
use teatro.Prelude.Fallible.{Result, ok, err}
use teatro.Prelude.Text.{Text, is_empty}
use teatro.Table.{Table}
use teatro.Ingest.{
  PreparedPlanFile, IngestPlanFile, IngestPlanDependency, IngestPlanError, IngestPlanRom, file_key,
  is_used, file_at,
}
use teatro.Ingest.Descriptors.{
  DescriptorTrackRef, Placing, descriptor_track_references, add_descriptor_dependencies, disc_part,
  planned_rom, with_placing, track_set_key, track_set_rom, descriptor_placing, plan_descriptor_rom,
}
use teatro.Ingest.Placed.{
  Once, IsPlacing, IsIndexed, Places, Once_snoc, with_error-IsPlacing, place_tracks-Places,
}

-- The plan of a rom: its files are the descriptor and one track for each reference, and its dependencies
-- lead to the tracks in their order.
pub record IsPlan (references : List DescriptorTrackRef) (used after : List ℕ)
    (descriptor_index : ℕ) (rom : IngestPlanRom) : Type 0 where
  pub tracks : List ℕ
  pub one_each : length tracks ≡ length references
  pub accounted : after ≡ used ++ descriptor_index ∷ tracks
  pub keys :
      map (λ (file : IngestPlanFile). file.key) rom.files ≡ map file_key (descriptor_index ∷ tracks)
  pub children :
      map (λ (dependency : IngestPlanDependency). dependency.child_file_key) rom.dependencies
      ≡ map file_key tracks

-- No index of the batch is used twice after the plan, which is that of a rom or has an error.
abbrev pub Plans :
    List DescriptorTrackRef
    → List ℕ
    → ℕ
    → Option (Result (List IngestPlanError) IngestPlanRom × List ℕ)
    → Type 0
Plans references used descriptor_index none = ⊥
Plans references used descriptor_index (some (ok rom, after)) =
    Once after × IsPlan references used after descriptor_index rom
Plans references used descriptor_index (some (err errors, after)) =
    Once after × (is_empty errors ≡ false)

planned_rom-Plans :
    (references : List DescriptorTrackRef) (used : List ℕ) (descriptor_index : ℕ)
    (rom : IngestPlanRom) (placing : Placing)
    → IsPlacing used descriptor_index (length references) placing
    → Plans references used descriptor_index (some (planned_rom rom placing))
planned_rom-Plans references used descriptor_index rom placing h =
    elim (Bool-cases (is_empty placing.errors)) [
      | inl fine ↦ rw fine (
        h.once,
        record {
          tracks = h.tracks;
          one_each = h.complete fine;
          accounted = h.accounted;
          keys = h.keys;
          children = h.children;
        },
      )
      | inr wrong ↦ rw wrong (h.once, wrong)
    ]

module _ (prepared : List PreparedPlanFile) (name_to_index : Table Text ℕ) (descriptor_index : ℕ)
    (descriptor : PreparedPlanFile) (group_key : Text) (disc_index : Option ℕ) (base_sort_index : ℕ)
    (used : List ℕ) where
  -- At the end of the loop.
  with_placing-Plans :
      (references : List DescriptorTrackRef) (rom : IngestPlanRom) (found : Option Placing)
      → Places prepared name_to_index descriptor_index descriptor group_key disc_index
          base_sort_index used
          (length references)
          found
      → Plans references used descriptor_index (with_placing rom found)
  with_placing-Plans references rom none h = absurd h
  with_placing-Plans references rom (some placing) h =
      planned_rom-Plans references used descriptor_index rom placing h

  add_descriptor_dependencies-Places :
      (placing : Placing)
      → IsIndexed prepared name_to_index
      → IsPlacing used descriptor_index 0 placing
      → Places prepared name_to_index descriptor_index descriptor group_key disc_index
          base_sort_index used
          (length (descriptor_track_references descriptor))
          (add_descriptor_dependencies prepared name_to_index descriptor_index descriptor group_key
            disc_index base_sort_index placing)
  unfolding add_descriptor_dependencies
  add_descriptor_dependencies-Places placing i h =
      elim (Bool-cases (is_empty (descriptor_track_references descriptor))) [
        | inl nothing ↦
            rw (nothing, add_descriptor_dependencies)
              (with_error-IsPlacing prepared name_to_index descriptor_index descriptor group_key
                disc_index base_sort_index used 0 _ _ _ _ placing h)
        | inr some_references ↦
            rw (some_references, add_descriptor_dependencies)
              (place_tracks-Places prepared name_to_index descriptor_index descriptor group_key
                disc_index base_sort_index used (descriptor_track_references descriptor) 0
                (length (descriptor_track_references descriptor)) placing i (omega arith) h)
      ]

descriptor_placing-IsPlacing :
    (descriptor : PreparedPlanFile) (descriptor_index rom_index : ℕ) (used : List ℕ)
    → descriptor.input.index ≡ descriptor_index
    → Once used
    → is_used used descriptor_index ≡ false
    → IsPlacing used descriptor_index 0
        (descriptor_placing descriptor descriptor_index rom_index used)
descriptor_placing-IsPlacing descriptor descriptor_index rom_index used e o f = record {
  tracks = [];
  once = rw f (Once_snoc used descriptor_index o f);
  accounted = rw f refl;
  keys = rw e refl;
  children = refl;
  complete = λ fine. refl;
}

-- In a batch whose names lead to files that know their index, from a set of used indices in which
-- none stands twice and the one of a descriptor is not: planning the descriptor does not panic, and
-- no index is used twice after it; where there is no error, there is a track for each reference,
-- the indices used are those before, the descriptor and the tracks, which are the files of the rom
-- in this order, and the dependencies lead to the tracks in their order.
pub plan_descriptor_rom-Plans :
    (prepared : List PreparedPlanFile) (name_to_index : Table Text ℕ)
    (descriptor_index rom_index : ℕ) (used : List ℕ) (descriptor : PreparedPlanFile)
    → IsIndexed prepared name_to_index
    → file_at prepared descriptor_index ≡ some descriptor
    → descriptor.input.index ≡ descriptor_index
    → Once used
    → is_used used descriptor_index ≡ false
    → Plans
        (descriptor_track_references descriptor)
        used
        descriptor_index
        (plan_descriptor_rom prepared name_to_index descriptor_index used rom_index)
unfolding plan_descriptor_rom
plan_descriptor_rom-Plans prepared name_to_index descriptor_index rom_index used descriptor i a e o
      f =
    let disc_index = disc_part (λ marker. marker.index) descriptor.parsed.disc in
    rw (a, plan_descriptor_rom)
      (with_placing-Plans prepared name_to_index descriptor_index descriptor
        (track_set_key rom_index) disc_index 1 used (descriptor_track_references descriptor)
        (track_set_rom descriptor rom_index)
        (add_descriptor_dependencies prepared name_to_index descriptor_index descriptor
          (track_set_key rom_index) disc_index 1
          (descriptor_placing descriptor descriptor_index rom_index used))
        (add_descriptor_dependencies-Places prepared name_to_index descriptor_index descriptor
          (track_set_key rom_index) disc_index 1 used
          (descriptor_placing descriptor descriptor_index rom_index used) i
          (descriptor_placing-IsPlacing descriptor descriptor_index rom_index used e o f)))
