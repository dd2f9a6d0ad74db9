-- ===== src/Ingest/Covered.antt =====
-- What the planners of services/library/ingest use of a batch is in the files that they plan: the loop
-- over the tracks of a descriptor, and the children of a playlist.
pub mod Roms
pub mod Sidecars
pub mod Sets
pub mod Plans
pub mod Positions
pub mod Batches
pub mod Complete
use teatro.Prelude.Appends.{any_snoc}
use teatro.Prelude.{
  ℕ, suc, ◌≡◌, inl, inr, refl, ap, Bool, true, ◌||◌, Option, none, some, ◌>>=◌, List, [], ◌∷◌, ◌++◌,
  any, nat_beq, nat_eq, list_eq, Bool-cases, arith,
}
use teatro.Prelude.Text.{Text, is_empty}
use teatro.Table.{Table}
use teatro.Ingest.{
  FileRole, PlanFileKey, PreparedPlanFile, IngestPlanFile, IngestPlanGroup,
  resolve_manifest_reference, is_used, file_at, uploaded,
}
use teatro.Ingest.Descriptors.{
  DescriptorTrackRef, Placing, place_found, place_track, place_tracks, use_index,
  descriptor_track_references, add_descriptor_dependencies,
}
use teatro.Ingest.Playlists.{
  PlaylistPlan, is_descriptor_extension, with_groups, push_child, place_child,
}
use teatro.Ingest.Placed.{IsIndexed, resolved_file}
use teatro.Ingest.Sidecars.{is_key}

abbrev pub has_key : List IngestPlanFile → ℕ → Bool
has_key files index = any (λ file. is_key file.key index) files

-- Every index that is used now was used before or is that of a file.
abbrev pub Covers : List ℕ → List ℕ → List IngestPlanFile → Type 0
Covers before used files =
    (index : ℕ) → is_used used index ≡ true → (is_used before index || has_key files index) ≡ true

pub Covers-more :
    (before used : List ℕ) (files : List IngestPlanFile) (file : IngestPlanFile)
    → Covers before used files
    → Covers before used (files ++ file ∷ [])
Covers-more before used files file h index u =
    ground (arith, h index u, any_snoc (λ (f : IngestPlanFile). is_key f.key index) files file)

pub Covers-snoc :
    (before used : List ℕ) (files : List IngestPlanFile) (file : IngestPlanFile) (new : ℕ)
    → file.key ≡ uploaded new
    → Covers before used files
    → Covers before (used ++ new ∷ []) (files ++ file ∷ [])
Covers-snoc before used files file new k h index u =
    let named : is_key file.key index ≡ nat_beq new index = rw k refl in
    let keyed = any_snoc (λ (f : IngestPlanFile). is_key f.key index) files file in
    elim (Bool-cases (is_used used index)) [
      | inl old ↦ ground (arith, h index old, keyed)
      | inr other ↦
          ground (arith, any_snoc (λ (o : ℕ). nat_beq o index) used new, other, u, keyed, named)
    ]

pub Covers-use :
    (before used : List ℕ) (files : List IngestPlanFile) (file : IngestPlanFile) (new : ℕ)
    → file.key ≡ uploaded new
    → Covers before used files
    → Covers before (use_index used new) (files ++ file ∷ [])
Covers-use before used files file new k h = elim (Bool-cases (is_used used new)) [
  | inl old ↦ rw old (Covers-more before used files file h)
  | inr other ↦ rw other (Covers-snoc before used files file new k h)
]

-- A placing that is there, and covers what it uses.
abbrev pub Covered : List ℕ → Option Placing → Type 0
Covered before none = ⊥
Covered before (some placing) = Covers before placing.used placing.files

abbrev pub PlanCovered : List ℕ → Option PlaylistPlan → Type 0
PlanCovered before none = ⊥
PlanCovered before (some plan) = Covers before plan.placing.used plan.placing.files

-- A file of the batch knows its index.
abbrev pub IsNumbered : List PreparedPlanFile → Type 0
IsNumbered prepared =
    (index : ℕ) (file : PreparedPlanFile)
    → file_at prepared index ≡ some file
    → file.input.index ≡ index

module _ (prepared : List PreparedPlanFile) (name_to_index : Table Text ℕ) (before : List ℕ) where
  module _ (descriptor_index : ℕ) (descriptor : PreparedPlanFile) (group_key : Text)
      (disc_index : Option ℕ) (base_sort_index : ℕ) where
    place_found-Covered :
        (index : ℕ) (track_ref : DescriptorTrackRef) (track_index : ℕ) (file : PreparedPlanFile)
        (placing : Placing)
        → file.input.index ≡ track_index
        → Covers before placing.used placing.files
        → Covered before (
            place_found prepared name_to_index descriptor_index descriptor group_key disc_index
              base_sort_index index track_ref track_index placing
              (some file))
    place_found-Covered index track_ref track_index file placing e h =
        elim (Bool-cases (is_used placing.used track_index)) [
          | inl again ↦ rw again h
          | inr free ↦
              rw free
                (Covers-snoc before placing.used placing.files _ track_index (ap uploaded e) h)
        ]

    place_track-Covered :
        (index : ℕ) (track_ref : DescriptorTrackRef) (placing : Placing) (found : Option ℕ)
        → IsIndexed prepared name_to_index
        → resolve_manifest_reference track_ref.file_name name_to_index ≡ found
        → Covers before placing.used placing.files
        → Covered before (
            place_track prepared name_to_index descriptor_index descriptor group_key disc_index
              base_sort_index index track_ref placing found)
    place_track-Covered index track_ref placing none i e h = h
    place_track-Covered index track_ref placing (some track_index) i e h =
        let (file, here, same) =
          resolved_file prepared name_to_index track_ref.file_name track_index i e in
        rw here (place_found-Covered index track_ref track_index file placing same h)

    bind-Covered :
        (step : Option Placing) (next : Placing → Option Placing)
        → Covered before step
        → ((placing : Placing)
            → Covers before placing.used placing.files
            → Covered before (next placing))
        → Covered before (step >>= next)
    bind-Covered none next h f = absurd h
    bind-Covered (some placing) next h f = f placing h

    place_tracks-Covered :
        (refs : List DescriptorTrackRef) (index : ℕ) (placing : Placing)
        → IsIndexed prepared name_to_index
        → Covers before placing.used placing.files
        → Covered before (
            place_tracks prepared name_to_index descriptor_index descriptor group_key disc_index
              base_sort_index index refs placing)
    unfolding place_tracks
    place_tracks-Covered [] index placing i h = h
    place_tracks-Covered (track_ref ∷ rest) index placing i h =
        bind-Covered _ _ (place_track-Covered index track_ref placing _ i refl h)
          (λ after k. place_tracks-Covered rest (suc index) after i k)

    pub add_descriptor_dependencies-Covered :
        (placing : Placing)
        → IsIndexed prepared name_to_index
        → Covers before placing.used placing.files
        → Covered before (
            add_descriptor_dependencies prepared name_to_index descriptor_index descriptor group_key
              disc_index base_sort_index placing)
    unfolding add_descriptor_dependencies
    add_descriptor_dependencies-Covered placing i h =
        elim (Bool-cases (is_empty (descriptor_track_references descriptor))) [
          | inl nothing ↦ rw (nothing, add_descriptor_dependencies) h
          | inr full ↦
              rw (full, add_descriptor_dependencies)
                (place_tracks-Covered (descriptor_track_references descriptor) 0 placing i h)
        ]

  with_groups-Covered :
      (groups : List IngestPlanGroup) (found : Option Placing)
      → Covered before found
      → PlanCovered before (with_groups groups found)
  with_groups-Covered groups none h = h
  with_groups-Covered groups (some placing) h = h

  -- A child of a playlist that is in the batch.
  pub place_child-Covered :
      (parent_key : PlanFileKey) (ref_index child_index : ℕ) (child : PreparedPlanFile)
      (group : IngestPlanGroup) (role : FileRole) (plan : PlaylistPlan)
      → IsIndexed prepared name_to_index
      → child.input.index ≡ child_index
      → Covers before plan.placing.used plan.placing.files
      → PlanCovered before (
          place_child prepared name_to_index parent_key ref_index child_index child group role plan)
  place_child-Covered parent_key ref_index child_index child group role plan i e h =
      let pushed =
        push_child prepared name_to_index parent_key ref_index child_index child group.key role
          group.disc_index plan.placing in
      let covered : Covers before pushed.used pushed.files =
        Covers-use before plan.placing.used plan.placing.files _ child_index (ap uploaded e) h in
      with_groups-Covered (plan.groups ++ group ∷ []) _
        (elim (Bool-cases (is_descriptor_extension child.extension)) [
          | inl descriptor ↦ rw descriptor (
              add_descriptor_dependencies-Covered child_index child group.key group.disc_index _
                pushed i covered)
          | inr plain ↦ rw plain covered
        ])
