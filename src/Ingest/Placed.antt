-- ===== src/Ingest/Placed.antt =====
-- A plan uses every file of the batch at most once, and its dependencies are its tracks.
use teatro.Prelude.Appends.{append_assoc, map_snoc, snoc_not_empty}
use teatro.Prelude.{
  ℕ, suc, ◌+◌, ◌≡◌, inl, inr, refl, sym, ap, subst, length, length-append, ◌∙◌, true, false, Option,
  none, some, ◌>>=◌, List, [], ◌∷◌, ◌++◌, map, any, nat_beq, nat_eq, list_eq, Bool-cases, arith,
}
use teatro.Prelude.Text.{Text, is_empty}
use teatro.Manifests.{is_separator}
use teatro.Table.{Table, lookup}
use teatro.Ingest.{
  PreparedPlanFile, IngestPlanFile, IngestPlanDependency, file_key, resolve_manifest_reference,
  is_used, file_at,
}
use teatro.Ingest.Descriptors.{
  DescriptorTrackRef, Placing, with_error, push_track, place_found, place_track, place_tracks,
}

-- No index stands twice.
abbrev pub Once : List ℕ → Type 0
Once [] = Unit
Once (index ∷ rest) = (is_used rest index ≡ false) × Once rest

is_used_snoc :
    (used : List ℕ) (x y : ℕ)
    → is_used used x ≡ false
    → nat_beq y x ≡ false
    → is_used (used ++ y ∷ []) x ≡ false
is_used_snoc [] x y h k = ground (arith, k)
is_used_snoc (u ∷ used) x y h k = ground (arith, is_used_snoc used x y, h, k)

pub Once_snoc : (used : List ℕ) (y : ℕ) → Once used → is_used used y ≡ false → Once (used ++ y ∷ [])
Once_snoc [] y h k = (refl, tt)
Once_snoc (u ∷ used) y h k =
    (is_used_snoc used u y h.0 (ground (arith, k)), Once_snoc used y h.1 (ground (arith, k)))

-- After `count` references, the loop has placed tracks after the descriptor, each of them once and free
-- before: all of them where there is no error.
pub record IsPlacing (used : List ℕ) (descriptor_index count : ℕ) (placing : Placing) : Type 0 where
  pub tracks : List ℕ
  pub once : Once placing.used
  pub accounted : placing.used ≡ used ++ descriptor_index ∷ tracks
  pub keys :
      map (λ (file : IngestPlanFile). file.key) placing.files
      ≡ map file_key (descriptor_index ∷ tracks)
  pub children :
      map (λ (dependency : IngestPlanDependency). dependency.child_file_key) placing.dependencies
      ≡ map file_key tracks
  pub complete : is_empty placing.errors ≡ true → length tracks ≡ count

-- The names lead to files of the batch, which know their index.
abbrev pub IsIndexed : List PreparedPlanFile → Table Text ℕ → Type 0
IsIndexed prepared name_to_index =
    (name : Text) (index : ℕ)
    → lookup name name_to_index ≡ some index
    → (file : PreparedPlanFile) × (file_at prepared index ≡ some file) × (file.input.index ≡ index)

pub resolved_file :
    (prepared : List PreparedPlanFile) (name_to_index : Table Text ℕ) (reference : Text) (index : ℕ)
    → IsIndexed prepared name_to_index
    → resolve_manifest_reference reference name_to_index ≡ some index
    → (file : PreparedPlanFile) × (file_at prepared index ≡ some file) × (file.input.index ≡ index)
resolved_file prepared name_to_index reference index h e =
    elim (Bool-cases (any is_separator reference)) [
      | inl path ↦ cc (rw path at e)
      | inr name ↦ h reference index (rw name at e)
    ]

module _ (prepared : List PreparedPlanFile) (name_to_index : Table Text ℕ) (descriptor_index : ℕ)
    (descriptor : PreparedPlanFile) (group_key : Text) (disc_index : Option ℕ) (base_sort_index : ℕ)
    (used : List ℕ) where
  -- A step that does not panic, and what it keeps.
  abbrev pub Places : ℕ → Option Placing → Type 0
  Places count none = ⊥
  Places count (some placing) = IsPlacing used descriptor_index count placing

  push_track-IsPlacing :
      (index : ℕ) (track_ref : DescriptorTrackRef) (track_index : ℕ) (file : PreparedPlanFile)
      (placing : Placing)
      → file.input.index ≡ track_index
      → is_used placing.used track_index ≡ false
      → IsPlacing used descriptor_index index placing
      → IsPlacing used descriptor_index (suc index) (
          push_track prepared name_to_index descriptor_index descriptor group_key disc_index
            base_sort_index index track_ref track_index file placing)
  push_track-IsPlacing index track_ref track_index file placing e free h = record {
    tracks = h.tracks ++ track_index ∷ [];
    once = Once_snoc placing.used track_index h.once free;
    accounted =
        ap (λ r. r ++ track_index ∷ []) h.accounted
        ∙ append_assoc used (descriptor_index ∷ h.tracks) (track_index ∷ []);
    keys =
        map_snoc (λ (f : IngestPlanFile). f.key) placing.files _
        ∙ rw (h.keys, e) (sym (map_snoc file_key (descriptor_index ∷ h.tracks) track_index));
    children =
        map_snoc (λ (d : IngestPlanDependency). d.child_file_key) placing.dependencies _
        ∙ rw h.children (sym (map_snoc file_key h.tracks track_index));
    complete = λ none_wrong.
        omega (arith, length-append h.tracks (track_index ∷ []), h.complete none_wrong);
  }

  pub with_error-IsPlacing :
      (count later : ℕ) (code message name : Text) (placing : Placing)
      → IsPlacing used descriptor_index count placing
      → IsPlacing used descriptor_index later (with_error code message name placing)
  with_error-IsPlacing count later code message name placing h = record {
    tracks = h.tracks;
    once = h.once;
    accounted = h.accounted;
    keys = h.keys;
    children = h.children;
    complete = λ none_wrong. absurd (snoc_not_empty placing.errors _ none_wrong);
  }

  place_found-Places :
      (index : ℕ) (track_ref : DescriptorTrackRef) (track_index : ℕ) (file : PreparedPlanFile)
      (placing : Placing)
      → file.input.index ≡ track_index
      → IsPlacing used descriptor_index index placing
      → Places (suc index) (
          place_found prepared name_to_index descriptor_index descriptor group_key disc_index
            base_sort_index index track_ref track_index placing
            (some file))
  place_found-Places index track_ref track_index file placing e h =
      elim (Bool-cases (is_used placing.used track_index)) [
        | inl again ↦ rw again (with_error-IsPlacing index (suc index) _ _ _ placing h)
        | inr free ↦
            rw free (push_track-IsPlacing index track_ref track_index file placing e free h)
      ]

  place_track-Places :
      (index : ℕ) (track_ref : DescriptorTrackRef) (placing : Placing) (found : Option ℕ)
      → IsIndexed prepared name_to_index
      → resolve_manifest_reference track_ref.file_name name_to_index ≡ found
      → IsPlacing used descriptor_index index placing
      → Places (suc index) (
          place_track prepared name_to_index descriptor_index descriptor group_key disc_index
            base_sort_index index track_ref placing found)
  place_track-Places index track_ref placing none i e h =
      with_error-IsPlacing index (suc index) _ _ _ placing h
  place_track-Places index track_ref placing (some track_index) i e h =
      let (file, here, same) =
        resolved_file prepared name_to_index track_ref.file_name track_index i e in
      rw here (place_found-Places index track_ref track_index file placing same h)

  bind-Places :
      (count total : ℕ) (step : Option Placing) (next : Placing → Option Placing)
      → Places count step
      → ((placing : Placing)
          → IsPlacing used descriptor_index count placing
          → Places total (next placing))
      → Places total (step >>= next)
  bind-Places count total none next h f = absurd h
  bind-Places count total (some placing) next h f = f placing h

  pub place_tracks-Places :
      (refs : List DescriptorTrackRef) (index total : ℕ) (placing : Placing)
      → IsIndexed prepared name_to_index
      → index + length refs ≡ total
      → IsPlacing used descriptor_index index placing
      → Places total (
          place_tracks prepared name_to_index descriptor_index descriptor group_key disc_index
            base_sort_index index refs placing)
  unfolding place_tracks
  place_tracks-Places [] index total placing i e h =
      subst (λ count. IsPlacing used descriptor_index count placing) (omega (arith, e)) h
  place_tracks-Places (track_ref ∷ rest) index total placing i e h =
      bind-Places (suc index) total _ _ (place_track-Places index track_ref placing _ i refl h)
        (λ after k. place_tracks-Places rest (suc index) total after i (omega (arith, e)) k)
