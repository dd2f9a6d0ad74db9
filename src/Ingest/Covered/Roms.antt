-- ===== src/Ingest/Covered/Roms.antt =====
-- What each of the three planners of roms uses of a batch is in the files of its rom, and none panics.
use teatro.Prelude.{
  ℕ, suc, ◌≡◌, inl, inr, refl, ap, true, false, not, ◌&&◌, Option, none, some, ◌>>=◌, List, [], ◌∷◌,
  map, All, is_some, length, nat_beq, Bool-cases, Option-cases, arith,
}
use teatro.Prelude.Fallible.{Result, ok, err}
use teatro.Prelude.Text.{Text, is_empty}
use teatro.Table.{Table}
use teatro.Filename.Parse.Total.{parse-some}
use teatro.Normalization.{sanitize_upload_file_name}
use teatro.Normalization.Slugs.{slugify}
use teatro.Normalization.Playlists.{generated_m3u_file_name}
use teatro.Ingest.{
  FileRole, plan_file, descriptor_format, user_supplied, PreparedPlanFile, IngestPlanError,
  IngestPlanRom, resolve_manifest_reference, file_key, generated_m3u, is_used, file_at, files_at,
  uploaded,
}
use teatro.Ingest.Descriptors.{
  Placing, disc_part, with_placing, plan_id_of, track_set_key, track_set_rom, descriptor_placing,
  plan_descriptor_rom,
}
use teatro.Ingest.Playlists.{
  PlaylistPlan, entry_group, entry_role, add_found, add_resolved, add_reference, add_references,
  finish_plan, playlist_rom, playlist_key, m3u_plan, references_or_none, plan_m3u_rom,
}
use teatro.Ingest.DiscSets.{
  Candidate, generated_disc_count, validate_generated_disc_set, accepted, preview_file_names,
  disc_group, disc_role, add_discs, plan_generated_m3u_rom,
}
use teatro.Ingest.Placed.{IsIndexed, resolved_file}
use teatro.Ingest.Covered.{
  Covers, Covered, PlanCovered, IsNumbered, Covers-use, add_descriptor_dependencies-Covered,
  place_child-Covered,
}

-- A plan that is there: the rom has what was used for it, or there is an error.
abbrev pub PlansCovered :
    List ℕ → Option (Result (List IngestPlanError) IngestPlanRom × List ℕ) → Type 0
PlansCovered before none = ⊥
PlansCovered before (some (ok rom, used)) = Covers before used rom.files
PlansCovered before (some (err errors, used)) = is_empty errors ≡ false

-- A batch that was prepared without an error.
pub record IsBatch (prepared : List PreparedPlanFile) (name_to_index : Table Text ℕ) : Type 0 where
  pub indexed : IsIndexed prepared name_to_index
  pub numbered : IsNumbered prepared
  pub named :
      (index : ℕ) (file : PreparedPlanFile)
      → file_at prepared index ≡ some file
      → is_some (accepted (sanitize_upload_file_name file.input.original_file_name)) ≡ true

Covers-before : (before : List ℕ) → Covers before before []
Covers-before before index h = ground (arith, h)

finish_plan-PlansCovered :
    (before : List ℕ) (rom : IngestPlanRom) (found : Option PlaylistPlan)
    → PlanCovered before found
    → PlansCovered before (finish_plan rom found)
finish_plan-PlansCovered before rom none h = h
finish_plan-PlansCovered before rom (some plan) h =
    elim (Bool-cases (is_empty plan.placing.errors)) [
      | inl fine ↦ rw fine h
      | inr wrong ↦ rw wrong wrong
    ]

bind-PlanCovered :
    (before : List ℕ) (step : Option PlaylistPlan) (next : PlaylistPlan → Option PlaylistPlan)
    → PlanCovered before step
    → ((plan : PlaylistPlan)
        → Covers before plan.placing.used plan.placing.files
        → PlanCovered before (next plan))
    → PlanCovered before (step >>= next)
bind-PlanCovered before none next h f = absurd h
bind-PlanCovered before (some plan) next h f = f plan h

with_placing-PlansCovered :
    (before : List ℕ) (rom : IngestPlanRom) (found : Option Placing)
    → Covered before found
    → PlansCovered before (with_placing rom found)
with_placing-PlansCovered before rom none h = h
with_placing-PlansCovered before rom (some placing) h =
    elim (Bool-cases (is_empty placing.errors)) [
      | inl fine ↦ rw fine h
      | inr wrong ↦ rw wrong wrong
    ]

-- Each index of a set leads to its file.
abbrev pub AreCandidates : List PreparedPlanFile → List Candidate → Type 0
AreCandidates prepared candidates =
    All (λ (c : Candidate). file_at prepared c.0 ≡ some c.1) candidates

pub files_at-some :
    (prepared : List PreparedPlanFile) (candidates : List Candidate)
    → AreCandidates prepared candidates
    → files_at prepared (map (λ (c : Candidate). c.0) candidates) ≡ some candidates
files_at-some prepared [] a = refl
files_at-some prepared ((index, file) ∷ rest) a = rw (a.0, files_at-some prepared rest a.1) refl

module _ (prepared : List PreparedPlanFile) (name_to_index : Table Text ℕ)
    (batch : IsBatch prepared name_to_index) (before : List ℕ) where
  pub plan_descriptor_rom-Covers :
      (descriptor_index rom_index : ℕ) (descriptor : PreparedPlanFile)
      → file_at prepared descriptor_index ≡ some descriptor
      → PlansCovered before
          (plan_descriptor_rom prepared name_to_index descriptor_index before rom_index)
  unfolding plan_descriptor_rom
  plan_descriptor_rom-Covers descriptor_index rom_index descriptor here =
      rw (here, plan_descriptor_rom)
        (with_placing-PlansCovered before (track_set_rom descriptor rom_index) _ (
          add_descriptor_dependencies-Covered prepared name_to_index before descriptor_index
            descriptor (track_set_key rom_index)
            (disc_part (λ marker. marker.index) descriptor.parsed.disc) 1
            (descriptor_placing descriptor descriptor_index rom_index before) batch.indexed
            (Covers-use before before []
              (plan_file descriptor (some (track_set_key rom_index)) FileRole.descriptor 0
                (disc_part (λ marker. marker.index) descriptor.parsed.disc) none true
                (descriptor_format descriptor.extension))
              descriptor_index (ap uploaded (batch.numbered descriptor_index descriptor here))
              (Covers-before before))))

  module _ (m3u_index : ℕ) (m3u_file : PreparedPlanFile) (disc_count : ℕ)
      (plan_id slug : Text) where
    add_found-PlanCovered :
        (ref_index child_index : ℕ) (plan : PlaylistPlan) (child : PreparedPlanFile)
        → child.input.index ≡ child_index
        → Covers before plan.placing.used plan.placing.files
        → PlanCovered before (
            add_found prepared name_to_index m3u_index m3u_file disc_count plan_id slug ref_index
              child_index plan
              (some child))
    add_found-PlanCovered ref_index child_index plan child e h =
        elim (Bool-cases
          (is_used plan.placing.used child_index && not (nat_beq child_index m3u_index))) [
            | inl again ↦ rw again h
            | inr free ↦ rw free (
                place_child-Covered prepared name_to_index before (file_key m3u_index) ref_index
                  child_index child (entry_group plan_id slug disc_count ref_index child)
                  (entry_role child.extension) plan batch.indexed e h)
          ]

    add_resolved-PlanCovered :
        (ref_index : ℕ) (reference : Text) (plan : PlaylistPlan) (found : Option ℕ)
        → resolve_manifest_reference reference name_to_index ≡ found
        → Covers before plan.placing.used plan.placing.files
        → PlanCovered before (
            add_resolved prepared name_to_index m3u_index m3u_file disc_count plan_id slug ref_index
              reference plan found)
    add_resolved-PlanCovered ref_index reference plan none e h = h
    add_resolved-PlanCovered ref_index reference plan (some child_index) e h =
        let (child, here, same) =
          resolved_file prepared name_to_index reference child_index batch.indexed e in
        rw here (add_found-PlanCovered ref_index child_index plan child same h)

    add_references-PlanCovered :
        (references : List Text) (index : ℕ) (plan : PlaylistPlan)
        → Covers before plan.placing.used plan.placing.files
        → PlanCovered before (
            add_references prepared name_to_index m3u_index m3u_file disc_count plan_id slug index
              references plan)
    unfolding add_references add_reference
    add_references-PlanCovered [] index plan h = h
    add_references-PlanCovered (reference ∷ rest) index plan h =
        bind-PlanCovered before _ _ (add_resolved-PlanCovered index reference plan _ refl h)
          (λ after k. add_references-PlanCovered rest (suc index) after k)

  pub plan_m3u_rom-Covers :
      (m3u_index rom_index : ℕ) (m3u_file : PreparedPlanFile)
      → file_at prepared m3u_index ≡ some m3u_file
      → PlansCovered before (plan_m3u_rom prepared name_to_index m3u_index before rom_index)
  unfolding plan_m3u_rom
  plan_m3u_rom-Covers m3u_index rom_index m3u_file here =
      let references = references_or_none m3u_file.manifest.m3u in
      elim (Bool-cases (is_empty references)) [
        | inl nothing ↦ rw (here, nothing, plan_m3u_rom) refl
        | inr full ↦
            rw (here, full, plan_m3u_rom)
              (finish_plan-PlansCovered before (playlist_rom m3u_file rom_index) _ (
                add_references-PlanCovered m3u_index m3u_file (length references)
                  (plan_id_of rom_index) (slugify m3u_file.parsed.clean_title) references 0
                  (m3u_plan m3u_file m3u_index (length references) before rom_index)
                  (Covers-use before before []
                    (plan_file m3u_file (some (playlist_key rom_index)) FileRole.launch_manifest 0
                      none none true user_supplied)
                    m3u_index (ap uploaded (batch.numbered m3u_index m3u_file here))
                    (Covers-before before))))
      ]

  add_discs-PlanCovered :
      (slug : Text) (disc_count rom_index : ℕ) (candidates : List Candidate) (ref_index : ℕ)
      (plan : PlaylistPlan)
      → AreCandidates prepared candidates
      → Covers before plan.placing.used plan.placing.files
      → PlanCovered before
          (add_discs prepared name_to_index slug disc_count rom_index ref_index candidates plan)
  unfolding add_discs
  add_discs-PlanCovered slug disc_count rom_index [] ref_index plan a h = h
  add_discs-PlanCovered slug disc_count rom_index ((child_index, child) ∷ rest) ref_index plan a h =
      bind-PlanCovered before _ _
        (place_child-Covered prepared name_to_index before (generated_m3u rom_index) ref_index
          child_index child (disc_group rom_index slug disc_count ref_index child)
          (disc_role child.extension) plan batch.indexed (batch.numbered child_index child a.0) h)
        (λ after k.
          add_discs-PlanCovered slug disc_count rom_index rest (suc ref_index) after a.1 k)

  preview_file_names-some :
      (candidates : List Candidate)
      → AreCandidates prepared candidates
      → (names : List Text) × (preview_file_names candidates ≡ some names)
  preview_file_names-some [] a = ([], refl)
  preview_file_names-some ((index, file) ∷ rest) a =
      let (names, e) = preview_file_names-some rest a.1 in
      elim (Option-cases (accepted (sanitize_upload_file_name file.input.original_file_name))) [
        | inl refused ↦ cc (rw refused at (batch.named index file a.0))
        | inr (name, k) ↦ (name ∷ names, rw (k, e) refl)
      ]

  pub plan_generated_m3u_rom-Covers :
      (candidates : List Candidate) (reserved_file_names : List Text) (rom_index : ℕ)
      → is_empty candidates ≡ false
      → AreCandidates prepared candidates
      → PlansCovered before (
          plan_generated_m3u_rom prepared name_to_index
            (map (λ (c : Candidate). c.0) candidates)
            reserved_file_names
            before
            rom_index)
  unfolding plan_generated_m3u_rom
  plan_generated_m3u_rom-Covers [] reserved_file_names rom_index f a = cc
  plan_generated_m3u_rom-Covers ((index, first) ∷ rest) reserved_file_names rom_index f a =
      let candidates : List Candidate = (index, first) ∷ rest in
      let disc_count = generated_disc_count candidates in
      let (names, e) = preview_file_names-some candidates a in
      let (parsed, p, _) = parse-some (generated_m3u_file_name first.parsed reserved_file_names) in
      elim (Bool-cases (is_empty (validate_generated_disc_set first candidates disc_count))) [
        | inl fine ↦
            rw (files_at-some prepared candidates a, plan_generated_m3u_rom, fine, e, p)
              (finish_plan-PlansCovered before (playlist_rom first rom_index) _ (
                add_discs-PlanCovered (slugify first.parsed.clean_title) disc_count rom_index
                  candidates 0 _ a (λ i u. ground (arith, u))))
        | inr wrong ↦ rw (files_at-some prepared candidates a, plan_generated_m3u_rom, wrong) wrong
      ]
