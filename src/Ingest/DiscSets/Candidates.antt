-- ===== src/Ingest/DiscSets/Candidates.antt =====
-- services/library/ingest/disc_sets.rs: the discs of a batch that belong together. How serde writes
-- dump flags as JSON is a parameter.
use teatro.Prelude.{
  ℕ, Bool, true, false, not, ◌&&◌, ◌||◌, Option, none, some, ◌>>=◌, List, [], ◌∷◌, ◌++◌, map, any,
  retain, length, nat_beq, ltb, leb, is_some, compare, Ordering, ◌==◌, nat_eq, list_eq,
  if◌then◌else◌,
}
use teatro.Prelude.Text.{Text, codes, is_empty, text_le}
use teatro.Prelude.Text.Slices.{to_ascii_lowercase}
use teatro.Filename.Tokens.{DumpFlags}
use teatro.Filename.Parse.{ParsedFilename}
use teatro.Normalization.Playlists.{is_disc_image_extension}
use teatro.Ingest.{ManifestReferences, PreparedPlanFile, is_used, files_at}
use teatro.Ingest.Descriptors.{disc_part, or_default}
use teatro.Ingest.Playlists.{is_descriptor_extension}
use teatro.Ingest.DiscSets.{Candidate, candidate_disc, candidate_count}

-- `ManifestReferences::has_descriptor_references`.
abbrev pub is_some_full {ℓ} : {A : Type ℓ} → Option (List A) → Bool
is_some_full none = false
is_some_full (some references) = not (is_empty references)

abbrev pub has_descriptor_references : ManifestReferences → Bool
has_descriptor_references manifest = is_some_full manifest.cue || is_some_full manifest.gdi

-- The derived equality of optional parts.
abbrev pub same_option {ℓ} : {A : Type ℓ} → (A → A → Bool) → Option A → Option A → Bool
same_option same none none = true
same_option same (some a) (some b) = same a b
same_option same _ _ = false

pub record DiscSetKey : Type 0 where
  pub title : Text
  pub regions : List Text
  pub revision : Option ℕ
  pub version : Option Text
  pub languages : List Text
  pub special_hardware : List Text
  pub unknown_tokens : List Text
  pub dump_flags_json : Text

abbrev pub same_text : Text → Text → Bool
same_text s t = s == t

abbrev pub same_key : DiscSetKey → DiscSetKey → Bool
same_key a b =
    a.title == b.title
    && a.regions == b.regions
    && same_option nat_beq a.revision b.revision
    && same_option same_text a.version b.version
    && a.languages == b.languages
    && a.special_hardware == b.special_hardware
    && a.unknown_tokens == b.unknown_tokens
    && a.dump_flags_json == b.dump_flags_json

-- `i64::MAX` where there is no disc.
abbrev pub disc_index : PreparedPlanFile → ℕ
disc_index file =
    or_default 9_223_372_036_854_775_807 (disc_part (λ marker. marker.index) file.parsed.disc)

-- `compare_disc_candidates(left, right)` is not `Greater`: by disc, then by index, then by name.
abbrev pub then_le : Ordering → Bool → Bool
then_le Ordering.lt later = true
then_le Ordering.eq later = later
then_le Ordering.gt later = false

abbrev pub compare_disc_candidates : Candidate → Candidate → Bool
compare_disc_candidates (_, left) (_, right) =
    then_le (compare (disc_index left) (disc_index right)) (
      then_le (compare left.input.index right.input.index) (
        text_le (to_ascii_lowercase left.input.original_file_name)
          (to_ascii_lowercase right.input.original_file_name)))

-- `sort_by`, which is stable.
module _ {ℓ} {A : Type ℓ} (not_greater : A → A → Bool) where
  unfoldable pub insert_sorted : A → List A → List A
  insert_sorted a [] = a ∷ []
  insert_sorted a (b ∷ rest) =
      let later = b ∷ insert_sorted a rest in if not_greater a b then a ∷ b ∷ rest else later

  unfoldable pub sort_by : List A → List A
  sort_by [] = []
  sort_by (a ∷ rest) = insert_sorted a (sort_by rest)

-- Two groups by the titles and the indices of their first discs.
abbrev pub compare_groups : List Candidate → List Candidate → Bool
compare_groups ((_, left) ∷ _) ((_, right) ∷ _) =
    let left_title = to_ascii_lowercase left.parsed.clean_title in
    let right_title = to_ascii_lowercase right.parsed.clean_title in
    if left_title == right_title
    then leb left.input.index right.input.index
    else text_le left_title right_title
compare_groups _ _ = true

abbrev pub is_multi_disc : Candidate → Bool
is_multi_disc candidate =
    ltb 1 (or_default 0 (candidate_count candidate))
    || ltb 1 (or_default 0 (candidate_disc candidate))

abbrev pub is_disc_set : List Candidate → Bool
is_disc_set group = ltb 1 (length group) || any is_multi_disc group

abbrev pub resolve_groups :
    List PreparedPlanFile → List (DiscSetKey × List ℕ) → Option (List (List Candidate))
resolve_groups prepared [] = some []
resolve_groups prepared ((key, indices) ∷ rest) = files_at prepared indices >>= λ group.
    resolve_groups prepared rest >>= λ groups. some (group ∷ groups)

abbrev pub sorted_groups : List (List Candidate) → List (List ℕ)
sorted_groups groups =
    map (map (λ (candidate : Candidate). candidate.0))
      (sort_by compare_groups (map (sort_by compare_disc_candidates) groups))

-- `entry(key).or_default().push(index)`. The order of the keys does not show: the groups are sorted by
-- their first discs, which differ in their indices.
unfoldable pub push_candidate :
    DiscSetKey → ℕ → List (DiscSetKey × List ℕ) → List (DiscSetKey × List ℕ)
push_candidate key index [] = (key, index ∷ []) ∷ []
push_candidate key index ((other, indices) ∷ rest) =
    let later = (other, indices) ∷ push_candidate key index rest in
    if same_key key other then (other, indices ++ index ∷ []) ∷ rest else later

module _ (dump_flags_json : DumpFlags → Text) where
  abbrev pub disc_set_key : ParsedFilename → DiscSetKey
  disc_set_key parsed = record {
    title = to_ascii_lowercase parsed.clean_title;
    regions = parsed.regions;
    revision = parsed.revision;
    version = parsed.version;
    languages = parsed.languages;
    special_hardware = parsed.special_hardware;
    unknown_tokens = parsed.unknown_tokens;
    dump_flags_json = dump_flags_json parsed.dump_flags;
  }

  abbrev pub is_launchable_disc : PreparedPlanFile → Bool
  is_launchable_disc file =
      is_disc_image_extension file.extension
      || (is_descriptor_extension file.extension && has_descriptor_references file.manifest)

  unfoldable pub generated_m3u_candidate_key : PreparedPlanFile → List ℕ → Option DiscSetKey
  generated_m3u_candidate_key file used =
      if is_used used file.input.index
        || file.extension == codes "m3u"
        || not (is_some (disc_part (λ marker. marker.index) file.parsed.disc))
        || not (is_launchable_disc file)
      then none
      else some (disc_set_key file.parsed)

  abbrev pub push_keyed :
      Option DiscSetKey → ℕ → List (DiscSetKey × List ℕ) → List (DiscSetKey × List ℕ)
  push_keyed none index groups = groups
  push_keyed (some key) index groups = push_candidate key index groups

  -- The loop over the files.
  unfoldable pub candidate_groups :
      List PreparedPlanFile → List ℕ → List (DiscSetKey × List ℕ) → List (DiscSetKey × List ℕ)
  candidate_groups [] used groups = groups
  candidate_groups (file ∷ rest) used groups =
      candidate_groups rest used
        (push_keyed (generated_m3u_candidate_key file used) file.input.index groups)

  -- An index that leads to no file is a panic. Every index of a group is looked up: that of a single
  -- disc by the filter, and those of a set by the sort.
  unfoldable pub generated_m3u_candidate_groups :
      List PreparedPlanFile → List ℕ → Option (List (List ℕ))
  generated_m3u_candidate_groups prepared used =
      resolve_groups prepared (candidate_groups prepared used []) >>= λ groups.
      some (sorted_groups (retain is_disc_set groups))
