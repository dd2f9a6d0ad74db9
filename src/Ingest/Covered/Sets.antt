-- ===== src/Ingest/Covered/Sets.antt =====
-- Every set of discs that `generated_m3u_candidate_groups` finds is of files of the batch, at least one.
use teatro.Prelude.Appends.{All-map, All-snoc, snoc_full}
use teatro.Prelude.{
  ℕ, ◌≡◌, ◌∙◌, inl, inr, refl, Bool, false, Option, none, some, List, [], ◌∷◌, map, retain, All,
  All-mono, All-retain, Bool-cases,
}
use teatro.Prelude.Text.{Text, is_empty}
use teatro.Filename.Tokens.{DumpFlags}
use teatro.Ingest.{PreparedPlanFile, file_at, files_at}
use teatro.Ingest.DiscSets.{Candidate}
use teatro.Ingest.DiscSets.Candidates.{
  DiscSetKey, same_key, insert_sorted, sort_by, compare_disc_candidates, compare_groups,
  is_disc_set, resolve_groups, sorted_groups, push_candidate, push_keyed, candidate_groups,
  generated_m3u_candidate_key, generated_m3u_candidate_groups,
}

module _ {ℓ} {A : Type ℓ} (not_greater : A → A → Bool) where
  insert_sorted-full : (a : A) (xs : List A) → is_empty (insert_sorted not_greater a xs) ≡ false
  unfolding insert_sorted
  insert_sorted-full a [] = refl
  insert_sorted-full a (x ∷ xs) = elim (Bool-cases (not_greater a x)) [
    | inl le ↦ rw le refl
    | inr gt ↦ rw gt refl
  ]

  sort_by-full : (xs : List A) → is_empty xs ≡ false → is_empty (sort_by not_greater xs) ≡ false
  unfolding sort_by
  sort_by-full [] h = h
  sort_by-full (x ∷ xs) h = insert_sorted-full x (sort_by not_greater xs)

  module _ {κ} (P : A → Type κ) where
    All-insert_sorted :
        (a : A) (xs : List A) → P a → All P xs → All P (insert_sorted not_greater a xs)
    unfolding insert_sorted
    All-insert_sorted a [] h k = (h, tt)
    All-insert_sorted a (x ∷ xs) h k = elim (Bool-cases (not_greater a x)) [
      | inl le ↦ rw le (h, (k.0, k.1))
      | inr gt ↦ rw gt (k.0, All-insert_sorted a xs h k.1)
    ]

    pub All-sort_by : (xs : List A) → All P xs → All P (sort_by not_greater xs)
    unfolding sort_by
    All-sort_by [] h = tt
    All-sort_by (x ∷ xs) h = All-insert_sorted x (sort_by not_greater xs) h.0 (All-sort_by xs h.1)

module _ (prepared : List PreparedPlanFile) where
  abbrev IsPlaced : ℕ → Type 0
  IsPlaced index = (file : PreparedPlanFile) × (file_at prepared index ≡ some file)

  -- The indices of one key.
  abbrev AreKeyed : DiscSetKey × List ℕ → Type 0
  AreKeyed (key, indices) = (is_empty indices ≡ false) × All IsPlaced indices

  push_candidate-AreKeyed :
      (key : DiscSetKey) (index : ℕ) (groups : List (DiscSetKey × List ℕ))
      → IsPlaced index
      → All AreKeyed groups
      → All AreKeyed (push_candidate key index groups)
  unfolding push_candidate
  push_candidate-AreKeyed key index [] p h = ((refl, (p, tt)), tt)
  push_candidate-AreKeyed key index ((other, indices) ∷ rest) p h =
      elim (Bool-cases (same_key key other)) [
        | inl same ↦
            rw same ((snoc_full indices index, All-snoc IsPlaced indices index h.0.1 p), h.1)
        | inr different ↦ rw different (h.0, push_candidate-AreKeyed key index rest p h.1)
      ]

  push_keyed-AreKeyed :
      (dump_flags_json : DumpFlags → Text) (key : Option DiscSetKey) (index : ℕ)
      (groups : List (DiscSetKey × List ℕ))
      → IsPlaced index
      → All AreKeyed groups
      → All AreKeyed (push_keyed dump_flags_json key index groups)
  push_keyed-AreKeyed dump_flags_json none index groups p h = h
  push_keyed-AreKeyed dump_flags_json (some key) index groups p h =
      push_candidate-AreKeyed key index groups p h

  -- A file that stands where its index says.
  abbrev pub Stands : PreparedPlanFile → Type 0
  Stands file = file_at prepared file.input.index ≡ some file

  candidate_groups-AreKeyed :
      (dump_flags_json : DumpFlags → Text) (files : List PreparedPlanFile) (used : List ℕ)
      (groups : List (DiscSetKey × List ℕ))
      → All Stands files
      → All AreKeyed groups
      → All AreKeyed (candidate_groups dump_flags_json files used groups)
  unfolding candidate_groups
  candidate_groups-AreKeyed dump_flags_json [] used groups f h = h
  candidate_groups-AreKeyed dump_flags_json (file ∷ rest) used groups f h =
      candidate_groups-AreKeyed dump_flags_json rest used _ f.1 (
        push_keyed-AreKeyed dump_flags_json (generated_m3u_candidate_key dump_flags_json file used)
          file.input.index groups (file, f.0) h)

  abbrev IsCandidateSet : List Candidate → Type 0
  IsCandidateSet group =
      (is_empty group ≡ false) × All (λ (c : Candidate). file_at prepared c.0 ≡ some c.1) group

  files_at-IsCandidateSet :
      (indices : List ℕ)
      → All IsPlaced indices
      → (group : List Candidate) × (files_at prepared indices ≡ some group)
        × (is_empty group ≡ is_empty indices)
        × All (λ (c : Candidate). file_at prepared c.0 ≡ some c.1) group
  files_at-IsCandidateSet [] h = ([], refl, refl, tt)
  files_at-IsCandidateSet (index ∷ rest) ((file, here), h) =
      let (group, e, _, k) = files_at-IsCandidateSet rest h in
      ((index, file) ∷ group, rw (here, e) refl, refl, (here, k))

  resolve_groups-IsCandidateSet :
      (keyed : List (DiscSetKey × List ℕ))
      → All AreKeyed keyed
      → (groups : List (List Candidate)) × (resolve_groups prepared keyed ≡ some groups)
        × All IsCandidateSet groups
  resolve_groups-IsCandidateSet [] h = ([], refl, tt)
  resolve_groups-IsCandidateSet ((key, indices) ∷ rest) h =
      let (group, e, full, k) = files_at-IsCandidateSet indices h.0.1 in
      let (groups, es, ks) = resolve_groups-IsCandidateSet rest h.1 in
      (group ∷ groups, rw (e, es) refl, ((full ∙ h.0.0, k), ks))

  -- The indices of such a set.
  abbrev pub IndexSet : List ℕ → Type 0
  IndexSet indices =
      (group : List Candidate) × (indices ≡ map (λ (c : Candidate). c.0) group)
      × (is_empty group ≡ false)
      × All (λ (c : Candidate). file_at prepared c.0 ≡ some c.1) group

  sorted_groups-IndexSet :
      (groups : List (List Candidate))
      → All IsCandidateSet groups
      → All IndexSet (sorted_groups groups)
  sorted_groups-IndexSet groups h =
      All-map IndexSet (map (λ (c : Candidate). c.0))
        (sort_by compare_groups (map (sort_by compare_disc_candidates) groups))
        (All-mono IsCandidateSet (λ group. IndexSet (map (λ (c : Candidate). c.0) group))
          (λ group k. (group, refl, k.0, k.1))
          (sort_by compare_groups (map (sort_by compare_disc_candidates) groups))
          (All-sort_by compare_groups IsCandidateSet (map (sort_by compare_disc_candidates) groups)
            (All-map IsCandidateSet (sort_by compare_disc_candidates) groups (
              All-mono IsCandidateSet
                (λ group. IsCandidateSet (sort_by compare_disc_candidates group))
                (λ group k. (
                  sort_by-full compare_disc_candidates group k.0,
                  All-sort_by compare_disc_candidates
                      (λ (c : Candidate). file_at prepared c.0 ≡ some c.1) group k.1,
                ))
                groups h))))

  pub candidate_groups-IndexSet :
      (dump_flags_json : DumpFlags → Text) (used : List ℕ)
      → All Stands prepared
      → (groups : List (List ℕ)) × (generated_m3u_candidate_groups dump_flags_json prepared used
          ≡ some groups)
        × All IndexSet groups
  unfolding generated_m3u_candidate_groups
  candidate_groups-IndexSet dump_flags_json used h =
      let (groups, e, k) =
        resolve_groups-IsCandidateSet (candidate_groups dump_flags_json prepared used [])
          (candidate_groups-AreKeyed dump_flags_json prepared used [] h tt) in
      (
        sorted_groups (retain is_disc_set groups),
        rw (e, generated_m3u_candidate_groups) refl,
        sorted_groups-IndexSet (retain is_disc_set groups)
            (All-retain IsCandidateSet is_disc_set groups k),
      )
