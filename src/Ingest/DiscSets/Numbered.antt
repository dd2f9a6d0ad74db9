-- ===== src/Ingest/DiscSets/Numbered.antt =====
-- A playlist is generated only for a whole set of discs (services/library/ingest/disc_sets.rs).
use teatro.Prelude.Appends.{append_assoc, append-nil, snoc_full}
use teatro.Prelude.{
  ℕ, zero, suc, ◌+◌, ◌≡◌, ◌≤◌, ◌<◌, inl, inr, refl, true, false, Option, none, some, List, [], ◌∷◌,
  ◌++◌, length, nat_beq, nat_beq_iff, Bool-cases, Option-cases, arith,
}
use teatro.Prelude.Fallible.{ok}
use teatro.Prelude.Text.{Text, is_empty}
use teatro.Table.{Table}
use teatro.Ingest.{PreparedPlanFile, IngestPlanError, IngestPlanRom, files_at, is_used}
use teatro.Ingest.Descriptors.{or_default}
use teatro.Ingest.Placed.{Once, Once_snoc}
use teatro.Ingest.DiscSets.Counting.{holds_all, from_one}
use teatro.Ingest.DiscSets.{
  Candidate, candidate_disc, candidate_count, push_some, filter_map, maximum, generated_disc_count,
  note_disc, note_discs, missing_discs, validate_generated_disc_set, plan_generated_m3u_rom,
}

abbrev pub discs : List Candidate → List ℕ
discs candidates = filter_map candidate_disc candidates

-- The numbers of discs that the names give (`Disc 1 of 2`).
abbrev pub counts : List Candidate → List ℕ
counts candidates = filter_map candidate_count candidates

-- The discs are numbered from 1 to their number, each of them once, every file has one, and no name
-- gives a larger number of discs.
pub record IsDiscSet (candidates : List Candidate) : Type 0 where
  pub counted : generated_disc_count candidates ≡ length candidates
  pub no_more : (count : ℕ) → is_used (counts candidates) count ≡ true → count ≤ length candidates
  pub every_file : length (discs candidates) ≡ length candidates
  pub once : Once (discs candidates)
  pub present :
      (disc : ℕ) → 1 ≤ disc → disc ≤ length candidates → is_used (discs candidates) disc ≡ true
  pub bounded :
      (disc : ℕ) → is_used (discs candidates) disc ≡ true → (1 ≤ disc) × (disc ≤ length candidates)

-- What the loop over the files notes, where it has no error.
-- The errors only grow.
note_disc_wrong :
    (file : PreparedPlanFile) (noted : List ℕ × List IngestPlanError) (found : Option ℕ)
    → is_empty noted.1 ≡ false
    → is_empty (note_disc file noted found).1 ≡ false
note_disc_wrong file (present, errors) none h = h
note_disc_wrong file (present, errors) (some disc) h = elim (Bool-cases (is_used present disc)) [
  | inl again ↦ rw again (snoc_full errors _)
  | inr new ↦ rw new h
]

note_discs_wrong :
    (candidates : List Candidate) (noted : List ℕ × List IngestPlanError)
    → is_empty noted.1 ≡ false
    → is_empty (note_discs candidates noted).1 ≡ false
unfolding note_discs
note_discs_wrong [] noted h = h
note_discs_wrong (candidate ∷ rest) noted h =
    note_discs_wrong rest (note_disc candidate.1 noted (candidate_disc candidate))
      (note_disc_wrong candidate.1 noted (candidate_disc candidate) h)

-- After the discs of the candidates, all of them are present, each once.
abbrev Notes : List ℕ → List ℕ → List ℕ × List IngestPlanError → Type 0
Notes present found noted =
    is_empty noted.1 ≡ true → (noted.0 ≡ present ++ found) × Once (present ++ found)

note_found :
    (rest : List Candidate) (file : PreparedPlanFile) (present : List ℕ) (found : Option ℕ)
    → Once present
    → ((next : List ℕ) → Once next → Notes next (discs rest) (note_discs rest (next, [])))
    → Notes present
        (push_some found (discs rest))
        (note_discs rest (note_disc file (present, []) found))
note_found rest file present none o ih = ih present o
note_found rest file present (some disc) o ih = elim (Bool-cases (is_used present disc)) [
  | inl again ↦ rw again (λ fine. cc (note_discs_wrong rest (present, _ ∷ []) refl, fine))
  | inr new ↦
      rw (new, ← append_assoc present (disc ∷ []) (discs rest))
        (ih (present ++ disc ∷ []) (Once_snoc present disc o new))
]

note_discs_fine :
    (candidates : List Candidate) (present : List ℕ)
    → Once present
    → Notes present (discs candidates) (note_discs candidates (present, []))
unfolding note_discs
note_discs_fine [] present o = λ fine. rw append-nil (refl, o)
note_discs_fine (candidate ∷ rest) present o =
    note_found rest candidate.1 present (candidate_disc candidate) o
      (λ next k. note_discs_fine rest next k)

missing_none :
    (present : List ℕ) (rounds disc : ℕ)
    → is_empty (missing_discs present rounds disc) ≡ true
    → (i : ℕ) → disc ≤ i
    → i < disc + rounds
    → is_used present i ≡ true
unfolding missing_discs
missing_none present zero disc h i a b = absurd (omega (arith, a, b))
missing_none present (suc rounds) disc h i a b = elim (Bool-cases (is_used present disc)) [
  | inr gone ↦ cc (rw gone at h)
  | inl here ↦ elim (Bool-cases (nat_beq disc i)) [
    | inl same ↦ rw (← (nat_beq_iff disc i).0 same) here
    | inr other ↦
        missing_none present rounds (suc disc) (rw here at h) i (ground (arith, a, other))
          (omega (arith, b))
  ]
]

length_push :
    (found : Option ℕ) (xs : List ℕ) (n : ℕ) → length xs ≤ n → length (push_some found xs) ≤ suc n
length_push none xs n h = omega (arith, h)
length_push (some x) xs n h = omega (arith, h)

length-discs : (candidates : List Candidate) → length (discs candidates) ≤ length candidates
length-discs [] = omega arith
length-discs (candidate ∷ rest) =
    length_push (candidate_disc candidate) (discs rest) (length rest) (length-discs rest)

maximum-le : (xs : List ℕ) (i : ℕ) → is_used xs i ≡ true → i ≤ or_default 0 (maximum xs)
maximum-le [] i h = cc
maximum-le (x ∷ xs) i h = elim (Bool-cases (nat_beq x i)) [
  | inl same ↦ ground (arith, same)
  | inr other ↦ ground (arith, maximum-le xs i (rw other at h))
]

disc_count_bounds :
    (candidates : List Candidate)
    → (length candidates ≤ generated_disc_count candidates)
      × ((disc : ℕ)
          → is_used (discs candidates) disc ≡ true
          → disc ≤ generated_disc_count candidates)
unfolding generated_disc_count
disc_count_bounds candidates = (
  omega arith,
  λ disc u. elim (Option-cases (maximum (discs candidates))) [
    | inl empty ↦ omega (arith, rw empty at (maximum-le (discs candidates) disc u))
    | inr (top, e) ↦ rw e (omega (arith, rw e at (maximum-le (discs candidates) disc u)))
  ],
)

count_bounds :
    (candidates : List Candidate) (count : ℕ)
    → is_used (counts candidates) count ≡ true
    → count ≤ generated_disc_count candidates
unfolding generated_disc_count
count_bounds candidates count u = elim (Option-cases (maximum (counts candidates))) [
  | inl empty ↦ omega (arith, rw empty at (maximum-le (counts candidates) count u))
  | inr (top, e) ↦ rw e (omega (arith, rw e at (maximum-le (counts candidates) count u)))
]

-- All discs are noted, and none is missing.
set_of :
    (candidates : List Candidate)
    → is_empty (note_discs candidates ([], [])).1 ≡ true
    → is_empty
        (missing_discs (note_discs candidates ([], [])).0 (generated_disc_count candidates) 1)
      ≡ true
    → IsDiscSet candidates
set_of candidates fine all =
    let count = generated_disc_count candidates in
    let (same, once) = note_discs_fine candidates [] tt fine in
    let here : (i : ℕ) → 1 ≤ i → i ≤ count → is_used (discs candidates) i ≡ true =
      λ i a b. missing_none (discs candidates) count 1 (rw same at all) i a (omega (arith, b)) in
    let (longer, above) = disc_count_bounds candidates in
    let enough = holds_all count (discs candidates) here in
    let shorter = length-discs candidates in
    let counted : count ≡ length candidates = omega (arith, longer, enough, shorter) in
    record {
      counted = counted;
      no_more = λ n u. omega (arith, count_bounds candidates n u, counted);
      every_file = omega (arith, longer, enough, shorter);
      once = once;
      present = λ disc a b. here disc a (omega (arith, b, counted));
      bounded = λ disc u. (
        from_one (discs candidates) count disc here (omega (arith, enough, shorter, longer)) u,
        omega (arith, above disc u, counted),
      );
    }

-- Where there is no error.
fine_set :
    (first : PreparedPlanFile) (candidates : List Candidate)
    → is_empty (validate_generated_disc_set first candidates (generated_disc_count candidates))
      ≡ true
    → IsDiscSet candidates
unfolding validate_generated_disc_set
fine_set first candidates h =
    let count = generated_disc_count candidates in
    let noted = note_discs candidates ([], []) in
    let missing = missing_discs noted.0 count 1 in
    elim (Bool-cases (is_empty missing)) [
      | inr gone ↦ cc (rw (gone, validate_generated_disc_set) at h, snoc_full noted.1 _)
      | inl all ↦ set_of candidates (rw (all, validate_generated_disc_set) at h) all
    ]

-- A rom is planned only for such a set.
pub plan_generated_m3u_rom-IsDiscSet :
    (prepared : List PreparedPlanFile) (name_to_index : Table Text ℕ) (candidate_indices : List ℕ)
    (reserved_file_names : List Text) (used : List ℕ) (rom_index : ℕ) (candidates : List Candidate)
    (rom : IngestPlanRom) (after : List ℕ)
    → files_at prepared candidate_indices ≡ some candidates
    → plan_generated_m3u_rom prepared name_to_index candidate_indices reserved_file_names used
        rom_index
      ≡ some (ok rom, after)
    → IsDiscSet candidates
unfolding plan_generated_m3u_rom
plan_generated_m3u_rom-IsDiscSet prepared name_to_index candidate_indices reserved_file_names used
      rom_index [] rom after e h =
    cc (rw (e, plan_generated_m3u_rom) at h)
plan_generated_m3u_rom-IsDiscSet prepared name_to_index candidate_indices reserved_file_names used
      rom_index ((index, first) ∷ rest) rom after e h =
    let candidates : List Candidate = (index, first) ∷ rest in
    elim (Bool-cases
      (is_empty (validate_generated_disc_set first candidates (generated_disc_count candidates)))) [
        | inl fine ↦ fine_set first candidates fine
        | inr wrong ↦ cc (rw (e, plan_generated_m3u_rom, wrong) at h)
      ]
