-- ===== src/Filename/Regions/Known.antt =====
-- What `parse_region_token` of services/ingest/filename.rs answers.
use teatro.Prelude.{
  ℕ, ◌≡◌, refl, subst, inl, inr, Bool, true, false, ◌&&◌, ◌||◌, Option, none, some, List, [], ◌∷◌,
  ◌++◌, ◌==◌, nat_eq, list_eq, list_beq_iff, arith, nat_beq, ltb, all, any, All, Bool-cases,
}
use mathlib.Core.Option.{some-injective}
use teatro.Prelude.Text.{Text, byte_len, is_ascii_alphabetic, is_empty}
use teatro.Prelude.Text.Slices.{
  to_ascii_lowercase, to_ascii_uppercase, eq_ignore_ascii_case, trim, split,
}
use teatro.Filename.Regions.{
  region_names, name_in, map_region_name_or_code, single_letters, letter_in,
  map_single_letter_region, add_unique, add_region, parts_regions, letters_regions, if_any,
  is_list_separator, compact_regions, one_region, parse_region_token,
}

-- A region that an arm of the table names.
abbrev pub is_known : Text → Bool
is_known region = any (λ (arm : List Text × Text). arm.1 == region) region_names

-- No two of the texts differ in case alone.
abbrev pub Distinct : List Text → Type 0
Distinct [] = Unit
Distinct (value ∷ values) =
    (any (λ existing. eq_ignore_ascii_case existing value) values ≡ false) × Distinct values

pub record AreRegions (regions : List Text) : Type 0 where
  pub known : All (λ region. is_known region ≡ true) regions
  pub distinct : Distinct regions

abbrev Gives : Option (List Text) → Type 0
Gives none = Unit
Gives (some regions) = AreRegions regions × (is_empty regions ≡ false)

name_in-known :
    (key : Text) (arms : List (List Text × Text)) (region : Text)
    → name_in key arms ≡ some region
    → any (λ (arm : List Text × Text). arm.1 == region) arms ≡ true
name_in-known key [] region e = cc
name_in-known key ((names, named) ∷ arms) region e =
    ground (arith, name_in-known key arms region, list_beq_iff named region)

map_region_name_or_code-known :
    (raw region : Text) → map_region_name_or_code raw ≡ some region → is_known region ≡ true
unfolding map_region_name_or_code
map_region_name_or_code-known raw region e =
    name_in-known (to_ascii_lowercase (trim raw)) region_names region e

letter_in-known :
    (c : ℕ) (arms : List (ℕ × Text)) (region : Text)
    → All (λ (arm : ℕ × Text). is_known arm.1 ≡ true) arms
    → letter_in c arms ≡ some region
    → is_known region ≡ true
letter_in-known c [] region h e = cc
letter_in-known c ((letter, named) ∷ arms) region h e = elim (Bool-cases (nat_beq letter c)) [
  | inl hit ↦ subst (λ r. is_known r ≡ true) (some-injective _ _ (rw hit at e)) h.0
  | inr miss ↦ letter_in-known c arms region h.1 (rw miss at e)
]

map_single_letter_region-known :
    (c : ℕ) (region : Text) → map_single_letter_region c ≡ some region → is_known region ≡ true
unfolding map_single_letter_region
map_single_letter_region-known c region e =
    letter_in-known c single_letters region
      (
        refl,
        (
          refl,
          (
            refl,
            (refl, (refl, (refl, (refl, (refl, (refl, (refl, (refl, (refl, (refl, tt)))))))))),
          ),
        ),
      )
      e

All-append_one :
    (P : Text → Type 0) (xs : List Text) (x : Text) → All P xs → P x → All P (xs ++ x ∷ [])
All-append_one P [] x h k = (k, tt)
All-append_one P (y ∷ xs) x h k = (h.0, All-append_one P xs x h.1 k)

any-append_one :
    (p : Text → Bool) (xs : List Text) (x : Text) → any p (xs ++ x ∷ []) ≡ (any p xs || p x)
any-append_one p [] x = ground arith
any-append_one p (y ∷ xs) x = ground (arith, any-append_one p xs x)

eq_ignore_ascii_case_sym :
    (s t : Text) → eq_ignore_ascii_case s t ≡ false → eq_ignore_ascii_case t s ≡ false
eq_ignore_ascii_case_sym s t h = ground (
  arith,
  list_beq_iff (to_ascii_lowercase s) (to_ascii_lowercase t),
  list_beq_iff (to_ascii_lowercase t) (to_ascii_lowercase s),
)

Distinct-append :
    (xs : List Text) (x : Text)
    → Distinct xs
    → any (λ existing. eq_ignore_ascii_case existing x) xs ≡ false
    → Distinct (xs ++ x ∷ [])
Distinct-append [] x h k = (refl, tt)
Distinct-append (y ∷ xs) x h k =
    let (first, rest) : (eq_ignore_ascii_case y x ≡ false)
        × (any (λ existing. eq_ignore_ascii_case existing x) xs ≡ false) =
      ground arith in
    (
      ground (
        arith,
        any-append_one (λ existing. eq_ignore_ascii_case existing y) xs x,
        h.0,
        eq_ignore_ascii_case_sym y x first,
      ),
      Distinct-append xs x h.1 rest,
    )

add_unique-AreRegions :
    (regions : List Text) (region : Text)
    → is_known region ≡ true
    → AreRegions regions
    → AreRegions (add_unique regions region)
unfolding add_unique
add_unique-AreRegions regions region k h =
    elim (Bool-cases (any (λ existing. eq_ignore_ascii_case existing region) regions)) [
      | inl there ↦ rw (there, add_unique) h
      | inr new ↦
          rw (new, add_unique)
            (record {
              known = All-append_one (λ r. is_known r ≡ true) regions region h.known k;
              distinct = Distinct-append regions region h.distinct new;
            })
    ]

-- Where a loop answers, its regions are known and distinct.
abbrev Answers : Option (List Text) → Type 0
Answers none = Unit
Answers (some regions) = AreRegions regions

add_region-Answers :
    (found : Option Text) (next : List Text → Option (List Text)) (regions : List Text)
    → ((region : Text) → found ≡ some region → is_known region ≡ true)
    → ((rs : List Text) → AreRegions rs → Answers (next rs))
    → AreRegions regions
    → Answers (add_region found next regions)
add_region-Answers none next regions k f h = tt
add_region-Answers (some region) next regions k f h =
    f (add_unique regions region) (add_unique-AreRegions regions region (k region refl) h)

parts_regions-Answers :
    (parts regions : List Text) → AreRegions regions → Answers (parts_regions parts regions)
unfolding parts_regions
parts_regions-Answers [] regions h = h
parts_regions-Answers (part ∷ parts) regions h =
    add_region-Answers (map_region_name_or_code (trim part)) (parts_regions parts) regions
      (map_region_name_or_code-known (trim part)) (parts_regions-Answers parts) h

letters_regions-Answers :
    (compact : Text) (regions : List Text)
    → AreRegions regions
    → Answers (letters_regions compact regions)
unfolding letters_regions
letters_regions-Answers [] regions h = h
letters_regions-Answers (c ∷ compact) regions h =
    add_region-Answers (map_single_letter_region c) (letters_regions compact) regions
      (map_single_letter_region-known c) (letters_regions-Answers compact) h

if_any-Gives : (answer : Option (List Text)) → Answers answer → Gives (if_any answer)
if_any-Gives none h = tt
if_any-Gives (some []) h = tt
if_any-Gives (some (region ∷ regions)) h = (h, refl)

no_regions : AreRegions []
no_regions = record { known = tt; distinct = tt }

compact_regions-Gives : (compact : Text) → Gives (compact_regions compact)
compact_regions-Gives compact =
    elim (Bool-cases (ltb 1 (byte_len compact) && all is_ascii_alphabetic compact)) [
      | inl letters ↦
          rw (letters, compact_regions)
            (if_any-Gives (letters_regions compact [])
              (letters_regions-Answers compact [] no_regions))
      | inr other ↦ rw (other, compact_regions) tt
    ]

one_region-Gives :
    (normalized : Text) (found : Option Text)
    → ((region : Text) → found ≡ some region → is_known region ≡ true)
    → Gives (one_region normalized found)
one_region-Gives normalized none k = compact_regions-Gives (to_ascii_uppercase normalized)
one_region-Gives normalized (some region) k =
    (record { known = (k region refl, tt); distinct = (refl, tt) }, refl)

parse_region_token-Gives : (raw : Text) → Gives (parse_region_token raw)
unfolding parse_region_token
parse_region_token-Gives raw =
    let normalized = trim raw in
    elim (Bool-cases (is_empty normalized)) [
      | inl nothing ↦ rw (nothing, parse_region_token) tt
      | inr full ↦ elim (Bool-cases (any is_list_separator normalized)) [
        | inl listed ↦
            rw (full, listed, parse_region_token)
              (if_any-Gives (parts_regions (split is_list_separator normalized) [])
                (parts_regions-Answers (split is_list_separator normalized) [] no_regions))
        | inr single ↦
            rw (full, single, parse_region_token)
              (one_region-Gives normalized (map_region_name_or_code normalized)
                (map_region_name_or_code-known normalized))
      ]
    ]

-- The regions that a token is read as are regions of the table, no two of them differ in case
-- alone, and there is at least one.
pub parse_region_token-AreRegions :
    (raw : Text) (regions : List Text)
    → parse_region_token raw ≡ some regions
    → AreRegions regions × (is_empty regions ≡ false)
parse_region_token-AreRegions raw regions e = subst Gives e (parse_region_token-Gives raw)
