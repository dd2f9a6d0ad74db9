-- ===== src/Ingest/Titles/Collected.antt =====
-- The table of the titles that `apply_planned_titles` of services/library/ingest/planner.rs collects.
use mathlib.Core.Option.{some-injective}
use teatro.Prelude.{
  ◌≡◌, ◌⊎◌, ◌∙◌, ap, sym, inl, inr, refl, true, some, List, [], ◌∷◌, All, list_beq_iff, ◌==◌,
  nat_eq, list_eq, Bool-cases, arith,
}
use teatro.Prelude.Fallible.{Result, ok, err}
use teatro.Prelude.Text.{Text, is_empty}
use teatro.Prelude.Text.Slices.{trim}
use teatro.Table.{Table, lookup, insert, contains_key}
use teatro.Table.Laws.{lookup-insert}
use teatro.Normalization.{LibraryServiceError, normalized_edit_title}
use teatro.Ingest.Titles.{PlannedRomTitle, insert_title, add_title, then_result, titles_by_plan}

-- One of the titles that are given is for this rom, and reads so after it is cleaned.
abbrev pub Given : List PlannedRomTitle → Text → Text → Type 0
Given [] plan_id title = ⊥
Given (planned ∷ rest) plan_id title =
    ((trim planned.plan_id ≡ plan_id) × (normalized_edit_title planned.title ≡ ok title))
    ⊎ Given rest plan_id title

-- A table of the titles that are given.
abbrev pub Holds : List PlannedRomTitle → Table Text Text → Type 0
Holds planned titles =
    (plan_id title : Text) → lookup plan_id titles ≡ some title → Given planned plan_id title

abbrev pub Listed : Table Text Text → PlannedRomTitle → Type 0
Listed titles planned = contains_key (trim planned.plan_id) titles ≡ true

-- What one title adds to the table.
record Adds (planned : PlannedRomTitle) (before after : Table Text Text) : Type 0 where
  law :
      (title : Text) × (normalized_edit_title planned.title ≡ ok title)
      × (after ≡ insert (trim planned.plan_id) title before)

insert_title-Adds :
    (planned : PlannedRomTitle) (titles after : Table Text Text)
    (found : Result LibraryServiceError Text)
    → normalized_edit_title planned.title ≡ found
    → insert_title (trim planned.plan_id) titles found ≡ ok after
    → Adds planned titles after
insert_title-Adds planned titles after (err error) e h = cc
insert_title-Adds planned titles after (ok title) e h =
    elim (Bool-cases (contains_key (trim planned.plan_id) titles)) [
      | inl again ↦ cc (rw again at h)
      | inr new ↦ record { law = (title, e, cc (rw new at h)) }
    ]

add_title-Adds :
    (planned : PlannedRomTitle) (titles after : Table Text Text)
    → add_title planned titles ≡ ok after
    → Adds planned titles after
add_title-Adds planned titles after h = elim (Bool-cases (is_empty (trim planned.plan_id))) [
  | inl empty ↦ cc (rw empty at h)
  | inr named ↦ insert_title-Adds planned titles after _ refl (rw named at h)
]

pub then_result-ok {ℓ κ} :
    {A : Type ℓ} {B : Type κ} (m : Result LibraryServiceError A)
    (next : A → Result LibraryServiceError B) (b : B)
    → then_result m next ≡ ok b
    → (a : A) × (m ≡ ok a) × (next a ≡ ok b)
then_result-ok (err error) next b h = cc
then_result-ok (ok a) next b h = (a, refl, h)

-- A key of the table after an insertion was there before, or is the new one.
insert_found :
    (key new plan_id title : Text) (before after : Table Text Text)
    → after ≡ insert key new before
    → lookup plan_id after ≡ some title
    → ((key ≡ plan_id) × (new ≡ title)) ⊎ (lookup plan_id before ≡ some title)
insert_found key new plan_id title before after e l =
    let found : lookup plan_id (insert key new before) ≡ some title =
      ap (λ m. lookup plan_id m) (sym e) ∙ l in
    elim (Bool-cases (key == plan_id)) [
      | inl same ↦ inl (
        (list_beq_iff key plan_id).0 same,
        some-injective new title
            (sym (lookup-insert key plan_id new before ∙ rw same refl) ∙ found),
      )
      | inr other ↦ inr (sym (lookup-insert key plan_id new before ∙ rw other refl) ∙ found)
    ]

pub titles-Given :
    (planned : List PlannedRomTitle) (start titles : Table Text Text)
    → titles_by_plan planned start ≡ ok titles
    → (plan_id title : Text) → lookup plan_id titles ≡ some title
    → Given planned plan_id title ⊎ (lookup plan_id start ≡ some title)
unfolding titles_by_plan
titles-Given [] start titles h plan_id title l =
    let same : start ≡ titles = cc in inr (ap (λ m. lookup plan_id m) same ∙ l)
titles-Given (p ∷ rest) start titles h plan_id title l =
    let (mid, e, k) = then_result-ok (add_title p start) (titles_by_plan rest) titles h in
    let (new, clean, law) = (add_title-Adds p start mid e).law in
    elim (titles-Given rest mid titles k plan_id title l) [
      | inl given ↦ inl (inr given)
      | inr found ↦ elim (insert_found (trim p.plan_id) new plan_id title start mid law found) [
        | inl (same, value) ↦ inl (inl (same, clean ∙ ap ok value))
        | inr before ↦ inr before
      ]
    ]

insert_keeps :
    (key new plan_id : Text) (before after : Table Text Text)
    → after ≡ insert key new before
    → contains_key plan_id before ≡ true
    → contains_key plan_id after ≡ true
unfolding contains_key
insert_keeps key new plan_id before after e h =
    rw (e, lookup-insert key plan_id new before) (ground (arith, h))

titles_keep :
    (planned : List PlannedRomTitle) (start titles : Table Text Text)
    → titles_by_plan planned start ≡ ok titles
    → (plan_id : Text) → contains_key plan_id start ≡ true
    → contains_key plan_id titles ≡ true
unfolding titles_by_plan
titles_keep [] start titles h plan_id c = let same : start ≡ titles = cc in rw (← same) c
titles_keep (p ∷ rest) start titles h plan_id c =
    let (mid, e, k) = then_result-ok (add_title p start) (titles_by_plan rest) titles h in
    let (new, clean, law) = (add_title-Adds p start mid e).law in
    titles_keep rest mid titles k plan_id
      (insert_keeps (trim p.plan_id) new plan_id start mid law c)

insert_own :
    (key new : Text) (before after : Table Text Text)
    → after ≡ insert key new before
    → contains_key key after ≡ true
unfolding contains_key
insert_own key new before after e =
    rw (e, lookup-insert key key new before, (list_beq_iff key key).1 refl) refl

pub titles-Listed :
    (planned : List PlannedRomTitle) (start titles : Table Text Text)
    → titles_by_plan planned start ≡ ok titles
    → All (Listed titles) planned
unfolding titles_by_plan
titles-Listed [] start titles h = tt
titles-Listed (p ∷ rest) start titles h =
    let (mid, e, k) = then_result-ok (add_title p start) (titles_by_plan rest) titles h in
    let (new, clean, law) = (add_title-Adds p start mid e).law in
    (
      titles_keep rest mid titles k (trim p.plan_id)
          (insert_own (trim p.plan_id) new start mid law),
      titles-Listed rest mid titles k,
    )
