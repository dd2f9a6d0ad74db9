-- ===== src/Ingest/Titles/Retitled.antt =====
-- What `apply_planned_titles` of services/library/ingest/planner.rs accepts.
use teatro.Prelude.{
  ◌≡◌, ◌⊎◌, ◌∙◌, ap, sym, subst, inl, inr, refl, Bool, true, false, Option, none, some, List, [],
  ◌∷◌, map, any, All, All-mono, length, nat_beq, nat_beq_iff, ◌==◌, nat_eq, list_eq, Bool-cases,
  Option-cases,
}
use teatro.Prelude.Fallible.{Result, ok, err}
use teatro.Prelude.Text.{Text, is_empty}
use teatro.Prelude.Text.Slices.{trim}
use teatro.Table.{Table, lookup, remove, contains_key}
use teatro.Table.Laws.{lookup-remove}
use teatro.Normalization.{LibraryServiceError}
use teatro.Normalization.Slugs.{slugify}
use teatro.Ingest.{IngestPlanGroup, IngestPlanRom}
use teatro.Ingest.Titles.Collected.{
  Given, Holds, Listed, then_result-ok, titles-Given, titles-Listed,
}
use teatro.Ingest.Titles.{
  PlannedRomTitle, then_result, titles_by_plan, retitled_group, retitled, retitle_found,
  retitle_roms, without_unmatched, apply_planned_titles,
}

-- A rom with another title: what depends on it, and what does not.
pub record IsRetitled (title : Text) (rom after : IngestPlanRom) : Type 0 where
  pub new_title : after.title ≡ title
  pub new_slug : after.slug ≡ slugify title
  pub same_id : after.plan_id ≡ rom.plan_id
  pub same_files : after.files ≡ rom.files
  pub same_dependencies : after.dependencies ≡ rom.dependencies
  pub same_keys :
      map (λ (group : IngestPlanGroup). group.key) after.groups
      ≡ map (λ (group : IngestPlanGroup). group.key) rom.groups

-- Each rom has the title that is given for it, in the order of the roms.
abbrev pub AreRetitled : List PlannedRomTitle → List IngestPlanRom → List IngestPlanRom → Type 0
AreRetitled planned [] [] = Unit
AreRetitled planned (rom ∷ roms) (after ∷ rest) =
    ((title : Text) × Given planned rom.plan_id title × IsRetitled title rom after)
    × AreRetitled planned roms rest
AreRetitled planned _ _ = ⊥

abbrev pub has_plan : List IngestPlanRom → Text → Bool
has_plan roms plan_id = any (λ rom. rom.plan_id == plan_id) roms

-- The roms after titles that are accepted, and each title is for one of the roms.
pub record Retitles (planned : List PlannedRomTitle) (roms after : List IngestPlanRom)
    : Type 0 where
  pub titled : AreRetitled planned roms after
  pub matched : All (λ (title : PlannedRomTitle). has_plan roms (trim title.plan_id) ≡ true) planned

map_keys :
    (previous_title previous_slug title slug : Text) (groups : List IngestPlanGroup)
    → map
        (λ (group : IngestPlanGroup). group.key)
        (map (retitled_group previous_title previous_slug title slug) groups)
      ≡ map (λ (group : IngestPlanGroup). group.key) groups
map_keys previous_title previous_slug title slug [] = refl
map_keys previous_title previous_slug title slug (group ∷ groups) =
    ap (λ keys. group.key ∷ keys) (map_keys previous_title previous_slug title slug groups)

retitled-IsRetitled :
    (title : Text) (rom : IngestPlanRom) → IsRetitled title rom (retitled title rom)
retitled-IsRetitled title rom = record {
  new_title = refl;
  new_slug = refl;
  same_id = refl;
  same_files = refl;
  same_dependencies = refl;
  same_keys = map_keys rom.title rom.slug title (slugify title) rom.groups;
}

remove_found :
    (key plan_id title : Text) (titles : Table Text Text)
    → lookup plan_id (remove key titles) ≡ some title
    → lookup plan_id titles ≡ some title
remove_found key plan_id title titles l = elim (Bool-cases (key == plan_id)) [
  | inl same ↦
      let gone : lookup plan_id (remove key titles) ≡ none =
        lookup-remove key plan_id titles ∙ rw same refl in
      cc (gone, l)
  | inr other ↦ sym (lookup-remove key plan_id titles ∙ rw other refl) ∙ l
]

-- The loop over the roms: each has its title, and the titles of no rom are left.
abbrev LoopRetitles :
    List PlannedRomTitle
    → List IngestPlanRom
    → Table Text Text
    → Result LibraryServiceError (List IngestPlanRom × Table Text Text)
    → Type 0
LoopRetitles planned roms titles (err error) = Unit
LoopRetitles planned roms titles (ok (after, left)) =
    AreRetitled planned roms after
    × ((plan_id title : Text)
        → lookup plan_id titles ≡ some title
        → (has_plan roms plan_id ≡ true) ⊎ (lookup plan_id left ≡ some title))

found-LoopRetitles :
    (planned : List PlannedRomTitle) (rom : IngestPlanRom) (roms : List IngestPlanRom)
    (titles : Table Text Text) (found : Option Text)
    (rest : Result LibraryServiceError (List IngestPlanRom × Table Text Text))
    → Holds planned titles
    → lookup rom.plan_id titles ≡ found
    → LoopRetitles planned roms (remove rom.plan_id titles) rest
    → LoopRetitles planned (rom ∷ roms) titles (retitle_found rom found rest)
found-LoopRetitles planned rom roms titles none rest g e h = tt
found-LoopRetitles planned rom roms titles (some title) (err error) g e h = tt
found-LoopRetitles planned rom roms titles (some title) (ok (after, left)) g e h = (
  ((title, g rom.plan_id title e, retitled-IsRetitled title rom), h.0),
  λ plan_id value l. elim (Bool-cases (rom.plan_id == plan_id)) [
    | inl same ↦ inl (rw same refl)
    | inr other ↦ elim (h.1 plan_id value (lookup-remove rom.plan_id plan_id titles ∙ rw other l)) [
      | inl there ↦ inl (rw (other, there) refl)
      | inr kept ↦ inr kept
    ]
  ],
)

retitle_roms-LoopRetitles :
    (planned : List PlannedRomTitle) (roms : List IngestPlanRom) (titles : Table Text Text)
    → Holds planned titles
    → LoopRetitles planned roms titles (retitle_roms roms titles)
unfolding retitle_roms
retitle_roms-LoopRetitles planned [] titles g = (tt, λ plan_id title l. inr l)
retitle_roms-LoopRetitles planned (rom ∷ roms) titles g =
    found-LoopRetitles planned rom roms titles _ _ g refl (
      retitle_roms-LoopRetitles planned roms (remove rom.plan_id titles)
        (λ plan_id title l. g plan_id title (remove_found rom.plan_id plan_id title titles l)))

-- A key that is in the table is that of a rom, where no title is left.
key_matched :
    (roms : List IngestPlanRom) (titles : Table Text Text) (plan_id : Text)
    → ((title : Text)
        → lookup plan_id titles ≡ some title
        → (has_plan roms plan_id ≡ true) ⊎ (lookup plan_id [] ≡ some title))
    → contains_key plan_id titles ≡ true
    → has_plan roms plan_id ≡ true
unfolding contains_key lookup
key_matched roms titles plan_id h c = elim (Option-cases (lookup plan_id titles)) [
  | inl missing ↦ cc (rw missing at c)
  | inr (title, found) ↦ elim (h title found) [ inl there ↦ there | inr left ↦ cc left ]
]

finished-Retitles :
    (planned : List PlannedRomTitle) (roms after : List IngestPlanRom) (titles : Table Text Text)
    (result : Result LibraryServiceError (List IngestPlanRom × Table Text Text))
    → All (Listed titles) planned
    → LoopRetitles planned roms titles result
    → then_result result without_unmatched ≡ ok after
    → Retitles planned roms after
finished-Retitles planned roms after titles (err error) l h e = cc
finished-Retitles planned roms after titles (ok (found, (k, t) ∷ left)) l h e = cc
finished-Retitles planned roms after titles (ok (found, [])) l h e =
    let same : found ≡ after = cc in
    record {
      titled = subst (λ rs. AreRetitled planned roms rs) same h.0;
      matched =
          All-mono (Listed titles) (λ p. has_plan roms (trim p.plan_id) ≡ true)
            (λ p c. key_matched roms titles (trim p.plan_id) (h.1 (trim p.plan_id)) c) planned l;
    }

found_nowhere : (plan_id title : Text) → lookup {V = Text} plan_id [] ≡ some title → ⊥
unfolding lookup
found_nowhere plan_id title h = cc

-- Where titles for a plan are accepted, and there is at least one: there are as many as roms, each
-- rom has the title that one of them gives for its plan id, cleaned, with the slug of that title,
-- and keeps its plan id, its files, its dependencies and the keys of its groups; and each title is
-- for one of the roms.
pub apply_planned_titles-Retitles :
    (roms after : List IngestPlanRom) (planned : List PlannedRomTitle)
    → is_empty planned ≡ false
    → apply_planned_titles roms planned ≡ ok after
    → Retitles planned roms after × (length planned ≡ length roms)
unfolding apply_planned_titles
apply_planned_titles-Retitles roms after planned full h =
    elim (Bool-cases (nat_beq (length planned) (length roms))) [
      | inr different ↦ cc (rw (full, different, apply_planned_titles) at h)
      | inl same ↦
          let (titles, e, k) =
            then_result-ok (titles_by_plan planned [])
              (λ titles. then_result (retitle_roms roms titles) without_unmatched) after
              (rw (full, same, apply_planned_titles) at h) in
          (
            finished-Retitles planned roms after titles (retitle_roms roms titles)
                (titles-Listed planned [] titles e)
                (retitle_roms-LoopRetitles planned roms titles (λ plan_id title l.
                  elim (titles-Given planned [] titles e plan_id title l) [
                    | inl given ↦ given
                    | inr nothing ↦ absurd (found_nowhere plan_id title nothing)
                  ]))
                k,
            (nat_beq_iff (length planned) (length roms)).0 same,
          )
    ]
