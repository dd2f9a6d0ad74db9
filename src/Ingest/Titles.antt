-- ===== src/Ingest/Titles.antt =====
-- services/library/ingest/planner.rs: the titles that a user gives to the roms of a plan, and the
-- summary of its errors.
pub mod Collected
pub mod Retitled
use teatro.Prelude.{
  ℕ, Bool, true, false, not, ◌||◌, Option, none, some, List, [], ◌∷◌, ◌++◌, map, length, nat_beq,
  ◌==◌, nat_eq, list_eq, if◌then◌else◌,
}
use teatro.Prelude.Fallible.{Result, ok, err}
use teatro.Prelude.Text.{Text, codes, is_empty, strip_prefix}
use teatro.Prelude.Text.Slices.{trim, starts_with}
use teatro.Table.{Table, lookup, insert, remove, contains_key}
use teatro.Normalization.{LibraryServiceError, invalid_ingest_plan, normalized_edit_title}
use teatro.Normalization.Slugs.{slugify}
use teatro.Ingest.{IngestPlanGroup, IngestPlanError, IngestPlanRom}
use teatro.Ingest.DiscSets.{join_with}

pub record PlannedRomTitle : Type 0 where
  pub plan_id : Text
  pub title : Text

-- The titles by the roms that they name, from those of the rounds before.
abbrev pub insert_title :
    Text
    → Table Text Text
    → Result LibraryServiceError Text
    → Result LibraryServiceError (Table Text Text)
insert_title plan_id titles (err error) = err error
insert_title plan_id titles (ok title) =
    if contains_key plan_id titles
    then err (
        invalid_ingest_plan
          (codes "planned title " ++ plan_id ++ codes " was supplied more than once"))
    else ok (insert plan_id title titles)

abbrev pub add_title :
    PlannedRomTitle → Table Text Text → Result LibraryServiceError (Table Text Text)
add_title planned titles =
    if is_empty (trim planned.plan_id)
    then err (invalid_ingest_plan (codes "planned title has an empty plan_id"))
    else insert_title (trim planned.plan_id) titles (normalized_edit_title planned.title)

abbrev pub then_result {ℓ κ} :
    {A : Type ℓ} {B : Type κ}
    → Result LibraryServiceError A
    → (A → Result LibraryServiceError B)
    → Result LibraryServiceError B
then_result (err error) next = err error
then_result (ok a) next = next a

unfoldable pub titles_by_plan :
    List PlannedRomTitle → Table Text Text → Result LibraryServiceError (Table Text Text)
titles_by_plan [] titles = ok titles
titles_by_plan (planned ∷ rest) titles =
    then_result (add_title planned titles) (titles_by_plan rest)

-- The key of a group that starts with the slug of the rom.
abbrev pub rekeyed : Text → Text → Option Text → Text
rekeyed slug group_key none = group_key
rekeyed slug group_key (some suffix) =
    if is_empty suffix || starts_with (codes ":") suffix then slug ++ suffix else group_key

abbrev pub with_slug : Text → Text → Option Text → Option Text
with_slug previous_slug slug none = none
with_slug previous_slug slug (some group_key) =
    some (rekeyed slug group_key (strip_prefix previous_slug group_key))

abbrev pub retitled_group : Text → Text → Text → Text → IngestPlanGroup → IngestPlanGroup
retitled_group previous_title previous_slug title slug group = record group {
  display_name = (if group.display_name == previous_title then title else group.display_name);
  group_key = with_slug previous_slug slug group.group_key;
}

abbrev pub retitled : Text → IngestPlanRom → IngestPlanRom
retitled title rom = record rom {
  title = title;
  slug = slugify title;
  groups = map (retitled_group rom.title rom.slug title (slugify title)) rom.groups;
}

abbrev pub push_retitled :
    IngestPlanRom
    → Result LibraryServiceError (List IngestPlanRom × Table Text Text)
    → Result LibraryServiceError (List IngestPlanRom × Table Text Text)
push_retitled rom (err error) = err error
push_retitled rom (ok (roms, titles)) = ok (rom ∷ roms, titles)

abbrev pub retitle_found :
    IngestPlanRom
    → Option Text
    → Result LibraryServiceError (List IngestPlanRom × Table Text Text)
    → Result LibraryServiceError (List IngestPlanRom × Table Text Text)
retitle_found rom none rest =
    err (invalid_ingest_plan (codes "planned title for " ++ rom.plan_id ++ codes " is missing"))
retitle_found rom (some title) rest = push_retitled (retitled title rom) rest

-- The loop over the roms, with the titles that are left.
unfoldable pub retitle_roms :
    List IngestPlanRom
    → Table Text Text
    → Result LibraryServiceError (List IngestPlanRom × Table Text Text)
retitle_roms [] titles = ok ([], titles)
retitle_roms (rom ∷ rest) titles =
    retitle_found rom (lookup rom.plan_id titles) (retitle_roms rest (remove rom.plan_id titles))

abbrev pub without_unmatched :
    List IngestPlanRom × Table Text Text → Result LibraryServiceError (List IngestPlanRom)
without_unmatched (roms, []) = ok roms
without_unmatched (roms, (plan_id, title) ∷ rest) = err (
    invalid_ingest_plan
      (codes "planned title " ++ plan_id ++ codes " is not present in the regenerated upload plan"))

-- The roms of the plan after the call. A plan whose titles are refused is not used by the callers.
unfoldable pub apply_planned_titles :
    List IngestPlanRom → List PlannedRomTitle → Result LibraryServiceError (List IngestPlanRom)
apply_planned_titles roms planned_titles =
    if is_empty planned_titles
    then ok roms
    else if not (nat_beq (length planned_titles) (length roms))
    then err (invalid_ingest_plan (codes "planned titles do not match the regenerated upload plan"))
    else then_result (titles_by_plan planned_titles [])
        (λ titles. then_result (retitle_roms roms titles) without_unmatched)

abbrev pub error_summary : Text → Option Text → Text
error_summary message none = message
error_summary message (some file_name) = file_name ++ codes ": " ++ message

abbrev pub summarize_ingest_errors : List IngestPlanError → Text
summarize_ingest_errors errors =
    join_with (codes "; ")
      (map (λ (error : IngestPlanError). error_summary error.message error.file_name) errors)
