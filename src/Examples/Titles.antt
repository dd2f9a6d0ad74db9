-- ===== src/Examples/Titles.antt =====
-- A plan of one rom that is given another title.
use teatro.Prelude.{◌≡◌, refl, none, some, true, List, [], ◌∷◌, map, length}
use teatro.Prelude.Fallible.{ok}
use teatro.Prelude.Text.{codes}
use teatro.Prelude.Text.Slices.{trim}
use teatro.Table.{lookup, insert, remove, contains_key}
use teatro.Normalization.{normalized_edit_title}
use teatro.Normalization.Slugs.{slugify, slug_from}
use teatro.Ingest.{no_members, FileGroupKind, IngestPlanGroup, IngestPlanRom}
use teatro.Ingest.Titles.{
  PlannedRomTitle, titles_by_plan, retitled, retitle_roms, apply_planned_titles,
}
use teatro.Ingest.Titles.Retitled.{Retitles, apply_planned_titles-Retitles}

abbrev rom : IngestPlanRom
rom = record {
  plan_id = codes "rom-1";
  title = codes "game";
  slug = codes "game";
  regions = [];
  groups =
      record {
        key = codes "rom-1:single";
        kind = FileGroupKind.single;
        display_name = codes "game";
        group_key = some (codes "game");
        disc_index = none;
        disc_count = none;
        launchable = true;
        metadata = no_members;
      }
      ∷ [];
  files = [];
  dependencies = [];
}

abbrev titles : List PlannedRomTitle
titles = record { plan_id = codes " rom-1"; title = codes "My Game " } ∷ []

accepted_titles : apply_planned_titles (rom ∷ []) titles ≡ ok (retitled (codes "My Game") rom ∷ [])
unfolding apply_planned_titles titles_by_plan retitle_roms lookup insert remove contains_key trim
    normalized_edit_title
accepted_titles = refl

-- The key of the group follows the new slug.
new_keys :
    map (λ (group : IngestPlanGroup). group.group_key) (retitled (codes "My Game") rom).groups
    ≡ some (codes "my-game") ∷ []
unfolding slugify slug_from
new_keys = refl

apply_planned_titles-Retitles_example :
    Retitles titles (rom ∷ []) (retitled (codes "My Game") rom ∷ [])
    × (length titles ≡ length (rom ∷ []))
apply_planned_titles-Retitles_example =
    apply_planned_titles-Retitles (rom ∷ []) (retitled (codes "My Game") rom ∷ []) titles refl
      accepted_titles
