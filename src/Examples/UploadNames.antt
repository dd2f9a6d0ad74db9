-- ===== src/Examples/UploadNames.antt =====
-- services/library/normalization.rs on names of its unit tests, and on names that are taken.
use teatro.Prelude.{◌≡◌, ◌↔◌, ◌+◌, refl, Bool, true, ◌||◌, List, [], ◌∷◌, ◌==◌, nat_eq, list_eq}
use teatro.Prelude.Fallible.{Result, ok, err}
use teatro.Prelude.Text.{Text, codes}
use teatro.Prelude.Text.Slices.{trim, rsplit_once}
use teatro.Prelude.Text.Decimal.{decimal}
use teatro.Normalization.{
  invalid_file_name, sanitize_upload_file_name, normalize_values, normalize_metadata_list,
}
use teatro.Normalization.Slugs.{slug_from, slugify, is_slug, slugify-fixed}
use teatro.Normalization.Archives.{archive_from, archive_base, archive_file_name}
use teatro.Normalization.Archives.Portable.{IsPortable, archive_file_name-IsPortable}
use teatro.Normalization.Free.{
  attempts, split_extension, collision_file_name, slug_candidate, unique_slug, available_file_name,
}
use teatro.Normalization.Free.First.{Explains, unique_slug-Explains}
use teatro.Normalization.Values.{AreValues, normalize_metadata_list-AreValues}

makes_slug : slugify (codes " Pokémon: Red & Blue! ") ≡ codes "pok-mon-red-blue"
unfolding slugify slug_from
makes_slug = refl

makes_rom : slugify (codes "!!") ≡ codes "rom"
unfolding slugify slug_from
makes_rom = refl

abbrev chess : Text
chess = codes "chess-2"

slugify-fixed_example :
    (is_slug (slugify chess) ≡ true) × ((is_slug chess ≡ true) ↔ (slugify chess ≡ chess))
slugify-fixed_example = slugify-fixed chess

names_archive :
    archive_file_name (codes "Pokémon: Game / Deluxe") (codes "wua")
    ≡ codes "Pokémon Game Deluxe.wua"
unfolding archive_file_name archive_base archive_from trim
names_archive = refl

names_device : archive_file_name (codes "CON.txt") (codes "wua") ≡ codes "CON Game.txt.wua"
unfolding archive_file_name archive_base archive_from trim
names_device = refl

archive_file_name-IsPortable_example :
    IsPortable (189 + 3) (archive_file_name (codes "com1") (codes "zip"))
archive_file_name-IsPortable_example =
    archive_file_name-IsPortable (codes "com1") (codes "zip") refl refl

refuses_path : sanitize_upload_file_name (codes "a/b.sfc") ≡ err invalid_file_name
unfolding sanitize_upload_file_name trim
refuses_path = refl

-- A database that has the first two slugs of `chess`.
abbrev chess_exists : Text → Result Bool Bool
chess_exists slug = ok (slug == codes "chess" || slug == codes "chess-2")

numbers_slug : unique_slug chess_exists (codes "chess") ≡ ok (codes "chess-3")
unfolding unique_slug decimal
numbers_slug = refl

unique_slug-Explains_test :
    Explains
      (slug_candidate (codes "chess"))
      chess_exists
      0
      attempts
      (unique_slug chess_exists (codes "chess"))
unique_slug-Explains_test = unique_slug-Explains chess_exists (codes "chess")

-- A file that is on disk, and one that the database alone knows.
abbrev on_disk : Text → Result Bool Bool
on_disk path = ok (path == codes "snes/game.sfc")

abbrev in_database : Text → Result Bool Bool
in_database path = ok (path == codes "snes/game (1).sfc")

numbers_file :
    available_file_name on_disk in_database (codes "snes") (codes "game.sfc")
    ≡ ok (codes "game (2).sfc")
unfolding available_file_name collision_file_name split_extension rsplit_once decimal
numbers_file = refl

abbrev genres : List Text
genres = codes " Puzzle " ∷ codes "" ∷ codes "puzzle" ∷ codes "Racing" ∷ []

abbrev two_genres : List Text
two_genres = codes "Puzzle" ∷ codes "Racing" ∷ []

keeps_genres : normalize_metadata_list genres ≡ ok two_genres
unfolding normalize_metadata_list normalize_values trim
keeps_genres = refl

normalize_metadata_list-AreValues_example : AreValues genres two_genres
normalize_metadata_list-AreValues_example =
    normalize_metadata_list-AreValues genres two_genres keeps_genres
