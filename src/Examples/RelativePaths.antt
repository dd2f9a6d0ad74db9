-- ===== src/Examples/RelativePaths.antt =====
-- storage/paths.rs on paths of its unit tests.
use teatro.Prelude.{◌≡◌, refl, false, List, [], ◌∷◌, nat_eq, list_eq, All}
use teatro.Prelude.Text.{Text, codes, is_empty}
use teatro.Prelude.Text.Slices.{split}
use teatro.Prelude.Fallible.{ok, err}
use teatro.Paths.{
  parent_traversal, clean_relative_path, clean_components, safe_content_disposition_filename,
}
use teatro.Paths.Safety.{
  IsSafe, path_text, clean_relative_path-IsSafe, clean_relative_path-path_text,
}
use teatro.Paths.Names.{IsSafeName, safe_content_disposition_filename-IsSafeName}

abbrev rom_path : List Text
rom_path = codes "snes" ∷ codes "game.sfc" ∷ []

cleans_path : clean_relative_path (codes "./snes//game.sfc") ≡ ok rom_path
unfolding clean_relative_path clean_components split
cleans_path = refl

refuses_parent : clean_relative_path (codes "snes/../../etc") ≡ err parent_traversal
unfolding clean_relative_path clean_components split
refuses_parent = refl

clean_relative_path-IsSafe_example : All IsSafe rom_path × (is_empty rom_path ≡ false)
clean_relative_path-IsSafe_example =
    clean_relative_path-IsSafe (codes "./snes//game.sfc") rom_path cleans_path

snes-IsSafe : IsSafe (codes "snes")
snes-IsSafe = record { full = refl; slashless = refl; not_current = refl; not_parent = refl }

game-IsSafe : IsSafe (codes "game.sfc")
game-IsSafe = record { full = refl; slashless = refl; not_current = refl; not_parent = refl }

clean_relative_path-path_text_example : clean_relative_path (path_text rom_path) ≡ ok rom_path
clean_relative_path-path_text_example =
    clean_relative_path-path_text (codes "snes") (codes "game.sfc" ∷ [])
      (snes-IsSafe, (game-IsSafe, tt))

safe_content_disposition_filename-IsSafeName_example :
    IsSafeName (safe_content_disposition_filename (codes "../a\"b.zip"))
safe_content_disposition_filename-IsSafeName_example =
    safe_content_disposition_filename-IsSafeName (codes "../a\"b.zip")
