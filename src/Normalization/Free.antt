-- ===== src/Normalization/Free.antt =====
-- The loops of services/library/normalization.rs that look for a name that is still free. What the
-- database and the file system say of a name is a parameter: an answer or an error.
pub mod First
pub mod Candidates
use teatro.Prelude.{
  ℕ, zero, suc, ◌+◌, Bool, true, false, ◌||◌, ◌&&◌, Option, none, some, List, [], ◌∷◌, ◌++◌, ltb,
  leb, nat_beq, length, if◌then◌else◌,
}
use teatro.Prelude.Fallible.{Result, ok, err}
use teatro.Prelude.Text.{Text, codes, is_empty}
use teatro.Prelude.Text.Slices.{rsplit_once, replace_char}
use teatro.Prelude.Text.Decimal.{decimal}

-- The end of the loop, or an error of what it asks.
pub data NameError {ℓ} (E : Type ℓ) : Type ℓ where
  failed : E → NameError E
  no_available_file_name : NameError E

abbrev pub attempts : ℕ
attempts = 1000

module _ {ℓ} {E : Type ℓ} (candidate : ℕ → Text) (taken : Text → Result E Bool) where
  -- One round, and the rounds after it.
  abbrev pub round : Text → Result E Bool → Result (NameError E) Text → Result (NameError E) Text
  round name (err error) rest = err (failed error)
  round name (ok true) rest = rest
  round name (ok false) rest = ok name

  abbrev pub first_free : ℕ → ℕ → Result (NameError E) Text
  first_free zero attempt = err no_available_file_name
  first_free (suc rounds) attempt =
      round (candidate attempt) (taken (candidate attempt)) (first_free rounds (suc attempt))

-- The stem and the extension, where neither is empty.
abbrev pub if_both : Text → Option (Text × Text) → Text × Option Text
if_both file_name none = (file_name, none)
if_both file_name (some (stem, extension)) =
    if is_empty stem || is_empty extension then (file_name, none) else (stem, some extension)

unfoldable pub split_extension : Text → Text × Option Text
split_extension file_name = if_both file_name (rsplit_once b'.' file_name)

abbrev pub numbered : ℕ → Text × Option Text → Text
numbered attempt (stem, some extension) =
    stem ++ codes " (" ++ decimal attempt ++ codes ")." ++ extension
numbered attempt (stem, none) = stem ++ codes " (" ++ decimal attempt ++ codes ")"

unfoldable pub collision_file_name : Text → ℕ → Text
collision_file_name file_name zero = file_name
collision_file_name file_name (suc n) = numbered (suc n) (split_extension file_name)

abbrev pub slug_base : Text → Text
slug_base base_slug = if is_empty base_slug then codes "rom" else base_slug

abbrev pub slug_candidate : Text → ℕ → Text
slug_candidate base_slug zero = slug_base base_slug
slug_candidate base_slug (suc n) = slug_base base_slug ++ b'-' ∷ decimal (suc (suc n))

unfoldable pub unique_slug {ℓ} :
    {E : Type ℓ} → (Text → Result E Bool) → Text → Result (NameError E) Text
unique_slug slug_exists base_slug = first_free (slug_candidate base_slug) slug_exists attempts 0

-- `slug_exists_excluding` leaves out one rom.
unfoldable pub unique_slug_excluding {ℓ} :
    {E : Type ℓ} → (Text → Result E Bool) → Text → Result (NameError E) Text
unique_slug_excluding slug_exists_excluding base_slug =
    first_free (slug_candidate base_slug) slug_exists_excluding attempts 0

abbrev pub join_relative_path : Text → Text → Text
join_relative_path parent file_name =
    if is_empty parent then file_name else replace_char b'\\' b'/' parent ++ b'/' ∷ file_name

-- Both questions are asked, first the file system, then the database.
abbrev pub either {ℓ} : {E : Type ℓ} → Result E Bool → Result E Bool → Result E Bool
either (err error) db_exists = err error
either (ok file_exists) (err error) = err error
either (ok file_exists) (ok db_exists) = ok (file_exists || db_exists)

abbrev pub is_taken {ℓ} :
    {E : Type ℓ} → (Text → Result E Bool) → (Text → Result E Bool) → Text → Text → Result E Bool
is_taken file_exists db_exists platform_relative file_name =
    let relative_path = join_relative_path platform_relative file_name in
    either (file_exists relative_path) (db_exists relative_path)

unfoldable pub available_file_name {ℓ} :
    {E : Type ℓ}
    → (Text → Result E Bool)
    → (Text → Result E Bool)
    → Text
    → Text
    → Result (NameError E) Text
available_file_name file_exists db_exists platform_relative original_file_name =
    first_free (collision_file_name original_file_name)
      (is_taken file_exists db_exists platform_relative) attempts 0
