-- ===== src/Filename/Regions.antt =====
-- services/ingest/filename.rs: the regions that a token names.
pub mod Known
use teatro.Prelude.{
  ℕ, Bool, true, false, not, ◌&&◌, ◌||◌, Option, none, some, List, [], ◌∷◌, ◌++◌, ◌==◌, nat_eq,
  list_eq, nat_beq, ltb, all, any, length, if◌then◌else◌, ◌>>=◌,
}
use teatro.Prelude.Text.{Text, codes, byte_len, is_ascii_alphabetic, is_empty}
use teatro.Prelude.Text.Slices.{
  to_ascii_lowercase, to_ascii_uppercase, eq_ignore_ascii_case, trim, split,
}

-- The arms of the `match`, in their order.
abbrev pub region_names : List (List Text × Text)
region_names =
    (
      codes "u"
          ∷ codes "usa"
          ∷ codes "us"
          ∷ codes "united states"
          ∷ codes "united states of america"
          ∷ [],
      codes "USA",
    )
    ∷ (
      codes "e"
          ∷ codes "eu"
          ∷ codes "eur"
          ∷ codes "europe"
          ∷ codes "european union"
          ∷ codes "pal"
          ∷ [],
      codes "Europe",
    )
    ∷ (codes "j" ∷ codes "jp" ∷ codes "jpn" ∷ codes "japan" ∷ [], codes "Japan")
    ∷ (codes "w" ∷ codes "world" ∷ [], codes "World")
    ∷ (codes "a" ∷ codes "aus" ∷ codes "australia" ∷ [], codes "Australia")
    ∷ (codes "c" ∷ codes "china" ∷ [], codes "China")
    ∷ (codes "f" ∷ codes "fr" ∷ codes "fra" ∷ codes "france" ∷ [], codes "France")
    ∷ (codes "fc" ∷ codes "french canadian" ∷ [], codes "French Canadian")
    ∷ (codes "fn" ∷ codes "finland" ∷ [], codes "Finland")
    ∷ (codes "g" ∷ codes "de" ∷ codes "ger" ∷ codes "germany" ∷ [], codes "Germany")
    ∷ (codes "gr" ∷ codes "greece" ∷ [], codes "Greece")
    ∷ (codes "hk" ∷ codes "hong kong" ∷ [], codes "Hong Kong")
    ∷ (codes "h" ∷ codes "holland" ∷ [], codes "Holland")
    ∷ (codes "i" ∷ codes "it" ∷ codes "ita" ∷ codes "italy" ∷ [], codes "Italy")
    ∷ (codes "k" ∷ codes "kor" ∷ codes "korea" ∷ [], codes "Korea")
    ∷ (codes "nl" ∷ codes "netherlands" ∷ [], codes "Netherlands")
    ∷ (codes "pd" ∷ codes "public domain" ∷ [], codes "Public Domain")
    ∷ (codes "s" ∷ codes "sp" ∷ codes "spa" ∷ codes "spain" ∷ [], codes "Spain")
    ∷ (codes "sw" ∷ codes "sweden" ∷ [], codes "Sweden")
    ∷ (codes "uk" ∷ codes "england" ∷ codes "united kingdom" ∷ [], codes "United Kingdom")
    ∷ (codes "unk" ∷ codes "unknown" ∷ [], codes "Unknown")
    ∷ (codes "1" ∷ [], codes "Japan/Korea")
    ∷ (codes "4" ∷ [], codes "USA/Brazil NTSC")
    ∷ (codes "5" ∷ codes "ntsc" ∷ [], codes "NTSC")
    ∷ (codes "8" ∷ [], codes "PAL")
    ∷ (codes "b" ∷ [], codes "Non-USA")
    ∷ []

abbrev pub name_in : Text → List (List Text × Text) → Option Text
name_in key [] = none
name_in key ((names, region) ∷ arms) =
    if any (λ known. known == key) names then some region else name_in key arms

unfoldable pub map_region_name_or_code : Text → Option Text
map_region_name_or_code raw = name_in (to_ascii_lowercase (trim raw)) region_names

abbrev pub single_letters : List (ℕ × Text)
single_letters =
    (b'U', codes "USA")
    ∷ (b'E', codes "Europe")
    ∷ (b'J', codes "Japan")
    ∷ (b'W', codes "World")
    ∷ (b'A', codes "Australia")
    ∷ (b'C', codes "China")
    ∷ (b'F', codes "France")
    ∷ (b'G', codes "Germany")
    ∷ (b'H', codes "Holland")
    ∷ (b'I', codes "Italy")
    ∷ (b'K', codes "Korea")
    ∷ (b'S', codes "Spain")
    ∷ (b'B', codes "Non-USA")
    ∷ []

abbrev pub letter_in : ℕ → List (ℕ × Text) → Option Text
letter_in character [] = none
letter_in character ((letter, region) ∷ arms) =
    if nat_beq letter character then some region else letter_in character arms

unfoldable pub map_single_letter_region : ℕ → Option Text
map_single_letter_region character = letter_in character single_letters

unfoldable pub add_unique : List Text → Text → List Text
add_unique values value =
    if not (any (λ existing. eq_ignore_ascii_case existing value) values)
    then values ++ value ∷ []
    else values

unfoldable pub add_unique_many : List Text → List Text → List Text
add_unique_many values [] = values
add_unique_many values (value ∷ incoming) = add_unique_many (add_unique values value) incoming

-- The loop over the parts, from the regions so far; a part that is no region ends it.
abbrev pub add_region :
    Option Text → (List Text → Option (List Text)) → List Text → Option (List Text)
add_region none next regions = none
add_region (some region) next regions = next (add_unique regions region)

unfoldable pub parts_regions : List Text → List Text → Option (List Text)
parts_regions [] regions = some regions
parts_regions (part ∷ parts) regions =
    add_region (map_region_name_or_code (trim part)) (parts_regions parts) regions

unfoldable pub letters_regions : Text → List Text → Option (List Text)
letters_regions [] regions = some regions
letters_regions (character ∷ compact) regions =
    add_region (map_single_letter_region character) (letters_regions compact) regions

-- `(!regions.is_empty()).then_some(regions)`.
abbrev pub if_any : Option (List Text) → Option (List Text)
if_any none = none
if_any (some regions) = if not (is_empty regions) then some regions else none

abbrev pub is_list_separator : ℕ → Bool
is_list_separator c = nat_beq c b',' || nat_beq c b'/'

abbrev pub compact_regions : Text → Option (List Text)
compact_regions compact =
    if ltb 1 (byte_len compact) && all is_ascii_alphabetic compact
    then if_any (letters_regions compact [])
    else none

abbrev pub one_region : Text → Option Text → Option (List Text)
one_region normalized (some region) = some (region ∷ [])
one_region normalized none = compact_regions (to_ascii_uppercase normalized)

unfoldable pub parse_region_token : Text → Option (List Text)
parse_region_token raw =
    let normalized = trim raw in
    if is_empty normalized
    then none
    else if any is_list_separator normalized
    then if_any (parts_regions (split is_list_separator normalized) [])
    else one_region normalized (map_region_name_or_code normalized)
