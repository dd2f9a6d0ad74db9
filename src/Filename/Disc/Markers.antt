-- ===== src/Filename/Disc/Markers.antt =====
-- What the disc markers of services/ingest/filename.rs hold.
use teatro.Prelude.{
  ℕ, ◌<◌, ◌≡◌, refl, ap, subst, inl, inr, Bool, true, false, Option, none, some, List, [], ◌∷◌,
  ◌++◌, arith, nat_beq, is_some, length, Bool-cases, if◌then◌else◌,
}
use teatro.Prelude.Text.{Text, codes, is_ascii_digit, is_ascii_alphabetic, is_empty, strip_prefix}
use teatro.Prelude.Text.Slices.{char_to_upper, trim, trim_start_matches, take_while, parse_digits}
use teatro.Filename.Title.{clean_title}
use teatro.Filename.Disc.{
  DiscMarkerKind, disc, disk, cd, side, DiscMarker, is_side, is_gap, MarkerIndex, digits_index,
  letter_index, parse_marker_index, if_positive, count_after, parse_marker_count, marker_of,
  marker_after, marker_prefixes, marker_in, parse_disc_marker_text, stripped_with, strip_at, or_at,
  strip_from, strip_trailing_disc_marker,
}

-- A marker of the text: it has an index, index and count are counted from 1, and a side is named
-- only where the marker is one of a side.
pub record IsMarker (trimmed : Text) (found : DiscMarker) : Type 0 where
  pub named : found.raw ≡ trimmed
  pub indexed : (i : ℕ) × (found.index ≡ some i) × (0 < i)
  pub counted : (n : ℕ) → found.count ≡ some n → 0 < n
  pub sided : is_some found.side_name ≡ true → found.kind ≡ side

abbrev Gives : Text → Option DiscMarker → Type 0
Gives trimmed none = Unit
Gives trimmed (some found) = IsMarker trimmed found

abbrev IsIndex : Bool → Option MarkerIndex → Type 0
IsIndex prefer_side none = Unit
IsIndex prefer_side (some (i, side_name, remainder)) =
    (0 < i) × (is_some side_name ≡ true → prefer_side ≡ true)

digits_index-IsIndex :
    (prefer_side : Bool) (after : Text) (value : Option ℕ)
    → IsIndex prefer_side (digits_index after value)
digits_index-IsIndex prefer_side after none = tt
digits_index-IsIndex prefer_side after (some value) = elim (Bool-cases (nat_beq value 0)) [
  | inl nought ↦ rw (nought, digits_index) tt
  | inr positive ↦ rw (positive, digits_index) (ground arith, λ e. cc)
]

letter_index-IsIndex :
    (letter : ℕ) (remainder rest_original : Text) (prefer_side : Bool)
    → IsIndex prefer_side (letter_index letter remainder rest_original prefer_side)
letter_index-IsIndex letter remainder rest_original true = ground arith
letter_index-IsIndex letter remainder rest_original false = ground arith

if-IsIndex :
    (prefer_side b : Bool) (x y : Option MarkerIndex)
    → IsIndex prefer_side x
    → IsIndex prefer_side y
    → IsIndex prefer_side (if b then x else y)
if-IsIndex prefer_side true x y h k = h
if-IsIndex prefer_side false x y h k = k

parse_marker_index-IsIndex :
    (rest rest_original : Text) (prefer_side : Bool)
    → IsIndex prefer_side (parse_marker_index rest rest_original prefer_side)
unfolding parse_marker_index
parse_marker_index-IsIndex [] rest_original prefer_side = tt
parse_marker_index-IsIndex (first ∷ rest) rest_original prefer_side =
    if-IsIndex prefer_side (is_ascii_digit first) _ _
      (digits_index-IsIndex prefer_side (trim_start_matches is_ascii_digit (first ∷ rest))
        (parse_digits (take_while is_ascii_digit (first ∷ rest))))
      (if-IsIndex prefer_side (is_ascii_alphabetic first) _ none
        (letter_index-IsIndex (char_to_upper first) rest rest_original prefer_side) tt)

if_positive-pos : (o : Option ℕ) (n : ℕ) → if_positive o ≡ some n → 0 < n
if_positive-pos none n e = cc
if_positive-pos (some m) n e = ground arith

count_after-pos : (o : Option Text) (n : ℕ) → count_after o ≡ some n → 0 < n
count_after-pos none n e = cc
count_after-pos (some rest) n e =
    if_positive-pos (parse_digits (take_while is_ascii_digit (trim_start_matches is_gap rest))) n e

parse_marker_count-pos : (remainder : Text) (n : ℕ) → parse_marker_count remainder ≡ some n → 0 < n
unfolding parse_marker_count
parse_marker_count-pos remainder n e =
    count_after-pos (strip_prefix (codes "of") (trim_start_matches is_gap remainder)) n e

only_side : (kind : DiscMarkerKind) → is_side kind ≡ true → kind ≡ side
only_side disc e = cc
only_side disk e = cc
only_side cd e = cc
only_side side e = refl

marker_of-Gives :
    (trimmed : Text) (kind : DiscMarkerKind) (found : Option MarkerIndex)
    → IsIndex (is_side kind) found
    → Gives trimmed (marker_of trimmed kind found)
marker_of-Gives trimmed kind none h = tt
marker_of-Gives trimmed kind (some (i, side_name, remainder)) h = record {
  named = refl;
  indexed = (i, refl, h.0);
  counted = λ n e. parse_marker_count-pos remainder n e;
  sided = λ e. only_side kind (h.1 e);
}

marker_after-Gives :
    (trimmed start : Text) (kind : DiscMarkerKind) (rest : Option Text) (next : Option DiscMarker)
    → Gives trimmed next
    → Gives trimmed (marker_after trimmed start kind rest next)
marker_after-Gives trimmed start kind none next h = h
marker_after-Gives trimmed start kind (some rest) next h =
    marker_of-Gives trimmed kind _ (parse_marker_index-IsIndex _ _ (is_side kind))

marker_in-Gives :
    (trimmed : Text) (starts : List (Text × DiscMarkerKind))
    → Gives trimmed (marker_in trimmed starts)
unfolding marker_in
marker_in-Gives trimmed [] = tt
marker_in-Gives trimmed ((start, kind) ∷ more) =
    marker_after-Gives trimmed start kind _ (marker_in trimmed more) (marker_in-Gives trimmed more)

-- A disc marker that is read from a text holds the trimmed text, has an index, its index and its
-- count are above 0, and it names a side only where it is the marker of a side.
pub parse_disc_marker_text-IsMarker :
    (raw : Text) (found : DiscMarker)
    → parse_disc_marker_text raw ≡ some found
    → IsMarker (trim raw) found
unfolding parse_disc_marker_text
parse_disc_marker_text-IsMarker raw found e = elim (Bool-cases (is_empty (trim raw))) [
  | inl nothing ↦ cc (rw (nothing, parse_disc_marker_text) at e)
  | inr full ↦
      subst (Gives (trim raw)) (rw (full, parse_disc_marker_text) at e)
        (marker_in-Gives (trim raw) marker_prefixes)
]

-- A cleaned title is never empty.
pub clean_title_full : (raw : Text) → is_empty (clean_title raw) ≡ false
unfolding clean_title
clean_title_full raw = ground arith

-- The search without the test that a title is left.
abbrev pub unguarded_with : Text → Option DiscMarker → Option (Text × DiscMarker)
unguarded_with before none = none
unguarded_with before (some found) = some (clean_title before, found)

abbrev pub unguarded_at : Text → Text → Option (Text × DiscMarker)
unguarded_at before suffix =
    let trimmed_suffix = trim_start_matches is_gap suffix in
    if nat_beq (length trimmed_suffix) (length suffix)
    then none
    else unguarded_with before (parse_disc_marker_text trimmed_suffix)

unfoldable pub unguarded_from : Text → Text → Option (Text × DiscMarker)
unguarded_from before [] = none
unguarded_from before (c ∷ suffix) =
    or_at (unguarded_from (before ++ c ∷ []) suffix) (unguarded_at before (c ∷ suffix))

stripped_with-unguarded :
    (before : Text) (found : Option DiscMarker)
    → stripped_with before found ≡ unguarded_with before found
stripped_with-unguarded before none = refl
stripped_with-unguarded before (some found) = rw (clean_title_full before) refl

strip_at-unguarded : (before suffix : Text) → strip_at before suffix ≡ unguarded_at before suffix
unfolding strip_at
strip_at-unguarded before suffix =
    ap
      (λ x. if nat_beq (length (trim_start_matches is_gap suffix)) (length suffix) then none else x)
      (stripped_with-unguarded before (parse_disc_marker_text (trim_start_matches is_gap suffix)))

strip_from-unguarded :
    (before suffix : Text) → strip_from before suffix ≡ unguarded_from before suffix
unfolding strip_from unguarded_from
strip_from-unguarded before [] = refl
strip_from-unguarded before (c ∷ suffix) =
    rw (strip_from-unguarded (before ++ c ∷ []) suffix, strip_at-unguarded before (c ∷ suffix)) refl

-- The test that a title is left before a trailing disc marker never decides: without it the search
-- gives the same answer for every title.
pub strip_trailing_disc_marker-unguarded :
    (title : Text) → strip_trailing_disc_marker title ≡ unguarded_from [] title
unfolding strip_trailing_disc_marker
strip_trailing_disc_marker-unguarded title = strip_from-unguarded [] title
