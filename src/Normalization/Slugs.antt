-- ===== src/Normalization/Slugs.antt =====
-- `slugify` of services/library/normalization.rs, and what a slug is.
use teatro.Prelude.{
  ℕ, ◌≡◌, refl, ◌↔◌, inl, inr, ap, subst, Bool, true, false, not, ◌||◌, ◌&&◌, [], ◌∷◌, leb, nat_beq,
  if◌then◌else◌, arith, Bool-cases,
}
use teatro.Prelude.Text.{Text, codes, is_empty, is_ascii_alphanumeric}
use teatro.Prelude.Text.Slices.{char_to_lower, trim_start_matches, trim_end_matches}

abbrev pub is_dash : ℕ → Bool
is_dash c = nat_beq c b'-'

-- The loop, from whether a dash was pushed last.
unfoldable pub slug_from : Bool → Text → Text
slug_from previous_dash [] = []
slug_from previous_dash (c ∷ s) =
    let rest = slug_from (not (is_ascii_alphanumeric c)) s in
    if is_ascii_alphanumeric c
    then char_to_lower c ∷ rest
    else if not previous_dash
    then b'-' ∷ rest
    else rest

unfoldable pub slugify : Text → Text
slugify title =
    let slug = trim_end_matches is_dash (trim_start_matches is_dash (slug_from false title)) in
    if is_empty slug then codes "rom" else slug

-- A letter in lower case or a digit.
abbrev pub is_slug_char : ℕ → Bool
is_slug_char c = (leb b'a' c && leb c b'z') || (leb b'0' c && leb c b'9')

-- What may follow in a slug, where `dashed` says that no dash may stand here: where `loose` holds,
-- a dash may end it.
abbrev follows : Bool → Bool → Text → Bool
follows loose dashed [] = loose || not dashed
follows loose dashed (c ∷ s) =
    let after_dash = follows loose true s in
    let after_char = follows loose false s in
    if is_dash c then not dashed && after_dash else is_slug_char c && after_char

-- A slug: letters in lower case and digits, in groups that single dashes join, none of them empty.
abbrev pub is_slug : Text → Bool
is_slug s = follows false true s

lower-is_slug_char :
    (c : ℕ)
    → is_ascii_alphanumeric c ≡ true
    → (is_dash (char_to_lower c) ≡ false) × (is_slug_char (char_to_lower c) ≡ true)
lower-is_slug_char c h = ground (arith, h)

slug_from-follows : (dashed : Bool) (s : Text) → follows true dashed (slug_from dashed s) ≡ true
unfolding slug_from
slug_from-follows dashed [] = refl
slug_from-follows dashed (c ∷ s) = elim (Bool-cases (is_ascii_alphanumeric c)) [
  | inl kept ↦
      let lower = lower-is_slug_char c kept in
      rw (kept, slug_from) (rw (lower.0, lower.1) (slug_from-follows false s))
  | inr other ↦ elim (Bool-cases dashed) [
    | inl again ↦ rw (again, other, slug_from) (slug_from-follows true s)
    | inr first ↦ rw (first, other, slug_from) (slug_from-follows true s)
  ]
]

-- A text that starts with no dash is left by the trimming at the start.
trim_start-follows : (s : Text) → follows true true s ≡ true → trim_start_matches is_dash s ≡ s
trim_start-follows [] h = refl
trim_start-follows (c ∷ s) h = elim (Bool-cases (is_dash c)) [
  | inl dash ↦ cc (rw dash at h)
  | inr other ↦ rw other refl
]

follows-trim_start :
    (s : Text)
    → follows true false s ≡ true
    → follows true true (trim_start_matches is_dash s) ≡ true
follows-trim_start [] h = refl
follows-trim_start (c ∷ s) h = elim (Bool-cases (is_dash c)) [
  | inl dash ↦
      let rest : follows true true s ≡ true = rw dash at h in
      rw dash (rw (trim_start-follows s rest) rest)
  | inr other ↦ rw other (rw other (rw other at h))
]

-- One step of the trimming at the end, on what is left of the rest.
abbrev trim_step : ℕ → Text → Text
trim_step c rest = if is_empty rest && is_dash c then [] else c ∷ rest

-- A text that is empty, or a slug from there on.
abbrev ended : Bool → Text → Bool
ended dashed s = is_empty s || follows false dashed s

trim_step-dash :
    (c : ℕ) (rest : Text)
    → is_dash c ≡ true
    → ended true rest ≡ true
    → ended false (trim_step c rest) ≡ true
trim_step-dash c [] h k = rw h refl
trim_step-dash c (d ∷ rest) h k = rw h k

trim_step-char :
    (dashed : Bool) (c : ℕ) (rest : Text)
    → is_dash c ≡ false
    → is_slug_char c ≡ true
    → ended false rest ≡ true
    → ended dashed (trim_step c rest) ≡ true
trim_step-char dashed c [] h j k = rw h (rw (h, j) refl)
trim_step-char dashed c (d ∷ rest) h j k = rw (h, j) k

-- The trimmed text is empty, or ends with no dash.
follows-trim_end :
    (dashed : Bool) (s : Text)
    → follows true dashed s ≡ true
    → ended dashed (trim_end_matches is_dash s) ≡ true
follows-trim_end dashed [] h = refl
follows-trim_end dashed (c ∷ s) h = elim (Bool-cases (is_dash c)) [
  | inl dash ↦ elim (Bool-cases dashed) [
    | inl again ↦ cc (rw (dash, again) at h)
    | inr first ↦ rw first (
        trim_step-dash c (trim_end_matches is_dash s) dash
          (follows-trim_end true s (rw (dash, first) at h)))
  ]
  | inr other ↦
      let k : (is_slug_char c && follows true false s) ≡ true = rw other at h in
      trim_step-char dashed c (trim_end_matches is_dash s) other (ground (arith, k))
        (follows-trim_end false s (ground (arith, k)))
]

trim_step_other : (c : ℕ) (s : Text) → is_dash c ≡ false → trim_step c s ≡ c ∷ s
trim_step_other c [] h = rw h refl
trim_step_other c (d ∷ s) h = refl

after_dash_full : (s : Text) → follows false true s ≡ true → is_empty s ≡ false
after_dash_full [] h = cc
after_dash_full (c ∷ s) h = refl

trim_end-follows :
    (dashed : Bool) (s : Text) → follows false dashed s ≡ true → trim_end_matches is_dash s ≡ s
trim_end-follows dashed [] h = refl
trim_end-follows dashed (c ∷ s) h = elim (Bool-cases (is_dash c)) [
  | inl dash ↦
      let k : (not dashed && follows false true s) ≡ true = rw dash at h in
      let rest : follows false true s ≡ true = ground (arith, k) in
      rw (trim_end-follows true s rest, after_dash_full s rest) refl
  | inr other ↦
      let k : (is_slug_char c && follows false false s) ≡ true = rw other at h in
      let rest : follows false false s ≡ true = ground (arith, k) in
      rw (trim_end-follows false s rest) (trim_step_other c s other)
]

dash_other : (c : ℕ) → is_dash c ≡ true → is_ascii_alphanumeric c ≡ false
dash_other c h = ground arith

dash_code : (c : ℕ) → is_dash c ≡ true → b'-' ≡ c
dash_code c h = ground arith

slug_char_kept :
    (c : ℕ) → is_slug_char c ≡ true → (is_ascii_alphanumeric c ≡ true) × (char_to_lower c ≡ c)
slug_char_kept c h = ground arith

weaken : (s : Text) → follows false true s ≡ true → follows false false s ≡ true
weaken [] h = refl
weaken (c ∷ s) h = ground (arith, h)

slug_from-slug : (dashed : Bool) (s : Text) → follows false dashed s ≡ true → slug_from dashed s ≡ s
unfolding slug_from
slug_from-slug dashed [] h = refl
slug_from-slug dashed (c ∷ s) h = elim (Bool-cases (is_dash c)) [
  | inl dash ↦
      let k : (not dashed && follows false true s) ≡ true = rw dash at h in
      let fresh : not dashed ≡ true = ground (arith, k) in
      rw (dash_other c dash, fresh, slug_from-slug true s (ground (arith, k)), slug_from)
        (ap (λ x. x ∷ s) (dash_code c dash))
  | inr other ↦
      let k : (is_slug_char c && follows false false s) ≡ true = rw other at h in
      let (kept, lower) = slug_char_kept c (ground (arith, k)) in
      rw (kept, lower, slug_from-slug false s (ground (arith, k)), slug_from) refl
]

loose : (dashed : Bool) (s : Text) → follows false dashed s ≡ true → follows true dashed s ≡ true
loose dashed [] h = refl
loose dashed (c ∷ s) h = ground (arith, loose true s, loose false s)

slug-start : (s : Text) → is_slug s ≡ true → trim_start_matches is_dash s ≡ s
slug-start s h = trim_start-follows s (loose true s h)

slugify-is_slug : (title : Text) → is_slug (slugify title) ≡ true
unfolding slugify
slugify-is_slug title =
    let started = trim_start_matches is_dash (slug_from false title) in
    let slug = trim_end_matches is_dash started in
    let k =
      follows-trim_end true started
        (follows-trim_start (slug_from false title) (slug_from-follows false title)) in
    elim (Bool-cases (is_empty slug)) [
      | inl nothing ↦ rw (nothing, slugify) refl
      | inr full ↦ rw (full, slugify) (rw full at k)
    ]

slugify-slug : (slug : Text) → is_slug slug ≡ true → slugify slug ≡ slug
unfolding slugify
slugify-slug slug h =
    let same = slug_from-slug false slug (weaken slug h) in
    rw (same, slug-start slug h, trim_end-follows true slug h, after_dash_full slug h, slugify) refl

-- A slug is made of letters in lower case and digits, in groups that single dashes join, none of
-- them empty; every title gets such a slug, and the slugs are exactly the titles that get
-- themselves.
pub slugify-fixed :
    (title : Text)
    → (is_slug (slugify title) ≡ true) × ((is_slug title ≡ true) ↔ (slugify title ≡ title))
slugify-fixed title = (
  slugify-is_slug title,
  (slugify-slug title, λ e. subst (λ s. is_slug s ≡ true) e (slugify-is_slug title)),
)
