-- ===== src/Paths/Safety.antt =====
-- What storage/paths.rs keeps out of a path, and out of the name of a download.
use teatro.Prelude.{
  ℕ, ◌≡◌, refl, subst, inl, inr, ap, ◌∙◌, Bool, true, false, ◌||◌, List, [], ◌∷◌, ◌++◌, ◌==◌,
  nat_eq, list_eq, arith, any, All, Bool-cases,
}
use teatro.Prelude.Text.{Text, codes, is_empty}
use teatro.Prelude.Text.Slices.{split, split_on, starts_with}
use teatro.Prelude.Fallible.{Result, ok, err}
use teatro.Paths.{PathSafetyError, is_slash, push, clean_components, if_full, clean_relative_path}

-- A component that stays in its directory.
pub record IsSafe (segment : Text) : Type 0 where
  pub full : is_empty segment ≡ false
  pub slashless : any is_slash segment ≡ false
  pub not_current : (segment == codes ".") ≡ false
  pub not_parent : (segment == codes "..") ≡ false

abbrev Gives : Result PathSafetyError (List Text) → Type 0
Gives (err error) = Unit
Gives (ok segments) = All IsSafe segments

push-Gives :
    (segment : Text) (rest : Result PathSafetyError (List Text))
    → IsSafe segment
    → Gives rest
    → Gives (push segment rest)
push-Gives segment (ok cleaned) h k = (h, k)
push-Gives segment (err error) h k = tt

split_on-slashless :
    (b : Bool) (c : ℕ) (parts : List Text)
    → is_slash c ≡ b
    → All (λ part. any is_slash part ≡ false) parts
    → All (λ part. any is_slash part ≡ false) (split_on b c parts)
split_on-slashless true c parts e h = (refl, h)
split_on-slashless false c [] e h = (ground arith, tt)
split_on-slashless false c (part ∷ parts) e h = (ground arith, h.1)

pub split-slashless : (s : Text) → All (λ part. any is_slash part ≡ false) (split is_slash s)
unfolding split
split-slashless [] = (refl, tt)
split-slashless (c ∷ s) =
    split_on-slashless (is_slash c) c (split is_slash s) refl (split-slashless s)

clean_components-Gives :
    (parts : List Text)
    → All (λ part. any is_slash part ≡ false) parts
    → Gives (clean_components parts)
unfolding clean_components
clean_components-Gives [] h = tt
clean_components-Gives (part ∷ parts) h = elim (Bool-cases (is_empty part || part == codes ".")) [
  | inl skipped ↦ rw (skipped, clean_components) (clean_components-Gives parts h.1)
  | inr named ↦ elim (Bool-cases (part == codes "..")) [
    | inl up ↦ rw (named, up, clean_components) tt
    | inr down ↦
        rw (named, down, clean_components)
          (push-Gives part (clean_components parts)
            (record {
              full = ground arith;
              slashless = h.0;
              not_current = ground arith;
              not_parent = down;
            })
            (clean_components-Gives parts h.1))
  ]
]

abbrev Full : Result PathSafetyError (List Text) → Type 0
Full (err error) = Unit
Full (ok segments) = All IsSafe segments × (is_empty segments ≡ false)

if_full-Gives :
    (found : Result PathSafetyError (List Text)) (segments : List Text)
    → Gives found
    → if_full found ≡ ok segments
    → All IsSafe segments × (is_empty segments ≡ false)
if_full-Gives (err error) segments h e = cc
if_full-Gives (ok []) segments h e = cc
if_full-Gives (ok (segment ∷ cleaned)) segments h e = subst Full e (h, refl)

-- A path that is accepted is cleaned to at least one component, and each of them stays in its
-- directory: it is not empty, has no slash, and is neither `.` nor `..`.
pub clean_relative_path-IsSafe :
    (path : Text) (segments : List Text)
    → clean_relative_path path ≡ ok segments
    → All IsSafe segments × (is_empty segments ≡ false)
unfolding clean_relative_path
clean_relative_path-IsSafe path segments e = elim (Bool-cases (is_empty path)) [
  | inl nothing ↦ cc (rw (nothing, clean_relative_path) at e)
  | inr some_text ↦ elim (Bool-cases (starts_with (codes "/") path)) [
    | inl rooted ↦ cc (rw (some_text, rooted, clean_relative_path) at e)
    | inr relative ↦
        if_full-Gives (clean_components (split is_slash path)) segments
          (clean_components-Gives (split is_slash path) (split-slashless path))
          (rw (some_text, relative, clean_relative_path) at e)
  ]
]

-- The text of a cleaned path.
abbrev pub path_text : List Text → Text
path_text [] = []
path_text (segment ∷ []) = segment
path_text (segment ∷ next ∷ segments) = segment ++ b'/' ∷ path_text (next ∷ segments)

split_one : (segment : Text) → any is_slash segment ≡ false → split is_slash segment ≡ segment ∷ []
unfolding split
split_one [] h = refl
split_one (c ∷ segment) h =
    let here : is_slash c ≡ false = ground arith in rw (split_one segment (ground arith), here) refl

split-append :
    (segment rest : Text)
    → any is_slash segment ≡ false
    → split is_slash (segment ++ b'/' ∷ rest) ≡ segment ∷ split is_slash rest
unfolding split
split-append [] rest h = refl
split-append (c ∷ segment) rest h =
    let here : is_slash c ≡ false = ground arith in
    rw (split-append segment rest (ground arith), here) refl

split-path_text :
    (segment : Text) (segments : List Text)
    → All IsSafe (segment ∷ segments)
    → split is_slash (path_text (segment ∷ segments)) ≡ segment ∷ segments
split-path_text segment [] h = split_one segment h.0.slashless
split-path_text segment (next ∷ segments) h =
    split-append segment (path_text (next ∷ segments)) h.0.slashless
    ∙ ap (λ x. segment ∷ x) (split-path_text next segments h.1)

clean_components_safe :
    (segments : List Text) → All IsSafe segments → clean_components segments ≡ ok segments
unfolding clean_components
clean_components_safe [] h = refl
clean_components_safe (segment ∷ segments) h =
    rw (h.0.full, h.0.not_current, h.0.not_parent, clean_components_safe segments h.1) refl

path_text_relative :
    (segment : Text) (segments : List Text)
    → All IsSafe (segment ∷ segments)
    → (is_empty (path_text (segment ∷ segments)) ≡ false)
      × (starts_with (codes "/") (path_text (segment ∷ segments)) ≡ false)
path_text_relative [] segments h = ground (arith, h.0.full)
path_text_relative (c ∷ segment) [] h = (refl, ground (arith, h.0.slashless))
path_text_relative (c ∷ segment) (next ∷ segments) h = (refl, ground (arith, h.0.slashless))

-- The text of a path of components that each stay in their directory is accepted, and cleaned to
-- the same components.
pub clean_relative_path-path_text :
    (segment : Text) (segments : List Text)
    → All IsSafe (segment ∷ segments)
    → clean_relative_path (path_text (segment ∷ segments)) ≡ ok (segment ∷ segments)
unfolding clean_relative_path
clean_relative_path-path_text segment segments h =
    let relative = path_text_relative segment segments h in
    rw
      (
        clean_relative_path,
        relative.0,
        relative.1,
        split-path_text segment segments h,
        clean_components_safe (segment ∷ segments) h,
      )
      refl
