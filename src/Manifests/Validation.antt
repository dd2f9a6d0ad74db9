-- ===== src/Manifests/Validation.antt =====
-- What `validate_relative_manifest_path` accepts, the storage accepts too.
use teatro.Prelude.{
  ℕ, ◌≡◌, ◌⊎◌, inl, inr, refl, ap, ◌∙◌, Bool, true, false, ◌||◌, List, [], ◌∷◌, ◌++◌, nat_eq,
  list_eq, arith, any, All, Bool-cases, nat_beq,
}
use teatro.Prelude.Fallible.{ok, Holds}
use teatro.Prelude.Text.{Text, codes, is_empty}
use teatro.Prelude.Text.Slices.{split, split_on, starts_with, trim}
use teatro.Paths.{is_slash, clean_relative_path}
use teatro.Paths.Safety.{IsSafe, path_text, clean_relative_path-path_text, split-slashless}
use teatro.Manifests.{
  is_separator, is_colon, is_traversal, is_unsafe, validate_trimmed,
  validate_relative_manifest_path,
}

abbrev pub is_backslash : ℕ → Bool
is_backslash c = nat_beq c b'\\'

abbrev Stays : List Text → Type 0
Stays parts = any is_traversal parts ≡ false

-- The parts at the slashes beside those at both separators: the first ones agree up to the first
-- backslash, and the others stay where those do.
abbrev Coarser : List Text → List Text → Type 0
Coarser [] fine = Unit
Coarser (part ∷ parts) [] = Unit
Coarser (part ∷ parts) (piece ∷ pieces) =
    ((any is_backslash part ≡ true) ⊎ (part ≡ piece)) × (Stays pieces → Stays parts)

traversal-backslash : (part : Text) → any is_backslash part ≡ true → is_traversal part ≡ false
traversal-backslash [] h = cc
traversal-backslash (c ∷ []) h = ground arith
traversal-backslash (c ∷ d ∷ []) h = ground arith
traversal-backslash (c ∷ d ∷ e ∷ part) h = ground arith

Coarser-Stays :
    (part piece : Text) (parts pieces : List Text)
    → Coarser (part ∷ parts) (piece ∷ pieces)
    → Stays (piece ∷ pieces)
    → Stays (part ∷ parts)
Coarser-Stays part piece parts pieces h k = elim h.0 [
  | inl back ↦ ground (arith, traversal-backslash part back, h.1)
  | inr same ↦ ground (arith, ap is_traversal same, h.1)
]

extend :
    (c : ℕ) (part piece : Text)
    → (any is_backslash part ≡ true) ⊎ (part ≡ piece)
    → (any is_backslash (c ∷ part) ≡ true) ⊎ (c ∷ part ≡ c ∷ piece)
extend c part piece (inl back) = inl (ground (arith, back))
extend c part piece (inr same) = inr (ap (λ x. c ∷ x) same)

split_on-Coarser :
    (c : ℕ) (part piece : Text) (parts pieces : List Text)
    → Coarser (part ∷ parts) (piece ∷ pieces)
    → Coarser
        (split_on (is_slash c) c (part ∷ parts))
        (split_on (is_separator c) c (piece ∷ pieces))
split_on-Coarser c part piece parts pieces h = elim (Bool-cases (is_slash c)) [
  | inl slash ↦ rw (slash) (inr refl, Coarser-Stays part piece parts pieces h)
  | inr other ↦ elim (Bool-cases (is_backslash c)) [
    | inl back ↦ rw (other, back) (inl (ground arith), λ k. h.1 (ground (arith, k)))
    | inr plain ↦ rw (other, plain) (extend c part piece h.0, h.1)
  ]
]

split_on-full : (b : Bool) (c : ℕ) (parts : List Text) → is_empty (split_on b c parts) ≡ false
split_on-full true c parts = refl
split_on-full false c [] = refl
split_on-full false c (part ∷ parts) = refl

split-full : (p : ℕ → Bool) (s : Text) → is_empty (split p s) ≡ false
unfolding split
split-full p [] = refl
split-full p (c ∷ s) = split_on-full (p c) c (split p s)

split_on-Coarser_any :
    (c : ℕ) (parts pieces : List Text)
    → is_empty parts ≡ false
    → is_empty pieces ≡ false
    → Coarser parts pieces
    → Coarser (split_on (is_slash c) c parts) (split_on (is_separator c) c pieces)
split_on-Coarser_any c [] pieces f g h = cc
split_on-Coarser_any c (part ∷ parts) [] f g h = cc
split_on-Coarser_any c (part ∷ parts) (piece ∷ pieces) f g h =
    split_on-Coarser c part piece parts pieces h

split-Coarser : (s : Text) → Coarser (split is_slash s) (split is_separator s)
unfolding split
split-Coarser [] = (inr refl, λ k. k)
split-Coarser (c ∷ s) =
    split_on-Coarser_any c (split is_slash s) (split is_separator s) (split-full is_slash s)
      (split-full is_separator s) (split-Coarser s)

Coarser-Stays_any :
    (parts pieces : List Text)
    → is_empty pieces ≡ false
    → Coarser parts pieces
    → Stays pieces
    → Stays parts
Coarser-Stays_any [] pieces f h k = refl
Coarser-Stays_any (part ∷ parts) [] f h k = cc
Coarser-Stays_any (part ∷ parts) (piece ∷ pieces) f h k = Coarser-Stays part piece parts pieces h k

All-IsSafe :
    (parts : List Text)
    → All (λ part. any is_slash part ≡ false) parts
    → Stays parts
    → All IsSafe parts
All-IsSafe [] h k = tt
All-IsSafe (part ∷ parts) h k = (
  record {
    full = ground arith;
    slashless = h.0;
    not_current = ground arith;
    not_parent = ground arith;
  },
  All-IsSafe parts h.1 (ground arith),
)

slash_code : (c : ℕ) → is_slash c ≡ true → b'/' ≡ c
slash_code c h = ground arith

path_text-split_on :
    (c : ℕ) (parts : List Text)
    → is_empty parts ≡ false
    → path_text (split_on (is_slash c) c parts) ≡ c ∷ path_text parts
path_text-split_on c [] h = cc
path_text-split_on c (part ∷ []) h = elim (Bool-cases (is_slash c)) [
  | inl slash ↦ rw slash (ap (λ x. x ∷ part) (slash_code c slash))
  | inr other ↦ rw other refl
]
path_text-split_on c (part ∷ next ∷ parts) h = elim (Bool-cases (is_slash c)) [
  | inl slash ↦
      rw slash (ap (λ x. x ∷ (part ++ b'/' ∷ path_text (next ∷ parts))) (slash_code c slash))
  | inr other ↦ rw other refl
]

path_text-split : (s : Text) → path_text (split is_slash s) ≡ s
unfolding split
path_text-split [] = refl
path_text-split (c ∷ s) =
    path_text-split_on c (split is_slash s) (split-full is_slash s)
    ∙ ap (λ x. c ∷ x) (path_text-split s)

cleaned :
    (path : Text) (parts : List Text)
    → is_empty parts ≡ false
    → path_text parts ≡ path
    → All IsSafe parts
    → clean_relative_path path ≡ ok parts
cleaned path [] f e h = cc
cleaned path (part ∷ parts) f e h = rw (← e) (clean_relative_path-path_text part parts h)

-- A path that a manifest may name: the storage takes it as it is, part by part, and it has no
-- colon, no character that is unsafe, and no part at either separator that leaves its directory.
pub record IsListed (path : Text) : Type 0 where
  pub accepted : clean_relative_path path ≡ ok (split is_slash path)
  pub colonless : any is_colon path ≡ false
  pub no_unsafe : any is_unsafe path ≡ false
  pub no_traversal : any is_traversal (split is_separator path) ≡ false

Stays-IsListed :
    (path : Text)
    → any is_colon path ≡ false
    → any is_unsafe path ≡ false
    → any is_traversal (split is_separator path) ≡ false
    → IsListed path
Stays-IsListed path c u t =
    let safe : All IsSafe (split is_slash path) =
      All-IsSafe (split is_slash path) (split-slashless path) (
        Coarser-Stays_any (split is_slash path) (split is_separator path)
          (split-full is_separator path) (split-Coarser path) t) in
    record {
      accepted =
          cleaned path (split is_slash path) (split-full is_slash path) (path_text-split path) safe;
      colonless = c;
      no_unsafe = u;
      no_traversal = t;
    }

validate_trimmed-IsListed : (path : Text) → Holds IsListed (validate_trimmed path)
validate_trimmed-IsListed path = elim (Bool-cases (is_empty path)) [
  | inl nothing ↦ rw nothing tt
  | inr full ↦
      elim (Bool-cases
        (starts_with (codes "/") path || starts_with (codes "\\") path || any is_colon path)) [
          | inl absolute ↦ rw (full, absolute) tt
          | inr relative ↦ elim (Bool-cases (any is_unsafe path)) [
            | inl bad ↦ rw (full, relative, bad) tt
            | inr plain ↦ elim (Bool-cases (any is_traversal (split is_separator path))) [
              | inl leaves ↦ rw (full, relative, plain, leaves) tt
              | inr stays ↦
                  rw (full, relative, plain, stays)
                    (Stays-IsListed path (ground (arith, relative)) plain stays)
            ]
          ]
        ]
]

pub validate-IsListed : (path : Text) → Holds IsListed (validate_relative_manifest_path path)
unfolding validate_relative_manifest_path
validate-IsListed path = validate_trimmed-IsListed (trim path)
