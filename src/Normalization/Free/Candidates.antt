-- ===== src/Normalization/Free/Candidates.antt =====
-- What the candidates for a file name are, apart from how the code makes them.
use teatro.Prelude.{
  ℕ, zero, suc, ◌≡◌, ◌⊎◌, inl, inr, refl, ap, Bool, true, false, ◌||◌, Option, none, some, [], ◌∷◌,
  ◌++◌, any, nat_beq, nat_beq_iff, Bool-cases,
}
use teatro.Prelude.Text.{Text, codes, is_empty}
use teatro.Prelude.Text.Slices.{rsplit_once, before_split}
use teatro.Prelude.Text.Decimal.{decimal}
use teatro.Normalization.Free.{split_extension, if_both, numbered, collision_file_name}

-- The text is cut at its last occurrence of a character, or it has none.
abbrev IsSplit : ℕ → Text → Option (Text × Text) → Type 0
IsSplit d s (some (a, b)) = (s ≡ a ++ d ∷ b) × (any (λ c. nat_beq c d) b ≡ false)
IsSplit d s none = any (λ c. nat_beq c d) s ≡ false

before_split-IsSplit :
    (d c : ℕ) (s : Text) (found : Option (Text × Text))
    → IsSplit d s found
    → IsSplit d (c ∷ s) (before_split d c s found)
before_split-IsSplit d c s (some (a, b)) h = (ap (λ x. c ∷ x) h.0, h.1)
before_split-IsSplit d c s none h = elim (Bool-cases (nat_beq c d)) [
  | inl here ↦ rw here (ap (λ x. x ∷ s) ((nat_beq_iff c d).0 here), h)
  | inr other ↦ rw other (rw other h)
]

rsplit_once-IsSplit : (d : ℕ) (s : Text) → IsSplit d s (rsplit_once d s)
unfolding rsplit_once
rsplit_once-IsSplit d [] = refl
rsplit_once-IsSplit d (c ∷ s) =
    before_split-IsSplit d c s (rsplit_once d s) (rsplit_once-IsSplit d s)

-- A number is put before the extension, where the text after the last dot is one, or after the name.
abbrev pub IsNumbered : Text → ℕ → Text → Type 0
IsNumbered original n name =
    ((stem : Text) × (extension : Text) × (original ≡ stem ++ b'.' ∷ extension)
      × (is_empty stem ≡ false)
      × (is_empty extension ≡ false)
      × (any (λ c. nat_beq c b'.') extension ≡ false)
      × (name ≡ stem ++ codes " (" ++ decimal n ++ codes ")." ++ extension))
    ⊎ (name ≡ original ++ codes " (" ++ decimal n ++ codes ")")

-- The first candidate is the name itself, the others are numbered from 1.
abbrev pub IsCandidate : Text → ℕ → Text → Type 0
IsCandidate original zero name = name ≡ original
IsCandidate original (suc n) name = IsNumbered original (suc n) name

or_parts : (a b : Bool) → (a || b) ≡ false → (a ≡ false) × (b ≡ false)
or_parts true b h = cc
or_parts false b h = (refl, h)

numbered-IsNumbered :
    (original : Text) (n : ℕ) (found : Option (Text × Text))
    → IsSplit b'.' original found
    → IsNumbered original n (numbered n (if_both original found))
numbered-IsNumbered original n none h = inr refl
numbered-IsNumbered original n (some (stem, extension)) h =
    elim (Bool-cases (is_empty stem || is_empty extension)) [
      | inl bare ↦ rw bare (inr refl)
      | inr full ↦
          let parts = or_parts (is_empty stem) (is_empty extension) full in
          rw full (inl (stem, extension, h.0, parts.0, parts.1, h.1, refl))
    ]

pub collision_file_name-IsCandidate :
    (original : Text) (n : ℕ) → IsCandidate original n (collision_file_name original n)
unfolding collision_file_name split_extension
collision_file_name-IsCandidate original zero = refl
collision_file_name-IsCandidate original (suc n) =
    numbered-IsNumbered original (suc n) (rsplit_once b'.' original)
      (rsplit_once-IsSplit b'.' original)
