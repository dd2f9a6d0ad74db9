-- ===== src/Prelude/Text/Trimming.antt =====
-- What `trim_start_matches` and `trim_end_matches` leave.
use Prim.Native.Nat.{ℕ, ◌≤◌}
use mathlib.Core.Path.{◌≡◌, refl}
use mathlib.Core.Logic.{inl, inr}
use mathlib.Core.Bool.{Bool, true, false, ◌&&◌}
use mathlib.Core.List.{[], ◌∷◌}
use native.Mathlib.Omega.{arith}
use teatro.Prelude.Tests.{if◌then◌else◌, Bool-cases, and_left, and_right}
use teatro.Prelude.Lists.{all}
use teatro.Prelude.Text.{Text, is_empty, byte_len}
use teatro.Prelude.Text.Slices.{trim_start_matches, trim_end_matches}

module _ (p : ℕ → Bool) where
  abbrev pub starts_on : Text → Bool
  starts_on [] = false
  starts_on (c ∷ s) = p c

  abbrev pub ends_on : Text → Bool
  ends_on [] = false
  ends_on (c ∷ []) = p c
  ends_on (c ∷ d ∷ s) = ends_on (d ∷ s)

  pub trim_start_matches-starts_on : (s : Text) → starts_on (trim_start_matches p s) ≡ false
  trim_start_matches-starts_on [] = refl
  trim_start_matches-starts_on (c ∷ s) = elim (Bool-cases (p c)) [
    | inl edge ↦ rw edge (trim_start_matches-starts_on s)
    | inr inside ↦ rw inside inside
  ]

  pub byte_len-trim_start_matches : (s : Text) → byte_len (trim_start_matches p s) ≤ byte_len s
  byte_len-trim_start_matches [] = omega arith
  byte_len-trim_start_matches (c ∷ s) = elim (Bool-cases (p c)) [
    | inl edge ↦ rw edge (omega (arith, byte_len-trim_start_matches s))
    | inr inside ↦ rw inside (omega arith)
  ]

  -- One step of the trimming at the end, on what is left of the rest.
  abbrev pub trim_step : ℕ → Text → Text
  trim_step c rest = if is_empty rest && p c then [] else c ∷ rest

  trim_step-cases {ℓ} :
      (P : Text → Type ℓ) (c : ℕ) (rest : Text) → P [] → P (c ∷ rest) → P (trim_step c rest)
  trim_step-cases P c [] h k = elim (Bool-cases (p c)) [
    | inl edge ↦ rw edge h
    | inr inside ↦ rw inside k
  ]
  trim_step-cases P c (d ∷ rest) h k = k

  trim_step-ends_on :
      (c : ℕ) (rest : Text) → ends_on rest ≡ false → ends_on (trim_step c rest) ≡ false
  trim_step-ends_on c [] h = elim (Bool-cases (p c)) [
    | inl edge ↦ rw edge refl
    | inr inside ↦ rw (inside, inside) refl
  ]
  trim_step-ends_on c (d ∷ rest) h = h

  pub trim_end_matches-ends_on : (s : Text) → ends_on (trim_end_matches p s) ≡ false
  trim_end_matches-ends_on [] = refl
  trim_end_matches-ends_on (c ∷ s) =
      trim_step-ends_on c (trim_end_matches p s) (trim_end_matches-ends_on s)

  trim_step-starts_on : (c : ℕ) (rest : Text) → p c ≡ false → starts_on (trim_step c rest) ≡ false
  trim_step-starts_on c [] h = rw (h, h) refl
  trim_step-starts_on c (d ∷ rest) h = h

  pub trim_end_matches-starts_on :
      (s : Text) → starts_on s ≡ false → starts_on (trim_end_matches p s) ≡ false
  trim_end_matches-starts_on [] h = refl
  trim_end_matches-starts_on (c ∷ s) h = trim_step-starts_on c (trim_end_matches p s) h

  pub byte_len-trim_end_matches : (s : Text) → byte_len (trim_end_matches p s) ≤ byte_len s
  byte_len-trim_end_matches [] = omega arith
  byte_len-trim_end_matches (c ∷ s) =
      trim_step-cases (λ t. byte_len t ≤ byte_len (c ∷ s)) c (trim_end_matches p s) (omega arith)
        (omega (arith, byte_len-trim_end_matches s))

  -- A text with no edge is not changed.
  pub trim_start_matches-none : (s : Text) → starts_on s ≡ false → trim_start_matches p s ≡ s
  trim_start_matches-none [] h = refl
  trim_start_matches-none (c ∷ s) h = rw h refl

  pub trim_end_matches-none : (s : Text) → ends_on s ≡ false → trim_end_matches p s ≡ s
  trim_end_matches-none [] h = refl
  trim_end_matches-none (c ∷ []) h = rw h refl
  trim_end_matches-none (c ∷ d ∷ s) h = rw (trim_end_matches-none (d ∷ s) h) refl

  module _ (q : ℕ → Bool) where
    pub all-trim_start_matches : (s : Text) → all q s ≡ true → all q (trim_start_matches p s) ≡ true
    all-trim_start_matches [] h = refl
    all-trim_start_matches (c ∷ s) h = elim (Bool-cases (p c)) [
      | inl edge ↦ rw edge (all-trim_start_matches s (and_right (q c) _ h))
      | inr inside ↦ rw inside h
    ]

    pub all-trim_end_matches : (s : Text) → all q s ≡ true → all q (trim_end_matches p s) ≡ true
    all-trim_end_matches [] h = refl
    all-trim_end_matches (c ∷ s) h =
        trim_step-cases (λ t. all q t ≡ true) c (trim_end_matches p s) refl
          (rw (and_left (q c) _ h, all-trim_end_matches s (and_right (q c) _ h)) refl)
