-- ===== src/Normalization/Archives/Devices.antt =====
-- No archive is named as a device.
use teatro.Prelude.{
  ℕ, ◌≡◌, refl, inl, inr, Bool, true, false, not, ◌&&◌, Option, none, some, [], ◌∷◌, ◌++◌, nat_eq,
  list_eq, nat_beq, if◌then◌else◌, arith, Bool-cases, all, length, drop,
}
use teatro.Prelude.Text.{Text, codes, strip_prefix}
use teatro.Prelude.Text.Slices.{to_ascii_uppercase}
use teatro.Normalization.Archives.{first_part, is_port_of, or_else, is_reserved, unreserved}

-- A suffix of two characters or more names no port.
abbrev long_rest : Bool → ℕ → ℕ → Text → Option Text
long_rest kept d e s = if kept then some (d ∷ e ∷ s) else none

not_a_port :
    (x y : Bool) (d e : ℕ) (s : Text)
    → is_port_of (or_else (long_rest x d e s) (long_rest y d e s)) ≡ false
not_a_port true y d e s = refl
not_a_port false true d e s = refl
not_a_port false false d e s = refl

strip_prefix-long :
    (p q r a b c d e : ℕ) (s : Text)
    → strip_prefix (p ∷ q ∷ r ∷ []) (a ∷ b ∷ c ∷ d ∷ e ∷ s)
      ≡ long_rest (nat_beq p a && (nat_beq q b && nat_beq r c)) d e s
strip_prefix-long p q r a b c d e s = ground arith

three : (x y z : Bool) → (x && (y && (z && false))) ≡ false
three x y z = ground arith

is_reserved-long : (a b c d e : ℕ) (s : Text) → is_reserved (a ∷ b ∷ c ∷ d ∷ e ∷ s) ≡ false
is_reserved-long a b c d e s =
    rw (strip_prefix-long b'C' b'O' b'M' a b c d e s, strip_prefix-long b'L' b'P' b'T' a b c d e s)
      (rw
        (
          three (nat_beq a b'C') (nat_beq b b'O') (nat_beq c b'N'),
          three (nat_beq a b'P') (nat_beq b b'R') (nat_beq c b'N'),
          three (nat_beq a b'A') (nat_beq b b'U') (nat_beq c b'X'),
          three (nat_beq a b'N') (nat_beq b b'U') (nat_beq c b'L'),
        )
        (not_a_port (nat_beq b'C' a && (nat_beq b'O' b && nat_beq b'M' c))
          (nat_beq b'L' a && (nat_beq b'P' b && nat_beq b'T' c)) d e s))

upper-append :
    (s t : Text) → to_ascii_uppercase (s ++ t) ≡ to_ascii_uppercase s ++ to_ascii_uppercase t
upper-append [] t = refl
upper-append (c ∷ s) t = rw (upper-append s t) refl

-- What is inserted makes every name long enough.
is_reserved-game : (s t : Text) → is_reserved (s ++ (codes " GAME" ++ t)) ≡ false
is_reserved-game [] t = is_reserved-long b' ' b'G' b'A' b'M' b'E' t
is_reserved-game (a ∷ []) t = is_reserved-long a b' ' b'G' b'A' b'M' (b'E' ∷ t)
is_reserved-game (a ∷ b ∷ []) t = is_reserved-long a b b' ' b'G' b'A' (b'M' ∷ b'E' ∷ t)
is_reserved-game (a ∷ b ∷ c ∷ []) t = is_reserved-long a b c b' ' b'G' (b'A' ∷ b'M' ∷ b'E' ∷ t)
is_reserved-game (a ∷ b ∷ c ∷ d ∷ []) t =
    is_reserved-long a b c d b' ' (b'G' ∷ b'A' ∷ b'M' ∷ b'E' ∷ t)
is_reserved-game (a ∷ b ∷ c ∷ d ∷ e ∷ s) t = is_reserved-long a b c d e (s ++ (codes " GAME" ++ t))

abbrev dotless : Text → Bool
dotless s = all (λ c. not (nat_beq c b'.')) s

first_part-dotless : (s : Text) → dotless (first_part s) ≡ true
first_part-dotless [] = refl
first_part-dotless (c ∷ s) = ground (arith, first_part-dotless s)

first_part-append : (s t : Text) → dotless s ≡ true → first_part (s ++ t) ≡ s ++ first_part t
first_part-append [] t h = refl
first_part-append (c ∷ s) t h = elim (Bool-cases (nat_beq c b'.')) [
  | inl dot ↦ cc (rw dot at h)
  | inr other ↦ rw (other, first_part-append s t (rw other at h)) refl
]

first_part_before : (s t : Text) → first_part (s ++ b'.' ∷ t) ≡ first_part s
first_part_before [] t = refl
first_part_before (c ∷ s) t = ground (arith, first_part_before s t)

game-free :
    (first rest : Text)
    → dotless first ≡ true
    → is_reserved (to_ascii_uppercase (first_part (first ++ (codes " Game" ++ rest)))) ≡ false
game-free first rest h =
    rw
      (
        first_part-append first (codes " Game" ++ rest) h,
        upper-append first (codes " Game" ++ first_part rest),
      )
      (is_reserved-game (to_ascii_uppercase first) (to_ascii_uppercase (first_part rest)))

-- The first part of a name that is not reserved is not that of a device.
pub unreserved-free :
    (base : Text)
    → is_reserved (to_ascii_uppercase (first_part (unreserved base (first_part base)))) ≡ false
unreserved-free base = elim (Bool-cases (is_reserved (to_ascii_uppercase (first_part base)))) [
  | inl device ↦
      rw device (
        game-free (first_part base) (drop (length (first_part base)) base)
          (first_part-dotless base))
  | inr free ↦ rw (free, free) refl
]

pub archive-free :
    (base extension : Text)
    → is_reserved
        (to_ascii_uppercase (first_part (unreserved base (first_part base) ++ b'.' ∷ extension)))
      ≡ false
archive-free base extension =
    rw (first_part_before (unreserved base (first_part base)) extension) (unreserved-free base)
