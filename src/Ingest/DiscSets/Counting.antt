-- ===== src/Ingest/DiscSets/Counting.antt =====
-- How many numbers a list has that has all of 1 to `n`.
use teatro.Prelude.{
  ℕ, zero, suc, ◌≡◌, ◌≤◌, inl, inr, true, false, not, List, [], ◌∷◌, length, retain, nat_beq,
  Bool-cases, arith,
}
use teatro.Ingest.{is_used}

-- A list without a number.
abbrev without : ℕ → List ℕ → List ℕ
without n xs = retain (λ m. not (nat_beq m n)) xs

length-without : (n : ℕ) (xs : List ℕ) → length (without n xs) ≤ length xs
length-without n [] = omega arith
length-without n (x ∷ xs) = ground (arith, length-without n xs)

length-without_used :
    (n : ℕ) (xs : List ℕ) → is_used xs n ≡ true → suc (length (without n xs)) ≤ length xs
length-without_used n [] h = cc
length-without_used n (x ∷ xs) h = elim (Bool-cases (nat_beq x n)) [
  | inl same ↦ rw same (omega (arith, length-without n xs))
  | inr other ↦ rw other (omega (arith, length-without_used n xs (rw other at h)))
]

is_used-without :
    (n i : ℕ) (xs : List ℕ)
    → nat_beq n i ≡ false
    → is_used xs i ≡ true
    → is_used (without n xs) i ≡ true
is_used-without n i [] d h = cc
is_used-without n i (x ∷ xs) d h = ground (arith, is_used-without n i xs d, h, d)

-- A list that has all of 1 to `n` has at least `n` elements.
pub holds_all :
    (n : ℕ) (xs : List ℕ) → ((i : ℕ) → 1 ≤ i → i ≤ n → is_used xs i ≡ true) → n ≤ length xs
holds_all zero xs h = omega arith
holds_all (suc n) xs h =
    let rest =
      holds_all n (without (suc n) xs)
        (λ i a b. is_used-without (suc n) i xs (ground (arith, b)) (h i a (omega (arith, b)))) in
    omega (arith, rest, length-without_used (suc n) xs (h (suc n) (omega arith) (omega arith)))

-- A list of `n` elements that has all of 1 to `n` has no 0.
pub from_one :
    (xs : List ℕ) (n disc : ℕ)
    → ((i : ℕ) → 1 ≤ i → i ≤ n → is_used xs i ≡ true)
    → length xs ≤ n
    → is_used xs disc ≡ true
    → 1 ≤ disc
from_one xs n (suc disc) h l u = omega arith
from_one xs n zero h l u = absurd (
    omega (
      arith,
      l,
      length-without_used 0 xs u,
      holds_all n (without 0 xs) (λ i a b. is_used-without 0 i xs (ground (arith, a)) (h i a b)),
    ))
