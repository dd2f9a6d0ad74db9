-- ===== src/Normalization/Free/First.antt =====
-- The loops find the first name that is free.
use teatro.Prelude.{
  ℕ, zero, suc, ◌+◌, ◌<◌, ◌≤◌, ◌≡◌, refl, ◌⊎◌, Bool, true, false, inl, inr, subst, nat_beq,
  Bool-cases, arith,
}
use teatro.Prelude.Fallible.{Result, ok, err}
use teatro.Prelude.Text.{Text}
use teatro.Normalization.Free.{
  NameError, failed, no_available_file_name, attempts, round, first_free, slug_candidate,
  unique_slug, collision_file_name, join_relative_path,
}
use teatro.Normalization.Free.Candidates.{IsCandidate}

module _ {ℓ} {E : Type ℓ} (candidate : ℕ → Text) (taken : Text → Result E Bool) where
  -- The candidates from one number up to another are taken.
  abbrev pub Taken : ℕ → ℕ → Type ℓ
  Taken from to = (i : ℕ) → from ≤ i → i < to → taken (candidate i) ≡ ok true

  -- What each answer says of the candidates from `from` up to `to`: those before are taken.
  abbrev pub Explains : ℕ → ℕ → Result (NameError E) Text → Type ℓ
  Explains from to (ok name) =
      (n : ℕ) × (from ≤ n)
      × (n < to)
      × (name ≡ candidate n)
      × (taken name ≡ ok false)
      × Taken from n
  Explains from to (err no_available_file_name) = Taken from to
  Explains from to (err (failed error)) =
      (n : ℕ) × (from ≤ n) × (n < to) × (taken (candidate n) ≡ err error) × Taken from n

  Taken-cons :
      (from to : ℕ) → taken (candidate from) ≡ ok true → Taken (suc from) to → Taken from to
  Taken-cons from to h k i l r = elim (Bool-cases (nat_beq from i)) [
    | inl same ↦ subst (λ j. taken (candidate j) ≡ ok true) (ground (arith, same)) h
    | inr later ↦ k i (ground (arith, later, l)) r
  ]

  Explains-cons :
      (from to : ℕ) (found : Result (NameError E) Text)
      → taken (candidate from) ≡ ok true
      → Explains (suc from) to found
      → Explains from to found
  Explains-cons from to (ok name) h (n, l, r, e, f, k) =
      (n, omega (arith, l), r, e, f, Taken-cons from n h k)
  Explains-cons from to (err no_available_file_name) h k = Taken-cons from to h k
  Explains-cons from to (err (failed error)) h (n, l, r, e, k) =
      (n, omega (arith, l), r, e, Taken-cons from n h k)

  round-Explains :
      (from to : ℕ) (answer : Result E Bool) (rest : Result (NameError E) Text)
      → from < to
      → taken (candidate from) ≡ answer
      → Explains (suc from) to rest
      → Explains from to (round candidate taken (candidate from) answer rest)
  round-Explains from to (err error) rest l e h =
      (from, omega arith, l, e, λ i a b. absurd (omega (arith, a, b)))
  round-Explains from to (ok true) rest l e h = Explains-cons from to rest e h
  round-Explains from to (ok false) rest l e h =
      (from, omega arith, l, refl, e, λ i a b. absurd (omega (arith, a, b)))

  first_free-Explains :
      (rounds attempt to : ℕ)
      → attempt + rounds ≡ to
      → Explains attempt to (first_free candidate taken rounds attempt)
  first_free-Explains zero attempt to e = λ i a b. absurd (omega (arith, e, a, b))
  first_free-Explains (suc rounds) attempt to e =
      round-Explains attempt to (taken (candidate attempt))
        (first_free candidate taken rounds (suc attempt)) (omega (arith, e)) refl
        (first_free-Explains rounds (suc attempt) to (omega (arith, e)))

-- The slug that is found is the first of the candidates that does not exist.
pub unique_slug-Explains {ℓ} :
    {E : Type ℓ} (slug_exists : Text → Result E Bool) (base_slug : Text)
    → Explains (slug_candidate base_slug) slug_exists 0 attempts (unique_slug slug_exists base_slug)
unfolding unique_slug
unique_slug-Explains slug_exists base_slug =
    first_free-Explains (slug_candidate base_slug) slug_exists attempts 0 attempts (omega arith)

-- What the two questions answered of a candidate that stands in the way, of one that is free, and of
-- one where the file system, or after it the database, answered with an error.
module _ {ℓ} {E : Type ℓ} (file_exists db_exists : Text → Result E Bool)
    (parent original : Text) where
  abbrev pub candidate_path : ℕ → Text
  candidate_path n = join_relative_path parent (collision_file_name original n)

  abbrev pub StandsInTheWay : ℕ → Type ℓ
  StandsInTheWay n =
      (on_disk : Bool) × (in_database : Bool) × (file_exists (candidate_path n) ≡ ok on_disk)
      × (db_exists (candidate_path n) ≡ ok in_database)
      × ((on_disk ≡ true) ⊎ (in_database ≡ true))

  abbrev pub IsFree : ℕ → Type ℓ
  IsFree n = (file_exists (candidate_path n) ≡ ok false) × (db_exists (candidate_path n) ≡ ok false)

  abbrev pub FailsWith : E → ℕ → Type ℓ
  FailsWith error n =
      (file_exists (candidate_path n) ≡ err error)
      ⊎ ((on_disk : Bool) × (file_exists (candidate_path n) ≡ ok on_disk)
          × (db_exists (candidate_path n) ≡ err error))

  abbrev pub AllInTheWay : ℕ → Type ℓ
  AllInTheWay n = (i : ℕ) → i < n → StandsInTheWay i

  -- What each answer says of the 1000 candidates.
  abbrev pub ExplainsName : Result (NameError E) Text → Type ℓ
  ExplainsName (ok name) =
      (n : ℕ) × (n < 1000)
      × (name ≡ collision_file_name original n)
      × IsCandidate original n name
      × IsFree n
      × AllInTheWay n
  ExplainsName (err no_available_file_name) = AllInTheWay 1000
  ExplainsName (err (failed error)) = (n : ℕ) × (n < 1000) × FailsWith error n × AllInTheWay n
