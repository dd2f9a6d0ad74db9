-- ===== src/Table/Laws.antt =====
-- The laws of a table: what `lookup` finds after each operation, and that keys stay unique.
use mathlib.Core.Option.{some-injective}
use mathlib.Core.Path.{subst₂}
use teatro.Prelude.{
  suc, ◌≤◌, ◌≡◌, refl, inl, inr, Bool, true, not, Option, none, some, [], ◌∷◌, arith, All, All-mono,
  All-retain, Bool-cases, Eq, ◌==◌, retain, length, length-retain-le, is_some, if◌then◌else◌,
}
use teatro.Table.{Table, lookup, contains_key, insert, remove, Unique}

module _ {ℓ} {K V : Type ℓ} ⦃e : Eq K⦄ where
  pub lookup-insert :
      (k j : K) (new : V) (m : Table K V)
      → lookup j (insert k new m) ≡ (if k == j then some new else lookup j m)
  unfolding lookup insert
  lookup-insert k j new [] = refl
  lookup-insert k j new ((i, w) ∷ m) =
      ground (arith, e.same_iff k j, e.same_iff i k, e.same_iff i j, lookup-insert k j new m)

  pub lookup-remove :
      (k j : K) (m : Table K V) → lookup j (remove k m) ≡ (if k == j then none else lookup j m)
  unfolding lookup remove
  lookup-remove k j [] = ground arith
  lookup-remove k j ((i, w) ∷ m) =
      ground (arith, e.same_iff k j, e.same_iff i k, e.same_iff i j, lookup-remove k j m)

  -- What a `retain` by `p` leaves of an entry.
  abbrev pub kept : (K × V → Bool) → K → Option V → Option V
  kept p k none = none
  kept p k (some v) = if p (k, v) then some v else none

  pub lookup-retain-none :
      (p : K × V → Bool) (k : K) (m : Table K V) → lookup k m ≡ none → lookup k (retain p m) ≡ none
  unfolding lookup
  lookup-retain-none p k [] h = refl
  lookup-retain-none p k ((j, v) ∷ m) h = ground (arith, lookup-retain-none p k m)

  pub lookup-retain :
      (p : K × V → Bool) (k : K) (m : Table K V)
      → Unique m
      → lookup k (retain p m) ≡ kept p k (lookup k m)
  unfolding lookup
  lookup-retain p k [] u = refl
  lookup-retain p k ((j, v) ∷ m) u =
      ground (arith, e.same_iff j k, lookup-retain p k m u.1, lookup-retain-none p j m u.0)

  pub insert-Unique : (k : K) (v : V) (m : Table K V) → Unique m → Unique (insert k v m)
  unfolding insert lookup
  insert-Unique k v [] u = (refl, tt)
  insert-Unique k v ((j, w) ∷ m) u =
      ground (arith, insert-Unique k v m u.1, lookup-insert k j v m, e.same_iff j k, e.same_iff k j)

  pub retain-Unique : (p : K × V → Bool) (m : Table K V) → Unique m → Unique (retain p m)
  retain-Unique p [] u = tt
  retain-Unique p ((j, w) ∷ m) u =
      ground (arith, retain-Unique p m u.1, lookup-retain-none p j m u.0)

  pub length-insert :
      (k : K) (v : V) (m : Table K V)
      → length (insert k v m) ≡ (if is_some (lookup k m) then length m else suc (length m))
  unfolding lookup insert
  length-insert k v [] = refl
  length-insert k v ((j, w) ∷ m) = ground (arith, length-insert k v m)

  pub length-remove :
      (k : K) (v : V) (m : Table K V) → lookup k m ≡ some v → suc (length (remove k m)) ≤ length m
  unfolding lookup remove
  length-remove k v [] h = ground arith
  length-remove k v ((j, w) ∷ m) h =
      ground
        (arith, length-remove k v m, length-retain-le (λ (entry : K × V). not (entry.0 == k)) m)

  pub length-remove-le : (k : K) (m : Table K V) → length (remove k m) ≤ length m
  unfolding remove
  length-remove-le k m = length-retain-le (λ (entry : K × V). not (entry.0 == k)) m

  pub remove-Unique : (k : K) (m : Table K V) → Unique m → Unique (remove k m)
  unfolding remove
  remove-Unique k m = retain-Unique (λ (entry : K × V). not (entry.0 == k)) m

  -- Every entry of a table is the one that its key finds.
  pub Unique-All : (m : Table K V) → Unique m → All (λ x. lookup x.0 m ≡ some x.1) m
  unfolding lookup
  Unique-All [] u = tt
  Unique-All ((k, v) ∷ m) u = (
    ground (arith, e.same_iff k k),
    All-mono (λ x. lookup x.0 m ≡ some x.1) (λ x. lookup x.0 ((k, v) ∷ m) ≡ some x.1)
        (λ x h. ground (arith, e.same_iff k x.0, u.0)) m (Unique-All m u.1),
  )

  -- What holds of every entry holds of a value that is found.
  pub All-lookup {κ} :
      (P : K × V → Type κ) (k : K) (v : V) (m : Table K V)
      → All P m
      → lookup k m ≡ some v
      → P (k, v)
  unfolding lookup
  All-lookup P k v [] h l = cc
  All-lookup P k v ((j, w) ∷ m) h l = elim (Bool-cases (j == k)) [
    | inl e' ↦
        subst₂ (λ a b. P (a, b)) ((e.same_iff j k).0 e') (some-injective _ _ (rw e' at l)) h.0
    | inr e' ↦ All-lookup P k v m h.1 (rw e' at l)
  ]

  -- What holds of every value, and of a new one at any key, holds after the insertion.
  pub All-insert {κ} :
      (P : K × V → Type κ) (k : K) (v : V) (m : Table K V)
      → All P m
      → ((j : K) → P (j, v))
      → All P (insert k v m)
  unfolding insert
  All-insert P k v [] h new = (new k, tt)
  All-insert P k v ((j, w) ∷ m) h new = ground (arith, All-insert P k v m h.1 new, new j)

  pub All-remove {κ} : (P : K × V → Type κ) (k : K) (m : Table K V) → All P m → All P (remove k m)
  unfolding remove
  All-remove P k m h = All-retain P (λ (entry : K × V). not (entry.0 == k)) m h

  pub contains_key_found :
      (k : K) (v : V) (m : Table K V) → lookup k m ≡ some v → contains_key k m ≡ true
  unfolding contains_key
  contains_key_found k v m h = rw h
