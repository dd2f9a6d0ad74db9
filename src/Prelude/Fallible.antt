-- ===== src/Prelude/Fallible.antt =====
-- Rust's `Result`, and the loops that stop at the first error.
use mathlib.Core.Path.{◌≡◌, subst}
use mathlib.Core.List.{List, [], ◌∷◌}
use teatro.Prelude.Lists.{All}

pub data Result {ℓ κ} (E : Type ℓ) (A : Type κ) : Type (ℓ ⊔ κ) where
  ok : A → Result E A
  err : E → Result E A

-- One more element before those of the rest: the first error wins.
abbrev pub push_result {ℓ κ} :
    {E : Type ℓ} {A : Type κ} → Result E A → Result E (List A) → Result E (List A)
push_result (err error) rest = err error
push_result (ok a) (err error) = err error
push_result (ok a) (ok rest) = ok (a ∷ rest)

-- `map(f).collect::<Result<Vec<_>, _>>()`.
abbrev pub collect {ℓ κ μ} :
    {E : Type ℓ} {A : Type κ} {B : Type μ} → (A → Result E B) → List A → Result E (List B)
collect f [] = ok []
collect f (a ∷ rest) = push_result (f a) (collect f rest)

-- What holds of the value, where there is one.
abbrev pub Holds {ℓ κ μ} : {E : Type ℓ} {A : Type κ} → (A → Type μ) → Result E A → Type μ
Holds P (ok a) = P a
Holds P (err error) = Unit

module _ {ℓ κ μ} {E : Type ℓ} {A : Type κ} (P : A → Type μ) where
  pub Holds-ok : (found : Result E A) (a : A) → Holds P found → found ≡ ok a → P a
  Holds-ok found a h e = subst (Holds P) e h

  pub push_result-Holds :
      (first : Result E A) (rest : Result E (List A))
      → Holds P first
      → Holds (All P) rest
      → Holds (All P) (push_result first rest)
  push_result-Holds (err error) rest h k = tt
  push_result-Holds (ok a) (err error) h k = tt
  push_result-Holds (ok a) (ok rest) h k = (h, k)

module _ {ℓ κ μ} {E : Type ℓ} {A : Type κ} {B : Type κ} (P : B → Type μ) (f : A → Result E B) where
  pub collect-Holds : ((a : A) → Holds P (f a)) → (xs : List A) → Holds (All P) (collect f xs)
  collect-Holds h [] = tt
  collect-Holds h (a ∷ xs) = push_result-Holds P (f a) (collect f xs) (h a) (collect-Holds h xs)
