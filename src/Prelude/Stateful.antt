-- ===== src/Prelude/Stateful.antt =====
-- Steps on a state that may end in an error: what was changed before stays changed.
use mathlib.Core.Bool.{Bool, true, false}
use mathlib.Core.List.{List, [], ◌∷◌}
use teatro.Prelude.Fallible.{Result, ok, err}

abbrev pub Action : Type 0 → Type 0 → Type 0 → Type 0
Action S E A = S → Result E A × S

-- What a step returns that returns nothing.
abbrev pub Done : Type 0
Done = Unit

module _ {S E : Type 0} where
  abbrev pub pure : {A : Type 0} → A → S → Result E A × S
  pure a s = (ok a, s)

  abbrev pub raise : {A : Type 0} → E → S → Result E A × S
  raise e s = (err e, s)

  -- What follows a step, from its result.
  abbrev pub continue : {A B : Type 0} → Result E A × S → (A → S → Result E B × S) → Result E B × S
  continue (ok a, s) f = f a s
  continue (err e, s) f = (err e, s)

  infixl 5 ◌>>=◌ ◌>>◌
  abbrev pub ◌>>=◌ :
      {A B : Type 0} → (S → Result E A × S) → (A → S → Result E B × S) → S → Result E B × S
  ◌>>=◌ m f s = continue (m s) f

  abbrev pub ◌>>◌ :
      {A B : Type 0} → (S → Result E A × S) → (S → Result E B × S) → S → Result E B × S
  ◌>>◌ m k s = continue (m s) (λ _. k)

  -- `if c { return Err(e) }`.
  abbrev pub raise_if : Bool → E → S → Result E Done × S
  raise_if true e s = (err e, s)
  raise_if false e s = (ok tt, s)

  -- `for a in xs { f(a)?; }`.
  abbrev pub for_each : {A : Type 0} → (A → S → Result E Done × S) → List A → S → Result E Done × S
  for_each f [] s = (ok tt, s)
  for_each f (a ∷ rest) s = continue (f a s) (λ _. for_each f rest)
