-- ===== src/Prelude/Appends.antt =====
-- Lists with one element more at their end, as Rust's `push` and `append` leave them.
use mathlib.Core.Path.{◌≡◌, refl, ap}
use mathlib.Core.Bool.{Bool, true, false, ◌||◌}
use mathlib.Core.List.{List, [], ◌∷◌, ◌++◌, map}
use native.Mathlib.Omega.{arith}
use teatro.Prelude.Lists.{All, any}
use teatro.Prelude.Text.{is_empty}
pub use mathlib.Core.List.{append_assoc, append-nil}

module _ {ℓ} {A : Type ℓ} where
  pub any_snoc : (p : A → Bool) (xs : List A) (x : A) → any p (xs ++ x ∷ []) ≡ (any p xs || p x)
  any_snoc p [] x = ground arith
  any_snoc p (y ∷ xs) x = ground (arith, any_snoc p xs x)

  pub All-snoc {κ} : (P : A → Type κ) (xs : List A) (x : A) → All P xs → P x → All P (xs ++ x ∷ [])
  All-snoc P [] x h k = (k, tt)
  All-snoc P (y ∷ xs) x h k = (h.0, All-snoc P xs x h.1 k)

  pub snoc_full : (xs : List A) (x : A) → is_empty (xs ++ x ∷ []) ≡ false
  snoc_full [] x = refl
  snoc_full (y ∷ xs) x = refl

  pub snoc_not_empty : (xs : List A) (x : A) → is_empty (xs ++ x ∷ []) ≡ true → ⊥
  snoc_not_empty [] x h = cc
  snoc_not_empty (y ∷ xs) x h = cc

  pub empty_left : (xs ys : List A) → is_empty (xs ++ ys) ≡ true → is_empty xs ≡ true
  empty_left [] ys h = refl
  empty_left (x ∷ xs) ys h = cc

  pub empty_right : (xs ys : List A) → is_empty (xs ++ ys) ≡ true → is_empty ys ≡ true
  empty_right [] ys h = h
  empty_right (x ∷ xs) ys h = cc

module _ {ℓ κ} {A : Type ℓ} {B : Type κ} where
  pub map_snoc : (f : A → B) (xs : List A) (x : A) → map f (xs ++ x ∷ []) ≡ map f xs ++ f x ∷ []
  map_snoc f [] x = refl
  map_snoc f (y ∷ xs) x = ap (λ r. f y ∷ r) (map_snoc f xs x)

  pub All-map {μ} :
      (P : B → Type μ) (f : A → B) (xs : List A) → All (λ x. P (f x)) xs → All P (map f xs)
  All-map P f [] h = tt
  All-map P f (x ∷ xs) h = (h.0, All-map P f xs h.1)
