-- ===== src/Table.antt =====
-- Rust's `HashMap` as an association list: the one model of the tables of the rate limiter, the
-- job registry and the transfer registry. A key stands in a table once (`Unique`), and the order
-- of the entries is that in which a run happens to iterate.
pub mod Laws
use teatro.Prelude.{
  ℕ, ◌≡◌, Bool, Option, none, some, List, [], ◌∷◌, Eq, ◌==◌, retain, is_some, not, if◌then◌else◌,
}

abbrev pub Table {ℓ} : Type ℓ → Type ℓ → Type ℓ
Table K V = List (K × V)

module _ {ℓ} {K V : Type ℓ} ⦃e : Eq K⦄ where
  -- `HashMap::get`.
  unfoldable pub lookup : K → Table K V → Option V
  lookup k [] = none
  lookup k ((j, w) ∷ rest) = if j == k then some w else lookup k rest

  -- `HashMap::contains_key`.
  unfoldable pub contains_key : K → Table K V → Bool
  unfolding lookup
  contains_key k m = is_some (lookup k m)

  -- `HashMap::insert`, and a write through `get_mut`.
  unfoldable pub insert : K → V → Table K V → Table K V
  insert k v [] = (k, v) ∷ []
  insert k v ((j, w) ∷ rest) =
      let later = (j, w) ∷ insert k v rest in if j == k then (j, v) ∷ rest else later

  -- `HashMap::remove`.
  unfoldable pub remove : K → Table K V → Table K V
  remove k m = retain (λ entry. not (entry.0 == k)) m

  -- Every key stands once.
  abbrev pub Unique : Table K V → Type ℓ
  Unique [] = Unit
  Unique ((k, v) ∷ m) = (lookup k m ≡ none) × Unique m
