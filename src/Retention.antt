-- ===== src/Retention.antt =====
-- The pruning that the job registry and the transfer registry share in shape: entries that ended
-- an hour ago go, and of the others that ended the oldest beyond 64. `stamp` says when an entry
-- ended, `before` is the order in which the oldest are chosen.
pub mod Kept
pub mod Capacity
use teatro.Prelude.{
  ℕ, ◌+◌, ◌-◌, ◌*◌, Bool, true, Option, none, some, List, [], ◌∷◌, Eq, ltb, retain, length, take,
  if◌then◌else◌,
}
use teatro.Table.{Table, remove}
use teatro.Chrono.{nanos}

abbrev pub terminal_capacity : ℕ
terminal_capacity = 64

-- An hour.
abbrev pub terminal_retention : ℕ
terminal_retention = 60 * 60 * nanos

module _ {K V : Type 0} (stamp : V → Option ℕ) where
  -- `now.signed_duration_since(at) < retention`, or no end yet.
  unfoldable pub is_recent : ℕ → K × V → Bool
  is_recent now x = elim (stamp x.1) [ none ↦ true | some at ↦ ltb now (at + terminal_retention) ]

  -- The `filter_map` over the table.
  unfoldable pub terminals : Table K V → List (ℕ × K)
  terminals [] = []
  terminals ((k, v) ∷ rest) =
      let later = terminals rest in elim (stamp v) [ none ↦ later | some at ↦ (at, k) ∷ later ]

module _ {K : Type 0} (before : ℕ × K → ℕ × K → Bool) where
  unfoldable pub sort_in : ℕ × K → List (ℕ × K) → List (ℕ × K)
  sort_in x [] = x ∷ []
  sort_in x (y ∷ ys) = if before x y then x ∷ y ∷ ys else y ∷ sort_in x ys

  -- The stable sort.
  unfoldable pub sort : List (ℕ × K) → List (ℕ × K)
  unfolding sort_in
  sort [] = []
  sort (x ∷ xs) = sort_in x (sort xs)

module _ {K V : Type 0} ⦃eq : Eq K⦄ where
  unfoldable pub remove_all : List (ℕ × K) → Table K V → Table K V
  remove_all [] entries = entries
  remove_all ((at, k) ∷ rest) entries = remove_all rest (remove k entries)

module _ {K V : Type 0} ⦃eq : Eq K⦄ (before : ℕ × K → ℕ × K → Bool) (stamp : V → Option ℕ) where
  unfoldable pub evict : Table K V → Table K V
  evict entries =
      let ended = terminals stamp entries in
      if ltb terminal_capacity (length ended)
      then remove_all (take (length ended - terminal_capacity) (sort before ended)) entries
      else entries

  unfoldable pub prune : ℕ → Table K V → Table K V
  prune now entries = evict (retain (is_recent stamp now) entries)
