-- ===== src/Retention/Kept.antt =====
-- What a pruning keeps: every entry that has not ended, and nothing that was not there.
use teatro.Prelude.{
  ℕ, ◌-◌, ◌≤◌, ◌≡◌, refl, ◌∙◌, Bool, true, false, Option, none, some, List, [], ◌∷◌, arith, Eq,
  ◌==◌, ltb, retain, length, take, any, any-eq-false, All, All-mono, All-take, Bool-cases,
  Option-cases, inl, inr, if◌then◌else◌,
}
use teatro.Table.{Table, lookup, remove, Unique}
use teatro.Table.Laws.{lookup-remove, lookup-retain, retain-Unique, remove-Unique, Unique-All}
use teatro.Retention.{
  terminal_capacity, terminals, sort_in, sort, remove_all, evict, prune, is_recent,
}

module _ {K : Type 0} (P : ℕ × K → Type 0) (before : ℕ × K → ℕ × K → Bool) where
  All-sort_in : (x : ℕ × K) (xs : List (ℕ × K)) → P x → All P xs → All P (sort_in before x xs)
  unfolding sort_in
  All-sort_in x [] h hs = (h, tt)
  All-sort_in x (y ∷ ys) h hs = ground (arith, All-sort_in x ys h hs.1)

  All-sort : (xs : List (ℕ × K)) → All P xs → All P (sort before xs)
  unfolding sort
  All-sort [] h = tt
  All-sort (x ∷ xs) h = All-sort_in x (sort before xs) h.0 (All-sort xs h.1)

module _ {K V : Type 0} ⦃eq : Eq K⦄ where
  lookup-remove_all :
      (j : K) (ks : List (ℕ × K)) (m : Table K V)
      → lookup j (remove_all ks m) ≡ (if any (λ y. y.1 == j) ks then none else lookup j m)
  unfolding remove_all
  lookup-remove_all j [] m = refl
  lookup-remove_all j ((a, k) ∷ ks) m =
      lookup-remove_all j ks (remove k m) ∙ ground (arith, lookup-remove k j m)

  remove_all-Unique : (ks : List (ℕ × K)) (m : Table K V) → Unique m → Unique (remove_all ks m)
  unfolding remove_all
  remove_all-Unique [] m u = u
  remove_all-Unique ((a, k) ∷ ks) m u = remove_all-Unique ks (remove k m) (remove-Unique k m u)

module _ {K V : Type 0} ⦃eq : Eq K⦄ (stamp : V → Option ℕ) where
  -- The end that stands beside a key in the list is that of its entry.
  abbrev Ended : Table K V → ℕ × K → Type 0
  Ended whole x = (v : V) × (lookup x.1 whole ≡ some v) × (stamp v ≡ some x.0)

  terminals-Ended :
      (whole m : Table K V)
      → All (λ y. lookup y.0 whole ≡ some y.1) m
      → All (Ended whole) (terminals stamp m)
  unfolding terminals
  terminals-Ended whole [] h = tt
  terminals-Ended whole ((k, v) ∷ m) h = elim (Option-cases (stamp v)) [
    | inl e ↦ rw (e, terminals) (terminals-Ended whole m h.1)
    | inr (at, e) ↦ rw (e, terminals) ((v, h.0, e), terminals-Ended whole m h.1)
  ]

module _ {K V : Type 0} ⦃eq : Eq K⦄ (before : ℕ × K → ℕ × K → Bool) (stamp : V → Option ℕ) where
  evict-Unique : (m : Table K V) → Unique m → Unique (evict before stamp m)
  unfolding evict
  evict-Unique m u = elim (Bool-cases (ltb terminal_capacity (length (terminals stamp m)))) [
    | inl big ↦ rw (big, evict) (remove_all-Unique _ m u)
    | inr small ↦ rw (small, evict) u
  ]

  pub prune-Unique : (now : ℕ) (m : Table K V) → Unique m → Unique (prune before stamp now m)
  unfolding prune
  prune-Unique now m u =
      evict-Unique (retain (is_recent stamp now) m) (retain-Unique (is_recent stamp now) m u)

  -- An entry that ended is not one that has not.
  not_active :
      (k : K) (v : V) (m : Table K V)
      → lookup k m ≡ some v
      → stamp v ≡ none
      → (y : ℕ × K) → Ended stamp m y
      → (y.1 == k) ≡ false
  not_active k v m l s y (w, l', s') = elim (Bool-cases (y.1 == k)) [
    | inr e ↦ e
    | inl e ↦ cc ((eq.same_iff y.1 k).0 e)
  ]

  lookup-evict_active :
      (k : K) (v : V) (m : Table K V)
      → Unique m
      → lookup k m ≡ some v
      → stamp v ≡ none
      → lookup k (evict before stamp m) ≡ some v
  unfolding evict
  lookup-evict_active k v m u l s =
      let ended = terminals stamp m in
      let ks = take (length ended - terminal_capacity) (sort before ended) in
      let absent : any (λ y. y.1 == k) ks ≡ false =
        any-eq-false (λ y. y.1 == k) ks
          (All-mono (Ended stamp m) (λ y. (y.1 == k) ≡ false) (λ y h. not_active k v m l s y h) ks
            (All-take (Ended stamp m) _ (sort before ended) (
              All-sort (Ended stamp m) before ended
                (terminals-Ended stamp m m (Unique-All m u))))) in
      elim (Bool-cases (ltb terminal_capacity (length ended))) [
        | inl big ↦ rw (big, evict) (lookup-remove_all k ks m ∙ rw absent l)
        | inr small ↦ rw (small, evict) l
      ]

  -- What a pruning leaves was there, and has not ended or ended within the hour.
  lookup-evict-some :
      (k : K) (v : V) (m : Table K V)
      → lookup k (evict before stamp m) ≡ some v
      → lookup k m ≡ some v
  unfolding evict
  lookup-evict-some k v m l =
      let ended = terminals stamp m in
      let ks = take (length ended - terminal_capacity) (sort before ended) in
      elim (Bool-cases (ltb terminal_capacity (length ended))) [
        | inl big ↦ ground (arith, lookup-remove_all k ks m)
        | inr small ↦ ground arith
      ]

  -- An entry that has not ended is there after a pruning as before it.
  pub lookup-prune_active :
      (now : ℕ) (k : K) (v : V) (m : Table K V)
      → Unique m
      → lookup k m ≡ some v
      → stamp v ≡ none
      → lookup k (prune before stamp now m) ≡ some v
  unfolding prune is_recent
  lookup-prune_active now k v m u l s =
      lookup-evict_active k v (retain (is_recent stamp now) m)
        (retain-Unique (is_recent stamp now) m u)
        (lookup-retain (is_recent stamp now) k m u ∙ rw l (ground arith)) s

  -- What a pruning leaves was there before it, and has not ended, or ended within the hour.
  pub lookup-prune-some :
      (now : ℕ) (k : K) (v : V) (m : Table K V)
      → Unique m
      → lookup k (prune before stamp now m) ≡ some v
      → (lookup k m ≡ some v) × (is_recent stamp now (k, v) ≡ true)
  unfolding prune
  lookup-prune-some now k v m u l =
      let found = lookup-evict-some k v (retain (is_recent stamp now) m) l in
      ground (arith, lookup-retain (is_recent stamp now) k m u, found)

  pub lookup-prune-none :
      (now : ℕ) (k : K) (m : Table K V)
      → Unique m
      → lookup k m ≡ none
      → lookup k (prune before stamp now m) ≡ none
  lookup-prune-none now k m u l = elim (Option-cases (lookup k (prune before stamp now m))) [
    | inl e ↦ e
    | inr (v, e) ↦ cc ((lookup-prune-some now k v m u e).0)
  ]

  terminals-retain-le :
      (p : K × V → Bool) (m : Table K V)
      → length (terminals stamp (retain p m)) ≤ length (terminals stamp m)
  unfolding terminals
  terminals-retain-le p [] = omega arith
  terminals-retain-le p ((k, v) ∷ m) = ground (arith, terminals-retain-le p m)

  -- While at most 64 entries have ended, only the hour counts.
  pub lookup-prune_within :
      (now : ℕ) (k : K) (v : V) (m : Table K V)
      → Unique m
      → length (terminals stamp m) ≤ terminal_capacity
      → lookup k m ≡ some v
      → is_recent stamp now (k, v) ≡ true
      → lookup k (prune before stamp now m) ≡ some v
  unfolding prune evict
  lookup-prune_within now k v m u small l r =
      let kept = retain (is_recent stamp now) m in
      let within : ltb terminal_capacity (length (terminals stamp kept)) ≡ false =
        ground (arith, terminals-retain-le (is_recent stamp now) m) in
      rw (within, evict) (lookup-retain (is_recent stamp now) k m u ∙ rw (l, r))

  -- Then a pruning does not raise the number of those that ended.
  pub length-prune_within :
      (now : ℕ) (m : Table K V)
      → length (terminals stamp m) ≤ terminal_capacity
      → length (terminals stamp (prune before stamp now m)) ≤ length (terminals stamp m)
  unfolding prune evict
  length-prune_within now m small =
      let fewer = terminals-retain-le (is_recent stamp now) m in
      let within : ltb terminal_capacity (length (terminals stamp (retain (is_recent stamp now) m)))
          ≡ false =
        ground (arith, fewer) in
      rw (within, evict) fewer
