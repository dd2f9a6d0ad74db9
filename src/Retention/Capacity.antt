-- ===== src/Retention/Capacity.antt =====
-- After a pruning at most 64 entries that ended are left.
use teatro.Prelude.{
  ℕ, suc, ◌-◌, ◌≤◌, ◌≡◌, refl, ap, ◌∙◌, Bool, true, false, not, Option, List, [], ◌∷◌, ◌++◌, arith,
  Eq, ◌==◌, ltb, retain, retain-append, length, length-drop, length-append, inl, inr,
  length-retain-le, take, drop, take-append-drop, any, any_self, retain-false, All-mono, Bool-cases,
}
use teatro.Table.{Table, remove}
use teatro.Retention.{
  terminal_capacity, terminals, sort_in, sort, remove_all, evict, prune, is_recent,
}

module _ {K : Type 0} (before : ℕ × K → ℕ × K → Bool) where
  length-retain-sort_in :
      (p : ℕ × K → Bool) (x : ℕ × K) (xs : List (ℕ × K))
      → length (retain p (sort_in before x xs)) ≡ length (retain p (x ∷ xs))
  unfolding sort_in
  length-retain-sort_in p x [] = refl
  length-retain-sort_in p x (y ∷ ys) = ground (arith, length-retain-sort_in p x ys)

  length-retain-sort :
      (p : ℕ × K → Bool) (xs : List (ℕ × K))
      → length (retain p (sort before xs)) ≡ length (retain p xs)
  unfolding sort
  length-retain-sort p [] = refl
  length-retain-sort p (x ∷ xs) =
      ground (arith, length-retain-sort_in p x (sort before xs), length-retain-sort p xs)

  length-sort_in : (x : ℕ × K) (xs : List (ℕ × K)) → length (sort_in before x xs) ≡ suc (length xs)
  unfolding sort_in
  length-sort_in x [] = refl
  length-sort_in x (y ∷ ys) = ground (arith, length-sort_in x ys)

  pub length-sort : (xs : List (ℕ × K)) → length (sort before xs) ≡ length xs
  unfolding sort
  length-sort [] = refl
  length-sort (x ∷ xs) = omega (arith, length-sort_in x (sort before xs), length-sort xs)

module _ {K : Type 0} ⦃eq : Eq K⦄ where
  -- The test that no element of a list has the key.
  abbrev out : List (ℕ × K) → ℕ × K → Bool
  out ks x = not (any (λ y. y.1 == x.1) ks)

  retain-out :
      (a : ℕ) (k : K) (ks xs : List (ℕ × K))
      → retain (out ks) (retain (λ x. not (x.1 == k)) xs) ≡ retain (out ((a, k) ∷ ks)) xs
  retain-out a k ks [] = refl
  retain-out a k ks ((b, j) ∷ xs) =
      ground (arith, retain-out a k ks xs, eq.same_iff k j, eq.same_iff j k)

  retain-out-nil : (xs : List (ℕ × K)) → xs ≡ retain (out []) xs
  retain-out-nil [] = refl
  retain-out-nil (x ∷ xs) = ground (arith, retain-out-nil xs)

  -- The elements of a list are all out by their own keys.
  retain-out_self : (xs : List (ℕ × K)) → retain (out xs) xs ≡ []
  retain-out_self xs = retain-false (out xs) xs (
      All-mono (λ x. any (λ y. y.1 == x.1) xs ≡ true) (λ x. out xs x ≡ false) (λ x h. ap not h) xs
        (any_self (λ x y. x.1 == y.1) (λ x. (eq.same_iff x.1 x.1).1 refl) xs))

  length-retain-out : (n : ℕ) (s : List (ℕ × K)) → length (retain (out (take n s)) s) ≤ length s - n
  length-retain-out n s =
      let ks = take n s in
      let p = out ks in
      let split = retain-append p ks (drop n s) in
      let whole : retain p (ks ++ drop n s) ≡ retain p s = ap (retain p) (take-append-drop n s) in
      omega (
        arith,
        ap length whole,
        ap length split,
        length-append (retain p ks) (retain p (drop n s)),
        ap length (retain-out_self ks),
        length-retain-le p (drop n s),
        length-drop n s,
      )

module _ {K V : Type 0} ⦃eq : Eq K⦄ (stamp : V → Option ℕ) where
  pub terminals-remove :
      (k : K) (m : Table K V)
      → terminals stamp (remove k m) ≡ retain (λ x. not (x.1 == k)) (terminals stamp m)
  unfolding terminals remove
  terminals-remove k [] = refl
  terminals-remove k ((j, v) ∷ m) = ground (arith, terminals-remove k m)

  terminals-remove_all :
      (ks : List (ℕ × K)) (m : Table K V)
      → terminals stamp (remove_all ks m) ≡ retain (out ks) (terminals stamp m)
  unfolding remove_all
  terminals-remove_all [] m = retain-out-nil _
  terminals-remove_all ((a, k) ∷ ks) m =
      terminals-remove_all ks (remove k m)
      ∙ ap (retain (out ks)) (terminals-remove k m)
      ∙ retain-out a k ks (terminals stamp m)

module _ {K V : Type 0} ⦃eq : Eq K⦄ (before : ℕ × K → ℕ × K → Bool) (stamp : V → Option ℕ) where
  length-evict :
      (m : Table K V) → length (terminals stamp (evict before stamp m)) ≤ terminal_capacity
  unfolding evict
  length-evict m =
      let ended = terminals stamp m in
      let n = length ended - terminal_capacity in
      let ks = take n (sort before ended) in
      elim (Bool-cases (ltb terminal_capacity (length ended))) [
        | inr small ↦ rw (small, evict) (ground arith)
        | inl big ↦
            rw (big, evict, terminals-remove_all stamp ks m)
              (omega (
                arith,
                length-retain-sort before (out ks) ended,
                length-retain-out n (sort before ended),
                length-sort before ended,
              ))
      ]

  -- After a pruning at most 64 entries are left that ended.
  pub length-prune :
      (now : ℕ) (m : Table K V)
      → length (terminals stamp (prune before stamp now m)) ≤ terminal_capacity
  unfolding prune
  length-prune now m = length-evict (retain (is_recent stamp now) m)
