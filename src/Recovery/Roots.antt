-- ===== src/Recovery/Roots.antt =====
-- The roots of a delete: in their order, each once, those of the entries among them. To find them, the
-- file store is not called.
use teatro.Prelude.{
  ℕ, ◌≡◌, ◌⊎◌, inl, inr, refl, sym, subst, Bool, true, false, Option, none, some, List, [], ◌∷◌,
  All, All-mono, nat_beq, ◌==◌, nat_eq, list_eq, list_beq_iff, Bool-cases,
}
use teatro.Prelude.Fallible.{Result, ok, err, Holds}
use teatro.Prelude.Stateful.{continue}
use teatro.Prelude.Text.{Text}
use teatro.Files.{FileStore}
use teatro.Recovery.{
  Repositories, ResolvedDeleteEntry, DeleteOperationEntry, RecoveryError, insert_root, queried,
  or_missing_root,
}
use teatro.Recovery.Deletes.{
  operation_root_path, resolve_delete_entries, listed_roots, entry_roots, present_roms,
}

-- The order of the roots.
pub record IsOrder (is_before : Text → Text → Bool) : Type 0 where
  pub trans : (a b c : Text) → is_before a b ≡ true → is_before b c ≡ true → is_before a c ≡ true
  pub total : (a b : Text) → (a == b) ≡ false → is_before a b ≡ false → is_before b a ≡ true

module _ (is_before : Text → Text → Bool) where
  abbrev pub Ascending : List Text → Type 0
  Ascending [] = Unit
  Ascending (root ∷ rest) = All (λ other. is_before root other ≡ true) rest × Ascending rest

  abbrev pub Listed : Text → List Text → Type 0
  Listed root [] = ⊥
  Listed root (first ∷ rest) = (first ≡ root) ⊎ Listed root rest

  pub Listed-All :
      (P : Text → Type 0) (root : Text) (roots : List Text)
      → Listed root roots
      → All P roots
      → P root
  Listed-All P root [] l h = absurd l
  Listed-All P root (first ∷ rest) (inl e) h = subst P e h.0
  Listed-All P root (first ∷ rest) (inr l) h = Listed-All P root rest l h.1

  insert_root-All :
      (P : Text → Type 0) (root : Text) (roots : List Text)
      → P root
      → All P roots
      → All P (insert_root is_before root roots)
  insert_root-All P root [] p h = (p, tt)
  insert_root-All P root (first ∷ rest) p h = elim (Bool-cases (root == first)) [
    | inl same ↦ rw (same, insert_root) h
    | inr other ↦ elim (Bool-cases (is_before root first)) [
      | inl before ↦ rw (other, before, insert_root) (p, h)
      | inr after ↦ rw (other, after, insert_root) (h.0, insert_root-All P root rest p h.1)
    ]
  ]

  pub insert_root-Ascending :
      (root : Text) (roots : List Text)
      → IsOrder is_before
      → Ascending roots
      → Ascending (insert_root is_before root roots)
  insert_root-Ascending root [] o h = (tt, tt)
  insert_root-Ascending root (first ∷ rest) o h = elim (Bool-cases (root == first)) [
    | inl same ↦ rw (same, insert_root) h
    | inr other ↦ elim (Bool-cases (is_before root first)) [
      | inl before ↦
          rw (other, before, insert_root)
            (
              (
                before,
                All-mono (λ x. is_before first x ≡ true) (λ x. is_before root x ≡ true)
                    (λ x k. o.trans root first x before k) rest h.0,
              ),
              h,
            )
      | inr after ↦
          rw (other, after, insert_root)
            (
              insert_root-All (λ x. is_before first x ≡ true) root rest
                  (o.total root first other after) h.0,
              insert_root-Ascending root rest o h.1,
            )
    ]
  ]

  insert_root-Listed :
      (root : Text) (roots : List Text) → Listed root (insert_root is_before root roots)
  insert_root-Listed root [] = inl refl
  insert_root-Listed root (first ∷ rest) = elim (Bool-cases (root == first)) [
    | inl same ↦ rw (same, insert_root) (inl (sym ((list_beq_iff root first).0 same)))
    | inr other ↦ elim (Bool-cases (is_before root first)) [
      | inl before ↦ rw (other, before, insert_root) (inl refl)
      | inr after ↦ rw (other, after, insert_root) (inr (insert_root-Listed root rest))
    ]
  ]

  Listed-insert_root :
      (wanted root : Text) (roots : List Text)
      → Listed wanted roots
      → Listed wanted (insert_root is_before root roots)
  Listed-insert_root wanted root [] l = absurd l
  Listed-insert_root wanted root (first ∷ rest) l = elim (Bool-cases (root == first)) [
    | inl same ↦ rw (same, insert_root) l
    | inr other ↦ elim (Bool-cases (is_before root first)) [
      | inl before ↦ rw (other, before, insert_root) (inr l)
      | inr after ↦
          rw (other, after, insert_root)
            (elim l [ inl e ↦ inl e | inr k ↦ inr (Listed-insert_root wanted root rest k) ])
    ]
  ]

  -- The roots of a delete, in their order, with those of its entries.
  abbrev pub AreRoots : List ResolvedDeleteEntry → List Text → Type 0
  AreRoots entries roots = Ascending roots × All (λ e. Listed e.root_path roots) entries

  insert_root-AreRoots :
      (entries : List ResolvedDeleteEntry) (root : Text) (roots : List Text)
      → IsOrder is_before
      → AreRoots entries roots
      → AreRoots entries (insert_root is_before root roots)
  insert_root-AreRoots entries root roots o h = (
    insert_root-Ascending root roots o h.0,
    All-mono (λ e. Listed e.root_path roots)
        (λ e. Listed e.root_path (insert_root is_before root roots))
        (λ e l. Listed-insert_root e.root_path root roots l) entries h.1,
  )

-- A run that leaves the state as it was, with what holds of its result.
abbrev pub Yields {ℓ} : {E A D : Type 0} → (A → Type ℓ) → D → Result E A × D → Type ℓ
Yields P d run = (run.1 ≡ d) × Holds P run.0

continue-Yields :
    {E A B D : Type 0} (P : A → Type 0) (Q : B → Type 0) (d : D) (run : Result E A × D)
    (next : A → D → Result E B × D)
    → Yields P d run
    → ((a : A) → P a → Yields Q d (next a d))
    → Yields Q d (continue run next)
continue-Yields P Q d (ok a, s) next (e, h) f = subst (λ x. Yields Q d (next a x)) (sym e) (f a h)
continue-Yields P Q d (err error, s) next (e, h) f = (e, tt)

pub queried-Yields :
    {F A D : Type 0} (P : A → Type 0) (answer : Result F A) (d : D)
    → Holds P answer
    → Yields P d (queried answer d)
queried-Yields P (ok a) d h = (refl, h)
queried-Yields P (err error) d h = (refl, tt)

any_result : {F A : Type 0} (answer : Result F A) → Holds (λ _. Unit {0}) answer
any_result (ok a) = tt
any_result (err error) = tt

or_missing_root-Yields :
    {D : Type 0} (F : Type 0) (found : Option Text) (d : D)
    → Yields {E = RecoveryError F} (λ _. Unit {0}) d (or_missing_root found d)
or_missing_root-Yields F none d = (refl, tt)
or_missing_root-Yields F (some root) d = (refl, tt)

module _ (S : FileStore) (db : Repositories S.Failure) where
  operation_root_path-Yields :
      (root_id : ℕ) (d : S.Disk) → Yields (λ _. Unit {0}) d (operation_root_path S db root_id d)
  operation_root_path-Yields root_id d = elim (Bool-cases (nat_beq root_id 0)) [
    | inl assets ↦ rw assets (queried-Yields (λ _. Unit) db.asset_root d (any_result db.asset_root))
    | inr library ↦ rw library (
        continue-Yields (λ _. Unit) (λ _. Unit) d (queried (db.find_root root_id) d) or_missing_root
          (queried-Yields (λ _. Unit) (db.find_root root_id) d (any_result (db.find_root root_id)))
          (λ found _. or_missing_root-Yields S.Failure found d))
  ]

  pub resolve_delete_entries-Yields :
      (entries : List DeleteOperationEntry) (d : S.Disk)
      → Yields (λ _. Unit {0}) d (resolve_delete_entries S db entries d)
  resolve_delete_entries-Yields [] d = (refl, tt)
  resolve_delete_entries-Yields (entry ∷ rest) d =
      continue-Yields (λ _. Unit) (λ _. Unit) d (operation_root_path S db entry.root_id d) _
        (operation_root_path-Yields entry.root_id d)
        (λ root _.
          continue-Yields (λ _. Unit) (λ _. Unit) d (resolve_delete_entries S db rest d) _
            (resolve_delete_entries-Yields rest d) (λ others _. (refl, tt)))

  entry_roots-AreRoots :
      (entries : List ResolvedDeleteEntry)
      → IsOrder db.is_before
      → AreRoots db.is_before entries (entry_roots S db entries)
  entry_roots-AreRoots [] o = (tt, tt)
  entry_roots-AreRoots (e ∷ rest) o =
      let more =
        insert_root-AreRoots db.is_before rest e.root_path (entry_roots S db rest) o
          (entry_roots-AreRoots rest o) in
      (more.0, (insert_root-Listed db.is_before e.root_path (entry_roots S db rest), more.1))

  more_roots-Yields :
      (entries : List ResolvedDeleteEntry) (root_ids : List ℕ) (roots : List Text) (d : S.Disk)
      → IsOrder db.is_before
      → AreRoots db.is_before entries roots
      → Yields (AreRoots db.is_before entries) d (listed_roots S db root_ids roots d)
  more_roots-Yields entries [] roots d o h = (refl, h)
  more_roots-Yields entries (root_id ∷ rest) roots d o h =
      continue-Yields (λ _. Unit) (AreRoots db.is_before entries) d
        (operation_root_path S db root_id d) _ (operation_root_path-Yields root_id d)
        (λ root _.
          more_roots-Yields entries rest (insert_root db.is_before root roots) d o
            (insert_root-AreRoots db.is_before entries root roots o h))

  pub listed_roots-Yields :
      (entries : List ResolvedDeleteEntry) (root_ids : List ℕ) (d : S.Disk)
      → IsOrder db.is_before
      → Yields
          (AreRoots db.is_before entries)
          d
          (listed_roots S db root_ids (entry_roots S db entries) d)
  listed_roots-Yields entries root_ids d o =
      more_roots-Yields entries root_ids (entry_roots S db entries) d o
        (entry_roots-AreRoots entries o)

  -- What the database says of each rom, whether it is still there.
  abbrev pub Said : List ℕ → List Bool → Type 0
  Said [] [] = Unit
  Said [] (here ∷ present) = ⊥
  Said (id ∷ ids) [] = ⊥
  Said (id ∷ ids) (here ∷ present) = (db.rom_exists id ≡ ok here) × Said ids present

  said_of :
      (id : ℕ) (answer : Result S.Failure Bool)
      → db.rom_exists id ≡ answer
      → Holds (λ here. db.rom_exists id ≡ ok here) answer
  said_of id (ok here) e = e
  said_of id (err error) e = tt

  pub present_roms-Yields :
      (ids : List ℕ) (d : S.Disk) → Yields (Said ids) d (present_roms S db ids d)
  present_roms-Yields [] d = (refl, tt)
  present_roms-Yields (id ∷ ids) d =
      continue-Yields (λ here. db.rom_exists id ≡ ok here) (Said (id ∷ ids)) d
        (queried (db.rom_exists id) d) _
        (queried-Yields (λ here. db.rom_exists id ≡ ok here) (db.rom_exists id) d
          (said_of id (db.rom_exists id) refl))
        (λ here e.
          continue-Yields (Said ids) (Said (id ∷ ids)) d (present_roms S db ids d) _
            (present_roms-Yields ids d) (λ others k. (refl, (e, k))))

-- A run that leaves the state as it was, and one after it.
pub after_query :
    {E A B D : Type 0} (P : A → Type 0) (Q : D → Type 0) (d : D) (run : Result E A × D)
    (next : A → D → Result E B × D)
    → Yields P d run
    → Q d
    → ((a : A) → P a → Q (next a d).1)
    → Q (continue run next).1
after_query P Q d (ok a, s) next (e, h) q f = subst (λ x. Q (next a x).1) (sym e) (f a h)
after_query P Q d (err error, s) next (e, h) q f = subst Q (sym e) q
