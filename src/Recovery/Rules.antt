-- ===== src/Recovery/Rules.antt =====
-- The rules that the calls of the recovery of a delete keep, and how its entries are settled by them.
use teatro.Prelude.{
  ℕ, ◌≡◌, ◌⊎◌, inl, inr, refl, Bool, true, false, not, List, [], ◌∷◌, All, All-mono, all,
  Bool-cases, if◌then◌else◌,
}
use teatro.Prelude.Fallible.{Result, ok, err}
use teatro.Prelude.Text.{Text, is_empty}
use teatro.Files.{Place}
use teatro.Recovery.{Repositories, ResolvedDeleteEntry, original, trash, lifted}
use teatro.Recovery.Deletes.{
  remove_trash, cleanup_resolved_delete_entries, restore, restore_if, restore_entry,
  restore_entries, present_roms, settle_roms, settle_delete,
}
use teatro.Recovery.Recorded.{
  Call, locks, asks, removes, removes_directory, moves, moves_directory, Answers, recorder,
  after_call, after_run,
}
use teatro.Recovery.Roots.{Said, after_query, present_roms-Yields}

-- A root was locked by one of the calls.
abbrev pub Locked : Text → List Call → Type 0
Locked root [] = ⊥
Locked root (call ∷ calls) = (call ≡ locks root) ⊎ Locked root calls

if_holds :
    {A : Type 0} (P : A → Type 0) (test : Bool) (a b : A) → P a → P b → P (if test then a else b)
if_holds P true a b h k = h
if_holds P false a b h k = k

module _ {F : Type 0} (answers : Answers F) (db : Repositories F) where
  -- All the calls are locks of roots that stand before a root.
  abbrev pub IsLockBefore : Text → Call → Type 0
  IsLockBefore root (locks other) = db.is_before other root ≡ true
  IsLockBefore root (asks p) = ⊥
  IsLockBefore root (removes p) = ⊥
  IsLockBefore root (removes_directory p) = ⊥
  IsLockBefore root (moves p q) = ⊥
  IsLockBefore root (moves_directory p q) = ⊥

  -- The last two calls asked whether the first place holds something, and was told that it does, and
  -- whether the second does, and was told that it does not.
  abbrev AskedLast : Place → Place → List Call → Type 0
  AskedLast p q calls =
      (earlier : List Call) × (calls ≡ asks q ∷ asks p ∷ earlier)
      × (answers.says (asks p ∷ earlier) ≡ ok true)
      × (answers.says (asks q ∷ asks p ∷ earlier) ≡ ok false)

  abbrev NoneThere : List ℕ → Type 0
  NoneThere ids = All (λ id. db.rom_exists id ≡ ok false) ids × (is_empty ids ≡ false)

  abbrev AllThere : List ℕ → Type 0
  AllThere ids = All (λ id. db.rom_exists id ≡ ok true) ids

  -- When a recovery of the roms may make a call, after those that it made.
  abbrev MayRemove : List ℕ → Place → List Call → Type 0
  MayRemove ids p before = Locked p.root before × NoneThere ids

  abbrev MayMove : List ℕ → Place → Place → List Call → Type 0
  MayMove ids p q before =
      Locked p.root before × Locked q.root before × AllThere ids × AskedLast p q before

  abbrev MayCall : List ℕ → Call → List Call → Type 0
  MayCall ids (locks root) before = All (IsLockBefore root) before
  MayCall ids (asks p) before = Locked p.root before
  MayCall ids (removes p) before = MayRemove ids p before
  MayCall ids (removes_directory p) before = MayRemove ids p before
  MayCall ids (moves p q) before = MayMove ids p q before
  MayCall ids (moves_directory p q) before = MayMove ids p q before

  abbrev pub IsDisciplined : List ℕ → List Call → Type 0
  IsDisciplined ids [] = Unit
  IsDisciplined ids (call ∷ before) = MayCall ids call before × IsDisciplined ids before

  -- The calls so far, with the roots of the entries that are to come locked.
  abbrev Ready : List ℕ → List ResolvedDeleteEntry → List Call → Type 0
  Ready ids entries calls = IsDisciplined ids calls × All (λ e. Locked e.root_path calls) entries

  next_call :
      (ids : List ℕ) (entries : List ResolvedDeleteEntry) (call : Call) (calls : List Call)
      → MayCall ids call calls
      → Ready ids entries calls
      → Ready ids entries (call ∷ calls)
  next_call ids entries call calls may h = (
    (may, h.0),
    All-mono (λ e. Locked e.root_path calls) (λ e. Locked e.root_path (call ∷ calls)) (λ e l. inr l)
        entries h.1,
  )

  -- One call, with its answer.
  lifted_call :
      {A : Type 0} (P : List Call → Type 0) (answer : Result F A) (calls : List Call)
      → P calls
      → P (lifted (answer, calls)).1
  lifted_call P (ok a) calls h = h
  lifted_call P (err error) calls h = h

  remove_trash-Ready :
      (ids : List ℕ) (e : ResolvedDeleteEntry) (rest : List ResolvedDeleteEntry) (calls : List Call)
      → NoneThere ids
      → Ready ids (e ∷ rest) calls
      → Ready ids (e ∷ rest) (lifted (remove_trash (recorder answers) db e calls)).1
  remove_trash-Ready ids e rest calls gone h =
      if_holds (λ step. Ready ids (e ∷ rest) (lifted step).1) e.entry.directory _ _
        (lifted_call (Ready ids (e ∷ rest)) (answers.says (removes_directory (trash e) ∷ calls))
          (removes_directory (trash e) ∷ calls)
          (next_call ids (e ∷ rest) (removes_directory (trash e)) calls (h.1.0, gone) h))
        (lifted_call (Ready ids (e ∷ rest)) (answers.says (removes (trash e) ∷ calls))
          (removes (trash e) ∷ calls)
          (next_call ids (e ∷ rest) (removes (trash e)) calls (h.1.0, gone) h))

  cleanup-IsDisciplined :
      (ids : List ℕ) (entries : List ResolvedDeleteEntry) (calls : List Call)
      → NoneThere ids
      → Ready ids entries calls
      → IsDisciplined ids (cleanup_resolved_delete_entries (recorder answers) db entries calls).1
  unfolding cleanup_resolved_delete_entries
  cleanup-IsDisciplined ids [] calls gone h = h.0
  cleanup-IsDisciplined ids (e ∷ rest) calls gone h =
      after_run (Ready ids (e ∷ rest)) (IsDisciplined ids)
        (lifted (remove_trash (recorder answers) db e calls)) _
        (remove_trash-Ready ids e rest calls gone h) (λ after k. k.0)
        (λ _ after k. cleanup-IsDisciplined ids rest after gone (k.0, k.1.1))

  restore-Ready :
      (ids : List ℕ) (e : ResolvedDeleteEntry) (rest : List ResolvedDeleteEntry) (calls : List Call)
      → AllThere ids
      → AskedLast (trash e) (original e) calls
      → Ready ids (e ∷ rest) calls
      → Ready ids (e ∷ rest) (lifted (restore (recorder answers) db e calls)).1
  restore-Ready ids e rest calls there asked h =
      if_holds (λ step. Ready ids (e ∷ rest) (lifted step).1) e.entry.directory _ _
        (lifted_call (Ready ids (e ∷ rest))
          (answers.finishes (moves_directory (trash e) (original e) ∷ calls))
          (moves_directory (trash e) (original e) ∷ calls)
          (next_call ids (e ∷ rest) (moves_directory (trash e) (original e)) calls
            (h.1.0, h.1.0, there, asked) h))
        (lifted_call (Ready ids (e ∷ rest))
          (answers.finishes (moves (trash e) (original e) ∷ calls))
          (moves (trash e) (original e) ∷ calls)
          (next_call ids (e ∷ rest) (moves (trash e) (original e)) calls
            (h.1.0, h.1.0, there, asked) h))

  restore_if-Ready :
      (ids : List ℕ) (e : ResolvedDeleteEntry) (rest : List ResolvedDeleteEntry) (calls : List Call)
      (in_trash in_place : Bool)
      → AllThere ids
      → answers.says (asks (trash e) ∷ calls) ≡ ok in_trash
      → answers.says (asks (original e) ∷ asks (trash e) ∷ calls) ≡ ok in_place
      → Ready ids (e ∷ rest) (asks (original e) ∷ asks (trash e) ∷ calls)
      → Ready ids
          (e ∷ rest)
          (restore_if
            (recorder answers)
            db
            e
            in_trash
            in_place
            (asks (original e) ∷ asks (trash e) ∷ calls)).1
  restore_if-Ready ids e rest calls true false there t o h =
      restore-Ready ids e rest (asks (original e) ∷ asks (trash e) ∷ calls) there
        (calls, refl, t, o) h
  restore_if-Ready ids e rest calls false true there t o h = h
  restore_if-Ready ids e rest calls false false there t o h = h
  restore_if-Ready ids e rest calls true true there t o h = h

  restore_entry-Ready :
      (ids : List ℕ) (e : ResolvedDeleteEntry) (rest : List ResolvedDeleteEntry) (calls : List Call)
      → AllThere ids
      → Ready ids (e ∷ rest) calls
      → Ready ids (e ∷ rest) (restore_entry (recorder answers) db e calls).1
  restore_entry-Ready ids e rest calls there h =
      let first = next_call ids (e ∷ rest) (asks (trash e)) calls h.1.0 h in
      let both =
        next_call ids (e ∷ rest) (asks (original e)) (asks (trash e) ∷ calls) first.1.0 first in
      after_call (λ run. Ready ids (e ∷ rest) run.1) (answers.says (asks (trash e) ∷ calls))
        (asks (trash e) ∷ calls) _ (λ error. first)
        (λ in_trash t.
          after_call (λ run. Ready ids (e ∷ rest) run.1)
            (answers.says (asks (original e) ∷ asks (trash e) ∷ calls))
            (asks (original e) ∷ asks (trash e) ∷ calls) _ (λ error. both)
            (λ in_place o. restore_if-Ready ids e rest calls in_trash in_place there t o both))

  restore_entries-IsDisciplined :
      (ids : List ℕ) (entries : List ResolvedDeleteEntry) (calls : List Call)
      → AllThere ids
      → Ready ids entries calls
      → IsDisciplined ids (restore_entries (recorder answers) db entries calls).1
  unfolding restore_entries
  restore_entries-IsDisciplined ids [] calls there h = h.0
  restore_entries-IsDisciplined ids (e ∷ rest) calls there h =
      after_run (Ready ids (e ∷ rest)) (IsDisciplined ids)
        (restore_entry (recorder answers) db e calls) _
        (restore_entry-Ready ids e rest calls there h) (λ after k. k.0)
        (λ _ after k. restore_entries-IsDisciplined ids rest after there (k.0, k.1.1))

  none_there :
      (ids : List ℕ) (present : List Bool)
      → Said (recorder answers) db ids present
      → all not present ≡ true
      → All (λ id. db.rom_exists id ≡ ok false) ids
  none_there [] present s h = tt
  none_there (id ∷ ids) [] s h = absurd s
  none_there (id ∷ ids) (true ∷ present) s h = cc
  none_there (id ∷ ids) (false ∷ present) s h = (s.0, none_there ids present s.1 h)

  all_there :
      (ids : List ℕ) (present : List Bool)
      → Said (recorder answers) db ids present
      → all (λ here. here) present ≡ true
      → AllThere ids
  all_there [] present s h = tt
  all_there (id ∷ ids) [] s h = absurd s
  all_there (id ∷ ids) (true ∷ present) s h = (s.0, all_there ids present s.1 h)
  all_there (id ∷ ids) (false ∷ present) s h = cc

  settle_roms-IsDisciplined :
      (ids : List ℕ) (entries : List ResolvedDeleteEntry) (present : List Bool) (calls : List Call)
      → is_empty ids ≡ false
      → Said (recorder answers) db ids present
      → Ready ids entries calls
      → IsDisciplined ids (settle_roms (recorder answers) db entries present calls).1
  settle_roms-IsDisciplined ids entries present calls named s h =
      elim (Bool-cases (all not present)) [
        | inl gone ↦
            rw gone
              (cleanup-IsDisciplined ids entries calls (none_there ids present s gone, named) h)
        | inr some_there ↦ elim (Bool-cases (all (λ here. here) present)) [
          | inl there ↦
              rw (some_there, there)
                (restore_entries-IsDisciplined ids entries calls (all_there ids present s there) h)
          | inr partial ↦ rw (some_there, partial) h.0
        ]
      ]

  pub settle_delete-IsDisciplined :
      (ids : List ℕ) (entries : List ResolvedDeleteEntry) (calls : List Call)
      → Ready ids entries calls
      → IsDisciplined ids (settle_delete (recorder answers) db entries ids calls).1
  settle_delete-IsDisciplined [] entries calls h =
      restore_entries-IsDisciplined [] entries calls tt h
  settle_delete-IsDisciplined (id ∷ ids) entries calls h =
      after_query (Said (recorder answers) db (id ∷ ids)) (IsDisciplined (id ∷ ids)) calls
        (present_roms (recorder answers) db (id ∷ ids) calls) _
        (present_roms-Yields (recorder answers) db (id ∷ ids) calls) h.0
        (λ present s. settle_roms-IsDisciplined (id ∷ ids) entries present calls refl s h)
