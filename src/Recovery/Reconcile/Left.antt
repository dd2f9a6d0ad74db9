-- ===== src/Recovery/Reconcile/Left.antt =====
-- An operation that `reconcile` leaves as it is was completed by another process.
use teatro.Prelude.{
  ◌≡◌, ◌⊎◌, inl, inr, refl, ap, ◌∙◌, Bool, true, Option, none, some, List, Bool-cases,
}
use teatro.Prelude.Fallible.{Result, ok, err, Holds}
use teatro.Prelude.Stateful.{continue}
use teatro.Prelude.Text.{Text}
use teatro.Files.{FileStore}
use teatro.Workflow.{FileOperationState}
use teatro.Journal.{FileOperation, is_completed, state_by_id}
use teatro.Recovery.{CoverOperationPayload, Repositories, queried, lifted, ensure_version}
use teatro.Recovery.Reconcile.{
  Codecs, JournalFaults, read_of, beside, settle_cover, from_state, settle_cover_operation,
}

beside-Holds :
    {E A D : Type 0} (P : A → Type 0) (rows : List FileOperation) (run : Result E A × D)
    → Holds P run.0
    → Holds P (beside rows run).0
beside-Holds P rows (ok a, d) h = h
beside-Holds P rows (err e, d) h = h

pub continue-Holds :
    {E A B D : Type 0} (P : B → Type 0) (run : Result E A × D) (next : A → D → Result E B × D)
    → ((a : A) (d : D) → Holds P (next a d).0)
    → Holds P (continue run next).0
continue-Holds P (ok a, d) next h = h a d
continue-Holds P (err e, d) next h = tt

module _ (S : FileStore) (db : Repositories S.Failure) (codecs : Codecs S.Failure)
    (faults : JournalFaults S.Failure) where
  -- An operation that is left as it is was completed by another process.
  abbrev pub Leaves : List FileOperation → FileOperation → Bool → Type 0
  Leaves rows operation b =
      (b ≡ true) ⊎ (state_by_id operation.id rows ≡ some FileOperationState.completed)

  completed_state :
      (s : FileOperationState) → is_completed s ≡ true → s ≡ FileOperationState.completed
  completed_state FileOperationState.completed h = refl
  completed_state FileOperationState.prepared h = cc
  completed_state FileOperationState.db_committed h = cc
  completed_state FileOperationState.cleanup_pending h = cc
  completed_state FileOperationState.failed h = cc

  from_state-Leaves :
      (rows : List FileOperation) (operation : FileOperation) (root : Text)
      (payload : CoverOperationPayload) (found : Option FileOperationState) (d : S.Disk)
      → state_by_id operation.id rows ≡ found
      → Holds (Leaves rows operation) (from_state S db codecs faults root payload found d).0
  from_state-Leaves rows operation root payload none d e = tt
  from_state-Leaves rows operation root payload (some state) d e =
      elim (Bool-cases (is_completed state)) [
        | inl done ↦ rw done (inr (e ∙ ap (λ s. some s) (completed_state state done)))
        | inr going ↦ rw going (
            continue-Holds (Leaves rows operation) (queried (db.rom_exists payload.rom_id) d) _
              (λ rom_exists d1.
                continue-Holds (Leaves rows operation)
                  (settle_cover S db codecs faults root payload state rom_exists d1) _
                  (λ _ d2. inl refl)))
      ]

  read-Leaves :
      (rows : List FileOperation) (operation : FileOperation) (root : Text)
      (payload : CoverOperationPayload) (fault : Option S.Failure) (d : S.Disk)
      → Holds
          (Leaves rows operation)
          (continue
            (queried (read_of fault (state_by_id operation.id rows)) d)
            (from_state S db codecs faults root payload)).0
  read-Leaves rows operation root payload none d =
      from_state-Leaves rows operation root payload (state_by_id operation.id rows) d refl
  read-Leaves rows operation root payload (some error) d = tt

  pub cover-Leaves :
      (rows : List FileOperation) (operation : FileOperation) (d : S.Disk)
      → Holds (Leaves rows operation) (settle_cover_operation S db codecs faults rows operation d).0
  unfolding settle_cover_operation
  cover-Leaves rows operation d =
      continue-Holds (Leaves rows operation) (queried db.asset_root d) _ (λ root d1.
        continue-Holds (Leaves rows operation) (lifted (S.lock_root root d1)) _ (λ _ d2.
          continue-Holds (Leaves rows operation)
            (queried (codecs.cover_of operation.payload_json) d2) _
            (λ payload d3.
              continue-Holds (Leaves rows operation) (ensure_version S db payload.version d3) _
                (λ _ d4. read-Leaves rows operation root payload (faults.reads operation.id) d4))))
