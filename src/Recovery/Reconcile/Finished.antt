-- ===== src/Recovery/Reconcile/Finished.antt =====
-- What `reconcile` leaves of the journal, where calls of the database on it may fail.
use teatro.Prelude.{
  ◌≡◌, ◌⊎◌, inl, inr, refl, ap, Bool, true, false, Option, none, some, List, [], ◌∷◌, All, All-mono,
  ◌||◌, ◌≤◌,
}
use teatro.Prelude.Fallible.{Result, ok, err, Holds}
use teatro.Prelude.Stateful.{Done, pure, continue}
use teatro.Prelude.Text.{Text}
use teatro.Files.{FileStore}
use teatro.Workflow.{FileOperationKind, FileOperationState}
use teatro.Journal.{
  FileOperation, is_completed, set_state, completed_rows, pending, prune_completed,
}
use teatro.Journal.Rows.{
  is_settled, is_covered, Distinct, set_state-covered, Distinct-set_state, state_by_id-completed,
  unmarked-covered, pending-covered, pending-unfinished, prune_completed-All,
  completed_rows-prune_completed,
}
use teatro.Recovery.{RecoveryError, failed, Repositories, queried}
use teatro.Recovery.Reconcile.{
  Codecs, JournalFaults, written, read_of, beside, is_present, settle_cover_operation, complete,
  fail, complete_locked, reconcile_cover_operation, upload_step, delete_step, reconcile_upload,
  reconcile_delete, dispatch_kind, record_result, reconcile_rows, reconcile,
  completed_history_to_retain,
}
use teatro.Recovery.Reconcile.Left.{continue-Holds, Leaves, cover-Leaves}

module _ (S : FileStore) (db : Repositories S.Failure) (codecs : Codecs S.Failure)
    (faults : JournalFaults S.Failure) where
  -- Whether a failure of the operation cannot be written to its row.
  abbrev pub unmarked : Text → Bool
  unmarked id = is_present (faults.marks id)

  -- The rows are covered by the operations that are to come.
  abbrev pub Covers : List FileOperation → List FileOperation → Type 0
  Covers operations rows =
      All (λ row. is_covered unmarked operations row ≡ true) rows × Distinct rows

  written-Covers :
      (operation : FileOperation) (state : FileOperationState) (message : Option Text)
      (rest rows : List FileOperation)
      → is_settled state ≡ true
      → Covers (operation ∷ rest) rows
      → Covers rest (set_state (codecs.written_at operation) operation.id state message rows)
  written-Covers operation state message rest rows s (h, k) = (
    set_state-covered unmarked (codecs.written_at operation) operation state message rest rows s h,
    Distinct-set_state (codecs.written_at operation) operation.id state message rows k,
  )

  -- The answer of a call whose write may fail: where it does not, the rows are covered without the
  -- operation, and where it does, they are as they were and the error is that of the database.
  abbrev pub CompleteAnswers :
      FileOperation
      → List FileOperation
      → List FileOperation
      → Result (RecoveryError S.Failure) Done × (S.Disk × List FileOperation)
      → Type 0
  CompleteAnswers operation rest rows (ok done, (d, after)) = Covers rest after
  CompleteAnswers operation rest rows (err error, (d, after)) =
      (after ≡ rows)
      × (fault : S.Failure) × (faults.completes operation.id ≡ some fault)
      × (error ≡ failed fault)

  written-CompleteAnswers :
      (operation : FileOperation) (rest rows after : List FileOperation) (d : S.Disk)
      (fault : Option S.Failure)
      → faults.completes operation.id ≡ fault
      → Covers rest after
      → CompleteAnswers operation rest rows (written fault after (d, rows))
  written-CompleteAnswers operation rest rows after d none e h = h
  written-CompleteAnswers operation rest rows after d (some error) e h = (refl, error, e, refl)

  complete-CompleteAnswers :
      (operation : FileOperation) (rest rows : List FileOperation) (d : S.Disk)
      → Covers (operation ∷ rest) rows
      → CompleteAnswers operation rest rows (complete S db codecs faults operation (d, rows))
  unfolding complete
  complete-CompleteAnswers operation rest rows d h =
      written-CompleteAnswers operation rest rows _ d (faults.completes operation.id) refl
        (written-Covers operation FileOperationState.completed none rest rows refl h)

  written-fail-Covers :
      (operation : FileOperation) (rest rows after : List FileOperation) (d : S.Disk)
      (fault : Option S.Failure)
      → faults.marks operation.id ≡ fault
      → Covers (operation ∷ rest) rows
      → Covers rest after
      → Covers rest (written fault after (d, rows)).1.1
  written-fail-Covers operation rest rows after d none e h k = k
  written-fail-Covers operation rest rows after d (some error) e h k =
      (unmarked-covered unmarked operation rest rows (ap is_present e) h.0, h.1)

  fail-Covers :
      (operation : FileOperation) (message : Text) (rest rows : List FileOperation) (d : S.Disk)
      → Covers (operation ∷ rest) rows
      → Covers rest (fail S db codecs faults operation message (d, rows)).1.1
  unfolding fail
  fail-Covers operation message rest rows d h =
      written-fail-Covers operation rest rows _ d (faults.marks operation.id) refl h
        (written-Covers operation FileOperationState.failed (some message) rest rows refl h)

  -- The result of the operation, and the rows with it.
  abbrev pub Dispatched :
      FileOperation
      → List FileOperation
      → Result (RecoveryError S.Failure) Bool × (S.Disk × List FileOperation)
      → Type 0
  Dispatched operation rest (ok true, (d, after)) = Covers rest after
  Dispatched operation rest (ok false, (d, after)) = Covers (operation ∷ rest) after
  Dispatched operation rest (err error, (d, after)) = Covers (operation ∷ rest) after

  beside-Dispatched :
      (operation : FileOperation) (rest rows : List FileOperation)
      (run : Result (RecoveryError S.Failure) Bool × S.Disk)
      → Holds (λ locked. locked ≡ false) run.0
      → Covers (operation ∷ rest) rows
      → Dispatched operation rest (beside rows run)
  beside-Dispatched operation rest rows (ok true, d) e h = cc
  beside-Dispatched operation rest rows (ok false, d) e h = h
  beside-Dispatched operation rest rows (err error, d) e h = h

  complete-Dispatched :
      (operation : FileOperation) (rest rows : List FileOperation)
      (run : Result (RecoveryError S.Failure) Done × (S.Disk × List FileOperation))
      → CompleteAnswers operation rest rows run
      → Covers (operation ∷ rest) rows
      → Dispatched operation rest (continue run (λ _. pure true))
  complete-Dispatched operation rest rows (ok done, (d, after)) h k = h
  complete-Dispatched operation rest rows (err error, (d, after)) (same, fault, e, c) k = rw same k

  settled-Dispatched :
      (operation : FileOperation) (rest rows : List FileOperation)
      (run : Result (RecoveryError S.Failure) Bool × S.Disk)
      → Holds (Leaves S db codecs faults rows operation) run.0
      → Covers (operation ∷ rest) rows
      → Dispatched operation rest (
          continue
            (continue (beside rows run) (complete_locked S db codecs faults operation))
            (λ _. pure true))
  settled-Dispatched operation rest rows (ok true, d) l h =
      complete-Dispatched operation rest rows _ (complete-CompleteAnswers operation rest rows d h) h
  settled-Dispatched operation rest rows (ok false, d) (inl e) h = cc
  settled-Dispatched operation rest rows (ok false, d) (inr e) h =
      (state_by_id-completed unmarked operation rest rows h.1 e h.0, h.1)
  settled-Dispatched operation rest rows (err error, d) l h = h

  dispatch_kind-Dispatched :
      (kind : FileOperationKind) (operation : FileOperation) (rest rows : List FileOperation)
      (d : S.Disk)
      → is_completed operation.state ≡ false
      → Covers (operation ∷ rest) rows
      → Dispatched operation rest (dispatch_kind S db codecs faults kind operation (d, rows))
  unfolding reconcile_cover_operation
  dispatch_kind-Dispatched FileOperationKind.upload operation rest rows d u h = rw u (
      beside-Dispatched operation rest rows (reconcile_upload S db codecs faults operation d)
        (continue-Holds (λ locked. locked ≡ false)
          (queried (codecs.upload_of operation.payload_json) d) _
          (λ payload d1.
            continue-Holds (λ locked. locked ≡ false)
              (upload_step S db codecs faults operation.state payload d1) _ (λ _ d2. refl)))
        h)
  dispatch_kind-Dispatched FileOperationKind.delete operation rest rows d u h = rw u (
      beside-Dispatched operation rest rows (reconcile_delete S db codecs faults operation d)
        (continue-Holds (λ locked. locked ≡ false)
          (queried (codecs.delete_of operation.payload_json) d) _
          (λ payload d1.
            continue-Holds (λ locked. locked ≡ false)
              (delete_step S db codecs faults operation.state payload d1) _ (λ _ d2. refl)))
        h)
  dispatch_kind-Dispatched FileOperationKind.cover_replace operation rest rows d u h =
      settled-Dispatched operation rest rows
        (settle_cover_operation S db codecs faults rows operation d)
        (cover-Leaves S db codecs faults rows operation d) h

  -- One of the operations.
  abbrev pub Among : FileOperation → List FileOperation → Type 0
  Among operation [] = ⊥
  Among operation (first ∷ rest) = (first ≡ operation) ⊎ Among operation rest

  every-Among : (operations : List FileOperation) → All (λ op. Among op operations) operations
  every-Among [] = tt
  every-Among (first ∷ rest) = (
    inl refl,
    All-mono (λ op. Among op rest) (λ op. Among op (first ∷ rest)) (λ op m. inr m) rest
        (every-Among rest),
  )

  module _ (listed : List FileOperation) where
    -- What `reconcile` may be stopped by: an error of the database on the journal.
    abbrev pub Stops : RecoveryError S.Failure → Type 0
    Stops error =
        (fault : S.Failure) × (error ≡ failed fault)
        × ((faults.lists ≡ some fault)
            ⊎ ((faults.prunes ≡ some fault)
                ⊎ ((operation : FileOperation) × Among operation listed
                    × (faults.completes operation.id ≡ some fault))))

    -- What a state of the loop says of its result.
    abbrev pub Recorded :
        List FileOperation
        → Result (RecoveryError S.Failure) Done × (S.Disk × List FileOperation)
        → Type 0
    Recorded rest (ok done, (d, after)) = Covers rest after
    Recorded rest (err error, state) = Stops error

    answered-Recorded :
        (operation : FileOperation) (rest rows : List FileOperation)
        (run : Result (RecoveryError S.Failure) Done × (S.Disk × List FileOperation))
        → Among operation listed
        → CompleteAnswers operation rest rows run
        → Recorded rest run
    answered-Recorded operation rest rows (ok done, (d, after)) m h = h
    answered-Recorded operation rest rows (err error, (d, after)) m (same, fault, e, k) =
        (fault, k, inr (inr (operation, m, e)))

    fail-Recorded :
        (operation : FileOperation) (message : Text) (rest rows : List FileOperation) (d : S.Disk)
        → Covers (operation ∷ rest) rows
        → Recorded rest (fail S db codecs faults operation message (d, rows))
    unfolding fail
    fail-Recorded operation message rest rows d h = fail-Covers operation message rest rows d h

    record_result-Recorded :
        (operation : FileOperation) (rest : List FileOperation)
        (run : Result (RecoveryError S.Failure) Bool × (S.Disk × List FileOperation))
        → Among operation listed
        → Dispatched operation rest run
        → Recorded rest (record_result S db codecs faults operation run.0 run.1)
    record_result-Recorded operation rest (ok true, (d, rows)) m h = h
    record_result-Recorded operation rest (ok false, (d, rows)) m h =
        answered-Recorded operation rest rows _ m (complete-CompleteAnswers operation rest rows d h)
    record_result-Recorded operation rest (err error, (d, rows)) m h =
        fail-Recorded operation (codecs.message error) rest rows d h

    continue-Recorded :
        (rest : List FileOperation)
        (run : Result (RecoveryError S.Failure) Done × (S.Disk × List FileOperation))
        (next : S.Disk × List FileOperation
          → Result (RecoveryError S.Failure) Done × (S.Disk × List FileOperation))
        → Recorded rest run
        → ((d : S.Disk) (rows : List FileOperation)
            → Covers rest rows
            → Recorded [] (next (d, rows)))
        → Recorded [] (continue run (λ _. next))
    continue-Recorded rest (ok done, (d, after)) next h k = k d after h
    continue-Recorded rest (err error, state) next h k = h

    reconcile_rows-Recorded :
        (operations : List FileOperation) (d : S.Disk) (rows : List FileOperation)
        → All (λ op. is_completed op.state ≡ false) operations
        → All (λ op. Among op listed) operations
        → Covers operations rows
        → Recorded [] (reconcile_rows S db codecs faults operations (d, rows))
    unfolding reconcile_rows
    reconcile_rows-Recorded [] d rows u m h = h
    reconcile_rows-Recorded (operation ∷ rest) d rows u m h =
        let dispatched = dispatch_kind S db codecs faults operation.kind operation (d, rows) in
        continue-Recorded rest
          (record_result S db codecs faults operation dispatched.0 dispatched.1)
          (reconcile_rows S db codecs faults rest)
          (record_result-Recorded operation rest dispatched m.0
            (dispatch_kind-Dispatched operation.kind operation rest rows d u.0 h))
          (λ d1 rows1 h1. reconcile_rows-Recorded rest d1 rows1 u.1 m.1 h1)

    -- Completed or failed, or its failure could not be written.
    abbrev pub IsLeft : FileOperation → Type 0
    IsLeft row = (is_settled row.state ≡ true) ⊎ (is_present (faults.marks row.id) ≡ true)

    -- What `reconcile` leaves where it returns well, and what error it ends with where it does not.
    abbrev pub Settles :
        Result (RecoveryError S.Failure) Done × (S.Disk × List FileOperation) → Type 0
    Settles (ok done, (d, after)) =
        All IsLeft after × (completed_rows after ≤ completed_history_to_retain)
    Settles (err error, (d, after)) = Stops error

    covered-IsLeft :
        (settled lost : Bool) → (settled || lost) ≡ true → (settled ≡ true) ⊎ (lost ≡ true)
    covered-IsLeft true lost h = inl refl
    covered-IsLeft false lost h = inr h

    pruned-Settles :
        (fault : Option S.Failure) (d : S.Disk) (rows : List FileOperation)
        → faults.prunes ≡ fault
        → Covers [] rows
        → Settles (written fault (prune_completed completed_history_to_retain rows) (d, rows))
    pruned-Settles none d rows e h = (
      prune_completed-All IsLeft completed_history_to_retain rows (
          All-mono (λ row. is_covered unmarked [] row ≡ true) IsLeft
            (λ row c. covered-IsLeft (is_settled row.state) (unmarked row.id) c) rows h.0),
      completed_rows-prune_completed completed_history_to_retain rows,
    )
    pruned-Settles (some error) d rows e h = (error, refl, inr (inl e))

    looped-Settles :
        (run : Result (RecoveryError S.Failure) Done × (S.Disk × List FileOperation))
        → Recorded [] run
        → Settles (
            continue run (λ _ (after, settled).
              written faults.prunes
                (prune_completed completed_history_to_retain settled)
                (after, settled)))
    looped-Settles (ok done, (d, after)) h = pruned-Settles faults.prunes d after refl h
    looped-Settles (err error, state) h = h

  listed-Settles :
      (fault : Option S.Failure) (d : S.Disk) (rows : List FileOperation)
      → faults.lists ≡ fault
      → Distinct rows
      → Settles (pending rows) (
          continue (beside rows (queried (read_of fault (pending rows)) d)) (λ operations state.
            continue (reconcile_rows S db codecs faults operations state) (λ _ (after, settled).
              written faults.prunes
                (prune_completed completed_history_to_retain settled)
                (after, settled))))
  listed-Settles none d rows e k =
      looped-Settles (pending rows) (reconcile_rows S db codecs faults (pending rows) (d, rows)) (
        reconcile_rows-Recorded (pending rows) (pending rows) d rows (pending-unfinished rows)
          (every-Among (pending rows)) (pending-covered unmarked rows, k))
  listed-Settles (some error) d rows e k = (error, refl, inl e)

  -- From a journal whose ids are distinct, whatever the disk holds, whatever fails in the recovery
  -- of an operation, and whichever calls on the journal the database fails: where `reconcile`
  -- returns well, every operation of the journal is completed or failed, but for those whose
  -- failure could not be written, and at most 1000 completed ones are kept; and where it does not,
  -- its error is the one that the database gave to the list of operations, to the pruning, or to
  -- the completion of one of the operations listed.
  pub reconcile-Settles :
      (d : S.Disk) (rows : List FileOperation)
      → Distinct rows
      → Settles (pending rows) (reconcile S db codecs faults (d, rows))
  unfolding reconcile
  reconcile-Settles d rows k = listed-Settles faults.lists d rows refl k
