-- ===== src/Examples/Journals.antt =====
-- The journal of a delete that crashed, beside an operation that was completed before.
use teatro.Prelude.{◌≡◌, refl, none, some, List, [], ◌∷◌, ◌==◌, nat_eq, list_eq, map, if◌then◌else◌}
use teatro.Prelude.Fallible.{ok, err}
use teatro.Prelude.Text.{Text, codes}
use teatro.Workflow.{FileOperationKind, FileOperationState}
use teatro.Journal.{FileOperation, set_state, pending, prune_completed}
use teatro.Recovery.{failed}
use teatro.Recovery.Deletes.{reconcile_prepared_delete, restore_entries}
use teatro.Recovery.Reconcile.{Codecs, JournalFaults, complete, fail, reconcile, reconcile_rows}
use teatro.Recovery.Reconcile.Finished.{Settles, reconcile-Settles}
use teatro.Examples.Disks.{disk_store}
use teatro.Examples.Recoveries.{crashed, restored, payload_of, repositories}

-- Every payload of a delete is that of the crash; no other payload is read.
abbrev codecs : Codecs Text
codecs = record {
  upload_of = λ payload. err (codes "no upload");
  delete_of = λ payload. ok (payload_of (7 ∷ []));
  cover_of = λ payload. err (codes "no cover");
  message = λ error. codes "failed";
  written_at = λ operation. codes "now";
}

abbrev operation_of : Text → FileOperationKind → FileOperationState → FileOperation
operation_of id kind state = record {
  id = id;
  kind = kind;
  state = state;
  payload_json = [];
  error_message = none;
  created_at = [];
  updated_at = [];
}

abbrev rows : List FileOperation
rows =
    operation_of (codes "a") FileOperationKind.delete FileOperationState.completed
    ∷ operation_of (codes "b") FileOperationKind.delete FileOperationState.prepared
    ∷ operation_of (codes "c") FileOperationKind.upload FileOperationState.db_committed
    ∷ operation_of (codes "d") FileOperationKind.upload FileOperationState.prepared
    ∷ []

-- The database answers every call on the journal but the one that marks the operation `d` failed.
abbrev faults : JournalFaults Text
faults = record {
  lists = none;
  reads = λ id. none;
  completes = λ id. none;
  marks = λ id. if id == codes "d" then some (codes "disk full") else none;
  prunes = none;
}

-- The delete is completed; of the uploads, whose payload is not read, one has failed and one could not
-- be marked.
settles_rows :
    map (λ row. row.state) (reconcile disk_store repositories codecs faults (crashed, rows)).1.1
    ≡ FileOperationState.completed ∷ FileOperationState.completed ∷ FileOperationState.failed
      ∷ FileOperationState.prepared ∷ []
unfolding reconcile reconcile_rows pending prune_completed set_state complete fail
    reconcile_prepared_delete restore_entries
settles_rows = refl

-- Where a row cannot be completed, the operations after it are not looked at.
stops_at_delete :
    reconcile disk_store repositories codecs
      (record faults { completes = λ id. some (codes "disk full") })
      (crashed, rows)
    ≡ (err (failed (codes "disk full")), (restored, rows))
unfolding reconcile reconcile_rows pending set_state complete reconcile_prepared_delete
    restore_entries
stops_at_delete = refl

reconcile-Settles_example :
    Settles disk_store repositories codecs faults
      (pending rows)
      (reconcile disk_store repositories codecs faults (crashed, rows))
reconcile-Settles_example =
    reconcile-Settles disk_store repositories codecs faults crashed rows
      (refl, (refl, (refl, (refl, tt))))
