-- ===== src/Journal.antt =====
-- repositories/file_operations.rs: the journal of file operations, a table of the database. Its rows
-- stand in the order of `created_at` and `id`; the clock of the database is a parameter.
pub mod Rows
use teatro.Prelude.{
  ℕ, zero, suc, ◌-◌, Bool, true, false, not, ◌&&◌, ◌||◌, Option, none, some, List, [], ◌∷◌, length,
  retain, any, map, ltb, ◌==◌, nat_eq, list_eq, if◌then◌else◌,
}
use teatro.Prelude.Text.{Text, text_le}
use teatro.Workflow.{FileOperationKind, FileOperationState}

pub record FileOperation : Type 0 where
  pub id : Text
  pub kind : FileOperationKind
  pub state : FileOperationState
  pub payload_json : Text
  pub error_message : Option Text
  pub created_at : Text
  pub updated_at : Text

abbrev pub is_completed : FileOperationState → Bool
is_completed FileOperationState.completed = true
is_completed FileOperationState.prepared = false
is_completed FileOperationState.db_committed = false
is_completed FileOperationState.cleanup_pending = false
is_completed FileOperationState.failed = false

-- `ORDER BY created_at, id`.
abbrev pub stands_before : FileOperation → FileOperation → Bool
stands_before row other =
    if row.created_at == other.created_at
    then text_le row.id other.id
    else text_le row.created_at other.created_at

abbrev pub insert_row : FileOperation → List FileOperation → List FileOperation
insert_row row [] = row ∷ []
insert_row row (first ∷ rest) =
    let later = insert_row row rest in
    if stands_before row first then row ∷ first ∷ rest else first ∷ later

-- `INSERT`: the id is the primary key.
unfoldable pub create :
    Text → Text → FileOperationKind → Text → List FileOperation → Option (List FileOperation)
create now id kind payload_json rows =
    if any (λ row. row.id == id) rows
    then none
    else some (
        insert_row
          (record {
            id = id;
            kind = kind;
            state = FileOperationState.prepared;
            payload_json = payload_json;
            error_message = none;
            created_at = now;
            updated_at = now;
          })
          rows)

abbrev pub updated : Text → FileOperationState → Option Text → FileOperation → FileOperation
updated now state error_message row = record row {
  state = state;
  error_message = error_message;
  updated_at = now;
}

-- `UPDATE … WHERE id = ? AND (state != 'completed' OR ? = 'completed')`.
abbrev pub set_row : Text → Text → FileOperationState → Option Text → FileOperation → FileOperation
set_row now id state error_message row =
    if row.id == id && (not (is_completed row.state) || is_completed state)
    then updated now state error_message row
    else row

unfoldable pub set_state :
    Text → Text → FileOperationState → Option Text → List FileOperation → List FileOperation
set_state now id state error_message rows = map (set_row now id state error_message) rows

-- `set_state_tx` has no guard, and fails where no row has the id.
abbrev pub set_row_tx : Text → Text → FileOperationState → FileOperation → FileOperation
set_row_tx now id state row = if row.id == id then updated now state none row else row

unfoldable pub set_state_tx :
    Text → Text → FileOperationState → List FileOperation → Option (List FileOperation)
set_state_tx now id state rows =
    if any (λ row. row.id == id) rows then some (map (set_row_tx now id state) rows) else none

unfoldable pub state_by_id : Text → List FileOperation → Option FileOperationState
state_by_id id [] = none
state_by_id id (row ∷ rows) =
    let rest = state_by_id id rows in if row.id == id then some row.state else rest

unfoldable pub pending : List FileOperation → List FileOperation
pending rows = retain (λ row. not (is_completed row.state)) rows

-- The oldest `n` of the completed rows are deleted.
abbrev pub delete_oldest : ℕ → List FileOperation → List FileOperation
delete_oldest n [] = []
delete_oldest zero (row ∷ rows) = row ∷ rows
delete_oldest (suc n) (row ∷ rows) = elim (is_completed row.state) [
  | true ↦ delete_oldest n rows
  | false ↦ row ∷ delete_oldest (suc n) rows
]

abbrev pub completed_rows : List FileOperation → ℕ
completed_rows rows = length (retain (λ row. is_completed row.state) rows)

-- All but the newest `retained` of the completed rows.
unfoldable pub prune_completed : ℕ → List FileOperation → List FileOperation
prune_completed retained rows = delete_oldest (completed_rows rows - retained) rows
