-- ===== src/Journal/Rows.antt =====
-- What the writes of the journal leave of its rows.
use mathlib.Core.Option.{some-injective}
use teatro.Prelude.{
  ℕ, zero, suc, ◌-◌, ◌≤◌, ◌≡◌, ap, inl, inr, refl, ◌∙◌, sym, subst, Bool, true, false, not, ◌&&◌,
  ◌||◌, Option, some, List, [], ◌∷◌, All, All-mono, All-retain_test, any, map, retain, ◌==◌, nat_eq,
  list_eq, list_beq_iff, Bool-cases, arith, or_left, or_right,
}
use teatro.Prelude.Text.{Text}
use teatro.Workflow.{FileOperationState}
use teatro.Journal.{
  FileOperation, is_completed, set_row, set_state, state_by_id, pending, delete_oldest,
  completed_rows, prune_completed,
}

-- A state in which a recovery leaves an operation.
abbrev pub is_settled : FileOperationState → Bool
is_settled FileOperationState.completed = true
is_settled FileOperationState.failed = true
is_settled FileOperationState.prepared = false
is_settled FileOperationState.db_committed = false
is_settled FileOperationState.cleanup_pending = false

completed-settled : (s : FileOperationState) → is_completed s ≡ true → is_settled s ≡ true
completed-settled FileOperationState.completed h = refl
completed-settled FileOperationState.prepared h = cc
completed-settled FileOperationState.db_committed h = cc
completed-settled FileOperationState.cleanup_pending h = cc
completed-settled FileOperationState.failed h = refl

-- A row is of one of the operations that are still to come, or of one whose row was not written.
abbrev pub awaits : (Text → Bool) → List FileOperation → FileOperation → Bool
awaits unmarked [] row = unmarked row.id
awaits unmarked (op ∷ operations) row = row.id == op.id || awaits unmarked operations row

abbrev pub is_covered : (Text → Bool) → List FileOperation → FileOperation → Bool
is_covered unmarked operations row = is_settled row.state || awaits unmarked operations row

-- Ids are primary keys.
abbrev pub Distinct : List FileOperation → Type 0
Distinct [] = Unit
Distinct (row ∷ rows) = (any (λ other. other.id == row.id) rows ≡ false) × Distinct rows

settled_or_true : (a : Bool) → (a || true) ≡ true
settled_or_true true = refl
settled_or_true false = refl

or_or : (a b c : Bool) → (a || c) ≡ true → (a || (b || c)) ≡ true
or_or a b c h = ground arith

-- A row that is not written has another id, or was completed before.
left_covered :
    (settled same done finishes covered : Bool)
    → (done ≡ true → settled ≡ true)
    → (same && (not done || finishes)) ≡ false
    → (settled || (same || covered)) ≡ true
    → (settled || covered) ≡ true
left_covered settled same done finishes covered f h k = ground (arith, f)

or_true : (a b : Bool) → b ≡ true → (a || b) ≡ true
or_true true b h = refl
or_true false b h = h

module _ (unmarked : Text → Bool) where
  here_covered :
      (row : FileOperation) (operations : List FileOperation)
      → is_covered unmarked (row ∷ operations) row ≡ true
  here_covered row operations =
      let same : (row.id == row.id) ≡ true = ground (arith, list_beq_iff row.id row.id) in
      rw same (settled_or_true (is_settled row.state))

  weaker :
      (operation row : FileOperation) (operations : List FileOperation)
      → is_covered unmarked operations row ≡ true
      → is_covered unmarked (operation ∷ operations) row ≡ true
  weaker operation row operations h = or_or (is_settled row.state) (row.id == operation.id) _ h

  pub pending-covered :
      (rows : List FileOperation) → All (λ row. is_covered unmarked (pending rows) row ≡ true) rows
  unfolding pending
  pending-covered [] = tt
  pending-covered (row ∷ rows) = elim (Bool-cases (is_completed row.state)) [
    | inl done ↦
        let same : pending (row ∷ rows) ≡ pending rows = rw (done, pending) refl in
        subst (λ ops. All (λ r. is_covered unmarked ops r ≡ true) (row ∷ rows)) (sym same)
          (rw (completed-settled row.state done) refl, pending-covered rows)
    | inr unfinished ↦
        let more : pending (row ∷ rows) ≡ row ∷ pending rows = rw (unfinished, pending) refl in
        subst (λ ops. All (λ r. is_covered unmarked ops r ≡ true) (row ∷ rows)) (sym more)
          (
            here_covered row (pending rows),
            All-mono (λ r. is_covered unmarked (pending rows) r ≡ true)
                (λ r. is_covered unmarked (row ∷ pending rows) r ≡ true)
                (λ r h. weaker row r (pending rows) h) rows (pending-covered rows),
          )
  ]

  set_row-covered :
      (now : Text) (operation : FileOperation) (state : FileOperationState) (message : Option Text)
      (rest : List FileOperation) (row : FileOperation)
      → is_settled state ≡ true
      → is_covered unmarked (operation ∷ rest) row ≡ true
      → is_covered unmarked rest (set_row now operation.id state message row) ≡ true
  set_row-covered now operation state message rest row s h =
      elim (Bool-cases
        (row.id == operation.id && (not (is_completed row.state) || is_completed state))) [
          | inl written ↦ rw written (rw s refl)
          | inr kept ↦ rw kept (
              left_covered (is_settled row.state) (row.id == operation.id) (is_completed row.state)
                (is_completed state) _ (completed-settled row.state) kept h)
        ]

  pub set_state-covered :
      (now : Text) (operation : FileOperation) (state : FileOperationState) (message : Option Text)
      (rest rows : List FileOperation)
      → is_settled state ≡ true
      → All (λ row. is_covered unmarked (operation ∷ rest) row ≡ true) rows
      → All
          (λ row. is_covered unmarked rest row ≡ true)
          (set_state now operation.id state message rows)
  unfolding set_state
  set_state-covered now operation state message rest [] s h = tt
  set_state-covered now operation state message rest (row ∷ rows) s h = (
    set_row-covered now operation state message rest row s h.0,
    set_state-covered now operation state message rest rows s h.1,
  )

  -- The rows of other ids stay covered without it.
  apart_covered :
      (operation : FileOperation) (rest rows : List FileOperation)
      → any (λ other. other.id == operation.id) rows ≡ false
      → All (λ row. is_covered unmarked (operation ∷ rest) row ≡ true) rows
      → All (λ row. is_covered unmarked rest row ≡ true) rows
  apart_covered operation rest [] k h = tt
  apart_covered operation rest (row ∷ rows) k h =
      let other : (row.id == operation.id) ≡ false = or_left (row.id == operation.id) _ k in
      (
        rw other at h.0,
        apart_covered operation rest rows (or_right (row.id == operation.id) _ k) h.1,
      )

  -- The row of an operation that is left as it is, since its state is completed.
  pub state_by_id-completed :
      (operation : FileOperation) (rest rows : List FileOperation)
      → Distinct rows
      → state_by_id operation.id rows ≡ some FileOperationState.completed
      → All (λ row. is_covered unmarked (operation ∷ rest) row ≡ true) rows
      → All (λ row. is_covered unmarked rest row ≡ true) rows
  unfolding state_by_id
  state_by_id-completed operation rest [] k e h = tt
  state_by_id-completed operation rest (row ∷ rows) k e h =
      elim (Bool-cases (row.id == operation.id)) [
        | inl hit ↦
            let same : row.id ≡ operation.id = (list_beq_iff row.id operation.id).0 hit in
            let state : row.state ≡ FileOperationState.completed =
              some-injective row.state FileOperationState.completed (rw hit at e) in
            (
              rw state refl,
              apart_covered operation rest rows
                  (subst (λ key. any (λ other. other.id == key) rows ≡ false) same k.0) h.1,
            )
        | inr miss ↦
            (rw miss at h.0, state_by_id-completed operation rest rows k.1 (rw miss at e) h.1)
      ]

  awaits-unmarked :
      (row : FileOperation) (operations : List FileOperation)
      → unmarked row.id ≡ true
      → awaits unmarked operations row ≡ true
  awaits-unmarked row [] h = h
  awaits-unmarked row (op ∷ operations) h =
      or_true (row.id == op.id) _ (awaits-unmarked row operations h)

  -- The row of an operation that could not be marked.
  pub unmarked-covered :
      (operation : FileOperation) (rest rows : List FileOperation)
      → unmarked operation.id ≡ true
      → All (λ row. is_covered unmarked (operation ∷ rest) row ≡ true) rows
      → All (λ row. is_covered unmarked rest row ≡ true) rows
  unmarked-covered operation rest [] h k = tt
  unmarked-covered operation rest (row ∷ rows) h k = elim (Bool-cases (row.id == operation.id)) [
    | inl hit ↦
        let same : row.id ≡ operation.id = (list_beq_iff row.id operation.id).0 hit in
        let lost : unmarked row.id ≡ true = ap unmarked same ∙ h in
        (
          or_true (is_settled row.state) _ (awaits-unmarked row rest lost),
          unmarked-covered operation rest rows h k.1,
        )
    | inr miss ↦ (rw miss at k.0, unmarked-covered operation rest rows h k.1)
  ]

set_row-id :
    (now id : Text) (state : FileOperationState) (message : Option Text) (row : FileOperation)
    → (set_row now id state message row).id ≡ row.id
set_row-id now id state message row =
    elim (Bool-cases (row.id == id && (not (is_completed row.state) || is_completed state))) [
      | inl written ↦ rw written refl
      | inr kept ↦ rw kept refl
    ]

any-set_row :
    (now id : Text) (state : FileOperationState) (message : Option Text) (key : Text)
    (rows : List FileOperation)
    → any (λ other. other.id == key) (map (set_row now id state message) rows)
      ≡ any (λ other. other.id == key) rows
any-set_row now id state message key [] = refl
any-set_row now id state message key (row ∷ rows) =
    rw (set_row-id now id state message row, any-set_row now id state message key rows) refl

pub Distinct-set_state :
    (now id : Text) (state : FileOperationState) (message : Option Text) (rows : List FileOperation)
    → Distinct rows
    → Distinct (set_state now id state message rows)
unfolding set_state
Distinct-set_state now id state message [] h = tt
Distinct-set_state now id state message (row ∷ rows) h = (
  rw (set_row-id now id state message row) (any-set_row now id state message row.id rows ∙ h.0),
  Distinct-set_state now id state message rows h.1,
)

pub All-delete_oldest {ℓ} :
    (P : FileOperation → Type ℓ) (n : ℕ) (rows : List FileOperation)
    → All P rows
    → All P (delete_oldest n rows)
All-delete_oldest P n [] h = tt
All-delete_oldest P zero (row ∷ rows) h = h
All-delete_oldest P (suc n) (row ∷ rows) h = elim (Bool-cases (is_completed row.state)) [
  | inl done ↦ rw (done, All, delete_oldest) (All-delete_oldest P n rows h.1)
  | inr unfinished ↦ rw (unfinished, All, delete_oldest) (h.0, All-delete_oldest P (suc n) rows h.1)
]

completed_rows-delete_oldest :
    (n : ℕ) (rows : List FileOperation)
    → completed_rows (delete_oldest n rows) ≡ completed_rows rows - n
completed_rows-delete_oldest n [] = omega arith
completed_rows-delete_oldest zero (row ∷ rows) = omega arith
completed_rows-delete_oldest (suc n) (row ∷ rows) = elim (Bool-cases (is_completed row.state)) [
  | inl done ↦ rw (done, delete_oldest) (omega (arith, completed_rows-delete_oldest n rows))
  | inr unfinished ↦
      rw (unfinished, delete_oldest) (rw unfinished (completed_rows-delete_oldest (suc n) rows))
]

pub completed_rows-prune_completed :
    (retained : ℕ) (rows : List FileOperation)
    → completed_rows (prune_completed retained rows) ≤ retained
unfolding prune_completed
completed_rows-prune_completed retained rows =
    omega (arith, completed_rows-delete_oldest (completed_rows rows - retained) rows)

pub prune_completed-All {ℓ} :
    (P : FileOperation → Type ℓ) (retained : ℕ) (rows : List FileOperation)
    → All P rows
    → All P (prune_completed retained rows)
unfolding prune_completed
prune_completed-All P retained rows h = All-delete_oldest P (completed_rows rows - retained) rows h

not-true : (b : Bool) → not b ≡ true → b ≡ false
not-true true h = cc
not-true false h = refl

pub pending-unfinished :
    (rows : List FileOperation) → All (λ row. is_completed row.state ≡ false) (pending rows)
unfolding pending
pending-unfinished rows =
    All-mono (λ row. not (is_completed row.state) ≡ true) (λ row. is_completed row.state ≡ false)
      (λ row h. not-true (is_completed row.state) h)
      (retain (λ row. not (is_completed row.state)) rows)
      (All-retain_test (λ row. not (is_completed row.state)) rows)
