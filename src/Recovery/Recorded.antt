-- ===== src/Recovery/Recorded.antt =====
-- A file store that notes the calls that are made of it, the latest one first, and answers in any way.
use teatro.Prelude.{◌≡◌, refl, Bool, List, ◌∷◌}
use teatro.Prelude.Fallible.{Result, ok, err}
use teatro.Prelude.Stateful.{Done, continue}
use teatro.Prelude.Text.{Text}
use teatro.Files.{FileStore, Place}
use teatro.Recovery.{RecoveryError, failed, lifted}

pub data Call : Type 0 where
  locks : Text → Call
  asks removes removes_directory : Place → Call
  moves moves_directory : Place → Place → Call

-- What is answered to the first of the calls that were made.
pub record Answers (F : Type 0) : Type 0 where
  pub finishes : List Call → Result F Done
  pub says : List Call → Result F Bool

abbrev pub recorder : {F : Type 0} → Answers F → FileStore
recorder {F} answers = record {
  Disk = List Call;
  Failure = F;
  lock_root = λ root calls. (answers.finishes (locks root ∷ calls), locks root ∷ calls);
  exists = λ p calls. (answers.says (asks p ∷ calls), asks p ∷ calls);
  remove = λ p calls. (answers.says (removes p ∷ calls), removes p ∷ calls);
  remove_directory_all =
      λ p calls. (answers.says (removes_directory p ∷ calls), removes_directory p ∷ calls);
  move_managed = λ p q calls. (answers.finishes (moves p q ∷ calls), moves p q ∷ calls);
  move_managed_directory =
      λ p q calls. (answers.finishes (moves_directory p q ∷ calls), moves_directory p q ∷ calls);
}

-- After a call: by its answer.
pub after_call :
    {F A B : Type 0} (Q : Result (RecoveryError F) B × List Call → Type 0) (answer : Result F A)
    (calls : List Call) (next : A → List Call → Result (RecoveryError F) B × List Call)
    → ((error : F) → Q (err (failed error), calls))
    → ((a : A) → answer ≡ ok a → Q (next a calls))
    → Q (continue (lifted (answer, calls)) next)
after_call Q (ok a) calls next fails goes_on = goes_on a refl
after_call Q (err error) calls next fails goes_on = fails error

-- A run after another, by what holds of the calls between them.
pub after_run :
    {E A B : Type 0} (P Q : List Call → Type 0) (run : Result E A × List Call)
    (next : A → List Call → Result E B × List Call)
    → P run.1
    → ((calls : List Call) → P calls → Q calls)
    → ((a : A) (calls : List Call) → P calls → Q (next a calls).1)
    → Q (continue run next).1
after_run P Q (ok a, calls) next h stops goes_on = goes_on a calls h
after_run P Q (err error, calls) next h stops goes_on = stops calls h
