-- ===== src/Recovery/Disciplined.antt =====
-- The order of the calls that the recovery of a delete makes, whatever the file store answers.
use teatro.Prelude.{ℕ, List, All}
use teatro.Prelude.Fallible.{Result, ok, err}
use teatro.Prelude.Stateful.{Done}
use teatro.Prelude.Text.{Text}
use teatro.Recovery.{Repositories, RecoveryError}
use teatro.Recovery.Recorded.{Call, Answers}
use teatro.Recovery.Rules.{Locked, IsDisciplined}

module _ {F : Type 0} (answers : Answers F) (db : Repositories F) where
  -- After the locks: the roots are locked, where none failed.
  abbrev HasLocked : List ℕ → List Text → Result (RecoveryError F) Done × List Call → Type 0
  HasLocked ids roots (ok done, calls) =
      IsDisciplined answers db ids calls × All (λ root. Locked root calls) roots
  HasLocked ids roots (err error, calls) = IsDisciplined answers db ids calls
