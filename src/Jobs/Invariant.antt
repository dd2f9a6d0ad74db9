-- ===== src/Jobs/Invariant.antt =====
-- What always holds of the registry of services/job_registry.rs, and the steps that it takes: each
-- step is what one call does while it holds the lock.
use teatro.Prelude.{ℕ, ◌≡◌, refl, ◌∙◌, none, some, [], arith, nat_eq, list_eq, list_beq_iff}
use teatro.Prelude.Text.{Text}
use teatro.Table.{lookup, insert, Unique}
use teatro.Table.Laws.{insert-Unique, lookup-insert}
use teatro.Retention.Kept.{prune-Unique, lookup-prune-some}
use teatro.Job.{JobRecord, new_job}
use teatro.Job.Lifecycle.{
  IsConsistent, Change, change, new_job-IsConsistent, change-IsConsistent, change-id,
}
use teatro.Jobs.{Jobs, ended_before, terminal_at, prune}

-- Every id stands once, above its own record, and every record is consistent.
abbrev pub IsHeld : {R : Type 0} → Text → JobRecord R → Type 0
IsHeld id job = (job.id ≡ id) × IsConsistent job

pub record IsSound {R : Type 0} (jobs : Jobs R) : Type 0 where
  pub unique : Unique jobs
  pub held : (id : Text) (job : JobRecord R) → lookup id jobs ≡ some job → IsHeld id job

module _ {R : Type 0} where
  pub empty-IsSound : IsSound {R = R} []
  unfolding lookup
  empty-IsSound = record { unique = tt; held = λ id job e. cc }

  pub prune-IsSound : (now : ℕ) (jobs : Jobs R) → IsSound jobs → IsSound (prune now jobs)
  unfolding prune
  prune-IsSound now jobs s = record {
    unique = prune-Unique ended_before terminal_at now jobs s.unique;
    held = λ id job e.
        s.held id job (lookup-prune-some ended_before terminal_at now id job jobs s.unique e).0;
  }

  pub insert-IsSound :
      (id : Text) (job : JobRecord R) (jobs : Jobs R)
      → IsHeld id job
      → IsSound jobs
      → IsSound (insert id job jobs)
  insert-IsSound id job jobs h s = record {
    unique = insert-Unique id job jobs s.unique;
    held = λ j other e.
        ground (arith, lookup-insert id j job jobs, list_beq_iff id j, s.held j other, h);
  }

-- What one call does to the table while it holds the lock. `cancel` and an ending take two: the
-- change of the record, then the pruning.
pub data Step {R : Type 0} (jobs after : Jobs R) : Type 0 where
  changes :
      (id : Text) (job : JobRecord R) (c : Change R)
      → lookup id jobs ≡ some job
      → after ≡ insert id (change c job) jobs
      → Step jobs after
  prunes : (now : ℕ) → after ≡ prune now jobs → Step jobs after
  reserves :
      (id : Text) (now : ℕ)
      → lookup id jobs ≡ none
      → after ≡ insert id (new_job id now) jobs
      → Step jobs after

pub data Steps {R : Type 0} (jobs : Jobs R) : Jobs R → Type 0 where
  here : Steps jobs jobs
  next : {mid after : Jobs R} → Steps jobs mid → Step mid after → Steps jobs after

module _ {R : Type 0} where
  new_job-IsHeld : (id : Text) (now : ℕ) → IsHeld id (new_job {R = R} id now)
  unfolding new_job
  new_job-IsHeld id now = (refl, new_job-IsConsistent id now)

  pub Step-IsSound : {jobs after : Jobs R} → Step jobs after → IsSound jobs → IsSound after
  Step-IsSound {jobs} (changes id job c l e) s =
      let h = s.held id job l in
      rw e (
        insert-IsSound id (change c job) jobs (change-id c job ∙ h.0, change-IsConsistent c job h.1)
          s)
  Step-IsSound {jobs} (prunes now e) s = rw e (prune-IsSound now jobs s)
  Step-IsSound {jobs} (reserves id now l e) s =
      rw e (insert-IsSound id (new_job id now) jobs (new_job-IsHeld id now) s)

  -- Whatever calls come, and however they interleave between their locks, the registry stays sound.
  pub Steps-IsSound : {jobs after : Jobs R} → Steps jobs after → IsSound jobs → IsSound after
  Steps-IsSound here s = s
  Steps-IsSound (next run st) s = Step-IsSound st (Steps-IsSound run s)
