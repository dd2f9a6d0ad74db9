-- ===== src/Job/Lifecycle.antt =====
-- The life of one job of services/job_registry.rs: what always holds of its record, and in which
-- direction it moves.
use teatro.Prelude.{
  ℕ, ◌≤◌, ◌≡◌, Bool, true, false, Option, none, some, arith, is_some, nat_eq, list_eq,
}
use teatro.Prelude.Text.{Text, codes}
use teatro.Job.{
  JobState, queued, running, succeeded, failed, JobProgress, JobError, JobRecord,
  complete_phase_order, terminal, new_job, start_job, set_phase_job, set_progress_job, succeed_job,
  fail_job, cancel_job, attach_job,
}

abbrev pub is_succeeded : JobState → Bool
is_succeeded succeeded = true
is_succeeded _ = false

abbrev pub is_failed : JobState → Bool
is_failed failed = true
is_failed _ = false

-- The record of a job hangs together: an end time exactly when it ended, a result exactly when it
-- succeeded and an error exactly when it failed, progress only while it runs and never beyond its
-- total, no task to abort once it ended.
pub record IsConsistent {R : Type 0} (job : JobRecord R) : Type 0 where
  pub ended : is_some job.terminal_at ≡ terminal job.state
  pub ended_at : (t : ℕ) → job.terminal_at ≡ some t → t ≡ job.updated_at
  pub has_result : is_some job.result ≡ is_succeeded job.state
  pub has_error : is_some job.error ≡ is_failed job.state
  pub progresses :
      (p : JobProgress) → job.progress ≡ some p → (job.state ≡ running) × (p.current ≤ p.total)
  pub completed :
      job.state ≡ succeeded
      → (job.phase ≡ codes "complete") × (job.phase_order ≡ complete_phase_order)
  pub unstarted : job.state ≡ queued → job.phase_order ≡ 0
  pub released : terminal job.state ≡ true → job.abort_handle ≡ none
  pub ordered : job.created_at ≤ job.updated_at
  pub fits : job.phase_order ≤ complete_phase_order

-- What an operation does to the record that it finds, its answer left out. The order of a phase is
-- a `u8`, and a progress beyond its total does not reach the record.
pub data Change (R : Type 0) : Type 0 where
  starts : ℕ → Change R
  enters : Text → (order : ℕ) → order ≤ complete_phase_order → ℕ → Change R
  reports : (p : JobProgress) → p.current ≤ p.total → ℕ → Change R
  succeeds : R → ℕ → Change R
  fails : JobError → ℕ → Change R
  cancels : ℕ → Change R
  attaches : ℕ → Change R

abbrev pub change : {R : Type 0} → Change R → JobRecord R → JobRecord R
change (starts now) job = (start_job now job).1
change (enters phase order h now) job = (set_phase_job phase order now job).1
change (reports p h now) job = (set_progress_job p now job).1
change (succeeds r now) job = (succeed_job r now job).1
change (fails e now) job = (fail_job e now job).1
change (cancels now) job = (cancel_job now job).1
change (attaches handle) job = (attach_job handle job).1

module _ {R : Type 0} where
  pub new_job-IsConsistent : (id : Text) (now : ℕ) → IsConsistent (new_job {R = R} id now)
  unfolding new_job
  new_job-IsConsistent id now = ground arith

  pub change-IsConsistent :
      (c : Change R) (job : JobRecord R) → IsConsistent job → IsConsistent (change c job)
  unfolding start_job set_phase_job set_progress_job succeed_job fail_job cancel_job attach_job
  change-IsConsistent (starts now) job h = ground arith
  change-IsConsistent (enters phase order o now) job h = ground arith
  change-IsConsistent (reports p le now) job h = ground arith
  change-IsConsistent (succeeds r now) job h = ground arith
  change-IsConsistent (fails e now) job h = ground arith
  change-IsConsistent (cancels now) job h = ground arith
  change-IsConsistent (attaches handle) job h = ground arith

-- How far a job is.
abbrev pub rank : JobState → ℕ
rank queued = 0
rank running = 1
rank _ = 2

-- Progress that was reported stays, over the same total, and does not fall.
abbrev pub ProgressLe : Option JobProgress → Option JobProgress → Type 0
ProgressLe none q = Unit
ProgressLe (some p) none = ⊥
ProgressLe (some p) (some q) = (q.total ≡ p.total) × (p.current ≤ q.current)

-- A job moves forward: an ended one stays as it is to the last field, and before that neither the
-- state, the phase, the progress within a phase nor the time of the last update goes back.
pub record Advances {R : Type 0} (old new : JobRecord R) : Type 0 where
  pub same_id : new.id ≡ old.id
  pub same_created : new.created_at ≡ old.created_at
  pub final : terminal old.state ≡ true → new ≡ old
  pub state_forward : rank old.state ≤ rank new.state
  pub phase_forward : old.phase_order ≤ new.phase_order
  pub later : old.updated_at ≤ new.updated_at
  pub progress_forward :
      terminal new.state ≡ false
      → new.phase_order ≡ old.phase_order
      → ProgressLe old.progress new.progress

module _ {R : Type 0} where
  pub change-Advances :
      (c : Change R) (job : JobRecord R) → IsConsistent job → Advances job (change c job)
  unfolding start_job set_phase_job set_progress_job succeed_job fail_job cancel_job attach_job
  change-Advances (starts now) job h = ground arith
  change-Advances (enters phase order o now) job h = ground arith
  change-Advances (reports p le now) job h = ground arith
  change-Advances (succeeds r now) job h = ground arith
  change-Advances (fails e now) job h = ground arith
  change-Advances (cancels now) job h = ground arith
  change-Advances (attaches handle) job h = ground arith

  pub change-id : (c : Change R) (job : JobRecord R) → (change c job).id ≡ job.id
  unfolding start_job set_phase_job set_progress_job succeed_job fail_job cancel_job attach_job
  change-id (starts now) job = ground arith
  change-id _ job = ground arith

  pub Advances-refl : (job : JobRecord R) → Advances job job
  Advances-refl job = ground arith

  pub Advances-trans : (a b c : JobRecord R) → Advances a b → Advances b c → Advances a c
  Advances-trans a b c h k = ground arith
