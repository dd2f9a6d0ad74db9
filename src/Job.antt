-- ===== src/Job.antt =====
-- services/job_registry.rs: one job, the record of it, and what each operation of the registry
-- does to the record it finds. `R` is the feature's result payload. The state is an enumeration of
-- the strings of the source; the percentage of a progress is left out, since it is a function of
-- the two counts. A clock reading of `touch` is an argument.
pub mod Lifecycle
use teatro.Prelude.{
  ℕ, max, Bool, true, false, not, ◌&&◌, ◌||◌, Option, none, some, ◌==◌, nat_eq, list_eq, nat_beq,
  ltb, if◌then◌else◌,
}
use teatro.Prelude.Text.{Text, codes}

pub data JobState : Type 0 where
  queued running succeeded failed cancelled : JobState

pub record JobProgress : Type 0 where
  pub current : ℕ
  pub total : ℕ

pub record JobError : Type 0 where
  pub code : Text
  pub message : Text

pub data JobRegistryError : Type 0 where
  not_found illegal_state invalid_phase_transition progress_regressed : JobRegistryError

pub data Result {ℓ} (A : Type ℓ) : Type ℓ where
  ok : A → Result A
  err : JobRegistryError → Result A

pub record JobRecord (R : Type 0) : Type 0 where
  pub id : Text
  pub state : JobState
  pub phase : Text
  pub phase_order : ℕ
  pub progress : Option JobProgress
  pub result : Option R
  pub error : Option JobError
  pub created_at : ℕ
  pub updated_at : ℕ
  pub terminal_at : Option ℕ
  pub abort_handle : Option ℕ

-- The clone that leaves the registry.
pub record JobSnapshot (R : Type 0) : Type 0 where
  pub id : Text
  pub state : JobState
  pub phase : Text
  pub progress : Option JobProgress
  pub result : Option R
  pub error : Option JobError
  pub created_at : ℕ
  pub updated_at : ℕ

abbrev pub complete_phase_order : ℕ
complete_phase_order = 255

abbrev pub terminal : JobState → Bool
terminal succeeded = true
terminal failed = true
terminal cancelled = true
terminal _ = false

abbrev pub is_running : JobState → Bool
is_running running = true
is_running _ = false

abbrev pub is_queued : JobState → Bool
is_queued queued = true
is_queued _ = false

abbrev pub same_progress : Option JobProgress → JobProgress → Bool
same_progress none p = false
same_progress (some q) p = nat_beq q.current p.current && nat_beq q.total p.total

-- `progress.total != previous.total || progress.current < previous.current`.
abbrev pub regresses : Option JobProgress → JobProgress → Bool
regresses none p = false
regresses (some previous) p = not (nat_beq p.total previous.total) || ltb p.current previous.current

module _ {R : Type 0} where
  -- `JobRecord::new`.
  unfoldable pub new_job : Text → ℕ → JobRecord R
  new_job id now = record {
    id = id;
    state = queued;
    phase = codes "queued";
    phase_order = 0;
    progress = none;
    result = none;
    error = none;
    created_at = now;
    updated_at = now;
    terminal_at = none;
    abort_handle = none;
  }

  unfoldable pub snapshot_of : JobRecord R → JobSnapshot R
  snapshot_of job = record {
    id = job.id;
    state = job.state;
    phase = job.phase;
    progress = job.progress;
    result = job.result;
    error = job.error;
    created_at = job.created_at;
    updated_at = job.updated_at;
  }

  unfoldable pub touch : ℕ → JobRecord R → JobRecord R
  touch now job = record job { updated_at = max job.updated_at now }

  unfoldable pub start_job : ℕ → JobRecord R → Result Bool × JobRecord R
  unfolding touch
  start_job now job =
      if terminal job.state
      then (ok false, job)
      else if not (is_queued job.state)
      then (err illegal_state, job)
      else (ok true, touch now (record job { state = running }))

  -- `running_job`: a job that was not started is in the wrong state; then the test that a job
  -- which ended is left alone.
  unfoldable pub if_running :
      JobRecord R → Result (Unit {0}) × JobRecord R → Result (Unit {0}) × JobRecord R
  if_running job run =
      if not (is_running job.state) && not (terminal job.state)
      then (err illegal_state, job)
      else if terminal job.state
      then (ok tt, job)
      else run

  unfoldable pub set_phase_job : Text → ℕ → ℕ → JobRecord R → Result (Unit {0}) × JobRecord R
  unfolding if_running touch
  set_phase_job phase order now job = if_running job (
      if ltb order job.phase_order || (nat_beq order job.phase_order && not (phase == job.phase))
      then (err invalid_phase_transition, job)
      else if ltb job.phase_order order
      then (ok tt, touch now (record job { phase = phase; phase_order = order; progress = none }))
      else (ok tt, job))

  unfoldable pub set_progress_job : JobProgress → ℕ → JobRecord R → Result (Unit {0}) × JobRecord R
  unfolding if_running touch
  set_progress_job progress now job = if_running job (
      if regresses job.progress progress
      then (err progress_regressed, job)
      else if not (same_progress job.progress progress)
      then (ok tt, touch now (record job { progress = some progress }))
      else (ok tt, job))

  -- The record of a job that ends, as the three ways to end leave it in common.
  unfoldable pub end_job : JobState → ℕ → Option R → Option JobError → JobRecord R → JobRecord R
  end_job state now result error job = record job {
    state = state;
    progress = none;
    result = result;
    error = error;
    updated_at = max job.updated_at now;
    terminal_at = some (max job.updated_at now);
    abort_handle = none;
  }

  unfoldable pub succeed_job : R → ℕ → JobRecord R → Result (Unit {0}) × JobRecord R
  unfolding end_job
  succeed_job result now job =
      if terminal job.state
      then (ok tt, job)
      else if not (is_running job.state)
      then (err illegal_state, job)
      else (
        ok tt,
        end_job succeeded now (some result) none
            (record job { phase = codes "complete"; phase_order = complete_phase_order }),
      )

  unfoldable pub fail_job : JobError → ℕ → JobRecord R → Result (Unit {0}) × JobRecord R
  unfolding end_job
  fail_job error now job =
      if terminal job.state then (ok tt, job) else (ok tt, end_job failed now none (some error) job)

  -- The answer also says which task is to be aborted.
  unfoldable pub cancel_job : ℕ → JobRecord R → Result (JobSnapshot R × Option ℕ) × JobRecord R
  unfolding end_job snapshot_of
  cancel_job now job =
      if terminal job.state
      then (ok (snapshot_of job, none), job)
      else (let ended = end_job cancelled now none none job in
          (ok (snapshot_of ended, job.abort_handle), ended))

  -- A task of a job that has ended is aborted at once.
  unfoldable pub attach_job : ℕ → JobRecord R → Result (Option ℕ) × JobRecord R
  attach_job handle job =
      if terminal job.state
      then (ok (some handle), job)
      else (ok none, record job { abort_handle = some handle })
