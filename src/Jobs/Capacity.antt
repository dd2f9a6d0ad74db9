-- ===== src/Jobs/Capacity.antt =====
-- How many ended jobs the registry of services/job_registry.rs keeps: `TERMINAL_CAPACITY`.
use teatro.Prelude.{
  ℕ, ◌≤◌, ◌≡◌, refl, ap, sym, inl, inr, false, not, ◌&&◌, none, some, List, [], ◌∷◌, arith, nat_eq,
  list_eq, ltb, length, is_some, Bool-cases, Option-cases,
}
use mathlib.Core.Option.{some-injective}
use teatro.Prelude.Text.{Text}
use teatro.Table.{lookup, contains_key, insert}
use teatro.Retention.{terminals, terminal_capacity}
use teatro.Retention.Capacity.{length-prune}
use teatro.Job.{
  Result, JobRecord, JobSnapshot, terminal, new_job, start_job, set_phase_job, set_progress_job,
  succeed_job, fail_job, cancel_job, attach_job,
}
use teatro.Jobs.{Jobs, ended_before, terminal_at, prune, valid_id, with_job, with_ending}
use teatro.Jobs
use teatro.Jobs.Calls.{
  Call, reserve, snapshot, start, set_phase, set_progress, succeed, fail, cancel,
  attach_abort_handle, perform, performs, snapshot-table,
}

module _ {R : Type 0} where
  abbrev pub Fits : Jobs R → Type 0
  Fits jobs = length (terminals terminal_at jobs) ≤ terminal_capacity

  prune-Fits : (now : ℕ) (jobs : Jobs R) → Fits (prune now jobs)
  unfolding prune
  prune-Fits now jobs = length-prune ended_before terminal_at now jobs

  -- A record in the place of another, which ended if and only if that one did.
  length-terminals-insert :
      (id : Text) (job new : JobRecord R) (jobs : Jobs R)
      → lookup id jobs ≡ some job
      → is_some new.terminal_at ≡ is_some job.terminal_at
      → length (terminals terminal_at (insert id new jobs)) ≡ length (terminals terminal_at jobs)
  unfolding terminals insert lookup
  length-terminals-insert id job new [] l same = ground arith
  length-terminals-insert id job new ((j, old) ∷ jobs) l same =
      ground (arith, length-terminals-insert id job new jobs)

  -- A new record that has not ended.
  length-terminals-insert_new :
      (id : Text) (new : JobRecord R) (jobs : Jobs R)
      → new.terminal_at ≡ none
      → length (terminals terminal_at (insert id new jobs)) ≤ length (terminals terminal_at jobs)
  unfolding terminals insert
  length-terminals-insert_new id new [] e = ground arith
  length-terminals-insert_new id new ((j, old) ∷ jobs) e =
      ground (arith, length-terminals-insert_new id new jobs)

  with_job-Fits {ℓ} :
      {A : Type ℓ} (id : Text) (f : JobRecord R → Result A × JobRecord R) (jobs : Jobs R)
      → ((job : JobRecord R) → (f job).1.terminal_at ≡ job.terminal_at)
      → Fits jobs
      → Fits (with_job id f jobs).1
  unfolding with_job
  with_job-Fits id f jobs same h = elim (Option-cases (lookup id jobs)) [
    | inl e ↦ rw (e, with_job) h
    | inr (job, e) ↦
        rw (e, with_job)
          (omega
            (arith, h, length-terminals-insert id job (f job).1 jobs e (ap is_some (same job))))
  ]

  with_ending-Fits {ℓ} :
      {A : Type ℓ} (id : Text) (now : ℕ) (f : JobRecord R → Result A × JobRecord R) (jobs : Jobs R)
      → ((job : JobRecord R)
          → (not (terminal job.state) && terminal ((f job).1).state) ≡ false
          → (f job).1.terminal_at ≡ job.terminal_at)
      → Fits jobs
      → Fits (with_ending id now f jobs).1
  unfolding with_ending
  with_ending-Fits id now f jobs same h = elim (Option-cases (lookup id jobs)) [
    | inl e ↦ rw (e, with_ending) h
    | inr (job, e) ↦ elim (Bool-cases (not (terminal job.state) && terminal ((f job).1).state)) [
      | inl ends ↦ rw (e, ends, with_ending) (prune-Fits now (insert id (f job).1 jobs))
      | inr goes_on ↦
          rw (e, goes_on, with_ending)
            (omega (
              arith,
              h,
              length-terminals-insert id job (f job).1 jobs e (ap is_some (same job goes_on)),
            ))
    ]
  ]

  reserve-Fits :
      (ids : List Text) (now : ℕ) (jobs : Jobs R) (r : JobSnapshot R × Jobs R)
      → Jobs.reserve ids now jobs ≡ some r
      → Fits r.1
  unfolding Jobs.reserve new_job
  reserve-Fits [] now jobs r e = cc
  reserve-Fits (id ∷ ids) now jobs r e =
      let pruned : Jobs R = prune now jobs in
      elim (Bool-cases (contains_key id pruned)) [
        | inl taken ↦ reserve-Fits ids now pruned r (rw taken at e)
        | inr free ↦
            let after =
              ap (λ (x : JobSnapshot R × Jobs R). x.1) (some-injective _ _ (rw free at e)) in
            rw (sym after) (
              omega (
                arith,
                prune-Fits now jobs,
                length-terminals-insert_new id (new_job id now) pruned refl,
              ))
      ]

  perform-Fits : (p : Text) (c : Call R) (jobs : Jobs R) → Fits jobs → Fits (perform p c jobs)
  unfolding Jobs.start Jobs.set_phase Jobs.set_progress Jobs.succeed Jobs.fail Jobs.cancel
      Jobs.attach_abort_handle start_job set_phase_job set_progress_job succeed_job fail_job
      cancel_job attach_job
  perform-Fits p (reserve ids now) jobs h = elim (Option-cases (Jobs.reserve ids now jobs)) [
    | inl e ↦ rw e h
    | inr (r, e) ↦ rw e (reserve-Fits ids now jobs r e)
  ]
  perform-Fits p (snapshot id now) jobs h = elim (Bool-cases (valid_id p id)) [
    | inl valid ↦ rw (snapshot-table p id now jobs, valid) (prune-Fits now jobs)
    | inr invalid ↦ rw (snapshot-table p id now jobs, invalid) h
  ]
  perform-Fits p (start id now) jobs h =
      with_job-Fits id (start_job now) jobs (λ job. ground arith) h
  perform-Fits p (set_phase id phase order o now) jobs h =
      with_job-Fits id (set_phase_job phase order now) jobs (λ job. ground arith) h
  perform-Fits p (set_progress id current total now) jobs h =
      elim (Bool-cases (ltb total current)) [
        | inl over ↦ rw (over, perform) h
        | inr within ↦
            rw (within, perform)
              (with_job-Fits id (set_progress_job (record { current = current; total = total }) now)
                jobs (λ job. ground arith) h)
      ]
  perform-Fits p (succeed id result now touched) jobs h =
      with_ending-Fits id now (succeed_job result touched) jobs (λ job e. ground arith) h
  perform-Fits p (fail id error now touched) jobs h =
      with_ending-Fits id now (fail_job error touched) jobs (λ job e. ground arith) h
  perform-Fits p (cancel id now touched) jobs h = elim (Bool-cases (valid_id p id)) [
    | inl valid ↦
        rw (valid, perform)
          (with_ending-Fits id now (cancel_job touched) jobs (λ job e. ground arith) h)
    | inr invalid ↦ rw (invalid, perform) h
  ]
  perform-Fits p (attach_abort_handle id handle) jobs h =
      with_job-Fits id (attach_job handle) jobs (λ job. ground arith) h

  -- From a registry with at most 64 jobs that have ended, as a new one is, any calls lead to a
  -- registry with at most 64.
  pub performs-Fits :
      (p : Text) (cs : List (Call R)) (jobs : Jobs R) → Fits jobs → Fits (performs p cs jobs)
  unfolding performs
  performs-Fits p [] jobs h = h
  performs-Fits p (c ∷ cs) jobs h = performs-Fits p cs (perform p c jobs) (perform-Fits p c jobs h)
