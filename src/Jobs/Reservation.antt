-- ===== src/Jobs/Reservation.antt =====
-- `JobRegistry::reserve`: what the caller gets, and that a free id ends the loop.
use teatro.Prelude.{
  ℕ, ◌≡◌, refl, subst, ◌∙◌, inl, inr, true, false, not, none, some, List, [], ◌∷◌, ◌==◌, arith,
  nat_eq, list_eq, list_beq_iff, any, Bool-cases,
}
use mathlib.Core.Option.{some-injective}
use teatro.Prelude.Text.{Text}
use teatro.Table.{lookup, contains_key, insert}
use teatro.Table.Laws.{lookup-insert}
use teatro.Retention.Kept.{lookup-prune-none, lookup-prune_active}
use teatro.Job.{JobRecord, JobSnapshot, new_job, snapshot_of}
use teatro.Jobs.{Jobs, ended_before, terminal_at, prune}
use teatro.Jobs
use teatro.Jobs.Invariant.{IsSound, prune-IsSound}

module _ {R : Type 0} where
  -- The job that a reservation hands out, and the jobs that run on beside it.
  pub record IsReserved (ids : List Text) (now : ℕ) (jobs : Jobs R) (clone : JobSnapshot R)
      (after : Jobs R) : Type 0 where
    pub drawn : any (λ id. id == clone.id) ids ≡ true
    pub stored : lookup clone.id after ≡ some (new_job clone.id now)
    pub shown : clone ≡ snapshot_of (new_job clone.id now)
    pub others :
        (id : Text) (job : JobRecord R)
        → lookup id jobs ≡ some job
        → job.terminal_at ≡ none
        → lookup id after ≡ some job

  pruned_active :
      (now : ℕ) (id : Text) (job : JobRecord R) (jobs : Jobs R)
      → IsSound jobs
      → lookup id jobs ≡ some job
      → job.terminal_at ≡ none
      → lookup id (prune now jobs) ≡ some job
  unfolding prune
  pruned_active now id job jobs s l active =
      lookup-prune_active ended_before terminal_at now id job jobs s.unique l active

  IsReserved-at :
      (id : Text) (ids : List Text) (now : ℕ) (jobs : Jobs R)
      → IsSound jobs
      → contains_key id (prune now jobs) ≡ false
      → IsReserved
          (id ∷ ids)
          now
          jobs
          (snapshot_of (new_job id now))
          (insert id (new_job id now) (prune now jobs))
  unfolding contains_key snapshot_of new_job prune
  IsReserved-at id ids now jobs s free = record {
    drawn = ground (arith, list_beq_iff id id);
    stored = lookup-insert id id _ (prune now jobs) ∙ ground (arith, list_beq_iff id id);
    shown = refl;
    others = λ j job l active.
        lookup-insert id j _ (prune now jobs)
        ∙ ground (arith, list_beq_iff id j, pruned_active now j job jobs s l active);
  }

  reserve-IsReserved :
      (ids : List Text) (now : ℕ) (jobs : Jobs R) (clone : JobSnapshot R) (after : Jobs R)
      → IsSound jobs
      → Jobs.reserve ids now jobs ≡ some (clone, after)
      → IsReserved ids now jobs clone after
  unfolding Jobs.reserve
  reserve-IsReserved [] now jobs clone after s e = cc
  reserve-IsReserved (id ∷ ids) now jobs clone after s e =
      let pruned : Jobs R = prune now jobs in
      elim (Bool-cases (contains_key id pruned)) [
        | inl taken ↦
            let r =
              reserve-IsReserved ids now pruned clone after (prune-IsSound now jobs s)
                (rw taken at e) in
            record {
              drawn = ground (arith, r.drawn);
              stored = r.stored;
              shown = r.shown;
              others =
                  λ j job l active. r.others j job (pruned_active now j job jobs s l active) active;
            }
        | inr free ↦
            let same = some-injective _ _ (rw free at e) in
            subst (λ (x : JobSnapshot R × Jobs R). IsReserved (id ∷ ids) now jobs x.0 x.1) same
              (IsReserved-at id ids now jobs s free)
      ]

  free-prune :
      (id : Text) (now : ℕ) (jobs : Jobs R)
      → IsSound jobs
      → contains_key id jobs ≡ false
      → contains_key id (prune now jobs) ≡ false
  unfolding contains_key prune
  free-prune id now jobs s free =
      ground (arith, lookup-prune-none ended_before terminal_at now id jobs s.unique)

  any_free-prune :
      (ids : List Text) (now : ℕ) (jobs : Jobs R)
      → IsSound jobs
      → any (λ id. not (contains_key id jobs)) ids ≡ true
      → any (λ id. not (contains_key id (prune now jobs))) ids ≡ true
  any_free-prune [] now jobs s h = h
  any_free-prune (id ∷ ids) now jobs s h =
      ground (arith, free-prune id now jobs s, any_free-prune ids now jobs s)

  reserve-some :
      (ids : List Text) (now : ℕ) (jobs : Jobs R)
      → IsSound jobs
      → any (λ id. not (contains_key id jobs)) ids ≡ true
      → (r : JobSnapshot R × Jobs R) × (Jobs.reserve ids now jobs ≡ some r)
  unfolding Jobs.reserve
  reserve-some [] now jobs s h = cc
  reserve-some (id ∷ ids) now jobs s h =
      let pruned : Jobs R = prune now jobs in
      elim (Bool-cases (contains_key id pruned)) [
        | inr free ↦ rw free (_, refl)
        | inl taken ↦ rw taken (
            reserve-some ids now pruned (prune-IsSound now jobs s)
              (any_free-prune ids now jobs s (ground (arith, free-prune id now jobs s))))
      ]

  -- Where one of the ids drawn is free in a sound registry, the reservation returns; the job is new
  -- and queued under an id that was drawn, the clone shows it, and every job that has not ended is
  -- as it was.
  pub reserve_free :
      (ids : List Text) (now : ℕ) (jobs : Jobs R)
      → IsSound jobs
      → any (λ id. not (contains_key id jobs)) ids ≡ true
      → (clone : JobSnapshot R) × (after : Jobs R) × (Jobs.reserve ids now jobs
          ≡ some (clone, after))
        × IsReserved ids now jobs clone after
  reserve_free ids now jobs s h =
      let (r, e) = reserve-some ids now jobs s h in
      (r.0, r.1, e, reserve-IsReserved ids now jobs r.0 r.1 s e)
