-- ===== src/RateLimit/Failure.antt =====
-- `record_failure` of services/auth_rate_limit.rs by cases, for configurations in range: what is
-- counted, what is evicted, and the answer of a table full of lockouts.
use teatro.Prelude.{
  ℕ, ◌+◌, ◌*◌, min, ◌<◌, ◌≡◌, refl, ◌⊎◌, inl, inr, true, false, not, ◌||◌, none, some, arith, leb,
  nat_beq, retain, length, All, Bool-cases, Option-cases, nat_eq, list_eq, if◌then◌else◌,
}
use teatro.Prelude.Text.{Text}
use teatro.Table.{contains_key, insert, remove, Unique}
use teatro.Table.Laws.{retain-Unique}
use teatro.Chrono.{Chrono, nanos}
use teatro.RateLimit.{
  AuthConfig, RateLimitOutcome, RateLimitEntry, Entries, Slot, full, counts_in, oldest_unlocked_key,
  full_outcome, make_room, entry_or_insert, count_failure, outcome_of, answer, record_failure,
  u32_max,
}
use teatro.RateLimit.Window.{
  InRange, expired_at, window_expired_lem, retain_unexpired_lem, lock_at_lem,
}
use teatro.RateLimit.Eviction.{
  IsVictim, Locked, oldest_unlocked_key-some, oldest_unlocked_key-none, min_lock_total,
}

abbrev pub unexpired : AuthConfig → ℕ → Entries → Entries
unexpired config now entries = retain (λ x. not (expired_at config now x.1)) entries

-- An entry after one more failure.
abbrev pub counted : AuthConfig → RateLimitEntry → ℕ → RateLimitEntry
counted config entry now =
    let expired = expired_at config now entry in
    let count = min ((if expired then 0 else entry.failure_count) + 1) u32_max in
    record {
      failure_count = count;
      window_started_at = if expired then now else entry.window_started_at;
      locked_until =
          if leb config.rate_limit_max_failures count
          then some (now + config.rate_limit_lockout_seconds * nanos)
          else (if expired then none else entry.locked_until);
      last_seen_at = now;
    }

-- How the table gets room for the key.
pub data HasRoom (config : AuthConfig) (key : Text) (now : ℕ) (kept room : Entries) : Type 0 where
  as_is :
      (contains_key key kept ≡ true) ⊎ (length kept < config.rate_limit_max_entries)
      → room ≡ kept
      → HasRoom config key now kept room
  evicts :
      (k : Text)
      → IsVictim now kept k
      → contains_key key kept ≡ false
      → room ≡ remove k kept
      → HasRoom config key now kept room

module _ (c : Chrono) (config : AuthConfig) where
  pub count_failure_lem :
      (entry : RateLimitEntry) (now : ℕ)
      → InRange c config now
      → count_failure c config entry now ≡ some (counted config entry now)
  unfolding count_failure
  count_failure_lem entry now h =
      rw (window_expired_lem c config entry now h.window_fits, count_failure)
        (ground (
          arith,
          lock_at_lem c config (counted config entry now).failure_count
              (if expired_at config now entry then none else entry.locked_until) now h,
        ))

  make_room_cases {κ} :
      (P : Slot Entries → Type κ) (key : Text) (now : ℕ) (kept : Entries)
      → 0 < config.rate_limit_max_entries
      → Unique kept
      → ((room : Entries) → HasRoom config key now kept room → P (counts_in room))
      → ((t : ℕ)
          → now < t
          → All (Locked now) kept
          → contains_key key kept ≡ false
          → P (full (full_outcome c config now t)))
      → (s : Slot Entries) × (make_room c config key now kept ≡ some s) × P s
  unfolding make_room
  make_room_cases P key now kept pos u room refused = elim (Bool-cases (contains_key key kept)) [
    | inl here ↦ (counts_in kept, rw (here, make_room), room kept (as_is (inl here) refl))
    | inr new ↦ elim (Bool-cases (leb config.rate_limit_max_entries (length kept))) [
      | inr small ↦
          (counts_in kept, rw (new, small, make_room), room kept (as_is (inr (ground arith)) refl))
      | inl big ↦ elim (Option-cases (oldest_unlocked_key now kept)) [
        | inr (k, e) ↦ (
          counts_in (remove k kept),
          rw (new, big, e, make_room),
          room _ (evicts k (oldest_unlocked_key-some now kept k u e) new refl),
        )
        | inl e ↦
            let locked = oldest_unlocked_key-none now kept e in
            let (t, et, lt) = min_lock_total now kept (ground arith) locked in
            (
              full (full_outcome c config now t),
              rw (new, big, e, et, make_room),
              refused t lt locked new,
            )
      ]
    ]
  ]

  abbrev pub recorded : Text → ℕ → Entries → RateLimitOutcome × Entries
  recorded key now room =
      let entry = counted config (entry_or_insert key now room) now in
      (outcome_of entry now, insert key entry room)

  answer_counts :
      (key : Text) (now : ℕ) (kept room : Entries)
      → InRange c config now
      → answer c config key now kept (counts_in room) ≡ some (recorded key now room)
  unfolding answer
  answer_counts key now kept room range =
      rw (count_failure_lem (entry_or_insert key now room) now range)

  abbrev Answers {κ} :
      (RateLimitOutcome × Entries → Type κ) → Text → ℕ → Entries → Slot Entries → Type κ
  Answers P key now kept s =
      (r : RateLimitOutcome × Entries) × (answer c config key now kept s ≡ some r) × P r

  -- Every way in which a failure is recorded.
  pub record_failure_cases {κ} :
      (P : RateLimitOutcome × Entries → Type κ) (key : Text) (now : ℕ) (entries : Entries)
      → InRange c config now
      → 0 < config.rate_limit_max_failures
      → 0 < config.rate_limit_max_entries
      → Unique entries
      → ((room : Entries)
          → HasRoom config key now (unexpired config now entries) room
          → P (recorded key now room))
      → ((t : ℕ)
          → now < t
          → All (Locked now) (unexpired config now entries)
          → contains_key key (unexpired config now entries) ≡ false
          → P (full_outcome c config now t, unexpired config now entries))
      → (r : RateLimitOutcome × Entries) × (record_failure c config key now entries ≡ some r) × P r
  unfolding record_failure
  record_failure_cases P key now entries range f m u counts_room refused =
      let kept = unexpired config now entries in
      let (s, es, h) =
        make_room_cases (Answers P key now kept) key now kept m (retain-Unique _ entries u)
          (λ room h.
            (recorded key now room, answer_counts key now kept room range, counts_room room h))
          (λ t lt locked new. (
            (full_outcome c config now t, kept),
            (unfold answer in refl),
            refused t lt locked new,
          )) in
      let enabled : (nat_beq config.rate_limit_max_failures 0
            || nat_beq config.rate_limit_max_entries 0)
          ≡ false =
        ground arith in
      (
        h.0,
        rw
            (
              enabled,
              retain_unexpired_lem c config now entries range.window_fits,
              es,
              record_failure,
            )
            h.1,
        h.2,
      )
