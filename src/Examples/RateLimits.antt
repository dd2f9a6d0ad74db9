-- ===== src/Examples/RateLimits.antt =====
-- services/auth_rate_limit.rs at the configurations of its unit tests.
use teatro.Prelude.{
  ℕ, ◌*◌, ◌≤◌, ◌<◌, ◌≡◌, refl, none, some, [], ◌∷◌, ◌++◌, arith, nat_eq, list_eq, length,
}
use mathlib.Core.Option
use teatro.Prelude.Text.{Text, codes}
use teatro.Table.{lookup, insert, remove, contains_key}
use teatro.Chrono.{Chrono, nanos}
use teatro.RateLimit.{
  AuthConfig, RateLimitOutcome, RateLimitRejection, RateLimitEntry, Entries, check, record_failure,
  window_expired, retain_unexpired, make_room, entry_or_insert, count_failure, lock_at, outcome_of,
  answer, rejection, retry_after_seconds, oldest_unlocked_key, min_lock, full_outcome,
}
use teatro.RateLimit.Window.{InRange}
use teatro.RateLimit.Bounds.{IsSound, record_failure-IsSound}
use teatro.RateLimit.Protection.{record_failure_keeps_lock}
use teatro.RateLimit.Check.{Rejects, check-rejected, check_after_window}
use teatro.RateLimit.Overflow.{record_failure_panics}
use teatro.RateLimit.Lockout.{failures, lockout_after_failures}

abbrev limits : Chrono
limits = record {
  latest = 16_000_000_000_000_000_000_000;
  longest = 9_223_372_036_854_775;
  longest_fits = omega arith;
}

-- Two failures in a minute lock a key out for half a minute; two keys are counted.
abbrev strict : AuthConfig
strict = record {
  rate_limit_max_failures = 2;
  rate_limit_window_seconds = 60;
  rate_limit_lockout_seconds = 30;
  rate_limit_max_entries = 2;
}

abbrev at_second : ℕ → ℕ
at_second s = s * nanos

abbrev alice : Text
alice = codes "basic:alice"

abbrev mallory : Text
mallory = codes "basic:mallory"

abbrev once : ℕ → RateLimitEntry
once s = record {
  failure_count = 1;
  window_started_at = at_second s;
  locked_until = none;
  last_seen_at = at_second s;
}

-- Locked out at second 50 of a window that began at second 0.
abbrev locked_out : RateLimitEntry
locked_out = record {
  failure_count = 2;
  window_started_at = 0;
  locked_until = some (at_second 80);
  last_seen_at = at_second 50;
}

abbrev one_failure : Entries
one_failure = (alice, once 0) ∷ []

abbrev both : Entries
both = (alice, locked_out) ∷ (mallory, once 40) ∷ []

strict-InRange : (s : ℕ) → s ≤ 1000 → InRange limits strict (at_second s)
strict-InRange s h = omega arith

one_failure-IsSound : IsSound strict one_failure
unfolding lookup
one_failure-IsSound = record {
  unique = (refl, tt);
  bounded = omega arith;
  counts = ((omega arith, λ t e. cc), tt);
}

both-IsSound : IsSound strict both
unfolding lookup
both-IsSound = record {
  unique = (refl, (refl, tt));
  bounded = omega arith;
  counts = ((omega arith, λ t e. omega arith), ((omega arith, λ t e. cc), tt));
}

record_failure-IsSound_example :
    (r : RateLimitOutcome × Entries) × (record_failure limits strict
        (codes "basic:bob")
        (at_second 55)
        both
      ≡ some r)
    × IsSound strict r.1
record_failure-IsSound_example =
    record_failure-IsSound limits strict (codes "basic:bob") (at_second 55) both
      (strict-InRange 55 (omega arith)) (omega arith) (omega arith) both-IsSound

bob_ne_alice : codes "basic:bob" ≡ alice → ⊥
bob_ne_alice h = cc

record_failure_keeps_lock_example :
    (r : RateLimitOutcome × Entries) × (record_failure limits strict
        (codes "basic:bob")
        (at_second 55)
        both
      ≡ some r)
    × (lookup alice r.1 ≡ some locked_out)
unfolding lookup
record_failure_keeps_lock_example =
    record_failure_keeps_lock limits strict (codes "basic:bob") alice (at_second 55) (at_second 80)
      both locked_out (strict-InRange 55 (omega arith)) (omega arith) (omega arith)
      both-IsSound.unique bob_ne_alice refl refl (omega arith) (omega arith)

lockout_after_failures_example :
    (after : Entries) × (failures limits strict alice one_failure ([] ++ at_second 50 ∷ [])
      ≡ some after)
    × ((r : RateLimitRejection) × (later : Entries) × (check limits strict alice
            (at_second 55)
            after
          ≡ some (some r, later)))
unfolding lookup
lockout_after_failures_example =
    lockout_after_failures limits strict alice [] (at_second 50) (at_second 55) one_failure (once 0)
      (strict-InRange 50 (omega arith), tt) (omega arith, tt) (omega arith) (omega arith)
      (omega arith) one_failure-IsSound refl (omega arith) (omega arith) (omega arith)

-- At second 61 the window is over, and so is a lockout that was to last until second 80.
check_after_window_example :
    (check limits strict alice (at_second 61) both ≡ some (none, remove alice both))
    × (lookup alice (remove alice both) ≡ none)
unfolding lookup
check_after_window_example =
    check_after_window limits strict alice (at_second 61) (at_second 80) both locked_out
      (omega arith) refl refl (omega arith) (omega arith) (omega arith)

abbrev told : RateLimitRejection
told = record { failure_count = 2; locked_until = at_second 80; retry_after_seconds = 25 }

alice_rejected :
    check limits strict alice (at_second 55) both
    ≡ some (some told, insert alice (record locked_out { last_seen_at = at_second 55 }) both)
unfolding check lookup insert window_expired rejection retry_after_seconds
alice_rejected = refl

check-rejected_example :
    (0 < strict.rate_limit_max_failures)
    × ((e : RateLimitEntry) × (lookup alice both ≡ some e) × Rejects strict (at_second 55) e told)
check-rejected_example =
    check-rejected limits strict alice (at_second 55) both _ told (omega arith) alice_rejected

-- A full table: the new key takes the place of the one that is not locked out.
bob_evicts_mallory :
    Option.map
      (λ (r : RateLimitOutcome × Entries). length r.1)
      (record_failure limits strict (codes "basic:bob") (at_second 55) both)
    ≡ some 2
unfolding record_failure retain_unexpired window_expired make_room contains_key answer lookup insert
    remove oldest_unlocked_key min_lock full_outcome entry_or_insert count_failure outcome_of
    lock_at
bob_evicts_mallory = refl

-- A window of 2^63 - 1 seconds.
abbrev endless : AuthConfig
endless = record strict { rate_limit_window_seconds = 9_223_372_036_854_775_807 }

record_failure_panics_example : record_failure limits endless alice (at_second 55) both ≡ none
record_failure_panics_example =
    record_failure_panics limits endless alice (at_second 55) both (omega arith) (omega arith)
      (omega arith) (omega arith)
