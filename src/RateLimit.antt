-- ===== src/RateLimit.antt =====
-- services/auth_rate_limit.rs: failed authentications are counted per key in a window, and a key
-- that reaches the limit is locked out for a while. The table under the mutex is passed through
-- each call; a result `none` is a panic (which poisons the mutex: every later call panics too).
pub mod Window
pub mod Eviction
pub mod Failure
pub mod Bounds
pub mod Protection
pub mod Check
pub mod Lockout
pub mod Overflow
use teatro.Prelude.{
  ℕ, ◌+◌, min, max, Bool, true, not, ◌&&◌, ◌||◌, Option, none, some, [], ◌∷◌, nat_eq, list_eq, ltb,
  leb, nat_beq, retain, if◌then◌else◌, length, ◌>>=◌,
}
use mathlib.Core.Option
use teatro.Prelude.Text.{Text, text_le}
use teatro.Table.{Table, lookup, contains_key, insert, remove}
use teatro.Chrono.{Chrono, as_i64, seconds, since_exceeds, add_duration, seconds_until}

-- The fields of config.rs that the limiter reads.
pub record AuthConfig : Type 0 where
  pub rate_limit_max_failures : ℕ
  pub rate_limit_window_seconds : ℕ
  pub rate_limit_lockout_seconds : ℕ
  pub rate_limit_max_entries : ℕ

pub record RateLimitOutcome : Type 0 where
  pub failure_count : ℕ
  pub locked_until : Option ℕ
  pub retry_after_seconds : Option ℕ

pub record RateLimitRejection : Type 0 where
  pub failure_count : ℕ
  pub locked_until : ℕ
  pub retry_after_seconds : ℕ

pub record RateLimitEntry : Type 0 where
  pub failure_count : ℕ
  pub window_started_at : ℕ
  pub locked_until : Option ℕ
  pub last_seen_at : ℕ

abbrev pub Entries : Type 0
Entries = Table Text RateLimitEntry

abbrev pub u32_max : ℕ
u32_max = 4294967295

unfoldable pub retry_after_seconds : ℕ → ℕ → ℕ
unfolding seconds_until
retry_after_seconds now locked_until = max (seconds_until now locked_until) 1

-- `locked_until.filter(|locked_until| *locked_until > now)`.
abbrev pub active_lock : ℕ → RateLimitEntry → Option ℕ
active_lock now entry = elim entry.locked_until [
  | none ↦ none
  | some t ↦ if ltb now t then some t else none
]

pub data Slot (E : Type 0) : Type 0 where
  full : RateLimitOutcome → Slot E
  counts_in : E → Slot E

unfoldable pub disabled_outcome : RateLimitOutcome
disabled_outcome = record { failure_count = 0; locked_until = none; retry_after_seconds = none }

unfoldable pub fresh_entry : ℕ → RateLimitEntry
fresh_entry now = record {
  failure_count = 0;
  window_started_at = now;
  locked_until = none;
  last_seen_at = now;
}

-- The order of `min_by`: the last sight, then the key.
unfoldable pub older : Text × RateLimitEntry → Text × RateLimitEntry → Bool
older (k, e) (j, f) =
    ltb e.last_seen_at f.last_seen_at || (nat_beq e.last_seen_at f.last_seen_at && text_le k j)

unfoldable pub oldest : Text × RateLimitEntry → Entries → Text × RateLimitEntry
unfolding older
oldest best [] = best
oldest best (x ∷ rest) = oldest (if older best x then best else x) rest

unfoldable pub is_unlocked : ℕ → RateLimitEntry → Bool
is_unlocked now entry = elim entry.locked_until [ none ↦ true | some t ↦ leb t now ]

unfoldable pub oldest_of : Entries → Option Text
unfolding oldest
oldest_of [] = none
oldest_of (x ∷ rest) = some (oldest x rest).0

unfoldable pub oldest_unlocked_key : ℕ → Entries → Option Text
unfolding oldest_of is_unlocked
oldest_unlocked_key now entries = oldest_of (retain (λ x. is_unlocked now x.1) entries)

unfoldable pub min_lock : Option ℕ → Entries → Option ℕ
min_lock best [] = best
min_lock none ((k, e) ∷ rest) = min_lock e.locked_until rest
min_lock (some t) ((k, e) ∷ rest) =
    min_lock (elim e.locked_until [ none ↦ some t | some u ↦ some (min t u) ]) rest

unfoldable pub rejection : RateLimitEntry → ℕ → Option RateLimitRejection
unfolding retry_after_seconds
rejection entry now = elim (active_lock now entry) [
  | none ↦ none
  | some t ↦ some (record {
    failure_count = entry.failure_count;
    locked_until = t;
    retry_after_seconds = retry_after_seconds now t;
  })
]

unfoldable pub entry_or_insert : Text → ℕ → Entries → RateLimitEntry
unfolding fresh_entry
entry_or_insert key now entries = elim (lookup key entries) [
  | none ↦ fresh_entry now
  | some entry ↦ entry
]

unfoldable pub outcome_of : RateLimitEntry → ℕ → RateLimitOutcome
unfolding retry_after_seconds
outcome_of entry now = record {
  failure_count = entry.failure_count;
  locked_until = entry.locked_until;
  retry_after_seconds = Option.map (retry_after_seconds now) (active_lock now entry);
}

module _ (c : Chrono) (config : AuthConfig) where
  open config use {rate_limit_max_failures, rate_limit_max_entries}

  unfoldable pub window_expired : RateLimitEntry → ℕ → Option Bool
  unfolding seconds since_exceeds as_i64
  window_expired entry now = do
    window ← seconds c (as_i64 config.rate_limit_window_seconds)
    some (since_exceeds now entry.window_started_at window)

  unfoldable pub check : Text → ℕ → Entries → Option (Option RateLimitRejection × Entries)
  check key now entries =
      if nat_beq rate_limit_max_failures 0
      then some (none, entries)
      else elim (lookup key entries) [
        | none ↦ some (none, entries)
        | some entry ↦ do
          expired ← window_expired entry now
          if expired
              then some (none, remove key entries)
              else some
                  (rejection entry now, insert key (record entry { last_seen_at = now }) entries)
      ]

  -- `entries.retain(|_, entry| !window_expired(config, entry, now))`.
  unfoldable pub retain_unexpired : ℕ → Entries → Option Entries
  retain_unexpired now [] = some []
  retain_unexpired now ((k, entry) ∷ rest) = do
    expired ← window_expired entry now
    kept ← retain_unexpired now rest
    some (if expired then kept else (k, entry) ∷ kept)

  unfoldable pub full_outcome : ℕ → ℕ → RateLimitOutcome
  unfolding retry_after_seconds
  full_outcome now locked_until = record {
    failure_count = rate_limit_max_failures;
    locked_until = some locked_until;
    retry_after_seconds = some (retry_after_seconds now locked_until);
  }

  -- The table in which the failure is counted, or the answer of a table full of lockouts.
  unfoldable pub make_room : Text → ℕ → Entries → Option (Slot Entries)
  make_room key now entries =
      if not (contains_key key entries) && leb rate_limit_max_entries (length entries)
      then elim (oldest_unlocked_key now entries) [
        | some oldest_key ↦ some (counts_in (remove oldest_key entries))
        | none ↦ do
          locked_until ← min_lock none entries
          some (full (full_outcome now locked_until))
      ]
      else some (counts_in entries)

  unfoldable pub lock_at : ℕ → Option ℕ → ℕ → Option (Option ℕ)
  unfolding seconds as_i64 add_duration
  lock_at count locked now =
      if leb rate_limit_max_failures count
      then (do
        lockout ← seconds c (as_i64 config.rate_limit_lockout_seconds)
        locked_until ← add_duration c now lockout
        some (some locked_until))
      else some locked

  -- The statements from the second `window_expired` on.
  unfoldable pub count_failure : RateLimitEntry → ℕ → Option RateLimitEntry
  count_failure entry now = do
    expired ← window_expired entry now
    let started = if expired then now else entry.window_started_at
    let before = if expired then 0 else entry.failure_count
    let locked = if expired then none else entry.locked_until
    let count = min (before + 1) u32_max
    locked_until ← lock_at count locked now
    some (record {
      failure_count = count;
      window_started_at = started;
      locked_until = locked_until;
      last_seen_at = now;
    })

  -- The early return, or the count in the table that has room.
  unfoldable pub answer : Text → ℕ → Entries → Slot Entries → Option (RateLimitOutcome × Entries)
  answer key now kept (full outcome) = some (outcome, kept)
  answer key now kept (counts_in room) = do
    entry ← count_failure (entry_or_insert key now room) now
    some (outcome_of entry now, insert key entry room)

  unfoldable pub record_failure : Text → ℕ → Entries → Option (RateLimitOutcome × Entries)
  record_failure key now entries =
      if nat_beq rate_limit_max_failures 0 || nat_beq rate_limit_max_entries 0
      then some (disabled_outcome, entries)
      else do
        kept ← retain_unexpired now entries
        slot ← make_room key now kept
        answer key now kept slot

unfoldable pub record_success : Text → Entries → Entries
record_success key entries = remove key entries
