-- ===== src/RateLimit/Overflow.antt =====
-- Durations of services/auth_rate_limit.rs that chrono does not represent: config.rs parses any
-- `u64` for them.
use teatro.Prelude.{
  ℕ, ◌^◌, ◌<◌, none, some, nat_beq, ◌||◌, list_eq, nat_eq, false, ◌≡◌, [], ◌∷◌, arith, leb,
}
use teatro.Chrono.{Chrono, as_i64, seconds}
use teatro.Prelude.Text.{Text}
use teatro.Table.{contains_key, lookup}
use teatro.RateLimit.{
  AuthConfig, RateLimitEntry, Entries, record_failure, make_room, answer, count_failure,
  window_expired, retain_unexpired, entry_or_insert, counts_in,
}

seconds-as_i64_over :
    (c : Chrono) (s : ℕ) → c.longest < s → s < 2 ^ 63 → seconds c (as_i64 s) ≡ none
unfolding seconds as_i64
seconds-as_i64_over c s h k = ground arith

window_expired_over :
    (c : Chrono) (config : AuthConfig) (entry : RateLimitEntry) (now : ℕ)
    → c.longest < config.rate_limit_window_seconds
    → config.rate_limit_window_seconds < 2 ^ 63
    → window_expired c config entry now ≡ none
unfolding window_expired
window_expired_over c config entry now h k =
    rw (seconds-as_i64_over c config.rate_limit_window_seconds h k, window_expired)

enabled :
    (config : AuthConfig)
    → 0 < config.rate_limit_max_failures
    → 0 < config.rate_limit_max_entries
    → (nat_beq config.rate_limit_max_failures 0 || nat_beq config.rate_limit_max_entries 0) ≡ false
enabled config f m = ground arith

make_room_empty :
    (c : Chrono) (config : AuthConfig) (key : Text) (now : ℕ)
    → 0 < config.rate_limit_max_entries
    → make_room c config key now [] ≡ some (counts_in [])
unfolding make_room contains_key lookup
make_room_empty c config key now m =
    let room : leb config.rate_limit_max_entries 0 ≡ false = ground arith in rw (room, make_room)

answer_over :
    (c : Chrono) (config : AuthConfig) (key : Text) (now : ℕ)
    → c.longest < config.rate_limit_window_seconds
    → config.rate_limit_window_seconds < 2 ^ 63
    → answer c config key now [] (counts_in []) ≡ none
unfolding answer count_failure
answer_over c config key now h k =
    rw (window_expired_over c config (entry_or_insert key now []) now h k, answer, count_failure)

-- A window of more seconds than chrono holds, and below 2^63, makes every failure that is recorded
-- panic, whatever the table holds.
pub record_failure_panics :
    (c : Chrono) (config : AuthConfig) (key : Text) (now : ℕ) (entries : Entries)
    → c.longest < config.rate_limit_window_seconds
    → config.rate_limit_window_seconds < 2 ^ 63
    → 0 < config.rate_limit_max_failures
    → 0 < config.rate_limit_max_entries
    → record_failure c config key now entries ≡ none
unfolding record_failure retain_unexpired
record_failure_panics c config key now [] big small f m = rw (
  enabled config f m,
  make_room_empty c config key now m,
  answer_over c config key now big small,
  record_failure,
)
record_failure_panics c config key now (x ∷ entries) big small f m =
    rw (enabled config f m, window_expired_over c config x.1 now big small, record_failure)
