-- ===== src/RateLimit/Window.antt =====
-- The window tests of services/auth_rate_limit.rs where the configured durations are ones that
-- chrono represents: then nothing panics, and each test is one comparison.
use teatro.Prelude.{
  ℕ, ◌+◌, ◌*◌, list_eq, nat_eq, ◌≤◌, ◌≡◌, refl, Bool, not, Option, some, [], ◌∷◌, arith, ltb, leb,
  retain, if◌then◌else◌,
}
use teatro.Chrono.{Chrono, nanos}
use teatro.Chrono.Laws.{seconds-as_i64, add_duration_lem}
use teatro.RateLimit.{
  AuthConfig, RateLimitEntry, Entries, window_expired, retain_unexpired, lock_at,
}

-- The durations fit, and so does the end of a lockout that starts now.
pub record InRange (c : Chrono) (config : AuthConfig) (now : ℕ) : Type 0 where
  pub window_fits : config.rate_limit_window_seconds ≤ c.longest
  pub lockout_fits : config.rate_limit_lockout_seconds ≤ c.longest
  pub end_fits : now + config.rate_limit_lockout_seconds * nanos ≤ c.latest

abbrev pub window_end : AuthConfig → RateLimitEntry → ℕ
window_end config entry = entry.window_started_at + config.rate_limit_window_seconds * nanos

abbrev pub expired_at : AuthConfig → ℕ → RateLimitEntry → Bool
expired_at config now entry = ltb (window_end config entry) now

module _ (c : Chrono) (config : AuthConfig) where
  pub window_expired_lem :
      (entry : RateLimitEntry) (now : ℕ)
      → config.rate_limit_window_seconds ≤ c.longest
      → window_expired c config entry now ≡ some (expired_at config now entry)
  unfolding window_expired
  window_expired_lem entry now h =
      rw (seconds-as_i64 c config.rate_limit_window_seconds h, window_expired) (ground arith)

  pub retain_unexpired_lem :
      (now : ℕ) (entries : Entries)
      → config.rate_limit_window_seconds ≤ c.longest
      → retain_unexpired c config now entries
        ≡ some (retain (λ x. not (expired_at config now x.1)) entries)
  unfolding retain_unexpired
  retain_unexpired_lem now [] h = refl
  retain_unexpired_lem now ((k, e) ∷ rest) h =
      rw (window_expired_lem e now h, retain_unexpired_lem now rest h) (ground arith)

  pub lock_at_lem :
      (count : ℕ) (locked : Option ℕ) (now : ℕ)
      → InRange c config now
      → lock_at c config count locked now ≡ (
          if leb config.rate_limit_max_failures count
          then some (some (now + config.rate_limit_lockout_seconds * nanos))
          else some locked)
  unfolding lock_at
  lock_at_lem count locked now h =
      rw (seconds-as_i64 c config.rate_limit_lockout_seconds h.lockout_fits, lock_at)
        (ground
          (arith, add_duration_lem c now (config.rate_limit_lockout_seconds * nanos) h.end_fits))
