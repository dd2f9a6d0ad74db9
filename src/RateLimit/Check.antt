-- ===== src/RateLimit/Check.antt =====
-- `check` of services/auth_rate_limit.rs: whom it rejects, what it tells them, and how long a
-- lockout really lasts.
use teatro.Prelude.{
  ℕ, ◌+◌, ◌*◌, ◌≤◌, ◌<◌, ◌≡◌, ◌∙◌, list_beq_iff, ◌⊎◌, inl, inr, true, false, none, some, arith,
  nat_eq, list_eq, Bool-cases, Option-cases, if◌then◌else◌, nat_beq,
}
use teatro.Prelude.Text.{Text}
use teatro.Table.{lookup, insert, remove}
use teatro.Table.Laws.{lookup-remove}
use teatro.Chrono.{Chrono, nanos, seconds_until}
use teatro.RateLimit.{
  AuthConfig, RateLimitRejection, RateLimitEntry, Entries, rejection, retry_after_seconds, check,
}
use teatro.RateLimit.Window.{expired_at, window_end, window_expired_lem}

-- A rejection speaks of a lock of the key that has not run out, and the seconds that it tells are
-- the whole seconds that are left, but at least one.
pub record Rejects (config : AuthConfig) (now : ℕ) (e : RateLimitEntry) (r : RateLimitRejection)
    : Type 0 where
  pub locked : e.locked_until ≡ some r.locked_until
  pub ahead : now < r.locked_until
  pub in_window : now ≤ window_end config e
  pub count : r.failure_count ≡ e.failure_count
  pub at_least : 1 ≤ r.retry_after_seconds
  pub not_late :
      (r.retry_after_seconds ≡ 1) ⊎ (now + r.retry_after_seconds * nanos ≤ r.locked_until)
  pub not_early : r.locked_until < now + (r.retry_after_seconds + 1) * nanos

rejection-Rejects :
    (config : AuthConfig) (now : ℕ) (e : RateLimitEntry) (r : RateLimitRejection)
    → now ≤ window_end config e
    → rejection e now ≡ some r
    → Rejects config now e r
unfolding rejection retry_after_seconds seconds_until
rejection-Rejects config now e r w h = ground arith

module _ (c : Chrono) (config : AuthConfig) where
  -- `check` at a key with an entry.
  check_found :
      (key : Text) (now : ℕ) (entries : Entries) (e : RateLimitEntry)
      → config.rate_limit_window_seconds ≤ c.longest
      → 0 < config.rate_limit_max_failures
      → lookup key entries ≡ some e
      → check c config key now entries ≡ (
          if expired_at config now e
          then some (none, remove key entries)
          else some (rejection e now, insert key (record e { last_seen_at = now }) entries))
  unfolding check
  check_found key now entries e w f l =
      let on : nat_beq config.rate_limit_max_failures 0 ≡ false = ground arith in
      rw (on, l, window_expired_lem c config e now w, check)

  check_off :
      (key : Text) (now : ℕ) (entries : Entries)
      → nat_beq config.rate_limit_max_failures 0 ≡ true
      → check c config key now entries ≡ some (none, entries)
  unfolding check
  check_off key now entries off = rw (off, check)

  check_missing :
      (key : Text) (now : ℕ) (entries : Entries)
      → nat_beq config.rate_limit_max_failures 0 ≡ false
      → lookup key entries ≡ none
      → check c config key now entries ≡ some (none, entries)
  unfolding check
  check_missing key now entries on l = rw (on, l, check)

  -- Whoever is rejected has an entry that is locked out in its window, and is told the whole
  -- seconds that are left, but at least one.
  pub check-rejected :
      (key : Text) (now : ℕ) (entries entries' : Entries) (r : RateLimitRejection)
      → config.rate_limit_window_seconds ≤ c.longest
      → check c config key now entries ≡ some (some r, entries')
      → (0 < config.rate_limit_max_failures)
        × ((e : RateLimitEntry) × (lookup key entries ≡ some e) × Rejects config now e r)
  check-rejected key now entries entries' r w h =
      elim (Bool-cases (nat_beq config.rate_limit_max_failures 0)) [
        | inl off ↦ cc (check_off key now entries off)
        | inr on ↦ elim (Option-cases (lookup key entries)) [
          | inl missing ↦ cc (check_missing key now entries on missing)
          | inr (e, l) ↦
              let f : 0 < config.rate_limit_max_failures = ground arith in
              let found = check_found key now entries e w f l in
              elim (Bool-cases (expired_at config now e)) [
                | inl outside ↦ cc (rw outside at found)
                | inr inside ↦
                    let kept = rw inside at found in
                    (f, (e, l, rejection-Rejects config now e r (ground arith) (cc kept)))
              ]
        ]
      ]

  -- A key that is locked out in its window is rejected, and only its last sight changes.
  pub check-Rejects :
      (key : Text) (now t : ℕ) (entries : Entries) (e : RateLimitEntry)
      → config.rate_limit_window_seconds ≤ c.longest
      → 0 < config.rate_limit_max_failures
      → lookup key entries ≡ some e
      → e.locked_until ≡ some t
      → now < t
      → now ≤ window_end config e
      → (r : RateLimitRejection) × (check c config key now entries
          ≡ some (some r, insert key (record e { last_seen_at = now }) entries))
        × Rejects config now e r
  unfolding rejection
  check-Rejects key now t entries e w f l lt h win =
      let inside : expired_at config now e ≡ false = ground arith in
      let r : RateLimitRejection = record {
        failure_count = e.failure_count;
        locked_until = t;
        retry_after_seconds = retry_after_seconds now t;
      } in
      let here : rejection e now ≡ some r = ground arith in
      (
        r,
        check_found key now entries e w f l ∙ rw (inside, here),
        rejection-Rejects config now e r win here,
      )

  -- The end of the window lifts a lockout that still has time to run: the key is let through, and
  -- its entry with the lock is dropped.
  pub check_after_window :
      (key : Text) (now t : ℕ) (entries : Entries) (e : RateLimitEntry)
      → config.rate_limit_window_seconds ≤ c.longest
      → lookup key entries ≡ some e
      → e.locked_until ≡ some t
      → now < t
      → window_end config e < now
      → (0 < config.rate_limit_max_failures)
      → (check c config key now entries ≡ some (none, remove key entries))
        × (lookup key (remove key entries) ≡ none)
  check_after_window key now t entries e w l lt h win f =
      let outside : expired_at config now e ≡ true = ground arith in
      (
        check_found key now entries e w f l ∙ rw outside,
        lookup-remove key key entries ∙ ground (arith, list_beq_iff key key),
      )
