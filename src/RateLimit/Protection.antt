-- ===== src/RateLimit/Protection.antt =====
-- What recording a failure of one key does to the others in services/auth_rate_limit.rs.
use teatro.Prelude.{
  ℕ, ◌≤◌, ◌<◌, ◌≡◌, ◌∙◌, ◌≢◌, none, some, arith, nat_eq, list_eq, not, ◌==◌, list_beq_iff,
  if◌then◌else◌,
}
use teatro.Prelude.Text.{Text}
use teatro.Table.{lookup, Unique}
use teatro.Table.Laws.{lookup-insert, lookup-remove, lookup-retain}
use teatro.Chrono.{Chrono}
use teatro.RateLimit.{
  AuthConfig, RateLimitOutcome, RateLimitEntry, Entries, is_unlocked, entry_or_insert,
  record_failure, record_success,
}
use teatro.RateLimit.Window.{InRange, expired_at, window_end}
use teatro.RateLimit.Failure.{unexpired, counted, HasRoom, as_is, evicts, record_failure_cases}

pub lookup-unexpired :
    (config : AuthConfig) (now : ℕ) (j : Text) (e : RateLimitEntry) (entries : Entries)
    → Unique entries
    → lookup j entries ≡ some e
    → now ≤ window_end config e
    → lookup j (unexpired config now entries) ≡ some e
lookup-unexpired config now j e entries u l h =
    lookup-retain (λ (x : Text × RateLimitEntry). not (expired_at config now x.1)) j entries u
    ∙ rw l (ground arith)

lookup-room :
    (config : AuthConfig) (key : Text) (now t : ℕ) (j : Text) (e : RateLimitEntry)
    (kept room : Entries)
    → HasRoom config key now kept room
    → lookup j kept ≡ some e
    → e.locked_until ≡ some t
    → now < t
    → lookup j room ≡ some e
unfolding is_unlocked
lookup-room config key now t j e kept room (as_is h eq) l lt h' = rw eq l
lookup-room config key now t j e kept room (evicts k v new eq) l lt h' =
    rw eq (ground (arith, lookup-remove k j kept, list_beq_iff k j, v.found, v.unlocked))

-- Recording a failure of another key leaves a key that is locked out, in its window, as it was:
-- neither the count nor the eviction from a full table touches it.
pub record_failure_keeps_lock :
    (c : Chrono) (config : AuthConfig) (key j : Text) (now t : ℕ) (entries : Entries)
    (e : RateLimitEntry)
    → InRange c config now
    → 0 < config.rate_limit_max_failures
    → 0 < config.rate_limit_max_entries
    → Unique entries
    → key ≢ j
    → lookup j entries ≡ some e
    → e.locked_until ≡ some t
    → now < t
    → now ≤ window_end config e
    → (r : RateLimitOutcome × Entries) × (record_failure c config key now entries ≡ some r)
      × (lookup j r.1 ≡ some e)
record_failure_keeps_lock c config key j now t entries e range f m u ne l lt h w =
    let kept = lookup-unexpired config now j e entries u l w in
    record_failure_cases c config (λ r. lookup j r.1 ≡ some e) key now entries range f m u
      (λ room has.
        lookup-insert key j (counted config (entry_or_insert key now room) now) room
        ∙ ground (
          arith,
          list_beq_iff key j,
          lookup-room config key now t j e (unexpired config now entries) room has kept lt h,
        ))
      (λ t lt locked new. kept)

-- After a success the key is forgotten, and every other key is as it was.
pub lookup-record_success :
    (key j : Text) (entries : Entries)
    → lookup j (record_success key entries) ≡ (if key == j then none else lookup j entries)
unfolding record_success
lookup-record_success key j entries = lookup-remove key j entries
