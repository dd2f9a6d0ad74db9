-- ===== src/RateLimit/Bounds.antt =====
-- The table of services/auth_rate_limit.rs stays bounded and well formed, and `record_failure`
-- does not panic.
use teatro.Prelude.{
  ℕ, min, ◌≤◌, ◌<◌, ◌≡◌, inl, inr, Bool, some, arith, length, length-retain-le, All, All-retain,
  Option-cases, nat_eq, list_eq, not, retain, ◌==◌,
}
use teatro.Prelude.Text.{Text}
use teatro.Table.{lookup, contains_key, insert, remove, Unique}
use teatro.Table.Laws.{
  retain-Unique, insert-Unique, length-insert, length-remove, All-lookup, All-insert,
}
use teatro.Chrono.{Chrono}
use teatro.RateLimit.{
  AuthConfig, RateLimitOutcome, RateLimitEntry, Entries, u32_max, entry_or_insert, fresh_entry,
  record_failure,
}
use teatro.RateLimit.Window.{InRange, expired_at}
use teatro.RateLimit.Failure.{unexpired, counted, HasRoom, as_is, evicts, record_failure_cases}

-- A count fits its `u32`, and who is locked out has failed often enough.
abbrev pub IsCounted : AuthConfig → Text × RateLimitEntry → Type 0
IsCounted config x =
    (x.1.failure_count ≤ u32_max)
    × ((t : ℕ)
        → x.1.locked_until ≡ some t
        → min config.rate_limit_max_failures u32_max ≤ x.1.failure_count)

pub record IsSound (config : AuthConfig) (entries : Entries) : Type 0 where
  pub unique : Unique entries
  pub bounded : length entries ≤ config.rate_limit_max_entries
  pub counts : All (IsCounted config) entries

counted-IsCounted :
    (config : AuthConfig) (key : Text) (entry : RateLimitEntry) (now : ℕ)
    → IsCounted config (key, entry)
    → IsCounted config (key, counted config entry now)
counted-IsCounted config key entry now h = (ground arith, λ t e. ground (arith, h.1 t))

retain-IsSound :
    (config : AuthConfig) (p : Text × RateLimitEntry → Bool) (entries : Entries)
    → IsSound config entries
    → IsSound config (retain p entries)
retain-IsSound config p entries s = record {
  unique = retain-Unique p entries s.unique;
  bounded = omega (arith, length-retain-le p entries, s.bounded);
  counts = All-retain (IsCounted config) p entries s.counts;
}

pub remove-IsSound :
    (config : AuthConfig) (k : Text) (entries : Entries)
    → IsSound config entries
    → IsSound config (remove k entries)
unfolding remove
remove-IsSound config k entries s =
    retain-IsSound config (λ (entry : Text × RateLimitEntry). not (entry.0 == k)) entries s

unexpired-IsSound :
    (config : AuthConfig) (now : ℕ) (entries : Entries)
    → IsSound config entries
    → IsSound config (unexpired config now entries)
unexpired-IsSound config now entries s =
    retain-IsSound config (λ (x : Text × RateLimitEntry). not (expired_at config now x.1)) entries s

module _ (config : AuthConfig) (key : Text) (now : ℕ) where
  entry-IsCounted :
      (room : Entries) (j : Text)
      → All (IsCounted config) room
      → IsCounted config (j, entry_or_insert key now room)
  unfolding entry_or_insert fresh_entry
  entry-IsCounted room j h = elim (Option-cases (lookup key room)) [
    | inl e ↦ rw (e, entry_or_insert) (omega arith, λ t e. cc)
    | inr (v, e) ↦ rw (e, entry_or_insert) (All-lookup (IsCounted config) key v room h e)
  ]

  abbrev next : Entries → Entries
  next room = insert key (counted config (entry_or_insert key now room) now) room

  room_bounded :
      (kept room : Entries)
      → HasRoom config key now kept room
      → length kept ≤ config.rate_limit_max_entries
      → length (next room) ≤ config.rate_limit_max_entries
  unfolding contains_key
  room_bounded kept room (as_is h e) s =
      rw e
        (ground (arith, length-insert key (counted config (entry_or_insert key now kept) now) kept))
  room_bounded kept room (evicts k v new e) s = rw e (
      ground (
        arith,
        length-insert key (counted config (entry_or_insert key now (remove k kept)) now)
            (remove k kept),
        length-remove k v.entry kept v.found,
      ))

  next-IsSound :
      (kept room : Entries)
      → HasRoom config key now kept room
      → IsSound config kept
      → IsSound config room
      → IsSound config (next room)
  next-IsSound kept room h s s' = record {
    unique = insert-Unique key _ room s'.unique;
    bounded = room_bounded kept room h s.bounded;
    counts = All-insert (IsCounted config) key _ room s'.counts (λ j.
        counted-IsCounted config j (entry_or_insert key now room) now
          (entry-IsCounted room j s'.counts));
  }

  room-IsSound :
      (kept room : Entries)
      → HasRoom config key now kept room
      → IsSound config kept
      → IsSound config room
  room-IsSound kept room (as_is h e) s = rw e s
  room-IsSound kept room (evicts k v new e) s = rw e (remove-IsSound config k kept s)

-- From a sound table and a configuration in range, a failure is recorded without a panic, and the
-- table that it leaves is sound: keys once, at most `rate_limit_max_entries` of them, every count
-- in a `u32`, and lockouts only where the failures reached the limit (or the largest `u32`).
pub record_failure-IsSound :
    (c : Chrono) (config : AuthConfig) (key : Text) (now : ℕ) (entries : Entries)
    → InRange c config now
    → 0 < config.rate_limit_max_failures
    → 0 < config.rate_limit_max_entries
    → IsSound config entries
    → (r : RateLimitOutcome × Entries) × (record_failure c config key now entries ≡ some r)
      × IsSound config r.1
record_failure-IsSound c config key now entries range f m s =
    let s' = unexpired-IsSound config now entries s in
    record_failure_cases c config (λ r. IsSound config r.1) key now entries range f m s.unique
      (λ room h.
        next-IsSound config key now (unexpired config now entries) room h s'
          (room-IsSound config key now (unexpired config now entries) room h s'))
      (λ t lt locked new. s')
