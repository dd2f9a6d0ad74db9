-- ===== src/RateLimit/Lockout.antt =====
-- A run of failures of one key in services/auth_rate_limit.rs ends in a lockout.
use mathlib.Core.Option.{some-injective}
use teatro.Prelude.{
  ℕ, ◌+◌, ◌*◌, ◌≤◌, ◌<◌, ◌≡◌, refl, sym, subst, ◌∙◌, Option, some, List, [], ◌∷◌, ◌++◌, arith,
  nat_eq, list_eq, list_beq_iff, length, All, ◌>>=◌,
}
use teatro.Prelude.Text.{Text}
use teatro.Table.{lookup, insert, contains_key}
use teatro.Table.Laws.{lookup-insert, contains_key_found}
use teatro.Chrono.{Chrono, nanos}
use teatro.RateLimit.{
  AuthConfig, RateLimitOutcome, RateLimitRejection, RateLimitEntry, Entries, u32_max,
  entry_or_insert, record_failure, check,
}
use teatro.RateLimit.Window.{InRange, window_end}
use teatro.RateLimit.Failure.{
  unexpired, counted, HasRoom, as_is, evicts, recorded, record_failure_cases,
}
use teatro.RateLimit.Bounds.{IsSound, record_failure-IsSound}
use teatro.RateLimit.Protection.{lookup-unexpired}
use teatro.RateLimit.Check.{check-Rejects}

-- Failures of one key at the given times, one after the other.
pub failures : Chrono → AuthConfig → Text → Entries → List ℕ → Option Entries
failures c config key entries [] = some entries
failures c config key entries (t ∷ ts) = do
  r ← record_failure c config key t entries
  failures c config key r.1 ts

module _ (c : Chrono) (config : AuthConfig) (key : Text) where
  counted_room :
      (now : ℕ) (kept room : Entries) (e : RateLimitEntry)
      → HasRoom config key now kept room
      → lookup key kept ≡ some e
      → lookup key (recorded c config key now room).1 ≡ some (counted config e now)
  unfolding contains_key entry_or_insert
  counted_room now kept room e (as_is h eq) l = rw eq (
      lookup-insert key key (counted config (entry_or_insert key now kept) now) kept
      ∙ rw ((list_beq_iff key key).1 refl, l, entry_or_insert))
  counted_room now kept room e (evicts k v new eq) l = cc

  -- One failure more of a key whose window is open.
  step :
      (now : ℕ) (entries : Entries) (e : RateLimitEntry)
      → InRange c config now
      → 0 < config.rate_limit_max_failures
      → 0 < config.rate_limit_max_entries
      → IsSound config entries
      → lookup key entries ≡ some e
      → now ≤ window_end config e
      → (r : RateLimitOutcome × Entries) × (record_failure c config key now entries ≡ some r)
        × IsSound config r.1
        × (lookup key r.1 ≡ some (counted config e now))
  step now entries e range f m s l w =
      let (r, eq, s') = record_failure-IsSound c config key now entries range f m s in
      let kept = lookup-unexpired config now key e entries s.unique l w in
      let (q, eq', l') =
        record_failure_cases c config (λ q. lookup key q.1 ≡ some (counted config e now)) key now
          entries range f m s.unique
          (λ room h. counted_room now (unexpired config now entries) room e h kept)
          (λ t lt locked new. cc (contains_key_found key e (unexpired config now entries) kept)) in
      (
        r,
        eq,
        s',
        subst (λ (x : RateLimitOutcome × Entries). lookup key x.1 ≡ some (counted config e now))
            (some-injective _ _ (sym eq' ∙ eq)) l',
      )

  -- Failures of a key in its window, which together with those before reach the limit, are all
  -- recorded without a panic; then for the length of the lockout after the last one, while the
  -- window lasts, `check` rejects the key.
  pub lockout_after_failures :
      (ts : List ℕ) (t now : ℕ) (entries : Entries) (e : RateLimitEntry)
      → All (InRange c config) (ts ++ t ∷ [])
      → All (λ s. s ≤ window_end config e) (ts ++ t ∷ [])
      → 0 < config.rate_limit_max_failures
      → config.rate_limit_max_failures ≤ u32_max
      → 0 < config.rate_limit_max_entries
      → IsSound config entries
      → lookup key entries ≡ some e
      → config.rate_limit_max_failures ≤ e.failure_count + length ts + 1
      → now < t + config.rate_limit_lockout_seconds * nanos
      → now ≤ window_end config e
      → (after : Entries) × (failures c config key entries (ts ++ t ∷ []) ≡ some after)
        × ((r : RateLimitRejection) × (later : Entries) × (check c config key now after
              ≡ some (some r, later)))
  unfolding failures
  lockout_after_failures [] t now entries e range inside f f32 m s l n h w =
      let (r, eq, s', l') = step t entries e range.0 f m s l inside.0 in
      let (rej, er, _) =
        check-Rejects c config key now (t + config.rate_limit_lockout_seconds * nanos) r.1
          (counted config e t) range.0.window_fits f l' (ground arith) h (ground arith) in
      (r.1, rw eq, (rej, insert key (record (counted config e t) { last_seen_at = now }) r.1, er))
  lockout_after_failures (u ∷ ts) t now entries e range inside f f32 m s l n h w =
      let (r, eq, s', l') = step u entries e range.0 f m s l inside.0 in
      let same : window_end config e ≡ window_end config (counted config e u) = ground arith in
      let (after, run, rejected) =
        lockout_after_failures ts t now r.1 (counted config e u) range.1
          (subst (λ (end : ℕ). All (λ s. s ≤ end) (ts ++ t ∷ [])) same inside.1) f f32 m s' l'
          (ground arith) h (ground arith) in
      (after, rw eq run, rejected)
