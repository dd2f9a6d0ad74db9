-- ===== src/Chrono.antt =====
-- What the program uses of the `chrono` crate: instants (`DateTime<Utc>`) and signed durations.
-- An instant is counted in nanoseconds from the first one that chrono represents, a duration in
-- nanoseconds. The two limits of the crate are parameters; passing one of them panics there, and
-- is `none` here.
pub mod Laws
use teatro.Prelude.{
  ℕ, ◌+◌, ◌-◌, ◌*◌, ◌/◌, ◌^◌, ◌<◌, Bool, ◌&&◌, Option, none, some, ltb, leb, if◌then◌else◌,
}
use teatro.Prelude.Int.{ℤ, pos, negsuc, pos_part, neg_part}

pub record Chrono : Type 0 where
  -- The last instant, and the most seconds that a duration holds, which are below `i64::MAX`.
  pub latest : ℕ
  pub longest : ℕ
  pub longest_fits : longest < 2 ^ 63

abbrev pub nanos : ℕ
nanos = 1_000_000_000

-- `seconds as i64` of a `u64`.
unfoldable pub as_i64 : ℕ → ℤ
as_i64 s = if ltb s (2 ^ 63) then pos s else negsuc (2 ^ 64 - s - 1)

-- `Duration::seconds`.
unfoldable pub seconds : Chrono → ℤ → Option ℤ
seconds c (pos s) = if leb s c.longest then some (pos (s * nanos)) else none
seconds c (negsuc s) = if ltb s c.longest then some (negsuc ((s + 1) * nanos - 1)) else none

-- `now.signed_duration_since(start) > window`.
unfoldable pub since_exceeds : ℕ → ℕ → ℤ → Bool
since_exceeds now start window = ltb (start + pos_part window) (now + neg_part window)

-- `now + delta`.
unfoldable pub add_duration : Chrono → ℕ → ℤ → Option ℕ
add_duration c now delta =
    if leb (neg_part delta) (now + pos_part delta)
      && leb (now + pos_part delta - neg_part delta) c.latest
    then some (now + pos_part delta - neg_part delta)
    else none

-- `until.signed_duration_since(now).num_seconds()`, where the negative values are only ever read
-- through `max(1)`.
unfoldable pub seconds_until : ℕ → ℕ → ℕ
seconds_until now until = (until - now) / nanos
