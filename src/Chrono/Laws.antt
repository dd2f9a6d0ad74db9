-- ===== src/Chrono/Laws.antt =====
-- Durations of a number of seconds that chrono represents.
use teatro.Prelude.{ℕ, ◌+◌, ◌*◌, ◌≤◌, ◌≡◌, some, arith}
use teatro.Prelude.Int.{pos}
use teatro.Chrono.{Chrono, nanos, as_i64, seconds, add_duration}

pub seconds-as_i64 :
    (c : Chrono) (s : ℕ) → s ≤ c.longest → seconds c (as_i64 s) ≡ some (pos (s * nanos))
unfolding seconds as_i64
seconds-as_i64 c s h = ground (arith, c.longest_fits)

pub add_duration_lem :
    (c : Chrono) (now delta : ℕ)
    → now + delta ≤ c.latest
    → add_duration c now (pos delta) ≡ some (now + delta)
unfolding add_duration
add_duration_lem c now delta h = ground arith
