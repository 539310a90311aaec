-- ===== src/Rfc9111/Syntax/Laws.antt =====
-- Seconds read from a field: where they are exact, and where the product wraps around.
use always_cache.Base.{ℕ, ◌+◌, ◌*◌, ◌≤◌, ◌≡◌, refl, some, arith, ap}
use always_cache.Base.Int.{pos, ◌<ℤ◌}
use always_cache.Go.Strings.{Str}
use always_cache.Go.Conv.{parse_uint, format_uint}
use always_cache.Go.Conv.Laws.{parse_uint-format_uint}
use always_cache.Go.Time.{Duration, nanos, times_second}
use always_cache.Rfc9111.Syntax.{delta_seconds}

-- The greatest number of whole seconds that a duration holds.
abbrev pub max_seconds : ℕ
max_seconds = 9223372036

times_second_exact : (n : ℕ) → n ≤ max_seconds → times_second (pos n) ≡ pos (n * nanos)
unfolding times_second
times_second_exact n h = ground arith

times_second_negative :
    (n : ℕ) → max_seconds + 1 ≤ n → n ≤ 2 * max_seconds → times_second (pos n) <ℤ pos 0
unfolding times_second
times_second_negative n h k = ground arith

-- A decimal number of seconds that a duration can hold is read exactly.
pub delta_seconds-format_uint :
    (n : ℕ) → n ≤ max_seconds → delta_seconds (format_uint n) ≡ some (pos (n * nanos))
unfolding delta_seconds
delta_seconds-format_uint n h =
    rw (parse_uint-format_uint n (omega arith)) (ap some (times_second_exact n h))

-- From 9223372037 seconds on, up to twice that, the duration that is read is negative.
pub delta_seconds_negative :
    (text : Str) (n : ℕ)
    → parse_uint text ≡ some n
    → max_seconds + 1 ≤ n
    → n ≤ 2 * max_seconds
    → (d : Duration) × (delta_seconds text ≡ some d) × (d <ℤ pos 0)
unfolding delta_seconds
delta_seconds_negative text n e h k = (times_second (pos n), rw e refl, times_second_negative n h k)
