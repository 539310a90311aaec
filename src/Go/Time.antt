-- ===== src/Go/Time.antt =====
-- Package time. A time is its distance from the Unix epoch in nanoseconds, without bound and
-- without a monotonic reading; a duration is an int64 number of nanoseconds.
use always_cache.Base.{ℕ, ◌-◌, ◌*◌, ◌/◌}
use always_cache.Base.Int.{ℤ, pos, negsuc, ◌+ℤ◌, ◌-ℤ◌, ◌*ℤ◌, wrap64, clamp64}

abbrev pub Time : Type 0
Time = ℤ

abbrev pub Duration : Type 0
Duration = ℤ

abbrev pub nanos : ℕ
nanos = 1000000000

-- time.Time{}: midnight of the first of January of the year 1.
abbrev pub zero_time : Time
zero_time = negsuc (62135596800 * nanos - 1)

-- t.Sub(u), which stops at the least and the greatest duration.
unfoldable pub sub : Time → Time → Duration
unfolding clamp64 ◌-ℤ◌
sub t u = clamp64 (t -ℤ u)

-- t.Add(d)
unfoldable pub add : Time → Duration → Time
unfolding ◌+ℤ◌
add t d = t +ℤ d

-- time.Unix(seconds, 0)
unfoldable pub of_unix : ℤ → Time
unfolding ◌*ℤ◌
of_unix seconds = seconds *ℤ pos nanos

-- t.Unix(), rounded down.
unfoldable pub unix : Time → ℤ
unix (pos n) = pos (n / nanos)
unix (negsuc n) = negsuc (n / nanos)

-- time.Second * time.Duration(n) for an int64 or a uint64 `n`: the conversion and the product wrap.
unfoldable pub times_second : ℤ → Duration
unfolding wrap64 ◌*ℤ◌
times_second n = wrap64 (wrap64 n *ℤ pos nanos)

-- The sum of two durations wraps.
unfoldable pub plus : Duration → Duration → Duration
unfolding wrap64 ◌+ℤ◌
plus d e = wrap64 (d +ℤ e)
