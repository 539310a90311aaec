-- ===== src/Rfc9111/Syntax.antt =====
-- rfc9111/1.2._syntax-notation.go: seconds and dates in header fields.
pub mod Laws
use always_cache.Base.{
  ℕ, Bool, true, false, ◌&&◌, [], ◌∷◌, Option, none, some, length, ◌==◌, if◌then◌else◌, ◌>>=◌, map,
}
use always_cache.Base.Int.{ℤ, pos}
use always_cache.Go.Strings.{Str, codes, same, to_upper}
use always_cache.Go.Conv.{parse_uint}
use always_cache.Go.Time.{Time, Duration, times_second}
use always_cache.Go.Http.{Platform}

unfoldable pub delta_seconds : Str → Option Duration
delta_seconds text = parse_uint text >>= λ seconds. some (times_second (pos seconds))

abbrev imf_date_layout : Str
imf_date_layout = codes "Mon, 02 Jan 2006 15:04:05 MST"

abbrev rfc850_layout : Str
rfc850_layout = codes "Monday, 02-Jan-06 15:04:05 MST"

abbrev ansic_layout : Str
ansic_layout = codes "Mon Jan _2 15:04:05 2006"

unfoldable pub normalize_date_str : Str → Str
normalize_date_str text = to_upper text

-- http.TimeFormat
abbrev time_format : Str
time_format = codes "Mon, 02 Jan 2006 15:04:05 GMT"

-- ToHttpDate, where a function gives date.UTC().Format(layout).
unfoldable pub to_http_date : (Time → Str → Str) → Time → Str
to_http_date utc_format date = utc_format date time_format

module _ (platform : Platform) where
  unfoldable pub to_delta_seconds : Duration → Str
  to_delta_seconds duration = platform.seconds_text duration

  unfoldable pub imf_date : Str → Option Time
  unfolding normalize_date_str
  imf_date text = platform.parse_time imf_date_layout (normalize_date_str text) >>= λ (date, zone).
      if same zone (codes "GMT") && length text == length imf_date_layout then some date else none

  abbrev date_only : Option (Time × Str) → Option Time
  date_only none = none
  date_only (some (date, zone)) = some date

  unfoldable pub obs_date : Str → Option Time
  unfolding normalize_date_str
  obs_date text =
      let str = normalize_date_str text in
      elim (platform.parse_time rfc850_layout str) [
        | some (date, zone) ↦ some date
        | none ↦ date_only (platform.parse_time ansic_layout str)
      ]

  -- HttpDate; the source returns the first of the two errors.
  unfoldable pub http_date : Str → Option Time
  http_date text = elim (imf_date text) [ some date ↦ some date | none ↦ obs_date text ]
