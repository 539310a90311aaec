-- ===== src/Rfc9111/Age.antt =====
-- rfc9111/5.1._age.go and 4.2.3._calculating-age.go: the age of a stored response. `now` is the
-- reading of the clock.
pub mod Laws
use always_cache.Base.{ℕ, Bool, true, false, Option, none, some, if◌then◌else◌}
use always_cache.Base.Int.{ℤ, pos, ltb_ℤ}
use always_cache.Go.Strings.{Str, codes, is_empty, split_first}
use always_cache.Go.Header.{get, set}
use always_cache.Go.Time.{Time, Duration, zero_time, sub, plus}
use always_cache.Go.Http.{Platform, Response}
use always_cache.Rfc9111.Syntax.{delta_seconds, http_date, to_delta_seconds}

-- The first member of the field, up to its parameters.
unfoldable pub get_age : Response → Option Duration
get_age res =
    let list_first = split_first (get res.header (codes "Age")) (codes ", ") in
    let first_param = split_first list_first (codes ";") in
    if is_empty first_param then none else delta_seconds first_param

unfoldable pub age_value : Response → Duration
age_value res = elim (get_age res) [ some age ↦ age | none ↦ pos 0 ]

unfoldable pub duration_max : Duration → Duration → Duration
duration_max d₁ d₂ = if ltb_ℤ d₂ d₁ then d₁ else d₂

unfoldable pub response_delay : Time → Time → Duration
response_delay response_time request_time = sub response_time request_time

unfoldable pub corrected_age_value : Response → Time → Time → Duration
unfolding response_delay
corrected_age_value res response_time request_time =
    plus (age_value res) (response_delay response_time request_time)

unfoldable pub resident_time : Time → Time → Duration
resident_time now response_time = sub now response_time

module _ (platform : Platform) where
  -- The zero time where the Date field is missing or is no date.
  unfoldable pub date_value : Response → Time
  date_value res =
      let date_header = get res.header (codes "Date") in
      if is_empty date_header
      then zero_time
      else elim (http_date platform date_header) [ some date ↦ date | none ↦ zero_time ]

  unfoldable pub apparent_age : Response → Time → Duration
  unfolding duration_max
  apparent_age res response_time = duration_max (pos 0) (sub response_time (date_value res))

  unfoldable pub corrected_initial_age : Response → Time → Time → Duration
  unfolding duration_max apparent_age corrected_age_value
  corrected_initial_age res response_time request_time =
      duration_max (apparent_age res response_time)
        (corrected_age_value res response_time request_time)

  unfoldable pub current_age : Time → Response → Time → Time → Duration
  unfolding corrected_initial_age resident_time
  current_age now res response_time request_time =
      plus (corrected_initial_age res response_time request_time) (resident_time now response_time)

  -- AddAgeHeader of rfc9111.go.
  unfoldable pub add_age_header : Time → Response → Time → Time → Response
  unfolding current_age to_delta_seconds
  add_age_header now res response_time request_time = record res {
    header =
        set res.header (codes "Age")
          (to_delta_seconds platform (current_age now res response_time request_time));
  }
