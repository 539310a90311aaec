-- ===== src/Rfc9111/Age/Laws.antt =====
-- The age of a stored response: the standard's formula, and where it overflows.
use always_cache.Base.{[], ◌≡◌, arith, if◌then◌else◌}
use always_cache.Base.Int.{
  ℤ, pos, ◌+ℤ◌, ◌-ℤ◌, ◌≤ℤ◌, ◌<ℤ◌, FitsInt64, max_int64, wrap64_fits, clamp64, clamp64_fits, ltb_ℤ,
}
use always_cache.Go.Strings.{codes}
use always_cache.Go.Header.{get}
use always_cache.Go.Time.{Time, Duration, zero_time, sub, plus}
use always_cache.Go.Http.{Platform, Response}
use always_cache.Rfc9111.Age.{age_value, duration_max, date_value, current_age}

sub_exact : (t u : Time) → FitsInt64 (t -ℤ u) → sub t u ≡ t -ℤ u
unfolding sub
sub_exact t u h = clamp64_fits (t -ℤ u) h

plus_exact : (d e : Duration) → FitsInt64 (d +ℤ e) → plus d e ≡ d +ℤ e
unfolding plus
plus_exact d e h = wrap64_fits (d +ℤ e) h

-- The greater of two integers.
abbrev pub max_ℤ : ℤ → ℤ → ℤ
max_ℤ a b = if ltb_ℤ b a then a else b

-- The standard's current_age, with integers that have no bound.
abbrev pub exact_age : Time → Duration → Time → Time → Time → ℤ
exact_age now age date response_time request_time =
    max_ℤ (max_ℤ (pos 0) (response_time -ℤ date)) (age +ℤ (response_time -ℤ request_time))
    +ℤ (now -ℤ response_time)

-- Where no difference and no sum leaves the range of a duration, the age is the standard's.
pub current_age_exact :
    (platform : Platform) (now : Time) (res : Response) (response_time request_time : Time)
    → FitsInt64 (response_time -ℤ date_value platform res)
    → FitsInt64 (response_time -ℤ request_time)
    → FitsInt64 (age_value res +ℤ (response_time -ℤ request_time))
    → FitsInt64 (now -ℤ response_time)
    → FitsInt64 (exact_age now (age_value res) (date_value platform res) response_time request_time)
    → current_age platform now res response_time request_time
      ≡ exact_age now (age_value res) (date_value platform res) response_time request_time
unfolding current_age duration_max
current_age_exact platform now res response_time request_time h₁ h₂ h₃ h₄ h₅ =
    rw
      (
        sub_exact response_time (date_value platform res) h₁,
        sub_exact response_time request_time h₂,
        plus_exact (age_value res) _ h₃,
        sub_exact now response_time h₄,
      )
      (plus_exact _ _ h₅)

date_value_missing :
    (platform : Platform) (res : Response)
    → get res.header (codes "Date") ≡ []
    → date_value platform res ≡ zero_time
unfolding date_value
date_value_missing platform res h = rw h

sub-zero_time : (t : Time) → pos 0 ≤ℤ t → sub t zero_time ≡ max_int64
unfolding sub ◌-ℤ◌
sub-zero_time t h = ground arith

sub_pos : (t u : Time) → u <ℤ t → pos 0 <ℤ sub t u
unfolding sub ◌-ℤ◌
sub_pos t u h = ground arith

sub-FitsInt64 : (t u : Time) → FitsInt64 (sub t u)
unfolding sub clamp64
sub-FitsInt64 t u = ground arith

plus_max : (d : Duration) → FitsInt64 d → pos 0 <ℤ d → plus max_int64 d <ℤ pos 0
unfolding plus
plus_max d f h = ground arith

max_max : (d : Duration) → FitsInt64 d → duration_max max_int64 d ≡ max_int64
unfolding duration_max
max_max d f = ground arith

plus-FitsInt64 : (d e : Duration) → FitsInt64 (plus d e)
unfolding plus
plus-FitsInt64 d e = ground arith

-- A response without a Date field, received since 1970, has a negative age as soon as the clock has
-- moved on.
pub current_age_dateless :
    (platform : Platform) (now : Time) (res : Response) (response_time request_time : Time)
    → get res.header (codes "Date") ≡ []
    → pos 0 ≤ℤ response_time
    → response_time <ℤ now
    → current_age platform now res response_time request_time <ℤ pos 0
unfolding current_age
current_age_dateless platform now res response_time request_time h k l =
    rw
      (
        date_value_missing platform res h,
        sub-zero_time response_time k,
        max_max (plus (age_value res) (sub response_time request_time)) (plus-FitsInt64 _ _),
      )
      (plus_max (sub now response_time) (sub-FitsInt64 now response_time)
        (sub_pos now response_time l))
