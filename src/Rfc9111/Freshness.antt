-- ===== src/Rfc9111/Freshness.antt =====
-- rfc9111/4.2.0-freshness.go, 4.2.1._calculating-freshness-lifetime.go and 5.3._expires.go. One
-- reading of the clock, `now`, stands for those that one call makes.
pub mod Laws
use always_cache.Base.{ℕ, Bool, Option, none, some, if◌then◌else◌}
use always_cache.Base.Int.{ℤ, pos, ltb_ℤ, eqb_ℤ}
use always_cache.Go.Strings.{codes}
use always_cache.Go.Header.{get, values}
use always_cache.Go.Time.{Time, Duration, zero_time, sub, add}
use always_cache.Go.Http.{Platform, Response}
use always_cache.Rfc9111.Syntax.{http_date}
use always_cache.Rfc9111.CacheControl.{parse_cache_control, max_age, s_max_age}
use always_cache.Rfc9111.Age.{current_age}

module _ (platform : Platform) where
  unfoldable pub get_expires : Response → Option Time
  get_expires res = http_date platform (get res.header (codes "Expires"))

  -- The lifetime that the Expires and Date fields give, and 0 with no valid Expires field.
  unfoldable pub expires_lifetime : Time → Response → Duration
  unfolding get_expires
  expires_lifetime now res = elim (get_expires res) [
    | none ↦ pos 0
    | some expires ↦ elim (http_date platform (get res.header (codes "Date"))) [
      | some date ↦ sub expires date
      | none ↦ sub expires now
    ]
  ]

  unfoldable pub freshness_lifetime : Time → Response → Duration
  unfolding expires_lifetime
  freshness_lifetime now res =
      let cc' = parse_cache_control (values res.header (codes "Cache-Control")) in
      elim (s_max_age cc') [
        | some val ↦ val
        | none ↦ elim (max_age cc') [ some val ↦ val | none ↦ expires_lifetime now res ]
      ]

  unfoldable pub is_fresh : Time → Response → Time → Time → Bool
  is_fresh now res response_time request_time =
      ltb_ℤ (current_age platform now res response_time request_time) (freshness_lifetime now res)

  unfoldable pub get_expiration : Time → Response → Time
  get_expiration now res =
      let ttl = freshness_lifetime now res in if eqb_ℤ ttl (pos 0) then zero_time else add now ttl

  -- TimeToLive, where a function gives int(math.Round(lifetime.Seconds() - age.Seconds())), which is
  -- arithmetic with float64.
  unfoldable pub time_to_live : (Duration → Duration → ℤ) → Time → Response → Time → Time → ℤ
  time_to_live rounded_seconds now res response_time request_time =
      rounded_seconds (freshness_lifetime now res)
        (current_age platform now res response_time request_time)
