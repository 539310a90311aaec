-- ===== src/Rfc9111/Freshness/Laws.antt =====
-- Freshness: its end, and responses without a Date field.
use always_cache.Base.{[], true, false, ◌≡◌, ◌↔◌, refl, arith}
use always_cache.Base.Int.{ℤ, pos, ◌≤ℤ◌, ◌<ℤ◌, ◌+ℤ◌, ◌-ℤ◌, eqb_ℤ, FitsInt64}
use always_cache.Go.Strings.{codes}
use always_cache.Go.Header.{get}
use always_cache.Go.Time.{Time, Duration, add}
use always_cache.Go.Http.{Platform, Response}
use always_cache.Rfc9111.Age.Laws.{current_age_dateless, current_age_exact, exact_age, max_ℤ}
use always_cache.Rfc9111.Age.{age_value, date_value, current_age}
use always_cache.Rfc9111.Freshness.{
  freshness_lifetime, is_fresh, get_expiration, expires_lifetime, get_expires,
}

-- A response without a Date field never gets stale again once the clock has moved on, if its
-- lifetime is not negative; a lifetime of 0 is enough.
pub is_fresh_dateless :
    (platform : Platform) (now : Time) (res : Response) (response_time request_time : Time)
    → get res.header (codes "Date") ≡ []
    → pos 0 ≤ℤ response_time
    → response_time <ℤ now
    → pos 0 ≤ℤ freshness_lifetime platform now res
    → is_fresh platform now res response_time request_time ≡ true
unfolding is_fresh
is_fresh_dateless platform now res response_time request_time h k l m =
    ground (arith, current_age_dateless platform now res response_time request_time h k l)

fresh_until :
    (age lifetime : ℤ) (now received : Time)
    → now -ℤ received ≤ℤ age
    → age <ℤ lifetime
    → received ≤ℤ now
    → (now <ℤ add received lifetime) × (eqb_ℤ lifetime (pos 0) ≡ false)
unfolding add ◌-ℤ◌ ◌+ℤ◌
fresh_until age lifetime now received h k l = (ground arith, ground arith)

max-not_less : (a b : ℤ) → pos 0 ≤ℤ a → pos 0 ≤ℤ max_ℤ a b
max-not_less a b h = ground arith

less_to_add : (a d : ℤ) → pos 0 ≤ℤ a → d ≤ℤ a +ℤ d
unfolding ◌+ℤ◌
less_to_add a d h = ground arith

age_at_least :
    (now : Time) (age : Duration) (date received requested : Time)
    → now -ℤ received ≤ℤ exact_age now age date received requested
age_at_least now age date received requested = less_to_add _ (now -ℤ received) (
    max-not_less (max_ℤ (pos 0) (received -ℤ date)) (age +ℤ (received -ℤ requested))
      (max-not_less (pos 0) (received -ℤ date) (omega arith)))

pub is_fresh-eq-true_iff :
    (platform : Platform) (now : Time) (res : Response) (received requested : Time)
    → (is_fresh platform now res received requested ≡ true)
      ↔ (current_age platform now res received requested <ℤ freshness_lifetime platform now res)
unfolding is_fresh
is_fresh-eq-true_iff platform now res received requested = (λ e. ground arith, λ h. ground arith)

-- No difference and no sum of the age leaves the range of a duration.
abbrev pub FitsAge : Platform → Time → Response → Time → Time → Type 0
FitsAge platform now res received requested =
    FitsInt64 (received -ℤ date_value platform res)
    × FitsInt64 (received -ℤ requested)
    × FitsInt64 (age_value res +ℤ (received -ℤ requested))
    × FitsInt64 (now -ℤ received)
    × FitsInt64 (exact_age now (age_value res) (date_value platform res) received requested)

-- A response for which GetExpiration has given a time when it was received is fresh before that time
-- only, where no difference and no sum of its age leaves the range of a duration and its lifetime does
-- not depend on the clock.
pub is_fresh-get_expiration :
    (platform : Platform) (now : Time) (res : Response) (received requested : Time)
    → received ≤ℤ now
    → freshness_lifetime platform now res ≡ freshness_lifetime platform received res
    → FitsAge platform now res received requested
    → is_fresh platform now res received requested ≡ true
    → now <ℤ get_expiration platform received res
unfolding get_expiration
is_fresh-get_expiration platform now res received requested later same (h₁, h₂, h₃, h₄, h₅) fresh =
    let exact = current_age_exact platform now res received requested h₁ h₂ h₃ h₄ h₅ in
    let young = (is_fresh-eq-true_iff platform now res received requested).0 fresh in
    let (before, lasting) =
      fresh_until _ (freshness_lifetime platform received res) now received
        (age_at_least now (age_value res) (date_value platform res) received requested)
        (rw (exact, same) at young) later in
    rw lasting before

-- The expiration of a response is known from its fields.
pub get_expiration_cong :
    (platform : Platform) (now : Time) (res stored : Response)
    → stored.header ≡ res.header
    → get_expiration platform now stored ≡ get_expiration platform now res
unfolding get_expiration freshness_lifetime expires_lifetime get_expires
get_expiration_cong platform now res stored same = rw same refl
