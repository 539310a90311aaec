-- ===== src/CacheUpdate.antt =====
-- pkg/cache-update/cache-update.go: the updates that a response asks for in its Cache-Update field.
pub mod Laws
use always_cache.Base.{
  ℕ, Bool, false, ◌||◌, not, List, [], ◌∷◌, Option, none, some, ◌==◌, if◌then◌else◌, ◌>>=◌,
}
use always_cache.Base.Int.{pos}
use always_cache.Go.Strings.{Str, codes, is_digit, in_range, to_lower, strip_prefix, split_first}
use always_cache.Go.Conv.{parse_int}
use always_cache.Go.Header.{values}
use always_cache.Go.Time.{Duration, times_second}
use always_cache.Go.Http.{Platform, Url, Request, Response}
use always_cache.Rfc9111.Reuse.{unsafe_request}

pub record CacheUpdate : Type 0 where
  pub path : Str
  pub delay : Duration

-- The bytes that \w matches.
abbrev pub is_word : ℕ → Bool
is_word c = in_range b'a' b'z' c || in_range b'A' b'Z' c || is_digit c || c == b'_'

unfoldable pub take_digits : Str → Str
take_digits [] = []
take_digits (c ∷ s) = if is_digit c then c ∷ take_digits s else []

abbrev nonempty : Str → Option Str
nonempty [] = none
nonempty (c ∷ s) = some (c ∷ s)

-- A match of `delay=(\d+)` at the beginning of a text, in any case: the digits.
unfoldable pub delay_here : Str → Option Str
unfolding take_digits
delay_here [] = none
delay_here (c ∷ s) =
    strip_prefix (codes "delay=") (to_lower (c ∷ s)) >>= λ rest. nonempty (take_digits rest)

-- The leftmost match of `\bdelay=(\d+)`; `after_word` tells whether a word byte stands before.
unfoldable pub find_delay : Bool → Str → Option Str
unfolding delay_here
find_delay after_word [] = none
find_delay after_word (c ∷ s) =
    let later = find_delay (is_word c) s in
    let here = if after_word then none else delay_here (c ∷ s) in
    elim here [ some digits ↦ some digits | none ↦ later ]

-- No delay, and one that is no int64, is 0.
unfoldable pub get_delay : Str → Duration
unfolding find_delay
get_delay update = elim (find_delay false update >>= parse_int) [
  | some seconds ↦ times_second seconds
  | none ↦ pos 0
]

module _ (platform : Platform) where
  -- The Path of getURL.
  unfoldable pub get_url_path : Url → Str → Str
  get_url_path url update = platform.resolve_path url (split_first update (codes ";"))

  unfoldable pub cache_update : Url → Str → CacheUpdate
  unfolding get_url_path
  cache_update url update = record {
    path = get_url_path url (split_first update (codes ";"));
    delay = get_delay update;
  }

  each_update : Url → List Str → List CacheUpdate
  unfolding cache_update
  each_update url [] = []
  each_update url (update ∷ rest) = cache_update url update ∷ each_update url rest

  -- GetCacheUpdates, for the URL of the response's request.
  unfoldable pub get_cache_updates : Request → Url → Response → List CacheUpdate
  unfolding each_update
  get_cache_updates req url res =
      if not (unsafe_request req)
      then []
      else each_update url (values res.header (codes "Cache-Update"))
