-- ===== src/Rfc9111/Reuse.antt =====
-- rfc9111/4.0_constructing-responses-from-caches.go and headerFieldsMatch of section 4.1: whether
-- a stored response may answer a request.
pub mod Laws
use always_cache.Base.{
  ℕ, Bool, true, false, ◌&&◌, ◌||◌, not, List, [], ◌∷◌, Option, none, some, if◌then◌else◌,
}
use always_cache.Go.Strings.{Str, codes, same}
use always_cache.Go.Header.{Header, get, values}
use always_cache.Go.Time.{Time}
use always_cache.Go.Http.{Platform, Request, Response}
use always_cache.Rfc9111.CacheControl.{parse_cache_control, has_directive}
use always_cache.Rfc9111.Fields.{get_list_header, field_absent}
use always_cache.Rfc9111.Age.{add_age_header}
use always_cache.Rfc9111.Freshness.{is_fresh}
use always_cache.Rfc9111.Validation.{generate_conditional_request}
use always_cache.Rfc9211.{FwdReason, empty, method, uri_miss, vary_miss, stale}

-- UnsafeRequest of section 4.4.
unfoldable pub unsafe_request : Request → Bool
unsafe_request req = not (same req.method (codes "GET")) && not (same req.method (codes "HEAD"))

-- One round of the loop: whether the nominated field is the same in both requests.
unfoldable pub field_matches : Header → Header → Str → Bool
field_matches presented original item =
    if not (same (get presented item) (get original item))
    then false
    else if (field_absent presented item || field_absent original item)
        && not (field_absent presented item && field_absent original item)
    then false
    else not (same item (codes "*"))

fields_match : Header → Header → List Str → Bool
unfolding field_matches
fields_match presented original [] = true
fields_match presented original (item ∷ rest) =
    if field_matches presented original item then fields_match presented original rest else false

unfoldable pub header_fields_match : Request → Request → Response → Bool
unfolding fields_match
header_fields_match req original stored =
    fields_match req.header original.header (get_list_header stored.header (codes "Vary"))

unfoldable pub must_write_through : Request → Response → Bool
must_write_through req res =
    if has_directive (parse_cache_control (values res.header (codes "Cache-Control")))
      (codes "safe")
    then false
    else unsafe_request req

module _ (platform : Platform) where
  -- The end of mustNotReuse, for a response that must be validated anyway.
  with_validation : Request → Response → FwdReason × Option Request
  with_validation req res = (stale, generate_conditional_request platform req res)

  -- mustNotReuse, for a stored response with its original request. A validation request that
  -- cannot be made is made no second time.
  unfoldable pub must_not_reuse :
      Time → Request → Request → Response → Time → Time → FwdReason × Option Request
  unfolding with_validation
  must_not_reuse now req original res request_time response_time =
      if not (same req.url.text original.url.text)
      then (uri_miss, none)
      else if not (header_fields_match req original res)
      then (vary_miss, none)
      else if has_directive (parse_cache_control (values res.header (codes "Cache-Control")))
          (codes "no-cache")
      then with_validation req res
      else if not (is_fresh platform now res response_time request_time)
      then with_validation req res
      else (empty, none)

  -- constructResponse keeps the status, the header and the body.
  unfoldable pub construct_response : Time → Response → Time → Time → Response
  construct_response now stored response_time request_time =
      record (add_age_header platform now stored response_time request_time) { request = none }

  -- ConstructReusableResponse
  unfoldable pub construct_reusable_response :
      Time
      → Request
      → Request
      → Response
      → Time
      → Time
      → Option Response × Option Request × FwdReason
  unfolding must_not_reuse construct_response
  construct_reusable_response now req original res request_time response_time =
      if must_write_through req res
      then (none, none, method)
      else let (reason, validation) =
          must_not_reuse now req original res request_time response_time in
        (some (construct_response now res response_time request_time), validation, reason)
