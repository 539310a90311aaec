-- ===== src/Rfc9111/Storing.antt =====
-- rfc9111/3.0_storing-responses-in-caches.go and 3.5: which responses are kept.
pub mod Laws
use always_cache.Base.{
  ℕ, Bool, true, false, ◌&&◌, ◌||◌, not, [], ◌∷◌, some, leb, ◌==◌, if◌then◌else◌,
}
use always_cache.Go.Strings.{Str, codes, same, is_empty}
use always_cache.Go.Header.{Header, get, values}
use always_cache.Go.Http.{Request, Response}
use always_cache.Rfc9111.CacheControl.{CacheControl, parse_cache_control, has_directive}
use always_cache.Rfc9111.Fields.{storable_header}

unfoldable pub request_method_is_understood : Str → Bool
request_method_is_understood method = same method (codes "GET") || same method (codes "POST")

unfoldable pub response_status_code_is_understood : ℕ → Bool
response_status_code_is_understood code = code == 200

unfoldable pub response_status_code_is_final : ℕ → Bool
response_status_code_is_final code = leb 200 code && leb code 599

unfoldable pub status_code_understood_if_needed : Response → CacheControl → Bool
unfolding response_status_code_is_understood
status_code_understood_if_needed res cc' =
    if (res.status_code == 206 || res.status_code == 304)
      || has_directive cc' (codes "must-understand")
    then response_status_code_is_understood res.status_code
    else true

unfoldable pub may_use_response_for_authenticated_request : CacheControl → Bool
may_use_response_for_authenticated_request cc' =
    has_directive cc' (codes "public") || has_directive cc' (codes "s-maxage")

-- The Cache-Control directives of a response.
abbrev pub res_cache_control : Response → CacheControl
res_cache_control res = parse_cache_control (values res.header (codes "Cache-Control"))

-- The condition is written as Go reads it: `&&` binds tighter than `||`.
unfoldable pub must_not_store : Request → Response → Bool
unfolding request_method_is_understood response_status_code_is_final
    status_code_understood_if_needed may_use_response_for_authenticated_request
must_not_store req res =
    let cc' = res_cache_control res in
    if (request_method_is_understood req.method
        && response_status_code_is_final res.status_code
        && status_code_understood_if_needed res cc'
        && not (has_directive cc' (codes "no-store"))
        && not (has_directive cc' (codes "private"))
        && is_empty (get req.header (codes "Authorization")))
      || (may_use_response_for_authenticated_request cc'
          && (has_directive cc' (codes "public")
              || not (is_empty (get res.header (codes "Expires")))
              || has_directive cc' (codes "max-age")
              || has_directive cc' (codes "s-maxage")))
    then false
    else true

-- ConstructDownstreamResponse: the response to forward, and whether it may be stored.
unfoldable pub construct_downstream_response : Request → Response → Response × Bool
construct_downstream_response req origin = (
  record origin { header = storable_header origin.header; request = some req },
  not (must_not_store req origin),
)
