-- ===== src/Tests/Caching.antt =====
-- The theorems on storing, age and reuse at concrete requests and responses.
use always_cache.Base.{
  ◌⊎◌, true, false, [], ◌∷◌, ◌++◌, none, some, ◌>>=◌, inl, inr, ◌≡◌, ◌↔◌, refl, arith,
}
use always_cache.Base.Int.{pos, ◌+ℤ◌, ◌-ℤ◌}
use always_cache.Go.Strings.{
  codes, same, split, split_two, split_first, to_lower, to_upper, trim, trim_space, has_prefix,
}
use always_cache.Go.Header.{values, get, set}
use always_cache.Go.Time.{Time, sub, plus, times_second}
use always_cache.Go.Http.{Request, Response, new_request}
use always_cache.Go.Panic.{returns}
use always_cache.Go.Conv.{parse_uint}
use always_cache.Rfc9111.Syntax.{delta_seconds, http_date, imf_date, normalize_date_str, obs_date}
use always_cache.Rfc9111.CacheControl.{
  parse_cache_control, has_directive, s_max_age, max_age, get_delta_seconds, get as get_directive,
}
use always_cache.Rfc9111.Fields.{get_list_header}
use always_cache.Rfc9111.Storing.{must_not_store}
use always_cache.Rfc9111.Storing.Laws.{Has, IsAllowed, must_not_store-eq-false_iff}
use always_cache.Rfc9111.Age.{
  get_age, age_value, date_value, current_age, corrected_initial_age, apparent_age,
  corrected_age_value, duration_max, response_delay, resident_time,
}
use always_cache.Rfc9111.Age.Laws.{exact_age, current_age_exact}
use always_cache.Rfc9111.Freshness.{freshness_lifetime, is_fresh}
use always_cache.Rfc9111.Freshness.Laws.{is_fresh_dateless}
use always_cache.Rfc9111.Validation.{set_if_present, generate_conditional_request}
use always_cache.Rfc9111.Validation.Laws.{
  if_none_match, if_modified_since, validator_or, generate_conditional_request_preconditions,
}
use always_cache.Rfc9111.Reuse.{must_write_through, unsafe_request}
use always_cache.Rfc9111.Reuse.Laws.{IsReusable}
use always_cache.Rfc9111.Invalidation.{get_invalidate_uris, non_error_response}
use always_cache.Rfc9111.Invalidation.Laws.{or_panic, request_uris, get_invalidate_uris_unsafe}
use always_cache.Rfc9111.Entry.{ok, must_not_reuse_checked}
use always_cache.Rfc9111.Entry.Laws.{must_not_reuse_checked-eq-ok_iff}
use always_cache.Rfc9211.{empty}
use always_cache.Tee.{ResponseSaver}
use always_cache.Server.Store.{cache_entry}
use always_cache.Server.Handler.Expiring.{must_not_reuse_checked-cache_entry}
use always_cache.Rfc9111.Freshness.Laws.{FitsAge}
use always_cache.Tests.Proxy.{server, saver}
use always_cache.Base.{◌∙◌, sym}
use always_cache.Base.Int.{◌<ℤ◌}
use always_cache.Tests.Data.{platform, epoch, one_field, request, page, response, second}

abbrev lasting : Response
lasting = response (one_field (codes "Cache-Control") (codes "max-age=60"))

abbrev plain : Response
plain = response (one_field (codes "Content-Type") (codes "text/html"))

plain-IsAllowed : IsAllowed page plain
unfolding get has_directive parse_cache_control
plain-IsAllowed = record {
  method = inl refl;
  final = (omega arith, omega arith);
  not_partial = omega arith;
  not_unmodified = omega arith;
  understood = inr refl;
  storable = refl;
  shared = refl;
  anonymous = refl;
}

abbrev contradictory : Response
contradictory = response (one_field (codes "Cache-Control") (codes "public, no-store, private"))

-- One response is let through for each of the reasons.
both_reasons :
    (must_not_store page plain ≡ false)
    × (must_not_store (request (codes "DELETE") []) contradictory ≡ false)
unfolding has_directive parse_cache_control values split to_lower split_two
both_reasons = (
  (must_not_store-eq-false_iff page plain).1 (inr plain-IsAllowed),
  (must_not_store-eq-false_iff (request (codes "DELETE") []) contradictory).1 (inl (inl refl)),
)

must_not_store-eq-false_iff_example :
    (must_not_store page plain ≡ false)
    ↔ ((Has plain (codes "public") ⊎ Has plain (codes "s-maxage")) ⊎ IsAllowed page plain)
must_not_store-eq-false_iff_example = must_not_store-eq-false_iff page plain

abbrev with_credentials : Request
with_credentials = request (codes "GET") (one_field (codes "Authorization") (codes "Basic eA=="))

-- A response that was made at the epoch and had the age of a second.
abbrev dated : Response
dated = response (
    (codes "Date", epoch ∷ [])
    ∷ (codes "Age", codes "1" ∷ [])
    ∷ (codes "Cache-Control", codes "max-age=60" ∷ [])
    ∷ [])

dated_age : age_value dated ≡ second 1
unfolding age_value get_age values trim_space split_first delta_seconds parse_uint times_second get
dated_age = refl

dated_date : date_value platform dated ≡ pos 0
unfolding date_value http_date imf_date normalize_date_str obs_date get to_upper same
dated_date = refl

current_age_exact_example :
    current_age platform (second 12) dated (second 10) (second 9)
    ≡ exact_age (second 12) (age_value dated) (date_value platform dated) (second 10) (second 9)
unfolding ◌-ℤ◌ ◌+ℤ◌
current_age_exact_example =
    current_age_exact platform (second 12) dated (second 10) (second 9)
      (rw dated_date (omega arith)) (omega arith) (rw dated_age (omega arith)) (omega arith)
      (rw (dated_age, dated_date) (omega arith))

lasting_lifetime : freshness_lifetime platform (second 99) lasting ≡ second 60
unfolding freshness_lifetime s_max_age max_age get_delta_seconds get delta_seconds parse_uint
    times_second get_directive parse_cache_control values split to_lower split_two trim
lasting_lifetime = refl

is_fresh_dateless_example : is_fresh platform (second 99) lasting (second 10) (second 9) ≡ true
unfolding get
is_fresh_dateless_example =
    is_fresh_dateless platform (second 99) lasting (second 10) (second 9) refl (omega arith)
      (omega arith) (rw lasting_lifetime (omega arith))

generate_conditional_request_preconditions_example :
    (get
        (record page { header = one_field (codes "If-None-Match") (codes "x") }).header
        if_none_match
      ≡ validator_or
          (get (response (one_field (codes "Etag") (codes "x"))).header (codes "ETag"))
          (get page.header if_none_match))
    × (get
          (record page { header = one_field (codes "If-None-Match") (codes "x") }).header
          if_modified_since
        ≡ validator_or
            (get (response (one_field (codes "Etag") (codes "x"))).header (codes "Last-Modified"))
            (get page.header if_modified_since))
unfolding generate_conditional_request new_request has_prefix set_if_present get set
generate_conditional_request_preconditions_example =
    generate_conditional_request_preconditions platform page
      (response (one_field (codes "Etag") (codes "x"))) refl

abbrev moved : Response
moved =
    response ((codes "Location", codes "/b" ∷ []) ∷ (codes "Content-Location", codes ":" ∷ []) ∷ [])

get_invalidate_uris_unsafe_example :
    get_invalidate_uris platform (request (codes "PUT") []) moved
    ≡ or_panic (
        request_uris platform
          (values moved.header (codes "Location") ++ values moved.header (codes "Content-Location"))
        >>= λ uris. some (page.url.text ∷ uris))
unfolding unsafe_request non_error_response same
get_invalidate_uris_unsafe_example =
    get_invalidate_uris_unsafe platform (request (codes "PUT") []) moved refl refl

dated_lifetime : (now : Time) → freshness_lifetime platform now dated ≡ second 60
unfolding freshness_lifetime s_max_age max_age get_delta_seconds get_directive delta_seconds
    parse_uint times_second parse_cache_control values split to_lower split_two trim
dated_lifetime now = refl

dated-current_age : current_age platform (second 12) dated (second 10) (second 9) ≡ second 12
unfolding current_age corrected_initial_age apparent_age corrected_age_value duration_max
    response_delay resident_time sub plus
dated-current_age = rw (dated_age, dated_date) refl

dated-IsReusable : IsReusable platform (second 12) page page dated (second 9) (second 10)
unfolding is_fresh has_directive parse_cache_control values split to_lower split_two get_list_header
dated-IsReusable = record {
  same_uri = refl;
  same_fields = tt;
  unconditional = refl;
  fresh = rw (dated-current_age, dated_lifetime) (omega arith);
}

-- The stored response may be reused.
dated_allowed :
    must_not_reuse_checked platform (second 12) page (some dated) (second 9) (second 10)
    ≡ returns (ok (empty, none))
unfolding must_write_through unsafe_request same has_directive parse_cache_control values split
    to_lower split_two
dated_allowed =
    (must_not_reuse_checked-eq-ok_iff platform (second 12) page dated (second 9) (second 10)).1
      (page, refl, λ e. cc, omega arith, λ e. cc, inl (inl refl), dated-IsReusable)

abbrev dated_saver : ResponseSaver
dated_saver = record saver { header = dated.header; created_at = second 9 }

dated-FitsAge : FitsAge platform (second 12) dated (second 10) (second 9)
unfolding ◌-ℤ◌ ◌+ℤ◌
dated-FitsAge = (
  rw dated_date (omega arith),
  omega arith,
  rw dated_age (omega arith),
  omega arith,
  rw (dated_age, dated_date) (omega arith),
)

must_not_reuse_checked-cache_entry_example :
    second 12 <ℤ (cache_entry server (second 10) dated_saver page).expires
unfolding cache_entry
must_not_reuse_checked-cache_entry_example =
    must_not_reuse_checked-cache_entry server page page dated_saver dated (second 10) (second 12)
      refl (omega arith) (dated_lifetime (second 12) ∙ sym (dated_lifetime (second 10)))
      dated-FitsAge dated_allowed
