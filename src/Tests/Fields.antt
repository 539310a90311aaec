-- ===== src/Tests/Fields.antt =====
-- The theorems on fields and keys at concrete requests and responses.
use always_cache.Base.{◌*◌, true, List, [], ◌∷◌, some, inr, ◌≡◌, ◌≢◌, refl, arith}
use always_cache.Base.Int.{pos, ◌<ℤ◌}
use always_cache.Go.Strings.{Str, codes, same, cut, split, trim_space, has_prefix}
use always_cache.Go.Conv.{format_uint, parse_uint}
use always_cache.Go.Header.{Header, is_token, values, get}
use always_cache.Go.Time.{Duration, nanos}
use always_cache.Go.Http.{Request, new_request}
use always_cache.Go.Panic.{returns}
use always_cache.Rfc9111.Syntax.{delta_seconds}
use always_cache.Rfc9111.Syntax.Laws.{delta_seconds-format_uint, delta_seconds_negative}
use always_cache.Rfc9111.CacheControl.{
  parse_cache_control, has_directive, directive_name, get as get_directive,
}
use always_cache.Rfc9111.CacheControl.Laws.{
  directives_of, last_argument, get-parse_cache_control, has_directive-parse_cache_control,
}
use always_cache.Rfc9111.Fields.{get_list_header}
use always_cache.Key.{add_vary_keys, get_key_prefix, get_request_from_key}
use always_cache.Key.Vary.{Fits, added}
use always_cache.Key.RoundTrip.{
  IsKeyable, bare, get_request_from_key-add_vary_keys, get_key_prefix-rebuilt,
  header_fields_match-added,
}
use always_cache.Rfc9111.Reuse.{header_fields_match}
use always_cache.Tests.Data.{platform, one_field, request, response, keyer}

delta_seconds-format_uint_example : delta_seconds (format_uint 60) ≡ some (pos (60 * nanos))
delta_seconds-format_uint_example = delta_seconds-format_uint 60 (omega arith)

delta_seconds_negative_example :
    (d : Duration) × (delta_seconds (codes "9999999999") ≡ some d) × (d <ℤ pos 0)
unfolding parse_uint
delta_seconds_negative_example =
    delta_seconds_negative (codes "9999999999") 9999999999 refl (omega arith) (omega arith)

abbrev two_headers : List Str
two_headers = codes "max-age=60, public" ∷ codes "Max-Age=\"30\"" ∷ []

get-parse_cache_control_example :
    get_directive (parse_cache_control two_headers) (codes "max-age")
    ≡ last_argument (codes "max-age") (directives_of two_headers)
get-parse_cache_control_example = get-parse_cache_control two_headers (codes "max-age")

has_directive-parse_cache_control_example :
    has_directive (parse_cache_control (codes "no-store,no-cache" ∷ [])) (codes "no-cache")
    ≡ same (directive_name (codes "no-store,no-cache")) (codes "no-cache")
unfolding cut
has_directive-parse_cache_control_example =
    has_directive-parse_cache_control (codes "no-store,no-cache") (codes "no-cache") refl

abbrev hop_request : Request
hop_request = request (codes "GET") (
    (codes "Connection", codes "close, X-Hop" ∷ [])
    ∷ (codes "X-Hop", codes "1" ∷ [])
    ∷ (codes "Accept", codes "text/html" ∷ [])
    ∷ [])

abbrev language_page : Request
language_page = request (codes "GET") (one_field (codes "Accept-Language") (codes "en"))

abbrev by_language : Header
by_language = one_field (codes "Vary") (codes "Accept-Language, Accept")

abbrev made : Request
made = bare language_page

language_page-IsKeyable : IsKeyable (codes "o") language_page
language_page-IsKeyable = record {
  origin_line = omega arith;
  method_line = omega arith;
  uri_line = omega arith;
  method_colon = omega arith;
  method_tab = omega arith;
  uri_tab = omega arith;
  cache_key_line = unfold get in tt;
}

language_page-Fits : Fits language_page.header (get_list_header by_language (codes "Vary"))
unfolding get_list_header values get split trim_space is_token
language_page-Fits = (
  (record { tokens = refl; one_line = omega arith; no_colon = omega arith }, omega arith),
  ((record { tokens = refl; one_line = omega arith; no_colon = omega arith }, tt), tt),
)

get_request_from_key-add_vary_keys_example :
    get_request_from_key platform keyer
      (add_vary_keys (get_key_prefix keyer language_page) language_page by_language)
    ≡ returns (
        inr (record made {
          header = added language_page.header [] (get_list_header by_language (codes "Vary"));
        }))
unfolding new_request has_prefix
get_request_from_key-add_vary_keys_example =
    get_request_from_key-add_vary_keys platform (codes "o") language_page made by_language
      language_page-IsKeyable language_page-Fits refl

header_fields_match-added_example :
    header_fields_match language_page
      (record made {
        header = added language_page.header [] (get_list_header by_language (codes "Vary"));
      })
      (response by_language)
    ≡ true
header_fields_match-added_example =
    header_fields_match-added language_page made (response by_language) language_page-Fits
      (unfold get_list_header values split trim_space in ((λ e. cc), ((λ e. cc), tt)))

abbrev named_page : Request
named_page = request (codes "GET") (one_field (codes "Cache-Key") (codes "user"))

named_page-IsKeyable : IsKeyable (codes "o") named_page
named_page-IsKeyable = record {
  origin_line = omega arith;
  method_line = omega arith;
  uri_line = omega arith;
  method_colon = omega arith;
  method_tab = omega arith;
  uri_tab = omega arith;
  cache_key_line = unfold get in omega arith;
}

get_key_prefix-rebuilt_example :
    (rebuilt : Request) × (get_request_from_key platform keyer
        (add_vary_keys (get_key_prefix keyer named_page) named_page [])
      ≡ returns (inr rebuilt))
    × (get_key_prefix keyer rebuilt ≢ get_key_prefix keyer named_page)
unfolding new_request has_prefix get
get_key_prefix-rebuilt_example =
    get_key_prefix-rebuilt platform (codes "o") named_page named_page-IsKeyable refl (λ e. cc)
