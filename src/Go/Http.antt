-- ===== src/Go/Http.antt =====
-- The parts of net/http and net/url messages that the program reads and writes, and the library
-- functions that it calls and that are not written out here.
use always_cache.Base.{ℕ, [], Option, none, some, all, if◌then◌else◌, ◌>>=◌}
use always_cache.Go.Strings.{Str, codes, is_empty}
use always_cache.Go.Header.{Header, is_token}
use always_cache.Go.Time.{Time, Duration}

-- A url.URL by what the program reads of it: String(), RequestURI() and Path.
pub record Url : Type 0 where
  pub text : Str
  pub request_uri : Str
  pub path : Str

-- An http.Request. Its header is a map that is not nil, as net/http makes them: Header.Set panics on
-- a nil one, which is left out. The same goes for a response; where the program asks for nil, it asks
-- for an empty header in the same breath.
pub record Request : Type 0 where
  pub method : Str
  pub url : Url
  pub header : Header
  pub body : Str

-- An http.Response. A status code that is not set is 0.
pub record Response : Type 0 where
  pub status_code : ℕ
  pub header : Header
  pub body : Str
  pub request : Option Request

-- The functions of the standard library that stay parameters.
pub record Platform : Type 0 where
  -- url.Parse
  pub parse_url : Str → Option Url
  -- url.ResolveReference(&url.URL{Path: path}).Path
  pub resolve_path : Url → Str → Str
  -- time.Parse(layout, text): the time and the name of its zone
  pub parse_time : Str → Str → Option (Time × Str)
  -- fmt.Sprintf("%.f", duration.Seconds()), a print of a float64
  pub seconds_text : Duration → Str
  -- http.StatusText
  pub status_text : ℕ → Str
  -- Header.Write: the fields in the order of their names, each in a line
  pub header_text : Header → Str
  -- http.ReadResponse, from the whole text, for a request whose method decides about the body
  pub read_response : Str → Option Request → Option Response

-- http.NewRequest. An empty method means GET.
module _ (platform : Platform) where
  unfoldable pub new_request : Str → Str → Str → Option Request
  unfolding is_token
  new_request method url body =
      let method' : Str = if is_empty method then codes "GET" else method in
      if all is_token method'
      then (platform.parse_url url >>= λ u.
          some (record { method = method'; url = u; header = []; body = body }))
      else none
