-- ===== src/Tests/Data.antt =====
-- A platform, requests and responses.
use always_cache.Base.{ℕ, ◌*◌, [], ◌∷◌, none, some, if◌then◌else◌}
use always_cache.Base.Int.{pos}
use always_cache.Go.Strings.{Str, codes, same, has_prefix}
use always_cache.Go.Header.{Header}
use always_cache.Go.Time.{Time, nanos}
use always_cache.Go.Http.{Platform, Url, Request, Response}
use always_cache.Key.{CacheKeyer, new_cache_keyer}

abbrev pub plain_url : Str → Url
plain_url text = record { text = text; request_uri = text; path = text }

abbrev pub epoch : Str
epoch = codes "Thu, 01 Jan 1970 00:00:00 GMT"

-- A text that begins with a colon is no URL, the only date is the epoch in
-- capitals, and a stored response is
-- one with status 200 whose body is the whole text.
abbrev pub platform : Platform
platform = record {
  parse_url = λ text. if has_prefix text (codes ":") then none else some (plain_url text);
  resolve_path = λ url path. path;
  parse_time = λ layout text.
      if same text (codes "THU, 01 JAN 1970 00:00:00 GMT") then some (pos 0, codes "GMT") else none;
  seconds_text = λ d. codes "1";
  status_text = λ code. codes "OK";
  header_text = λ h. [];
  read_response = λ text req. some (record {
    status_code = 200;
    header = (codes "Date", epoch ∷ []) ∷ (codes "Cache-Control", codes "max-age=60" ∷ []) ∷ [];
    body = text;
    request = none;
  });
}

abbrev pub one_field : Str → Str → Header
one_field name v = (name, v ∷ []) ∷ []

abbrev pub request : Str → Header → Request
request method header = record {
  method = method;
  url = plain_url (codes "/a");
  header = header;
  body = [];
}

abbrev pub page : Request
page = request (codes "GET") []

abbrev pub response : Header → Response
response header = record { status_code = 200; header = header; body = []; request = some page }

abbrev pub second : ℕ → Time
second n = pos (n * nanos)

abbrev pub keyer : CacheKeyer
keyer = new_cache_keyer (codes "o")
