-- ===== src/Serializer.antt =====
-- pkg/response-serializer/response.go: a response with its request and its times as bytes. What
-- net/http writes and reads is a parameter.
pub mod Delimiter
pub mod Times
pub mod Laws
pub mod Errors
use always_cache.Base.{List, [], ◌∷◌, ◌++◌, Option, none, some, map}
use always_cache.Go.Strings.{Str, codes, split}
use always_cache.Go.Conv.{parse_int, format_int}
use always_cache.Go.Header.{Header, get, set, del}
use always_cache.Go.Time.{Time, unix, of_unix}
use always_cache.Go.Http.{Request, Response}
use always_cache.Go.Panic.{Call, returns, panics}

-- The functions of net/http: what Write puts into a buffer, whose error changes nothing, and what
-- ReadRequest and ReadResponse read; without a request, ReadResponse takes it to be a GET request.
pub record Wire : Type 0 where
  pub write_request : Request → Str
  pub write_response : Response → Str
  pub read_request : Str → Option Request
  pub read_response : Str → Option Request → Option Response

-- The response is there where there is no error.
pub record TimedResponse : Type 0 where
  pub response : Response
  pub request_time : Time
  pub response_time : Time

unfoldable pub response_time_header_name : Str
response_time_header_name = codes "Acache-Response-Time"

unfoldable pub request_time_header_name : Str
request_time_header_name = codes "Acache-Request-Time"

-- A blank line and four dashes; the delimiter has another blank line behind them.
abbrev pub dashes : Str
dashes = codes "\r\n\r\n----"

abbrev pub delim : Str
delim = dashes ++ codes "\r\n\r\n"

-- The header with the two times of the response.
unfoldable pub with_times : Header → TimedResponse → Header
unfolding response_time_header_name request_time_header_name
with_times h s =
    let timed = set h response_time_header_name (format_int (unix s.response_time)) in
    set timed request_time_header_name (format_int (unix s.request_time))

unfoldable pub without_times : Header → Header
unfolding response_time_header_name request_time_header_name
without_times h = del (del h response_time_header_name) request_time_header_name

-- The rest of BytesToStoredResponse, behind bytesToResponse.
unfoldable pub with_read_times : Option Response → Option TimedResponse
unfolding without_times response_time_header_name request_time_header_name
with_read_times none = none
with_read_times (some res) = elim (parse_int (get res.header response_time_header_name)) [
  | none ↦ none
  | some response_time ↦ elim (parse_int (get res.header request_time_header_name)) [
    | none ↦ none
    | some request_time ↦ some (record {
      response = record res { header = without_times res.header };
      request_time = of_unix request_time;
      response_time = of_unix response_time;
    })
  ]
]

module _ (wire : Wire) where
  -- The second part is missing where the bytes have no delimiter; further parts are left out.
  unfoldable pub response_of_parts : List Str → Call (Option Response)
  response_of_parts [] = panics
  response_of_parts (req ∷ []) = panics
  response_of_parts (req ∷ res ∷ more) = returns (wire.read_response res (wire.read_request req))

  unfoldable pub bytes_to_response : Str → Call (Option Response)
  unfolding response_of_parts
  bytes_to_response b = response_of_parts (split b delim)

  -- `none` for an error.
  unfoldable pub bytes_to_stored_response : Str → Call (Option TimedResponse)
  unfolding bytes_to_response with_read_times
  bytes_to_stored_response b = elim (bytes_to_response b) [
    | panics ↦ panics
    | returns res ↦ returns (with_read_times res)
  ]

  -- The bytes, and the response, whose body has been read and put back.
  unfoldable pub response_to_bytes : Response → Call (Str × Response)
  response_to_bytes res =
      let bytes = wire.write_response res in
      elim (wire.read_response bytes res.request) [
        | none ↦ panics
        | some cloned ↦ returns (bytes, record res { body = cloned.body })
      ]

  abbrev request_bytes : Option Request → Str
  request_bytes none = []
  request_bytes (some req) = wire.write_request req

  -- The bytes, and the response as it is left. There is no error.
  unfoldable pub stored_response_to_bytes : TimedResponse → Call (Str × Response)
  unfolding response_to_bytes with_times without_times
  stored_response_to_bytes s =
      let res = s.response in
      elim (response_to_bytes (record res { header = with_times res.header s })) [
        | panics ↦ panics
        | returns (bytes, res') ↦ returns (
          request_bytes res.request ++ (delim ++ bytes),
          record res' { header = without_times res'.header },
        )
      ]
