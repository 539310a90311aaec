-- ===== src/Tests/Serialized.antt =====
-- A timed response as bytes, and bytes that cannot be read.
use always_cache.Base.{true, List, [], ◌∷◌, ◌++◌, Option, none, some, ◌≡◌, refl, arith}
use always_cache.Go.Strings.{Str, codes, split, cut, same}
use always_cache.Go.Header.{get, set, values, canonical}
use always_cache.Go.Time.{unix}
use always_cache.Go.Conv.{format_int}
use always_cache.Go.Http.{Request, Response}
use always_cache.Go.Panic.{returns}
use always_cache.Serializer.{
  Wire, TimedResponse, delim, bytes_to_stored_response, stored_response_to_bytes, with_times,
  response_time_header_name, request_time_header_name,
}
use always_cache.Serializer.Times.{is_time_name}
use always_cache.Serializer.Laws.{IsWritable, IsReadBack, stored_response_to_bytes-IsReadBack}
use always_cache.Serializer.Errors.{bytes_to_stored_response_cut}
use always_cache.Tests.Data.{page, response, second}

-- The two times and the body, in a line.
abbrev response_line : Response → Str
response_line res =
    get res.header response_time_header_name
    ++ codes ";"
    ++ get res.header request_time_header_name
    ++ codes ";"
    ++ res.body

abbrev of_parts : Option Request → List Str → Option Response
of_parts req (response_time ∷ request_time ∷ body ∷ more) = some (record {
  status_code = 200;
  header =
      set (set [] response_time_header_name response_time) request_time_header_name request_time;
  body = body;
  request = req;
})
of_parts req parts = none

-- Every request is the one for the page.
abbrev wire : Wire
wire = record {
  write_request = λ req. codes "GET /a";
  write_response = response_line;
  read_request = λ text. some page;
  read_response = λ text req. of_parts req (split text (codes ";"));
}

abbrev timed : TimedResponse
timed = record {
  response = record (response []) { body = codes "hi" };
  request_time = second 7;
  response_time = second 8;
}

abbrev read_back : Response
read_back = record timed.response { header = with_times [] timed }

abbrev IsTimeField : Str → Type 0
IsTimeField name = is_time_name name ≡ true

timed-IsWritable : IsWritable wire IsTimeField timed page page read_back read_back
unfolding cut get set values with_times response_time_header_name request_time_header_name unix
    format_int split same canonical
timed-IsWritable = record {
  has_request = refl;
  request_clear = refl;
  response_clear = refl;
  request_back = refl;
  response_cloned = refl;
  response_back = refl;
  status_back = refl;
  body_back = refl;
  fields_back = λ name carried. refl;
  response_time_carried = refl;
  request_time_carried = refl;
}

stored_response_to_bytes-IsReadBack_example :
    (bytes : Str) × (left : Response) × (t : TimedResponse) × (stored_response_to_bytes wire timed
      ≡ returns (bytes, left))
    × (bytes_to_stored_response wire bytes ≡ returns (some t))
    × IsReadBack IsTimeField timed t
unfolding unix
stored_response_to_bytes-IsReadBack_example =
    stored_response_to_bytes-IsReadBack wire IsTimeField timed page page read_back read_back
      timed-IsWritable (omega arith) (omega arith)

bytes_to_stored_response_cut_example :
    bytes_to_stored_response wire
      (codes "GET /a" ++ (delim ++ (codes "8;7;hi" ++ (delim ++ codes "more"))))
    ≡ bytes_to_stored_response wire (codes "GET /a" ++ (delim ++ codes "8;7;hi"))
unfolding cut
bytes_to_stored_response_cut_example =
    bytes_to_stored_response_cut wire (codes "GET /a") (codes "8;7;hi") (codes "more") refl refl
