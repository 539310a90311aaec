-- ===== src/Serializer/Laws.antt =====
-- What is read back of a response that was written.
use always_cache.Base.{[], ◌++◌, some, ◌≡◌, refl, ◌∙◌, ap, if◌then◌else◌}
use always_cache.Base.Int.{FitsInt64}
use always_cache.Go.Strings.{Str}
use always_cache.Go.Conv.{format_int}
use always_cache.Go.Conv.Laws.{parse_int-format_int}
use always_cache.Go.Header.{get, values}
use always_cache.Go.Time.{unix, of_unix}
use always_cache.Go.Http.{Request, Response}
use always_cache.Go.Panic.{returns}
use always_cache.Serializer.{
  Wire, TimedResponse, dashes, delim, response_time_header_name, request_time_header_name,
  with_times, without_times, with_read_times, response_of_parts, bytes_to_response,
  bytes_to_stored_response, response_to_bytes, stored_response_to_bytes, request_bytes,
}
use always_cache.Serializer.Delimiter.{Omits, split-delim}
use always_cache.Serializer.Times.{
  is_time_name, kept_fields, first_value, get_response_time, get_request_time,
}

-- The response as it is written, with its times in two fields.
abbrev pub stamped : TimedResponse → Response
stamped s = record s.response { header = with_times s.response.header s }

-- What net/http does with one request and one response with its times: both are read back, the
-- response for its own request and for the one that was read back, and the text of the request has
-- no blank line before four dashes, the text of the response no delimiter. The status, the body and
-- the carried fields of the response are kept.
pub record IsWritable (wire : Wire) (Carried : Str → Type 0) (s : TimedResponse)
    (req again : Request) (back cloned : Response) : Type 0 where
  pub has_request : s.response.request ≡ some req
  pub request_clear : Omits dashes (wire.write_request req)
  pub response_clear : Omits delim (wire.write_response (stamped s))
  pub request_back : wire.read_request (wire.write_request req) ≡ some again
  pub response_cloned :
      wire.read_response (wire.write_response (stamped s)) s.response.request ≡ some cloned
  pub response_back : wire.read_response (wire.write_response (stamped s)) (some again) ≡ some back
  pub status_back : back.status_code ≡ s.response.status_code
  pub body_back : back.body ≡ s.response.body
  pub fields_back :
      (name : Str) → Carried name → values back.header name ≡ values (stamped s).header name
  pub response_time_carried : Carried response_time_header_name
  pub request_time_carried : Carried request_time_header_name

-- The response `t` has the status, the body and the carried fields of `s` without those of the
-- times, and its times as whole seconds.
pub record IsReadBack (Carried : Str → Type 0) (s t : TimedResponse) : Type 0 where
  pub status : t.response.status_code ≡ s.response.status_code
  pub body : t.response.body ≡ s.response.body
  pub request_time : t.request_time ≡ of_unix (unix s.request_time)
  pub response_time : t.response_time ≡ of_unix (unix s.response_time)
  pub fields :
      (name : Str)
      → Carried name
      → values t.response.header name
        ≡ (if is_time_name name then [] else values s.response.header name)

unfoldable read_timed : Response → TimedResponse → TimedResponse
read_timed res s = record {
  response = record res { header = without_times res.header };
  request_time = of_unix (unix s.request_time);
  response_time = of_unix (unix s.response_time);
}

with_read_times_lem :
    (res : Response) (s : TimedResponse)
    → FitsInt64 (unix s.response_time)
    → FitsInt64 (unix s.request_time)
    → get res.header response_time_header_name ≡ format_int (unix s.response_time)
    → get res.header request_time_header_name ≡ format_int (unix s.request_time)
    → with_read_times (some res) ≡ some (read_timed res s)
unfolding read_timed with_read_times
with_read_times_lem res s h k e f =
    rw
      (
        with_read_times,
        e,
        parse_int-format_int (unix s.response_time) h,
        f,
        parse_int-format_int (unix s.request_time) k,
      )
      refl

module _ (wire : Wire) (Carried : Str → Type 0) where
  written :
      (s : TimedResponse) (req again : Request) (back cloned : Response)
      → IsWritable wire Carried s req again back cloned
      → stored_response_to_bytes wire s
        ≡ returns (
          wire.write_request req ++ (delim ++ wire.write_response (stamped s)),
          record s.response {
            header = without_times (with_times s.response.header s);
            body = cloned.body;
          },
        )
  unfolding stored_response_to_bytes response_to_bytes
  written s req again back cloned w =
      let asked : request_bytes wire s.response.request ≡ wire.write_request req =
        ap (request_bytes wire) w.has_request in
      rw (stored_response_to_bytes, response_to_bytes, w.response_cloned, asked) refl

  read :
      (s : TimedResponse) (req again : Request) (back cloned : Response)
      → IsWritable wire Carried s req again back cloned
      → FitsInt64 (unix s.response_time)
      → FitsInt64 (unix s.request_time)
      → bytes_to_stored_response wire
          (wire.write_request req ++ (delim ++ wire.write_response (stamped s)))
        ≡ returns (some (read_timed back s))
  unfolding bytes_to_stored_response bytes_to_response response_of_parts
  read s req again back cloned w h k =
      let request_time =
        first_value _ _ _ (w.fields_back request_time_header_name w.request_time_carried)
        ∙ get_request_time s.response.header s in
      let response_time =
        first_value _ _ _ (w.fields_back response_time_header_name w.response_time_carried)
        ∙ get_response_time s.response.header s in
      let parts = split-delim _ _ w.request_clear w.response_clear in
      rw
        (
          bytes_to_stored_response,
          bytes_to_response,
          parts,
          response_of_parts,
          w.request_back,
          w.response_back,
          with_read_times_lem back s h k response_time request_time,
        )
        refl

  -- A response that StoredResponseToBytes has written is read back: if net/http reads back the
  -- request and the response that it writes, with its status, its body and the carried fields, if the
  -- request's text has no blank line before four dashes and the response's text no delimiter, and the
  -- times are int64 seconds, then BytesToStoredResponse gives, without an error or a panic, a response
  -- with that status and body and those fields, less the two of the times, and each time without its
  -- fraction of a second.
  pub stored_response_to_bytes-IsReadBack :
      (s : TimedResponse) (req again : Request) (back cloned : Response)
      → IsWritable wire Carried s req again back cloned
      → FitsInt64 (unix s.response_time)
      → FitsInt64 (unix s.request_time)
      → (bytes : Str) × (left : Response) × (t : TimedResponse) × (stored_response_to_bytes wire s
          ≡ returns (bytes, left))
        × (bytes_to_stored_response wire bytes ≡ returns (some t))
        × IsReadBack Carried s t
  unfolding read_timed
  stored_response_to_bytes-IsReadBack s req again back cloned w h k = (
    wire.write_request req ++ (delim ++ wire.write_response (stamped s)),
    record s.response {
      header = without_times (with_times s.response.header s);
      body = cloned.body;
    },
    read_timed back s,
    written s req again back cloned w,
    read s req again back cloned w h k,
    record {
      status = w.status_back;
      body = w.body_back;
      request_time = refl;
      response_time = refl;
      fields = λ name c. kept_fields s.response.header back.header s name (w.fields_back name c);
    },
  )
