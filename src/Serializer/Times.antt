-- ===== src/Serializer/Times.antt =====
-- The two fields of the times in a header.
use always_cache.Base.{
  Bool, false, [], ◌≡◌, ◌||◌, refl, ◌∙◌, arith, ap, if◌then◌else◌, Bool-cases, inl, inr,
}
use always_cache.Go.Strings.{Str, same}
use always_cache.Go.Conv.{format_int}
use always_cache.Go.Header.{Header, get, set, del, values, canonical, first}
use always_cache.Go.Header.Laws.{values-set, values-del, get-set, get-set_self}
use always_cache.Go.Time.{unix}
use always_cache.Serializer.{
  TimedResponse, response_time_header_name, request_time_header_name, with_times, without_times,
}
use always_cache.Serializer.Delimiter.{}

abbrev pub is_time_name : Str → Bool
is_time_name name =
    same (canonical response_time_header_name) (canonical name)
    || same (canonical request_time_header_name) (canonical name)

values-with_times :
    (h : Header) (s : TimedResponse) (name : Str)
    → is_time_name name ≡ false
    → values (with_times h s) name ≡ values h name
unfolding with_times
values-with_times h s name e = ground (
  arith,
  values-set h response_time_header_name name (format_int (unix s.response_time)),
  values-set (set h response_time_header_name (format_int (unix s.response_time)))
      request_time_header_name name (format_int (unix s.request_time)),
)

values-without_times :
    (h : Header) (name : Str)
    → values (without_times h) name ≡ (if is_time_name name then [] else values h name)
unfolding without_times
values-without_times h name = ground (
  arith,
  values-del h response_time_header_name name,
  values-del (del h response_time_header_name) request_time_header_name name,
)

pub kept_fields :
    (h k : Header) (s : TimedResponse) (name : Str)
    → values k name ≡ values (with_times h s) name
    → values (without_times k) name ≡ (if is_time_name name then [] else values h name)
kept_fields h k s name e = elim (Bool-cases (is_time_name name)) [
  | inl timed ↦ values-without_times k name ∙ rw timed refl
  | inr plain ↦ values-without_times k name ∙ rw plain (e ∙ values-with_times h s name plain)
]

pub first_value :
    (h k : Header) (name : Str) → values h name ≡ values k name → get h name ≡ get k name
unfolding get
first_value h k name e = ap first e

-- The two names differ.
names_differ :
    same (canonical request_time_header_name) (canonical response_time_header_name) ≡ false
unfolding response_time_header_name request_time_header_name canonical same
names_differ = refl

pub get_response_time :
    (h : Header) (s : TimedResponse)
    → get (with_times h s) response_time_header_name ≡ format_int (unix s.response_time)
unfolding with_times
get_response_time h s =
    get-set (set h response_time_header_name (format_int (unix s.response_time)))
      request_time_header_name response_time_header_name (format_int (unix s.request_time))
    ∙ rw names_differ (get-set_self h response_time_header_name (format_int (unix s.response_time)))

pub get_request_time :
    (h : Header) (s : TimedResponse)
    → get (with_times h s) request_time_header_name ≡ format_int (unix s.request_time)
unfolding with_times
get_request_time h s =
    get-set_self (set h response_time_header_name (format_int (unix s.response_time)))
      request_time_header_name (format_int (unix s.request_time))
