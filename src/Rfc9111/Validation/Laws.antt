-- ===== src/Rfc9111/Validation/Laws.antt =====
-- The preconditions of a validation request.
use always_cache.Base.{some, if◌then◌else◌, ◌≡◌, ap, ◌∙◌, arith, Option-cases, inl, inr}
use always_cache.Go.Strings.{Str, codes, is_empty, same}
use always_cache.Go.Header.{Header, get, canonical}
use always_cache.Go.Header.Laws.{get-set}
use always_cache.Go.Http.{Platform, Request, Response, new_request}
use always_cache.Rfc9111.Validation.{
  set_if_present, set_preconditions, generate_conditional_request,
}

abbrev pub if_none_match : Str
if_none_match = codes "If-None-Match"

abbrev pub if_modified_since : Str
if_modified_since = codes "If-Modified-Since"

-- The stored validator, and without one what the client sent.
abbrev pub validator_or : Str → Str → Str
validator_or stored sent = if is_empty stored then sent else stored

get-set_if_present :
    (h : Header) (name other v : Str)
    → get (set_if_present h name v) other ≡ (
        if same (canonical name) (canonical other)
        then validator_or v (get h other)
        else get h other)
unfolding set_if_present
get-set_if_present h name other v = ground (arith, get-set h name other v)

set_preconditions_etag :
    (res : Response) (h : Header)
    → get (set_preconditions res h) if_none_match
      ≡ validator_or (get res.header (codes "ETag")) (get h if_none_match)
unfolding set_preconditions canonical same
set_preconditions_etag res h =
    let etag = get res.header (codes "ETag") in
    let last_modified = get res.header (codes "Last-Modified") in
    get-set_if_present (set_if_present h if_modified_since last_modified) if_none_match
      if_none_match etag
    ∙ ap (validator_or etag) (get-set_if_present h if_modified_since if_none_match last_modified)

set_preconditions_date :
    (res : Response) (h : Header)
    → get (set_preconditions res h) if_modified_since
      ≡ validator_or (get res.header (codes "Last-Modified")) (get h if_modified_since)
unfolding set_preconditions canonical same
set_preconditions_date res h =
    let etag = get res.header (codes "ETag") in
    let last_modified = get res.header (codes "Last-Modified") in
    get-set_if_present (set_if_present h if_modified_since last_modified) if_none_match
      if_modified_since etag
    ∙ get-set_if_present h if_modified_since if_modified_since last_modified

-- A validation request for a client request has the stored ETag and Last-Modified values as its
-- preconditions; where the stored response lacks one of them, the client's own precondition of that
-- kind goes out.
pub generate_conditional_request_preconditions :
    (platform : Platform) (req : Request) (res : Response) {validation : Request}
    → generate_conditional_request platform req res ≡ some validation
    → (get validation.header if_none_match
        ≡ validator_or (get res.header (codes "ETag")) (get req.header if_none_match))
      × (get validation.header if_modified_since
          ≡ validator_or
              (get res.header (codes "Last-Modified"))
              (get req.header if_modified_since))
unfolding generate_conditional_request
generate_conditional_request_preconditions platform req res e =
    elim (Option-cases (new_request platform req.method req.url.text req.body)) [
      | inl absent ↦ ground arith
      | inr (r, made) ↦
          ground
            (arith, set_preconditions_etag res req.header, set_preconditions_date res req.header)
    ]
