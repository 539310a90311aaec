-- ===== src/Key/RoundTrip.antt =====
-- The request that a key stands for.
use always_cache.Base.{
  ℕ, true, [], ◌∷◌, ◌++◌, append_assoc, length, length-append, ◌≡◌, ◌≢◌, ◌+◌, refl, ap, ◌∙◌, arith,
  All, All-append, some, inr,
}
use always_cache.Go.Strings.{Str, codes}
use always_cache.Go.Strings.Laws.{Lacks, has_prefix-append, trim_prefix-append, cut-append}
use always_cache.Go.Header.{Header, get, values}
use always_cache.Go.Http.{Platform, Request, Response, new_request}
use always_cache.Go.Panic.{returns}
use always_cache.Rfc9111.Fields.{get_list_header}
use always_cache.Rfc9111.Reuse.{header_fields_match}
use always_cache.Rfc9111.Reuse.Laws.{header_fields_match_iff}
use always_cache.Key.{
  CacheKeyer, new_cache_keyer, get_key_prefix, vary_lines, add_vary_keys, get_vary_headers,
  with_vary_headers, get_request_from_key,
}
use always_cache.Key.Vary.{newline, Fits, added, add_lines-split}
use always_cache.Key.Copies.{SameField-added}

-- What a request must be for its key to be read back: its parts hold no separator.
pub record IsKeyable (origin_id : Str) (r : Request) : Type 0 where
  pub origin_line : Lacks newline origin_id
  pub method_line : Lacks newline r.method
  pub uri_line : Lacks newline r.url.request_uri
  pub method_colon : Lacks b':' r.method
  pub method_tab : Lacks b'\t' r.method
  pub uri_tab : Lacks b'\t' r.url.request_uri
  pub cache_key_line : Lacks newline (get r.header (codes "Cache-Key"))

-- The parts of a key, as GetRequestFromKey takes them.
abbrev parts_key : Str → Str → Str → Str → Str
parts_key origin_id method uri behind =
    (origin_id ++ (b':' ∷ [])) ++ ((method ++ (b':' ∷ uri)) ++ b'\t' ∷ behind)

get_request_from_parts :
    (platform : Platform) (origin_id method uri behind : Str)
    → Lacks b':' method
    → Lacks b'\t' (method ++ (b':' ∷ uri))
    → get_request_from_key platform
        (new_cache_keyer origin_id)
        (parts_key origin_id method uri behind)
      ≡ with_vary_headers
          (parts_key origin_id method uri behind)
          (new_request platform method uri [])
unfolding get_request_from_key new_cache_keyer
get_request_from_parts platform origin_id method uri behind c t =
    let rest = (method ++ (b':' ∷ uri)) ++ b'\t' ∷ behind in
    rw (
      has_prefix-append (origin_id ++ (b':' ∷ [])) rest,
      trim_prefix-append (origin_id ++ (b':' ∷ [])) rest,
      cut-append b'\t' (method ++ (b':' ∷ uri)) behind t,
      cut-append b':' method uri c,
    )

-- The key of a request, in these parts.
add_vary_keys-parts :
    (origin_id : Str) (r : Request) (res_header : Header)
    → add_vary_keys (get_key_prefix (new_cache_keyer origin_id) r) r res_header
      ≡ parts_key origin_id r.method r.url.request_uri (
          get r.header (codes "Cache-Key")
          ++ vary_lines r.header (get_list_header res_header (codes "Vary")))
unfolding add_vary_keys get_key_prefix new_cache_keyer
add_vary_keys-parts origin_id r res_header = simp append_assoc

get_key_prefix-Lacks :
    (origin_id : Str) (r : Request)
    → IsKeyable origin_id r
    → Lacks newline (get_key_prefix (new_cache_keyer origin_id) r)
unfolding get_key_prefix new_cache_keyer
get_key_prefix-Lacks origin_id r k = All-append _ origin_id _ k.origin_line (
  omega arith,
  All-append _ r.method _ k.method_line
      (omega arith, All-append _ r.url.request_uri _ k.uri_line (omega arith, k.cache_key_line)),
)

get_vary_headers-add_vary_keys :
    (origin_id : Str) (r : Request) (res_header : Header)
    → IsKeyable origin_id r
    → Fits r.header (get_list_header res_header (codes "Vary"))
    → get_vary_headers (add_vary_keys (get_key_prefix (new_cache_keyer origin_id) r) r res_header)
      ≡ returns (added r.header [] (get_list_header res_header (codes "Vary")))
unfolding get_vary_headers add_vary_keys
get_vary_headers-add_vary_keys origin_id r res_header k f =
    add_lines-split r.header (get_list_header res_header (codes "Vary"))
      (get_key_prefix (new_cache_keyer origin_id) r) f (get_key_prefix-Lacks origin_id r k)

with_vary_headers-some :
    (key : Str) (made : Request) (header : Header)
    → get_vary_headers key ≡ returns header
    → with_vary_headers key (some made) ≡ returns (inr (record made { header = header }))
unfolding with_vary_headers
with_vary_headers-some key made header e = rw (e, with_vary_headers)

-- The key of a request and a response's Vary field gives back the request's method and URI, and
-- the nominated fields that it has; the request must hold no separator in the wrong place, the
-- nominated names must be field names whose values have no newline, and the request must be one
-- that http.NewRequest makes.
pub get_request_from_key-add_vary_keys :
    (platform : Platform) (origin_id : Str) (r made : Request) (res_header : Header)
    → IsKeyable origin_id r
    → Fits r.header (get_list_header res_header (codes "Vary"))
    → new_request platform r.method r.url.request_uri [] ≡ some made
    → get_request_from_key platform
        (new_cache_keyer origin_id)
        (add_vary_keys (get_key_prefix (new_cache_keyer origin_id) r) r res_header)
      ≡ returns (
          inr (record made {
            header = added r.header [] (get_list_header res_header (codes "Vary"));
          }))
get_request_from_key-add_vary_keys platform origin_id r made res_header k f e =
    let parts = add_vary_keys-parts origin_id r res_header in
    let read =
      get_request_from_parts platform origin_id r.method r.url.request_uri
        (get r.header (codes "Cache-Key")
          ++ vary_lines r.header (get_list_header res_header (codes "Vary")))
        k.method_colon (All-append _ r.method _ k.method_tab (omega arith, k.uri_tab)) in
    let lines = get_vary_headers-add_vary_keys origin_id r res_header k f in
    rw parts (read ∙ rw e (with_vary_headers-some _ made _ (rw parts at lines)))

-- A request matches, in the fields that a response's Vary field nominates, the header that is read
-- back from its key's lines for them; the nominated names must be field names other than a star
-- whose values have no newline.
pub header_fields_match-added :
    (r made : Request) (res : Response)
    → Fits r.header (get_list_header res.header (codes "Vary"))
    → All (λ name. name ≢ codes "*") (get_list_header res.header (codes "Vary"))
    → header_fields_match r
        (record made { header = added r.header [] (get_list_header res.header (codes "Vary")) })
        res
      ≡ true
header_fields_match-added r made res f s =
    (header_fields_match_iff r _ res).1
      (SameField-added r.header (get_list_header res.header (codes "Vary")) f s)

eq_nil_of_length : (s : Str) → length s ≡ 0 → s ≡ []
eq_nil_of_length [] h = refl
eq_nil_of_length (c ∷ s) h = absurd (omega arith)

-- The request that http.NewRequest makes from the key of `r`, if the URL is read back.
abbrev pub bare : Request → Request
bare r = record { method = r.method; url = r.url; header = []; body = [] }

length-get_key_prefix :
    (c : CacheKeyer) (r : Request)
    → length (get_key_prefix c r)
      ≡ length (get_key_prefix c (bare r)) + length (get r.header (codes "Cache-Key"))
unfolding get_key_prefix get
length-get_key_prefix c r = omega (arith, length-append {0})

-- The key of a request with a Cache-Key field, stored with a response that has no Vary field, is
-- not the key of the request that is rebuilt from it.
pub get_key_prefix-rebuilt :
    (platform : Platform) (origin_id : Str) (r : Request)
    → IsKeyable origin_id r
    → new_request platform r.method r.url.request_uri [] ≡ some (bare r)
    → get r.header (codes "Cache-Key") ≢ []
    → (rebuilt : Request) × (get_request_from_key platform
          (new_cache_keyer origin_id)
          (add_vary_keys (get_key_prefix (new_cache_keyer origin_id) r) r [])
        ≡ returns (inr rebuilt))
      × (get_key_prefix (new_cache_keyer origin_id) rebuilt
          ≢ get_key_prefix (new_cache_keyer origin_id) r)
get_key_prefix-rebuilt platform origin_id r k e c = (
  bare r,
  unfold get_list_header values added in
      get_request_from_key-add_vary_keys platform origin_id r (bare r) [] k tt e,
  λ same_key.
      c (
        eq_nil_of_length _
          (omega (arith, ap (length {A = ℕ}) same_key, length-get_key_prefix _ r))),
)
