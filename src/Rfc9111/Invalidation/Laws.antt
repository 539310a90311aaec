-- ===== src/Rfc9111/Invalidation/Laws.antt =====
-- The URIs that an unsafe request makes out of date, and the crash at a URI that is none.
use always_cache.Base.{
  true, false, ◌&&◌, List, [], ◌∷◌, ◌++◌, append-nil, Option, none, some, ◌≡◌, refl, arith, ◌>>=◌,
}
use always_cache.Go.Strings.{Str, codes}
use always_cache.Go.Header.{values}
use always_cache.Go.Http.{Platform, Request, Response}
use always_cache.Go.Panic
use always_cache.Go.Panic.{Call, returns, panics}
use always_cache.Rfc9111.Reuse.{unsafe_request}
use always_cache.Rfc9111.Invalidation.{
  non_error_response, collect_uris, get_uris, get_invalidate_uris,
}

-- The request URIs of a list of texts, if each of them is a URL.
abbrev pub request_uris : Platform → List Str → Option (List Str)
request_uris platform [] = some []
request_uris platform (t ∷ ts) =
    platform.parse_url t >>= λ u. request_uris platform ts >>= λ us. some (u.request_uri ∷ us)

abbrev pub or_panic : Option (List Str) → Call (List Str)
or_panic none = panics
or_panic (some uris) = returns uris

module _ (platform : Platform) where
  collect_uris_lem :
      (ts : List Str) → collect_uris platform ts ≡ or_panic (request_uris platform ts)
  unfolding collect_uris
  collect_uris_lem [] = refl
  collect_uris_lem (t ∷ ts) = ground (arith, collect_uris_lem ts)

  request_uris-append :
      (ts us : List Str)
      → request_uris platform (ts ++ us)
        ≡ (request_uris platform ts >>= λ xs. request_uris platform us >>= λ ys. some (xs ++ ys))
  request_uris-append [] us = ground arith
  request_uris-append (t ∷ ts) us = ground (arith, request_uris-append ts us)

  uris_joined :
      (uri : Str) (xs ys : Option (List Str))
      → Panic.◌>>=◌
          (Panic.◌>>=◌ (or_panic xs) λ us.
            Panic.◌>>=◌
              (Panic.◌>>=◌ (or_panic ys) λ vs. returns (vs ++ []))
              λ more. returns (us ++ more))
          (λ all. returns (uri ∷ all))
        ≡ or_panic (xs >>= (λ us. ys >>= λ vs. some (us ++ vs)) >>= λ all. some (uri ∷ all))
  uris_joined uri none ys = refl
  uris_joined uri (some us) none = refl
  uris_joined uri (some us) (some vs) = rw append-nil

  -- A non-error response to an unsafe request makes the request's own URL and the request URIs of
  -- all Location and Content-Location values, of whatever origin, out of date, and panics if one of
  -- these is no URL.
  pub get_invalidate_uris_unsafe :
      (client : Request) (origin : Response)
      → unsafe_request client ≡ true
      → non_error_response origin ≡ true
      → get_invalidate_uris platform client origin
        ≡ or_panic (
            request_uris platform (
              values origin.header (codes "Location")
              ++ values origin.header (codes "Content-Location"))
            >>= λ uris. some (client.url.text ∷ uris))
  unfolding get_invalidate_uris get_uris
  get_invalidate_uris_unsafe client origin h k =
      let here = values origin.header (codes "Location") in
      let there = values origin.header (codes "Content-Location") in
      rw (h, k, collect_uris_lem here, collect_uris_lem there, request_uris-append here there)
        (uris_joined client.url.text (request_uris platform here) (request_uris platform there))

  -- A safe request and an error response make nothing out of date.
  pub get_invalidate_uris_safe :
      (client : Request) (origin : Response)
      → (unsafe_request client && non_error_response origin) ≡ false
      → get_invalidate_uris platform client origin ≡ returns []
  unfolding get_invalidate_uris
  get_invalidate_uris_safe client origin h = ground arith
