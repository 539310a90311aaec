-- ===== src/Rfc9111/Invalidation.antt =====
-- rfc9111/4.4._invalidating-stored-responses.go: the URIs whose stored responses an unsafe request
-- makes out of date.
pub mod Laws
use always_cache.Base.{
  ℕ, Bool, true, false, ◌&&◌, List, [], ◌∷◌, ◌++◌, Option, none, some, leb, if◌then◌else◌,
}
use always_cache.Go.Strings.{Str, codes}
use always_cache.Go.Header.{values}
use always_cache.Go.Http.{Platform, Request, Response}
use always_cache.Go.Panic.{Call, returns, panics, ◌>>=◌}
use always_cache.Rfc9111.Reuse.{unsafe_request}

unfoldable pub non_error_response : Response → Bool
non_error_response res = leb 200 res.status_code && leb res.status_code 399

module _ (platform : Platform) where
  -- getUri calls RequestURI before it looks at the error: with an error the URL is nil.
  unfoldable pub get_uri : Str → Call Str
  get_uri raw_url = elim (platform.parse_url raw_url) [
    | none ↦ panics
    | some u ↦ returns u.request_uri
  ]

  -- One of the two loops of getUris.
  unfoldable pub collect_uris : List Str → Call (List Str)
  unfolding get_uri
  collect_uris [] = returns []
  collect_uris (url ∷ rest) = do uri ← get_uri url; uris ← collect_uris rest; returns (uri ∷ uris)

  unfoldable pub get_uris : List (List Str) → Call (List Str)
  unfolding collect_uris
  get_uris [] = returns []
  get_uris (urls ∷ rest) = do uris ← collect_uris urls; more ← get_uris rest; returns (uris ++ more)

  unfoldable pub get_invalidate_uris : Request → Response → Call (List Str)
  unfolding get_uris
  get_invalidate_uris client origin =
      if unsafe_request client && non_error_response origin
      then (do
        uris ← get_uris (
            values origin.header (codes "Location")
            ∷ values origin.header (codes "Content-Location")
            ∷ [])
        returns (client.url.text ∷ uris))
      else returns []
