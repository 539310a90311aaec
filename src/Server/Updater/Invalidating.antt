-- ===== src/Server/Updater/Invalidating.antt =====
-- updater.go: what the answer to an unsafe request takes out of the cache.
use always_cache.Base.{
  Bool, true, false, List, [], ◌∷◌, ◌++◌, All, Option, none, some, if◌then◌else◌, ◌≡◌, refl, sym,
  ap, ◌∙◌, arith,
}
use always_cache.Base
use always_cache.Go.Strings.{Str, codes}
use always_cache.Go.Header.{values}
use always_cache.Go.Http.{Platform, Request, Response}
use always_cache.Go.Panic.{returns}
use always_cache.Rfc9111.Reuse.{unsafe_request}
use always_cache.Rfc9111.Invalidation.{non_error_response, get_invalidate_uris}
use always_cache.Rfc9111.Invalidation.Laws.{request_uris, or_panic, get_invalidate_uris_unsafe}
use always_cache.CacheUpdate.{get_cache_updates}
use always_cache.Provider.{CacheEntry, ProviderLaws}
use always_cache.Tee.{ResponseSaver}
use always_cache.Server.State.{
  AlwaysCache, World, ◌>>=◌, pure, >>=-eq-returns, lift->>=-eq-returns, returns_injective,
}
use always_cache.Server.State
use always_cache.Server.Store.{saved_response, write_cache}
use always_cache.Server.Updater.{
  revalidate_uris, invalidate_uris, save_updates, update_if_needed, update_response_and_locations,
}
use always_cache.Server.Updater.Laws.{NotOf, invalidate_uris-NotOf}

or_panic-returns :
    (answer : Option (List Str)) (uri : Str) (found : List Str)
    → or_panic (Base.◌>>=◌ answer λ uris. some (uri ∷ uris)) ≡ returns found
    → (uris : List Str) × (answer ≡ some uris) × (found ≡ uri ∷ uris)
or_panic-returns none uri found e = cc
or_panic-returns (some uris) uri found e = (uris, refl, cc)

no_updates :
    (platform : Platform) (req : Request) (res : Response)
    → values res.header (codes "Cache-Update") ≡ []
    → get_cache_updates platform req req.url res ≡ []
unfolding get_cache_updates
no_updates platform req res none_asked = ground (arith, none_asked)

otherwise : {A : Type 0} (b : Bool) (x y : A) → b ≡ false → (if b then x else y) ≡ y
otherwise true x y e = cc
otherwise false x y e = refl

module _ {S : Type 0} (a : AlwaysCache S) where
  -- The request URIs of the Location and Content-Location fields.
  abbrev pub locations : Response → Option (List Str)
  locations res =
      request_uris a.platform
        (values res.header (codes "Location") ++ values res.header (codes "Content-Location"))

module _ {S : Type 0} (a : AlwaysCache S) {Holds : S → CacheEntry → Type 0}
    (laws : ProviderLaws a.cache Holds) where
  taken-NotOf :
      (r : Request) (res : Response) (found : List Str) (w w' : World S)
      → a.updates ≡ false
      → values res.header (codes "Cache-Update") ≡ []
      → ((if a.updates then revalidate_uris a found else invalidate_uris a found) >>= λ _.
            save_updates a (get_cache_updates a.platform r r.url res))
          w
        ≡ returns (tt, w')
      → (e : CacheEntry) → Holds w'.store e
      → All (NotOf a e) found
  unfolding save_updates pure
  taken-NotOf r res found w w' legacy none_asked done e held =
      let (x, v, taken, last) =
        >>=-eq-returns (if a.updates then revalidate_uris a found else invalidate_uris a found)
          (λ _. save_updates a (get_cache_updates a.platform r r.url res)) w w' tt done in
      let out : invalidate_uris a found w ≡ returns (x, v) =
        ap (λ (m : State.M S (Unit {0})). m w) (sym (otherwise a.updates _ _ legacy)) ∙ taken in
      let same : w' ≡ v =
        (returns_injective (rw (no_updates a.platform r res none_asked) at last)).1 in
      (invalidate_uris-NotOf a laws found w v out e (rw same at held)).1

  update_if_needed-NotOf :
      (r : Request) (res : Response) (w w' : World S)
      → a.updates ≡ false
      → unsafe_request r ≡ true
      → non_error_response res ≡ true
      → values res.header (codes "Cache-Update") ≡ []
      → update_if_needed a r res w ≡ returns (tt, w')
      → (uris : List Str) × (locations a res ≡ some uris)
        × ((e : CacheEntry) → Holds w'.store e → All (NotOf a e) (r.url.text ∷ uris))
  unfolding update_if_needed
  update_if_needed-NotOf r res w w' legacy unsafe fine none_asked done =
      let (found, known, others) =
        lift->>=-eq-returns (get_invalidate_uris a.platform r res) _ w w' tt done in
      let (uris, listed, all) =
        or_panic-returns (locations a res) r.url.text found
          (sym (get_invalidate_uris_unsafe a.platform r res unsafe fine) ∙ known) in
      (
        uris,
        listed,
        λ e held.
            let out = taken-NotOf r res found w w' legacy none_asked others e held in rw all at out,
      )

  -- When the updates are off and the cache provider keeps the interface's promises, then, once
  -- updateResposeAndLocations has returned for the answer to an unsafe request, and if the answer is
  -- no error and has no Cache-Update field, its Location and Content-Location values are URLs, and
  -- the cache holds no entry under the key, without vary lines, of a GET request for the request's
  -- own URL or for the request URI of one of these values, of whatever origin the value is.
  pub update_response_and_locations-NotOf :
      (r : Request) (saver : ResponseSaver) (w w' : World S)
      → a.updates ≡ false
      → unsafe_request r ≡ true
      → non_error_response (saved_response saver r) ≡ true
      → values saver.header (codes "Cache-Update") ≡ []
      → update_response_and_locations a saver r w ≡ returns (tt, w')
      → (uris : List Str) × (locations a (saved_response saver r) ≡ some uris)
        × ((e : CacheEntry) → Holds w'.store e → All (NotOf a e) (r.url.text ∷ uris))
  unfolding update_response_and_locations
  update_response_and_locations-NotOf r saver w w' legacy unsafe fine none_asked done =
      let (x, v, written, others) = >>=-eq-returns (write_cache a saver r) _ w w' tt done in
      update_if_needed-NotOf r (saved_response saver r) v w' legacy unsafe fine none_asked others
