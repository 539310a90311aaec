-- ===== src/Server/Updater/Laws.antt =====
-- What an invalidation takes out of the cache.
use always_cache.Base.{List, [], ◌∷◌, All, Option, none, some, ◌≡◌, ◌≢◌}
use always_cache.Go.Strings.{Str, codes}
use always_cache.Go.Http.{Request, new_request}
use always_cache.Go.Panic.{returns}
use always_cache.Key.{get_key_prefix}
use always_cache.Provider.{CacheEntry, ProviderLaws}
use always_cache.Server.State.{
  AlwaysCache, World, ◌>>=◌, pure, gets, modify, >>=-eq-returns, lift->>=-eq-returns,
  returns_injective,
}
use always_cache.Server.Updater.{purge, invalidate_uri, invalidate_uris}

some_request : {p q : Request} → some p ≡ some q → p ≡ q
some_request e = cc

module _ {S : Type 0} (a : AlwaysCache S) where
  -- The entry does not stand under the key that GET requests for the URI have without vary lines.
  abbrev pub NotOf : CacheEntry → Str → Type 0
  NotOf e uri =
      (req : Request)
      → new_request a.platform (codes "GET") uri [] ≡ some req
      → e.key ≢ get_key_prefix a.keyer req

module _ {S : Type 0} (a : AlwaysCache S) {Holds : S → CacheEntry → Type 0}
    (laws : ProviderLaws a.cache Holds) where
  pub purge_lem :
      (key : Str) (w w' : World S)
      → purge a key w ≡ returns (tt, w')
      → (e : CacheEntry) → Holds w'.store e
      → Holds w.store e × (e.key ≢ key)
  unfolding purge gets modify ◌>>=◌
  purge_lem key w w' done e held =
      let (store', purged, rest) =
        lift->>=-eq-returns (a.cache.purge w.store key)
          (λ store'. modify (λ v. record v { store = store' })) w w' tt done in
      laws.purge_holds w.store store' key e purged (rw (returns_injective rest).1 at held)

  purge_found :
      (found : Option Request) (w w' : World S)
      → invalidate_uri a found w ≡ returns (tt, w')
      → (e : CacheEntry) → Holds w'.store e
      → Holds w.store e × ((req : Request) → found ≡ some req → e.key ≢ get_key_prefix a.keyer req)
  unfolding invalidate_uri pure
  purge_found none w w' done e held = (rw (returns_injective done).1 at held, λ req same. cc)
  purge_found (some r) w w' done e held =
      let (old, other) = purge_lem (get_key_prefix a.keyer r) w w' done e held in
      (old, λ req same. rw (← some_request same) other)

  -- With a cache provider that keeps the interface's promises, an invalidation adds no entry, and
  -- leaves none under the key that a GET request for one of the URIs has without vary lines.
  pub invalidate_uris-NotOf :
      (uris : List Str) (w w' : World S)
      → invalidate_uris a uris w ≡ returns (tt, w')
      → (e : CacheEntry) → Holds w'.store e
      → Holds w.store e × All (NotOf a e) uris
  unfolding invalidate_uris
  invalidate_uris-NotOf [] w w' done e held = ((purge_found none w w' done e held).0, tt)
  invalidate_uris-NotOf (uri ∷ rest) w w' done e held =
      let (x, v, first, later) =
        >>=-eq-returns (invalidate_uri a (new_request a.platform (codes "GET") uri []))
          (λ _. invalidate_uris a rest) w w' tt done in
      let (between, others) = invalidate_uris-NotOf rest v w' later e held in
      let (old, here) =
        purge_found (new_request a.platform (codes "GET") uri []) w v first e between in
      (old, (here, others))
