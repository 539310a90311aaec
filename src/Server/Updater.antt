-- ===== src/Server/Updater.antt =====
-- updater.go: the cache is updated after unsafe requests, on request of a response, and before an
-- entry expires.
pub mod Laws
pub mod Entry
pub mod All
pub mod Round
pub mod Invalidating
pub mod Revalidating
pub mod Saving
use always_cache.Base.{
  ℕ, Option, Bool, true, false, ◌&&◌, ◌||◌, not, List, [], ◌∷◌, none, some, inl, inr, if◌then◌else◌,
}
use always_cache.Base.Int.{pos, ltb_ℤ}
use always_cache.Go.Strings.{Str, codes, is_empty}
use always_cache.Go.Time.{Duration, nanos, sub, add}
use always_cache.Go.Http.{Request, Response, new_request}
use always_cache.Rfc9111.Invalidation.{get_invalidate_uris}
use always_cache.CacheUpdate.{CacheUpdate, get_cache_updates}
use always_cache.Key.{get_key_prefix, get_request_from_key, method_prefix}
use always_cache.Tee.{ResponseSaver}
use always_cache.Server.State.{
  AlwaysCache, update_later, M, ◌>>=◌, ◌>>◌, pure, lift, gets, modify, spawn, declare, assign,
  variable,
}
use always_cache.Server.Store.{saved_response, write_cache, save_request}

module _ {S : Type 0} (a : AlwaysCache S) where
  unfoldable pub purge : Str → M S (Unit {0})
  purge key = do
    w ← gets (λ w. w)
    store' ← lift (a.cache.purge w.store key)
    modify (λ v. record v { store = store' })

  unfoldable pub has : Str → M S Bool
  has key = do w ← gets (λ w. w); lift (a.cache.has w.store key)

  -- time.Sleep
  unfoldable pub sleep : Duration → M S (Unit {0})
  sleep d = modify (λ w. record w { now = add w.now d })

  -- The closure updateCache of saveUpdates.
  unfoldable pub update_path : Str → M S (Unit {0})
  update_path path = elim (new_request a.platform (codes "GET") path []) [
    | none ↦ pure tt
    | some req ↦ do save_request a req; pure tt
  ]

  -- The rounds of the loop of saveUpdates, whose variable has the given number. The goroutine of a
  -- delayed update reads that variable when it runs.
  unfoldable pub save_each : ℕ → List CacheUpdate → M S (Unit {0})
  unfolding update_path assign
  save_each n [] = pure tt
  save_each n (update ∷ rest) = do
    assign n update
    if ltb_ℤ (pos 0) update.delay then spawn (update_later n) else update_path update.path
    save_each n rest

  unfoldable pub save_updates : List CacheUpdate → M S (Unit {0})
  unfolding save_each declare
  save_updates [] = pure tt
  save_updates (update ∷ rest) = do n ← declare update; save_each n (update ∷ rest)

  -- The goroutine of saveUpdates. It reads the loop variable before it sleeps, and once more behind.
  unfoldable pub update_delayed : ℕ → M S (Unit {0})
  unfolding sleep update_path variable
  update_delayed n = do
    update ← variable n
    sleep update.delay
    later ← variable n
    update_path later.path

  unfoldable pub revalidate_uri : Request → M S (Unit {0})
  unfolding has
  revalidate_uri req = do
    known ← has (get_key_prefix a.keyer req)
    if known then (do save_request a req; pure tt) else pure tt

  unfoldable pub revalidate_uris : List Str → M S (Unit {0})
  unfolding revalidate_uri
  revalidate_uris [] = pure tt
  revalidate_uris (uri ∷ rest) = do
    elim (new_request a.platform (codes "GET") uri []) [
      | none ↦ pure tt
      | some req ↦ revalidate_uri req
    ]
    revalidate_uris rest

  unfoldable pub invalidate_uri : Option Request → M S (Unit {0})
  unfolding purge
  invalidate_uri none = pure tt
  invalidate_uri (some req) = purge (get_key_prefix a.keyer req)

  unfoldable pub invalidate_uris : List Str → M S (Unit {0})
  unfolding invalidate_uri
  invalidate_uris [] = pure tt
  invalidate_uris (uri ∷ rest) = do
    invalidate_uri (new_request a.platform (codes "GET") uri [])
    invalidate_uris rest

  -- The response's request is the client's.
  unfoldable pub update_if_needed : Request → Response → M S (Unit {0})
  update_if_needed down_req up_res = do
    uris ← lift (get_invalidate_uris a.platform down_req up_res)
    if a.updates then revalidate_uris uris else invalidate_uris uris
    save_updates (get_cache_updates a.platform down_req down_req.url up_res)

  -- updateResposeAndLocations of always-cache.go.
  unfoldable pub update_response_and_locations : ResponseSaver → Request → M S (Unit {0})
  unfolding update_if_needed
  update_response_and_locations rw r = do
    write_cache a rw r
    update_if_needed r (saved_response rw r)

  unfoldable pub purge_unless : Str → Bool × Bool → M S (Unit {0})
  unfolding purge
  purge_unless key (cached, failed) = if failed || not cached then purge key else pure tt

  -- The request is made once more, a second later, if nothing was stored.
  unfoldable pub save_twice : Request → M S (Bool × Bool)
  unfolding sleep
  save_twice req = do
    first ← save_request a req
    if not first.0 || first.1 then (do sleep (pos nanos); save_request a req) else pure first

  unfoldable pub update_entry : Str → M S (Unit {0})
  unfolding purge_unless save_twice
  update_entry key = do
    found ← lift (get_request_from_key a.platform a.keyer key)
    result ← elim found [ inl e ↦ pure (false, true) | inr req ↦ save_twice req ]
    purge_unless key result

  -- One round of the loop of updateCache.
  unfoldable pub update_cache_round : M S (Unit {0})
  unfolding update_entry sleep
  update_cache_round = do
    w ← gets (λ w. w)
    let old = a.cache.oldest w.store (method_prefix a.keyer (codes "GET"))
    if not old.failed
          && not (is_empty old.key)
          && not (ltb_ℤ a.update_timeout (sub old.expires w.now))
        then update_entry old.key
        else sleep a.update_timeout

  unfoldable pub update_keys : List Str → M S (Unit {0})
  unfolding update_entry
  update_keys [] = pure tt
  update_keys (key ∷ keys) = do update_entry key; update_keys keys

  -- updateAll, over the keys that the store had at its beginning.
  unfoldable pub update_all : M S (Unit {0})
  unfolding update_keys
  update_all = do w ← gets (λ w. w); update_keys (a.cache.all_keys w.store a.keyer.origin_prefix)
