-- ===== src/Server/Updater/All.antt =====
-- updater.go, updateAll: every key is refreshed.
use always_cache.Base.{List, [], ◌∷◌, All, ◌⊎◌, ◌≡◌, refl, ◌∙◌}
use always_cache.Go.Strings.{Str}
use always_cache.Go.Http.{Request}
use always_cache.Go.Panic.{returns}
use always_cache.Key.{KeyError, get_request_from_key}
use always_cache.Provider.{CacheEntry, ProviderLaws}
use always_cache.Server.State.{AlwaysCache, World, ◌>>=◌, pure, gets}
use always_cache.Server.Total.{heads}
use always_cache.Server.Updater.{update_entry, update_keys, update_all}
use always_cache.Server.Updater.Entry.{IsPurgeable, IsRefreshed, update_entry-IsRefreshed}

module _ {S : Type 0} (a : AlwaysCache S) {Holds : S → CacheEntry → Type 0}
    (laws : ProviderLaws a.cache Holds) where
  -- The keys are updated one after the other, and each is refreshed when its turn is over.
  abbrev pub AreRefreshed : List Str → World S → World S → Type 0
  AreRefreshed [] w w' = w' ≡ w
  AreRefreshed (key ∷ keys) w w' =
      (v : World S) × (update_entry a key w ≡ returns (tt, v))
      × IsRefreshed a laws key v
      × AreRefreshed keys v w'

  -- A key that is read without a panic.
  abbrev pub IsRead : Str → Type 0
  IsRead key =
      (found : KeyError ⊎ Request) × (get_request_from_key a.platform a.keyer key ≡ returns found)

  update_keys-AreRefreshed :
      (keys : List Str) (w : World S)
      → All IsRead keys
      → All (IsPurgeable a) keys
      → (w' : World S) × (update_keys a keys w ≡ returns (tt, w'))
        × (heads w'.client.sent ≡ heads w.client.sent)
        × AreRefreshed keys w w'
  unfolding update_keys pure ◌>>=◌
  update_keys-AreRefreshed [] w read purges = (w, refl, refl, refl)
  update_keys-AreRefreshed (key ∷ keys) w ((found, known), read) (purge, purges) =
      let (v, e, silent, refreshed) = update_entry-IsRefreshed a laws key found w known purge in
      let (w', e', silent', others) = update_keys-AreRefreshed keys v read purges in
      (w', rw e e', silent' ∙ silent, (v, e, refreshed, others))

  -- If the cache's keys can be read without a panic, and Purge does not panic for them, updateAll
  -- returns, and sends no response head to a client. It has then taken every key that the cache had
  -- when it began, in the order in which AllKeys gives them. Right after a key's turn, PutCE has just
  -- stored, without an error, a whole answer of the origin to the request that is read from the key,
  -- which MustNotStore lets through, under the key of that request with the lines for the answer's
  -- Vary field; or no entry is left under the key, if the cache provider keeps the interface's
  -- promises. Where that request's key is another one, an entry under the old key may stay.
  pub update_all-AreRefreshed :
      (w : World S)
      → All IsRead (a.cache.all_keys w.store a.keyer.origin_prefix)
      → All (IsPurgeable a) (a.cache.all_keys w.store a.keyer.origin_prefix)
      → (w' : World S) × (update_all a w ≡ returns (tt, w'))
        × (heads w'.client.sent ≡ heads w.client.sent)
        × AreRefreshed (a.cache.all_keys w.store a.keyer.origin_prefix) w w'
  unfolding update_all gets ◌>>=◌
  update_all-AreRefreshed w read purges = update_keys-AreRefreshed _ w read purges
