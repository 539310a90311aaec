-- ===== src/Server/Store.antt =====
-- always-cache.go: writeCache, saveRequest of updater.go and getResponsesForUri.
use always_cache.Base.{◌+◌, Bool, true, false, not, List, [], some, if◌then◌else◌}
use always_cache.Go.Time.{Time}
use always_cache.Go.Http.{Request, Response}
use always_cache.Go.Panic.{returns}
use always_cache.Rfc9111.Freshness.{get_expiration}
use always_cache.Rfc9111.Entry.{ok, err, must_not_store_checked}
use always_cache.Key.{get_key_prefix, add_vary_keys}
use always_cache.Provider.{CacheEntry}
use always_cache.Tee.{ResponseSaver, new_silent_saver, run}
use always_cache.Server.State.{AlwaysCache, World, M, ◌>>=◌, gets}

-- The response that a saver has recorded, without its body.
abbrev pub saved_response : ResponseSaver → Request → Response
saved_response rw r = record {
  status_code = rw.status;
  header = rw.header;
  body = [];
  request = some r;
}

module _ {S : Type 0} (a : AlwaysCache S) where
  -- The reverse proxy answers a request into a saver.
  unfoldable pub ask_origin : ResponseSaver → Request → M S ResponseSaver
  ask_origin rw req w =
      returns (run a.platform rw (a.origin w.calls req), record w { calls = w.calls + 1 })

  unfoldable pub cache_entry : Time → ResponseSaver → Request → CacheEntry
  cache_entry now rw r = record {
    key = add_vary_keys (get_key_prefix a.keyer r) r rw.header;
    expires = get_expiration a.platform now (saved_response rw r);
    requested_at = rw.created_at;
    received_at = now;
    bytes = rw.buffer;
  }

  unfoldable pub put_entry : CacheEntry → M S (Bool × Bool)
  put_entry ce w =
      let (store', failed) = a.cache.put_ce w.store ce in
      returns ((not failed, failed), record w { store = store' })

  -- writeCache: whether the response was stored, and whether there was an error.
  unfoldable pub write_cache : ResponseSaver → Request → M S (Bool × Bool)
  unfolding cache_entry put_entry
  write_cache rw r w = elim (must_not_store_checked (saved_response rw r)) [
    | err no_store e ↦ returns ((false, true), w)
    | ok no_store ↦ elim no_store [
      | true ↦ returns ((false, false), w)
      | false ↦ put_entry (cache_entry w.now rw r) w
    ]
  ]

  -- saveRequest; its argument for the key serves the log alone.
  unfoldable pub save_request : Request → M S (Bool × Bool)
  unfolding ask_origin write_cache
  save_request req = do
    now ← gets (λ w. w.now)
    rw ← ask_origin (new_silent_saver now) req
    write_cache rw req

  -- getResponsesForUri: no entries in case of an error.
  unfoldable pub get_responses_for_uri : World S → Request → List CacheEntry
  get_responses_for_uri w r =
      let (entries, failed) = a.cache.all w.store (get_key_prefix a.keyer r) in
      if failed then [] else entries
