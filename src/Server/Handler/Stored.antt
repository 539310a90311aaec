-- ===== src/Server/Handler/Stored.antt =====
-- What writeCache has put into the SQLite cache is served again.
use always_cache.Base.{
  Bool, true, false, List, [], ◌∷◌, In, All, ◌⊎◌, inl, inr, ◌≡◌, refl, ◌∙◌, arith,
}
use always_cache.Go.Strings.{Str, has_prefix}
use always_cache.Go.Strings.Laws.{has_prefix-append}
use always_cache.Go.Http.{Request, Response}
use always_cache.Go.Panic.{returns}
use always_cache.Rfc9111.Entry.{Result, ok, err, must_not_store_checked}
use always_cache.Rfc9211.{new_cache_status, set_hit}
use always_cache.Key.{get_key_prefix, add_vary_keys}
use always_cache.Provider.{CacheEntry}
use always_cache.Sqlite.{Row, Engine, all, put_ce, sqlite_cache}
use always_cache.Sqlite.Laws.{EngineLaws, rounded, all-put_ce}
use always_cache.Tee.{ResponseSaver}
use always_cache.Server.State.{AlwaysCache, World, ◌>>=◌, gets, pure}
use always_cache.Server.Store.{
  saved_response, cache_entry, put_entry, write_cache, get_responses_for_uri,
}
use always_cache.Server.Handler.{stored_response_sent, try_entries, serve_http}
use always_cache.Server.Handler.Again.{IsServable, revived, Passes, reuse_or_validate-IsServable}

module _ {S : Type 0} (a : AlwaysCache S) (origin_id : Str) (r made : Request) (res : Response)
    (ce : CacheEntry) where
  -- What the client gets from the entry.
  abbrev pub answered : World S → World S
  answered w = record w {
    client = stored_response_sent a w (revived r made res) ce (set_hit new_cache_status);
  }

  -- The entry is found wherever it stands, if each of the others is passed over.
  try_entries_among :
      (w : World S) (entries : List CacheEntry)
      → In ce entries
      → All (λ e. (e ≡ ce) ⊎ Passes a r w e) entries
      → IsServable a origin_id w.now r made res ce
      → try_entries a r entries w ≡ returns (tt, answered w)
  unfolding try_entries ◌>>=◌ pure
  try_entries_among w [] h others s = absurd h
  try_entries_among w (e ∷ entries) h (inl same, others) s =
      rw (same, reuse_or_validate-IsServable a origin_id r made res ce w s) refl
  try_entries_among w (e ∷ entries) (inr h) (inr (reason, missed, passed), others) s =
      rw (passed, missed) (try_entries_among w entries h others s)
  try_entries_among w (e ∷ entries) (inl same) (inr (reason, missed, passed), others) s =
      rw (← same, reuse_or_validate-IsServable a origin_id r made res ce w s) refl

-- A response that writeCache has stored has gone to PutCE.
written_answer :
    {S : Type 0} (a : AlwaysCache S) (saver : ResponseSaver) (r : Request) (w w' : World S)
    (judged : Result Bool)
    → must_not_store_checked (saved_response saver r) ≡ judged
    → write_cache a saver r w ≡ returns ((true, false), w')
    → ((a.cache.put_ce w.store (cache_entry a w.now saver r)).1 ≡ false)
      × (w'.store ≡ (a.cache.put_ce w.store (cache_entry a w.now saver r)).0)
unfolding write_cache put_entry
written_answer a saver r w w' (ok true) e h = cc
written_answer a saver r w w' (ok false) e h = ground arith
written_answer a saver r w w' (err no_store x) e h = cc

module _ {Db : Type 0} {engine : Engine Db} {rows : Db → List Row} {like : Str → Str → Bool}
    (laws : EngineLaws engine rows like) where
  has_prefix-cache_entry :
      (a : AlwaysCache Db) (w : World Db) (saver : ResponseSaver) (r : Request)
      → has_prefix (cache_entry a w.now saver r).key (get_key_prefix a.keyer r) ≡ true
  unfolding cache_entry add_vary_keys
  has_prefix-cache_entry a w saver r = has_prefix-append (get_key_prefix a.keyer r) _

  cache_entry_listed :
      (a : AlwaysCache Db) (saver : ResponseSaver) (r : Request) (w w' v : World Db)
      → a.cache ≡ sqlite_cache engine
      → write_cache a saver r w ≡ returns ((true, false), w')
      → v.store ≡ w'.store
      → (a.cache.all v.store (get_key_prefix a.keyer r)).1 ≡ false
      → In (rounded (cache_entry a w.now saver r)) (get_responses_for_uri a v r)
  unfolding get_responses_for_uri sqlite_cache cache_entry
  cache_entry_listed a saver r w w' v cached written kept listed =
      let ce = cache_entry a w.now saver r in
      let (stored, same) = written_answer a saver r w w' _ refl written in
      let done : (put_ce engine w.store ce).1 ≡ false = rw cached at stored in
      let store : v.store ≡ (put_ce engine w.store ce).0 = rw cached at (kept ∙ same) in
      let full : (all engine (put_ce engine w.store ce).0 (get_key_prefix a.keyer r)).1 ≡ false =
        rw (cached, store) at listed in
      rw (listed, cached, store)
        (all-put_ce laws w.store ce _ done (has_prefix-cache_entry a w saver r) full)

  -- What writeCache has stored for a safe request in a SQLite cache, without an error, answers this
  -- request again, as long as the database is as writeCache left it and can be read, if the engine does
  -- what its statements say: if the stored response is read back with a key that can be read back, has
  -- no no-cache directive and no star in its Vary field and is fresh by the seconds of its times, and
  -- if every other entry that the cache lists for the request is passed over, then the request is
  -- served from this entry, with its age and a Cache-Status of hit, and the origin is not called.
  pub serve_http-write_cache :
      (a : AlwaysCache Db) (origin_id : Str) (client r made : Request) (res : Response)
      (saver : ResponseSaver) (w w' v : World Db)
      → a.cache ≡ sqlite_cache engine
      → a.modify_response client ≡ r
      → write_cache a saver r w ≡ returns ((true, false), w')
      → v.store ≡ w'.store
      → (a.cache.all v.store (get_key_prefix a.keyer r)).1 ≡ false
      → IsServable a origin_id v.now r made res (rounded (cache_entry a w.now saver r))
      → All
          (λ e. (e ≡ rounded (cache_entry a w.now saver r)) ⊎ Passes a r v e)
          (get_responses_for_uri a v r)
      → serve_http a client v
        ≡ returns (tt, answered a origin_id r made res (rounded (cache_entry a w.now saver r)) v)
  unfolding serve_http ◌>>=◌ gets
  serve_http-write_cache a origin_id client r made res saver w w' v cached same written kept listed
        s others =
      let among = cache_entry_listed a saver r w w' v cached written kept listed in
      rw same (
        try_entries_among a origin_id r made res (rounded (cache_entry a w.now saver r)) v _ among
          others s)
