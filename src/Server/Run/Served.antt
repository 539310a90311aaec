-- ===== src/Server/Run/Served.antt =====
-- What a client gets without the origin's help.
use always_cache.Base.{
  ℕ, ◌+◌, ◌⊎◌, ◌≤◌, true, false, List, [], ◌∷◌, In, inl, inr, if◌then◌else◌, ◌≡◌, refl, arith,
  Bool-cases,
}
use always_cache.Go.Http.{Request}
use always_cache.Go.Panic.{returns}
use always_cache.Rfc9211.{
  FwdReason, empty, is_empty_reason, uri_miss, new_cache_status, set_forward,
}
use always_cache.Key.{get_key_prefix}
use always_cache.Provider.{CacheEntry, ProviderLaws}
use always_cache.Tee.{ResponseSaver}
use always_cache.Server.State.{AlwaysCache, World, ◌>>=◌, pure, gets, modify, >>=-eq-returns}
use always_cache.Server.Store.{ask_origin, get_responses_for_uri}
use always_cache.Server.Handler.{
  with_cache_status, ask_client, reuse_or_validate, store_answer, proxy, try_entries, serve_http,
}
use always_cache.Server.Handler.Serving.{Hit, reuse_or_validate-Hit, reuse_or_validate-miss}
use always_cache.Server.Run.Keeping.{Invariant}
use always_cache.Server.Goroutines.Alone.{store_answer-Runs}
use always_cache.Server.Goroutines.Guards.{kept_alone, store_answer-Guards}
use always_cache.Server.Run.Sound.{IsSound, IsStored}

-- The origin's calls are not taken back.
abbrev AtLeast : {S : Type 0} → ℕ → World S → Type 0
AtLeast n w = n ≤ w.calls

pub is_empty-empty : (reason : FwdReason) → is_empty_reason reason ≡ true → reason ≡ empty
is_empty-empty empty e = refl
is_empty-empty _ e = cc

module _ {S : Type 0} (a : AlwaysCache S) where
  AtLeast-Invariant : (n : ℕ) → Invariant a (AtLeast n) (λ _ _. Unit {0})
  AtLeast-Invariant n = record {
    ask = λ w rw req new i. (omega (arith, i), λ r asked. tt);
    put = λ w rw r fair allowed i. i;
    purged = λ w store' key done i. i;
    spawned = λ w rw r fair i. i;
    delayed = λ w n i. i;
    assigned = λ w variables i. i;
    time = λ w now i. i;
  }

  calls-ask_client :
      (r : Request) (w w' : World S) (saver : ResponseSaver)
      → ask_client a 0 r w ≡ returns (saver, w')
      → w'.calls ≡ w.calls + 1
  unfolding ask_client ask_origin ◌>>=◌ gets modify pure
  calls-ask_client r w w' saver e = ground arith

  calls-proxy :
      (r : Request) (w w' : World S) → proxy a r w ≡ returns (tt, w') → w.calls + 1 ≤ w'.calls
  unfolding proxy ◌>>=◌ modify
  calls-proxy r w w' e =
      let u : World S = with_cache_status (set_forward uri_miss new_cache_status) w in
      let (saver, v, answered, rest) =
        >>=-eq-returns (ask_client a 0 r) (λ saver. store_answer a saver r) u w' tt e in
      let guards = store_answer-Guards (AtLeast-Invariant (w.calls + 1)) saver r tt in
      kept_alone guards (store_answer-Runs a saver r) v w'
        (omega (arith, calls-ask_client r u v saver answered)) rest

  after_reuse :
      (r : Request) (entries : List CacheEntry) (reason : FwdReason) (v w' : World S)
      → (if is_empty_reason reason then pure tt else try_entries a r entries) v ≡ returns (tt, w')
      → ((reason ≡ empty) × (w' ≡ v))
        ⊎ ((is_empty_reason reason ≡ false) × (try_entries a r entries v ≡ returns (tt, w')))
  unfolding pure
  after_reuse r entries empty v w' e = inl (refl, ground arith)
  after_reuse r entries _ v w' e = inr (refl, e)

  try_entries-Hit :
      (r : Request) (entries : List CacheEntry) (w w' : World S)
      → try_entries a r entries w ≡ returns (tt, w')
      → w'.calls ≡ w.calls
      → (ce : CacheEntry) × In ce entries × Hit a r w w' ce
  unfolding try_entries
  try_entries-Hit r [] w w' e c = absurd (omega (arith, calls-proxy r w w' e, c))
  try_entries-Hit r (ce ∷ entries) w w' e c =
      let (reason, v, tried, rest) =
        >>=-eq-returns (reuse_or_validate a r ce)
          (λ reason. if is_empty_reason reason then pure tt else try_entries a r entries) w w' tt
          e in
      elim (after_reuse r entries reason v w' rest) [
        | inl (answered, same) ↦
            (ce, inl refl, reuse_or_validate-Hit a r ce w w' (rw (answered, ← same) at tried) c)
        | inr (missed, later) ↦
            let unchanged = reuse_or_validate-miss a r ce w v reason tried missed in
            let (hit, among, given) = try_entries-Hit r entries w w' (rw unchanged at later) c in
            (hit, inr among, given)
      ]

  pub listed :
      (w : World S) (r : Request) (ce : CacheEntry)
      → In ce (get_responses_for_uri a w r)
      → In ce (a.cache.all w.store (get_key_prefix a.keyer r)).0
  unfolding get_responses_for_uri
  listed w r ce h = elim (Bool-cases (a.cache.all w.store (get_key_prefix a.keyer r)).1) [
    | inl failed ↦ absurd (rw failed at h)
    | inr fine ↦ rw fine at h
  ]

  -- With a cache provider that keeps the interface's promises, while every entry of the cache is a
  -- whole answer of the origin to the request of its key that MustNotStore lets through, and the
  -- waiting tasks have whole answers to their requests, a request that is served with no call of the
  -- origin is answered by such an entry that the cache holds; MustNotReuse lets it be reused for the
  -- request, and the client gets it with its age and a Cache-Status of hit; nothing else changes.
  pub serve_http-Hit :
      {Holds : S → CacheEntry → Type 0} (laws : ProviderLaws a.cache Holds) (r : Request)
      (w w' : World S)
      → IsSound a Holds w
      → serve_http a r w ≡ returns (tt, w')
      → w'.calls ≡ w.calls
      → (ce : CacheEntry) × Holds w.store ce × IsStored a ce × Hit a (a.modify_response r) w w' ce
  unfolding serve_http ◌>>=◌ gets
  serve_http-Hit laws r w w' sound e c =
      let entries = get_responses_for_uri a w (a.modify_response r) in
      let (ce, among, hit) = try_entries-Hit (a.modify_response r) entries w w' e c in
      let held = laws.all_holds w.store _ ce (listed w (a.modify_response r) ce among) in
      (ce, held, sound.0 ce held, hit)
