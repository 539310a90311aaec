-- ===== src/Server/Goroutines.antt =====
-- The goroutines of always-cache.go and updater.go, cut into actions between which other goroutines
-- may act. An action is one access to the cache provider, one exchange with the origin, the trial
-- of one stored response (which does not touch the cache), or what needs no other goroutine.
pub mod Alone
pub mod Schedule
pub mod Turns
pub mod Simulated
pub mod Guards
pub mod Sound
pub mod Heads
pub mod Sending
pub mod Answered
pub mod Giving
pub mod Given
use always_cache.Base.{
  ℕ, Bool, true, false, ◌&&◌, ◌||◌, not, List, [], ◌∷◌, Option, none, some, inl, inr, if◌then◌else◌,
}
use always_cache.Base.Int.{pos, ltb_ℤ}
use always_cache.Go.Strings.{Str, codes, is_empty}
use always_cache.Go.Time.{nanos, sub}
use always_cache.Go.Http.{Request, Response, new_request}
use always_cache.Go.Panic.{Call, returns, panics}
use always_cache.Rfc9111.Invalidation.{get_invalidate_uris}
use always_cache.Rfc9211.{uri_miss, new_cache_status, set_forward, is_empty_reason}
use always_cache.CacheUpdate.{CacheUpdate, get_cache_updates}
use always_cache.Key.{get_key_prefix, get_request_from_key, method_prefix}
use always_cache.Provider.{CacheEntry}
use always_cache.Tee.{ResponseSaver, new_silent_saver}
use always_cache.Server.State.{
  AlwaysCache, Task, update_response, update_later, World, M, lift, gets, modify, spawn, declare,
  assign, variable,
}
use always_cache.Server.Store.{saved_response, ask_origin, get_responses_for_uri}
use always_cache.Server.Store
use always_cache.Server.Updater
use always_cache.Server.Handler.{with_cache_status, ask_client, is_redirect}
use always_cache.Server.Handler

-- What a goroutine has still to do: an action on the state it finds, and what comes after it.
pub data Prog (S : Type 0) : Type 0 where
  stop : Prog S
  crash : Prog S
  act : (World S → World S) → (World S → Prog S) → Prog S

-- A part of a program that hands a result to the rest.
abbrev pub K : Type 0 → Type 0 → Type 0
K S A = (A → Prog S) → Prog S

infixl 5 ◌>>=◌ ◌>>◌
abbrev pub ◌>>=◌ : {S A B : Type 0} → K S A → (A → K S B) → K S B
◌>>=◌ m f c = m (λ a. f a c)

abbrev pub ◌>>◌ : {S A B : Type 0} → K S A → K S B → K S B
m >> k = m >>= λ _. k

abbrev pub pure : {S A : Type 0} → A → K S A
pure a c = c a

abbrev pub left : {S A : Type 0} → World S → Call (A × World S) → World S
left w panics = w
left w (returns (a, v)) = v

abbrev pub rest : {S A : Type 0} → (A → Prog S) → Call (A × World S) → Prog S
rest c panics = crash
rest c (returns (a, v)) = c a

-- An operation that no other goroutine cuts into.
unfoldable pub atom : {S A : Type 0} → M S A → K S A
atom m c = act (λ w. left w (m w)) (λ w. rest c (m w))

module _ {S : Type 0} (a : AlwaysCache S) where
  unfoldable pub save_request : Request → K S (Bool × Bool)
  save_request req = do
    now ← atom (gets (λ w. w.now))
    rw ← atom (ask_origin a (new_silent_saver now) req)
    atom (Store.write_cache a rw req)

  unfoldable pub update_path : Str → K S (Unit {0})
  unfolding save_request
  update_path path = elim (new_request a.platform (codes "GET") path []) [
    | none ↦ pure tt
    | some req ↦ do save_request req; pure tt
  ]

  unfoldable pub save_each : ℕ → List CacheUpdate → K S (Unit {0})
  unfolding update_path
  save_each n [] = pure tt
  save_each n (update ∷ rest) = do
    atom (assign n update)
    if ltb_ℤ (pos 0) update.delay then atom (spawn (update_later n)) else update_path update.path
    save_each n rest

  unfoldable pub save_updates : List CacheUpdate → K S (Unit {0})
  unfolding save_each
  save_updates [] = pure tt
  save_updates (update ∷ rest) = do n ← atom (declare update); save_each n (update ∷ rest)

  -- The loop may go on between the two readings of its variable.
  unfoldable pub update_delayed : ℕ → K S (Unit {0})
  unfolding update_path
  update_delayed n = do
    update ← atom (variable n)
    atom (Updater.sleep a update.delay)
    later ← atom (variable n)
    update_path later.path

  unfoldable pub revalidate_uri : Request → K S (Unit {0})
  revalidate_uri req = do
    known ← atom (Updater.has a (get_key_prefix a.keyer req))
    if known then (do save_request req; pure tt) else pure tt

  unfoldable pub revalidate_uris : List Str → K S (Unit {0})
  unfolding revalidate_uri
  revalidate_uris [] = pure tt
  revalidate_uris (uri ∷ rest) = do
    elim (new_request a.platform (codes "GET") uri []) [
      | none ↦ pure tt
      | some req ↦ revalidate_uri req
    ]
    revalidate_uris rest

  unfoldable pub invalidate_uris : List Str → K S (Unit {0})
  invalidate_uris [] = pure tt
  invalidate_uris (uri ∷ rest) = do
    atom (Updater.invalidate_uri a (new_request a.platform (codes "GET") uri []))
    invalidate_uris rest

  unfoldable pub update_if_needed : Request → Response → K S (Unit {0})
  update_if_needed down_req up_res = do
    uris ← atom (lift (get_invalidate_uris a.platform down_req up_res))
    if a.updates then revalidate_uris uris else invalidate_uris uris
    save_updates (get_cache_updates a.platform down_req down_req.url up_res)

  unfoldable pub update_response_and_locations : ResponseSaver → Request → K S (Unit {0})
  unfolding update_if_needed
  update_response_and_locations rw r = do
    atom (Store.write_cache a rw r)
    update_if_needed r (saved_response rw r)

  unfoldable pub save_twice : Request → K S (Bool × Bool)
  save_twice req = do
    first ← save_request req
    if not first.0 || first.1
        then (do atom (Updater.sleep a (pos nanos)); save_request req)
        else pure first

  unfoldable pub update_entry : Str → K S (Unit {0})
  unfolding save_twice
  update_entry key = do
    found ← atom (lift (get_request_from_key a.platform a.keyer key))
    result ← elim found [ inl e ↦ pure (false, true) | inr req ↦ save_twice req ]
    atom (Updater.purge_unless a key result)

  -- One round of the loop of updateCache.
  unfoldable pub update_cache_round : K S (Unit {0})
  unfolding update_entry
  update_cache_round = do
    w ← atom (gets (λ w. w))
    let old = a.cache.oldest w.store (method_prefix a.keyer (codes "GET"))
    if not old.failed
          && not (is_empty old.key)
          && not (ltb_ℤ a.update_timeout (sub old.expires w.now))
        then update_entry old.key
        else atom (Updater.sleep a a.update_timeout)

  unfoldable pub update_keys : List Str → K S (Unit {0})
  unfolding update_entry
  update_keys [] = pure tt
  update_keys (key ∷ keys) = do update_entry key; update_keys keys

  unfoldable pub update_all : K S (Unit {0})
  unfolding update_keys
  update_all = do
    w ← atom (gets (λ w. w))
    update_keys (a.cache.all_keys w.store a.keyer.origin_prefix)

  unfoldable pub store_answer : ResponseSaver → Request → K S (Unit {0})
  store_answer rwtee r =
      if is_redirect rwtee.status
      then update_response_and_locations rwtee r
      else atom (spawn (update_response rwtee r))

  unfoldable pub proxy : Request → K S (Unit {0})
  unfolding store_answer
  proxy r = do
    atom (modify (with_cache_status (set_forward uri_miss new_cache_status)))
    rwtee ← atom (ask_client a 0 r)
    store_answer rwtee r

  unfoldable pub try_entries : Request → List CacheEntry → K S (Unit {0})
  unfolding proxy
  try_entries r [] = proxy r
  try_entries r (ce ∷ entries) = do
    reason ← atom (Handler.reuse_or_validate a r ce)
    if is_empty_reason reason then pure tt else try_entries r entries

  unfoldable pub serve_http : Request → K S (Unit {0})
  unfolding try_entries
  serve_http r = do
    let r' = a.modify_response r
    entries ← atom (gets (λ w. get_responses_for_uri a w r'))
    try_entries r' entries

  unfoldable pub run_task : Task → K S (Unit {0})
  unfolding update_response_and_locations update_delayed
  run_task (update_response rw r) = update_response_and_locations rw r
  run_task (update_later n) = update_delayed n
