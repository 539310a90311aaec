-- ===== src/Server/Updater/Revalidating.antt =====
-- updater.go: what revalidateUris leaves when the origin's answers are not stored.
use always_cache.Base.{
  ℕ, ◌+◌, Bool, true, false, List, [], ◌∷◌, Option, none, some, In, inl, inr, if◌then◌else◌, ◌≡◌,
  ◌≢◌, refl, ap, ◌∙◌,
}
use always_cache.Go.Strings.{Str, codes}
use always_cache.Go.Time.{Time}
use always_cache.Go.Http.{Request, new_request}
use always_cache.Go.Panic.{returns}
use always_cache.Rfc9111.Entry.{Result, ok, err, must_not_store_checked}
use always_cache.Key.{get_key_prefix}
use always_cache.Tee.{ResponseSaver, new_silent_saver, run}
use always_cache.Server.State.{
  AlwaysCache, World, M, ◌>>=◌, pure, gets, >>=-eq-returns, lift->>=-eq-returns, returns_injective,
}
use always_cache.Server.Store.{saved_response, ask_origin, write_cache, save_request}
use always_cache.Server.Updater.{has, revalidate_uri, revalidate_uris}

module _ {S : Type 0} (a : AlwaysCache S) where
  -- What the origin writes for the request may not be stored.
  abbrev pub IsUnstorable : Request → Type 0
  IsUnstorable req =
      (now : Time) (n : ℕ)
      → must_not_store_checked
          (saved_response (run a.platform (new_silent_saver now) (a.origin n req)) req)
        ≢ ok false

  store-write_cache :
      (saver : ResponseSaver) (r : Request) (w w' : World S) (x : Bool × Bool)
      (answer : Result Bool)
      → must_not_store_checked (saved_response saver r) ≡ answer
      → answer ≢ ok false
      → write_cache a saver r w ≡ returns (x, w')
      → w'.store ≡ w.store
  unfolding write_cache
  store-write_cache saver r w w' x (ok true) e refused done =
      ap (λ (v : World S). v.store) (returns_injective (rw (e, write_cache) at done)).1
  store-write_cache saver r w w' x (ok false) e refused done = absurd (refused refl)
  store-write_cache saver r w w' x (err y z) e refused done =
      ap (λ (v : World S). v.store) (returns_injective (rw (e, write_cache) at done)).1

  store-save_request :
      (req : Request) (w w' : World S) (x : Bool × Bool)
      → IsUnstorable req
      → save_request a req w ≡ returns (x, w')
      → w'.store ≡ w.store
  unfolding save_request ask_origin gets ◌>>=◌
  store-save_request req w w' x refused done =
      store-write_cache (run a.platform (new_silent_saver w.now) (a.origin w.calls req)) req
        (record w { calls = w.calls + 1 }) w' x _ refl (refused w.now w.calls) done

  store-known :
      (req : Request) (known : Bool) (w w' : World S)
      → IsUnstorable req
      → (if known then (save_request a req >>= λ _. pure tt) else pure tt) w ≡ returns (tt, w')
      → w'.store ≡ w.store
  unfolding pure
  store-known req true w w' refused done =
      let (x, v, saved, last) = >>=-eq-returns (save_request a req) (λ _. pure tt) w w' tt done in
      ap (λ (u : World S). u.store) (returns_injective last).1
      ∙ store-save_request req w v x refused saved
  store-known req false w w' refused done = ap (λ (u : World S). u.store) (returns_injective done).1

  store-revalidate_uri :
      (req : Request) (w w' : World S)
      → IsUnstorable req
      → revalidate_uri a req w ≡ returns (tt, w')
      → w'.store ≡ w.store
  unfolding revalidate_uri has gets ◌>>=◌
  store-revalidate_uri req w w' refused done =
      let (known, found, rest) =
        lift->>=-eq-returns (a.cache.has w.store (get_key_prefix a.keyer req))
          (λ known. if known then (save_request a req >>= λ _. pure tt) else pure tt) w w' tt
          done in
      store-known req known w w' refused rest

  -- Every request that http.NewRequest makes for one of the URIs gets answers that may not be stored.
  abbrev pub AreUnstorable : List Str → Type 0
  AreUnstorable uris =
      (uri : Str) (req : Request)
      → In uri uris
      → new_request a.platform (codes "GET") uri [] ≡ some req
      → IsUnstorable req

  -- What revalidateUris does with one URI.
  abbrev revalidated : Option Request → M S (Unit {0})
  revalidated found = elim found [ none ↦ pure tt | some req ↦ revalidate_uri a req ]

  store-revalidated :
      (uri : Str) (uris : List Str) (found : Option Request) (w w' : World S)
      → AreUnstorable (uri ∷ uris)
      → new_request a.platform (codes "GET") uri [] ≡ found
      → revalidated found w ≡ returns (tt, w')
      → w'.store ≡ w.store
  unfolding pure
  store-revalidated uri uris none w w' refused made done =
      ap (λ (u : World S). u.store) (returns_injective done).1
  store-revalidated uri uris (some req) w w' refused made done =
      store-revalidate_uri req w w' (refused uri req (inl refl) made) done

  -- When the origin's answers to the GET requests for the URIs may not be stored, revalidateUris, once
  -- it has returned, has left the cache as it was, also the entries that it has asked the origin about.
  pub revalidate_uris_unstorable :
      (uris : List Str) (w w' : World S)
      → AreUnstorable uris
      → revalidate_uris a uris w ≡ returns (tt, w')
      → w'.store ≡ w.store
  unfolding revalidate_uris pure
  revalidate_uris_unstorable [] w w' refused done =
      ap (λ (u : World S). u.store) (returns_injective done).1
  revalidate_uris_unstorable (uri ∷ uris) w w' refused done =
      let (x, v, first, rest) =
        >>=-eq-returns (revalidated (new_request a.platform (codes "GET") uri []))
          (λ _. revalidate_uris a uris) w w' tt done in
      revalidate_uris_unstorable uris v w' (λ u req among. refused u req (inr among)) rest
      ∙ store-revalidated uri uris _ w v refused refl first
