-- ===== src/Server/Goroutines/Alone.antt =====
-- A goroutine that no other one cuts into, beside the handler and the updater.
use always_cache.Base.{
  ℕ, Bool, true, false, not, ◌||◌, List, [], ◌∷◌, Option, none, some, ◌⊎◌, inl, inr, if◌then◌else◌,
  ◌≡◌, refl, ◌∙◌,
}
use always_cache.Base.Int.{pos, ltb_ℤ}
use always_cache.Go.Strings.{Str, codes}
use always_cache.Go.Http.{Request, Response, new_request}
use always_cache.Go.Panic.{Call, returns, panics}
use always_cache.CacheUpdate.{CacheUpdate}
use always_cache.Key.{KeyError}
use always_cache.Provider.{CacheEntry}
use always_cache.Rfc9211.{is_empty_reason}
use always_cache.Tee.{ResponseSaver}
use always_cache.Server.State
use always_cache.Server.State.{AlwaysCache, World, M, Task, update_response, update_later}
use always_cache.Server.Store
use always_cache.Server.Updater
use always_cache.Server.Handler
use always_cache.Server.Handler.{is_redirect}
use always_cache.Server.Run
use always_cache.Server.Goroutines.{
  Prog, stop, crash, act, K, pure, left, rest, atom, save_request, update_path, save_each,
  save_updates, update_delayed, revalidate_uri, revalidate_uris, invalidate_uris, update_if_needed,
  update_response_and_locations, save_twice, update_entry, update_cache_round, update_keys,
  update_all, store_answer, proxy, try_entries, serve_http, run_task,
}

-- All actions of a program, one after the other.
unfoldable pub exec : {S : Type 0} → Prog S → World S → Call (World S)
exec stop w = returns w
exec crash w = panics
exec (act f k) w = exec (k w) (f w)

abbrev pub go_on : {S A : Type 0} → (A → Prog S) → Call (A × World S) → Call (World S)
go_on c panics = panics
go_on c (returns (x, w)) = exec (c x) w

-- The part of a program does what the operation does, whatever comes after it.
pub record Runs {S A : Type 0} (k : K S A) (m : M S A) : Type 0 where
  pub run : (c : A → Prog S) (w : World S) → exec (k c) w ≡ go_on c (m w)

-- The state that an operation leaves.
abbrev pub result : {S : Type 0} → Call (Unit {0} × World S) → Call (World S)
result panics = panics
result (returns (x, w)) = returns w

module _ {S : Type 0} where
  exec-rest :
      {A : Type 0} (c : A → Prog S) (w : World S) (x : Call (A × World S))
      → exec (rest c x) (left w x) ≡ go_on c x
  unfolding exec
  exec-rest c w panics = refl
  exec-rest c w (returns (x, v)) = refl

  atom-Runs : {A : Type 0} (m : M S A) → Runs (atom m) m
  unfolding atom exec
  atom-Runs m = record { run = λ c w. exec-rest c w (m w) }

  pure-Runs : {A : Type 0} (x : A) → Runs (pure x) (State.pure {S = S} x)
  unfolding State.pure
  pure-Runs x = record { run = λ c w. refl }

  go_on_bind :
      {A B : Type 0} (f : A → K S B) (g : A → M S B) (c : B → Prog S)
      → ((x : A) → Runs (f x) (g x))
      → (x : Call (A × World S)) → go_on (λ y. f y c) x ≡ go_on c (State.continue x g)
  go_on_bind f g c same panics = refl
  go_on_bind f g c same (returns (x, w)) = (same x).run c w

  bind-Runs :
      {A B : Type 0} {k : K S A} {m : M S A} {f : A → K S B} {g : A → M S B}
      → Runs k m
      → ((x : A) → Runs (f x) (g x))
      → Runs (λ c. k (λ x. f x c)) (State.◌>>=◌ m g)
  unfolding State.◌>>=◌
  bind-Runs {m} {f} {g} first same = record {
    run = λ c w. first.run (λ x. f x c) w ∙ go_on_bind f g c same (m w);
  }

  cond-Runs :
      {A : Type 0} {k l : K S A} {m n : M S A}
      → (b : Bool) → Runs k m
      → Runs l n
      → Runs (if b then k else l) (if b then m else n)
  cond-Runs true p q = p
  cond-Runs false p q = q

  option-Runs :
      {A B : Type 0} {k : K S B} {m : M S B} {f : A → K S B} {g : A → M S B}
      → (o : Option A) → Runs k m
      → ((x : A) → Runs (f x) (g x))
      → Runs {A = B} (elim o [ none ↦ k | some x ↦ f x ]) (elim o [ none ↦ m | some x ↦ g x ])
  option-Runs none p q = p
  option-Runs (some x) p q = q x

  stopped : (x : Call (Unit {0} × World S)) → go_on (λ y. stop) x ≡ result x
  unfolding exec
  stopped panics = refl
  stopped (returns (x, w)) = refl

  pub exec_result :
      (k : K S (Unit {0})) (m : M S (Unit {0})) (w : World S)
      → Runs k m
      → exec (k (λ x. stop)) w ≡ result (m w)
  exec_result k m w same = same.run (λ x. stop) w ∙ stopped (m w)

module _ {S : Type 0} (a : AlwaysCache S) where
  save_request-Runs : (req : Request) → Runs (save_request a req) (Store.save_request a req)
  unfolding save_request Store.save_request
  save_request-Runs req = bind-Runs (atom-Runs _) λ now. bind-Runs (atom-Runs _) λ rw. atom-Runs _

  update_path-Runs : (path : Str) → Runs (update_path a path) (Updater.update_path a path)
  unfolding update_path Updater.update_path
  update_path-Runs path =
      option-Runs (new_request a.platform (codes "GET") path []) (pure-Runs tt)
        λ req. bind-Runs (save_request-Runs req) λ x. pure-Runs tt

  save_each-Runs :
      (n : ℕ) (updates : List CacheUpdate)
      → Runs (save_each a n updates) (Updater.save_each a n updates)
  unfolding save_each Updater.save_each
  save_each-Runs n [] = pure-Runs tt
  save_each-Runs n (update ∷ rest) = bind-Runs (atom-Runs _) λ x.
      bind-Runs
        (cond-Runs (ltb_ℤ (pos 0) update.delay) (atom-Runs _) (update_path-Runs update.path))
        λ y. save_each-Runs n rest

  save_updates-Runs :
      (updates : List CacheUpdate) → Runs (save_updates a updates) (Updater.save_updates a updates)
  unfolding save_updates Updater.save_updates
  save_updates-Runs [] = pure-Runs tt
  save_updates-Runs (update ∷ rest) = bind-Runs (atom-Runs _) λ n. save_each-Runs n (update ∷ rest)

  update_delayed-Runs : (n : ℕ) → Runs (update_delayed a n) (Updater.update_delayed a n)
  unfolding update_delayed Updater.update_delayed
  update_delayed-Runs n = bind-Runs (atom-Runs _) λ update.
      bind-Runs (atom-Runs _) λ x. bind-Runs (atom-Runs _) λ later. update_path-Runs later.path

  revalidate_uri-Runs : (req : Request) → Runs (revalidate_uri a req) (Updater.revalidate_uri a req)
  unfolding revalidate_uri Updater.revalidate_uri
  revalidate_uri-Runs req =
      bind-Runs (atom-Runs _) λ known.
        cond-Runs known (bind-Runs (save_request-Runs req) λ x. pure-Runs tt) (pure-Runs tt)

  revalidate_uris-Runs :
      (uris : List Str) → Runs (revalidate_uris a uris) (Updater.revalidate_uris a uris)
  unfolding revalidate_uris Updater.revalidate_uris
  revalidate_uris-Runs [] = pure-Runs tt
  revalidate_uris-Runs (uri ∷ rest) =
      bind-Runs
        (option-Runs (new_request a.platform (codes "GET") uri []) (pure-Runs tt)
          λ req. revalidate_uri-Runs req)
        λ x. revalidate_uris-Runs rest

  invalidate_uris-Runs :
      (uris : List Str) → Runs (invalidate_uris a uris) (Updater.invalidate_uris a uris)
  unfolding invalidate_uris Updater.invalidate_uris
  invalidate_uris-Runs [] = pure-Runs tt
  invalidate_uris-Runs (uri ∷ rest) = bind-Runs (atom-Runs _) λ x. invalidate_uris-Runs rest

  update_if_needed-Runs :
      (r : Request) (res : Response)
      → Runs (update_if_needed a r res) (Updater.update_if_needed a r res)
  unfolding update_if_needed Updater.update_if_needed
  update_if_needed-Runs r res = bind-Runs (atom-Runs _) λ uris.
      bind-Runs (cond-Runs a.updates (revalidate_uris-Runs uris) (invalidate_uris-Runs uris))
        λ x. save_updates-Runs _

  update_response-Runs :
      (rw : ResponseSaver) (r : Request)
      → Runs (update_response_and_locations a rw r) (Updater.update_response_and_locations a rw r)
  unfolding update_response_and_locations Updater.update_response_and_locations
  update_response-Runs rw r = bind-Runs (atom-Runs _) λ x. update_if_needed-Runs r _

  save_twice-Runs : (req : Request) → Runs (save_twice a req) (Updater.save_twice a req)
  unfolding save_twice Updater.save_twice
  save_twice-Runs req = bind-Runs (save_request-Runs req) λ first.
      cond-Runs (not first.0 || first.1) (bind-Runs (atom-Runs _) λ x. save_request-Runs req)
        (pure-Runs first)

  attempt-Runs :
      (found : KeyError ⊎ Request)
      → Runs {S = S} {A = Bool × Bool}
          (elim found [ inl e ↦ pure (false, true) | inr req ↦ save_twice a req ])
          (elim found [ inl e ↦ State.pure (false, true) | inr req ↦ Updater.save_twice a req ])
  attempt-Runs (inl e) = pure-Runs (false, true)
  attempt-Runs (inr req) = save_twice-Runs req

  update_entry-Runs : (key : Str) → Runs (update_entry a key) (Updater.update_entry a key)
  unfolding update_entry Updater.update_entry
  update_entry-Runs key =
      bind-Runs (atom-Runs _) λ found. bind-Runs (attempt-Runs found) λ result. atom-Runs _

  pub round-Runs : Runs (update_cache_round a) (Updater.update_cache_round a)
  unfolding update_cache_round Updater.update_cache_round
  round-Runs = bind-Runs (atom-Runs _) λ w. cond-Runs _ (update_entry-Runs _) (atom-Runs _)

  update_keys-Runs : (keys : List Str) → Runs (update_keys a keys) (Updater.update_keys a keys)
  unfolding update_keys Updater.update_keys
  update_keys-Runs [] = pure-Runs tt
  update_keys-Runs (key ∷ keys) = bind-Runs (update_entry-Runs key) λ x. update_keys-Runs keys

  pub update_all-Runs : Runs (update_all a) (Updater.update_all a)
  unfolding update_all Updater.update_all
  update_all-Runs = bind-Runs (atom-Runs _) λ w. update_keys-Runs _

  pub store_answer-Runs :
      (rw : ResponseSaver) (r : Request) → Runs (store_answer a rw r) (Handler.store_answer a rw r)
  unfolding store_answer Handler.store_answer
  store_answer-Runs rw r =
      cond-Runs (is_redirect rw.status) (update_response-Runs rw r) (atom-Runs _)

  proxy-Runs : (r : Request) → Runs (proxy a r) (Handler.proxy a r)
  unfolding proxy Handler.proxy
  proxy-Runs r = bind-Runs (atom-Runs _) λ x. bind-Runs (atom-Runs _) λ rw. store_answer-Runs rw r

  try_entries-Runs :
      (r : Request) (entries : List CacheEntry)
      → Runs (try_entries a r entries) (Handler.try_entries a r entries)
  unfolding try_entries Handler.try_entries
  try_entries-Runs r [] = proxy-Runs r
  try_entries-Runs r (ce ∷ entries) =
      bind-Runs (atom-Runs _)
        λ reason. cond-Runs (is_empty_reason reason) (pure-Runs tt) (try_entries-Runs r entries)

  pub serve_http-Runs : (r : Request) → Runs (serve_http a r) (Handler.serve_http a r)
  unfolding serve_http Handler.serve_http
  serve_http-Runs r = bind-Runs (atom-Runs _) λ entries. try_entries-Runs _ entries

  pub run_task-Runs : (t : Task) → Runs (run_task a t) (Run.run_task a t)
  unfolding run_task Run.run_task
  run_task-Runs (update_response rw r) = update_response-Runs rw r
  run_task-Runs (update_later n) = update_delayed-Runs n
