-- ===== src/Server/Goroutines/Sending.antt =====
-- The parts of the goroutines that send nothing to a client, and those that answer one.
use always_cache.Base.{
  ℕ, ◌+◌, Bool, true, false, not, ◌||◌, List, [], ◌∷◌, ◌⊎◌, inl, inr, if◌then◌else◌, ◌≡◌, ◌≢◌, ◌==◌,
  refl, arith,
}
use always_cache.Base.Int.{pos, ltb_ℤ}
use always_cache.Go.Strings.{Str, codes}
use always_cache.Go.Http.{Request, Response, new_request}
use always_cache.CacheUpdate.{CacheUpdate}
use always_cache.Key.{KeyError}
use always_cache.Provider.{CacheEntry}
use always_cache.Rfc9211.{is_empty_reason}
use always_cache.Tee.{ResponseSaver, new_silent_saver}
use always_cache.Server.State.{
  AlwaysCache, Task, update_response, update_later, declare, assign, variable,
}
use always_cache.Server.Handler
use always_cache.Server.Handler.{is_redirect, ask_client, with_cache_status}
use always_cache.Server.Handler.Answers.{IsResponse, ask_client-Total}
use always_cache.Server.Silent.{spawn-Total, write_cache-Total, ask_origin-Total}
use always_cache.Server.Total.{weaken-Total}
use always_cache.Server.Counts.{
  Counts, Quiet, Total-Counts, gets-Counts, lift-Counts, modify-Counts, has-Counts, sleep-Counts,
  invalidate_uri-Counts, purge_unless-Counts, reuse_or_validate-Counts,
}
use always_cache.Server.Goroutines.Heads.{
  Sends, Adds, atom-Sends, atom-Adds, pure-Adds, bind-Adds, cond-Adds, option-Adds,
}
use always_cache.Server.Goroutines.{
  Prog, K, pure, atom, save_request, update_path, save_each, save_updates, update_delayed,
  revalidate_uri, revalidate_uris, invalidate_uris, update_if_needed, update_response_and_locations,
  save_twice, update_entry, update_cache_round, update_keys, update_all, store_answer, proxy,
  try_entries, serve_http, run_task,
}

declare-Counts : {S : Type 0} (update : CacheUpdate) → Quiet (declare {S = S} update)
unfolding declare
declare-Counts update = record { count = λ w w' x e. ground arith }

module _ {S : Type 0} (a : AlwaysCache S) {t : ℕ} where
  save_request-Adds : (req : Request) → Adds t t (save_request a req)
  unfolding save_request
  save_request-Adds req = bind-Adds (atom-Adds (gets-Counts _)) λ now.
      bind-Adds (atom-Adds (Total-Counts (ask_origin-Total a (new_silent_saver now) req)))
        λ saver. atom-Adds (Total-Counts (write_cache-Total a saver req))

  update_path-Adds : (path : Str) → Adds t t (update_path a path)
  unfolding update_path
  update_path-Adds path =
      option-Adds (new_request a.platform (codes "GET") path []) (pure-Adds tt)
        λ req. bind-Adds (save_request-Adds req) λ _. pure-Adds tt

  save_each-Adds : (n : ℕ) (updates : List CacheUpdate) → Adds t t (save_each a n updates)
  unfolding save_each assign
  save_each-Adds n [] = pure-Adds tt
  save_each-Adds n (update ∷ others) = bind-Adds (atom-Adds (modify-Counts _ (λ w. refl))) λ _.
      bind-Adds
        (cond-Adds (ltb_ℤ (pos 0) update.delay) (atom-Adds (Total-Counts (spawn-Total _)))
          (update_path-Adds update.path))
        λ _. save_each-Adds n others

  save_updates-Adds : (updates : List CacheUpdate) → Adds t t (save_updates a updates)
  unfolding save_updates
  save_updates-Adds [] = pure-Adds tt
  save_updates-Adds (update ∷ others) =
      bind-Adds (atom-Adds (declare-Counts update)) λ n. save_each-Adds n (update ∷ others)

  update_delayed-Adds : (n : ℕ) → Adds t t (update_delayed a n)
  unfolding update_delayed variable
  update_delayed-Adds n = bind-Adds (atom-Adds (gets-Counts _)) λ update.
      bind-Adds (atom-Adds (sleep-Counts a update.delay))
        λ _. bind-Adds (atom-Adds (gets-Counts _)) λ later. update_path-Adds later.path

  revalidate_uri-Adds : (req : Request) → Adds t t (revalidate_uri a req)
  unfolding revalidate_uri
  revalidate_uri-Adds req =
      bind-Adds (atom-Adds (has-Counts a _)) λ known.
        cond-Adds known (bind-Adds (save_request-Adds req) λ _. pure-Adds tt) (pure-Adds tt)

  revalidate_uris-Adds : (uris : List Str) → Adds t t (revalidate_uris a uris)
  unfolding revalidate_uris
  revalidate_uris-Adds [] = pure-Adds tt
  revalidate_uris-Adds (uri ∷ others) =
      bind-Adds
        (option-Adds (new_request a.platform (codes "GET") uri []) (pure-Adds tt)
          λ req. revalidate_uri-Adds req)
        λ _. revalidate_uris-Adds others

  invalidate_uris-Adds : (uris : List Str) → Adds t t (invalidate_uris a uris)
  unfolding invalidate_uris
  invalidate_uris-Adds [] = pure-Adds tt
  invalidate_uris-Adds (uri ∷ others) =
      bind-Adds (atom-Adds (invalidate_uri-Counts a _)) λ _. invalidate_uris-Adds others

  update_if_needed-Adds : (r : Request) (res : Response) → Adds t t (update_if_needed a r res)
  unfolding update_if_needed
  update_if_needed-Adds r res = bind-Adds (atom-Adds (lift-Counts _)) λ uris.
      bind-Adds (cond-Adds a.updates (revalidate_uris-Adds uris) (invalidate_uris-Adds uris))
        λ _. save_updates-Adds _

  update_response-Adds :
      (saver : ResponseSaver) (r : Request) → Adds t t (update_response_and_locations a saver r)
  unfolding update_response_and_locations
  update_response-Adds saver r =
      bind-Adds (atom-Adds (Total-Counts (write_cache-Total a saver r)))
        λ _. update_if_needed-Adds r _

  save_twice-Adds : (req : Request) → Adds t t (save_twice a req)
  unfolding save_twice
  save_twice-Adds req = bind-Adds (save_request-Adds req) λ first.
      cond-Adds (not first.0 || first.1)
        (bind-Adds (atom-Adds (sleep-Counts a _)) λ _. save_request-Adds req) (pure-Adds first)

  attempt-Adds :
      (found : KeyError ⊎ Request)
      → Adds {S = S} {A = Bool × Bool} t t
          (elim found [ inl e ↦ pure (false, true) | inr req ↦ save_twice a req ])
  attempt-Adds (inl e) = pure-Adds (false, true)
  attempt-Adds (inr req) = save_twice-Adds req

  update_entry-Adds : (key : Str) → Adds t t (update_entry a key)
  unfolding update_entry
  update_entry-Adds key =
      bind-Adds (atom-Adds (lift-Counts _)) λ found.
        bind-Adds (attempt-Adds found) λ result. atom-Adds (purge_unless-Counts a key result)

  pub round-Adds : Adds t t (update_cache_round a)
  unfolding update_cache_round
  round-Adds =
      bind-Adds (atom-Adds (gets-Counts _))
        λ w. cond-Adds _ (update_entry-Adds _) (atom-Adds (sleep-Counts a _))

  update_keys-Adds : (keys : List Str) → Adds t t (update_keys a keys)
  unfolding update_keys
  update_keys-Adds [] = pure-Adds tt
  update_keys-Adds (key ∷ keys) = bind-Adds (update_entry-Adds key) λ _. update_keys-Adds keys

  pub update_all-Adds : Adds t t (update_all a)
  unfolding update_all
  update_all-Adds = bind-Adds (atom-Adds (gets-Counts _)) λ w. update_keys-Adds _

  pub store_answer-Adds : (saver : ResponseSaver) (r : Request) → Adds t t (store_answer a saver r)
  unfolding store_answer
  store_answer-Adds saver r =
      cond-Adds (is_redirect saver.status) (update_response-Adds saver r)
        (atom-Adds (Total-Counts (spawn-Total _)))

  pub run_task-Adds : (u : Task) → Adds t t (run_task a u)
  unfolding run_task
  run_task-Adds (update_response saver r) = update_response-Adds saver r
  run_task-Adds (update_later n) = update_delayed-Adds n

module _ {S : Type 0} (a : AlwaysCache S)
    (origin : (n : ℕ) (req : Request) → IsResponse (a.origin n req)) where
  abbrev passed : ResponseSaver → ℕ
  passed saver = if saver.status == 0 then 0 else 1

  one_head : (saver : ResponseSaver) → saver.status ≢ 0 → passed saver ≡ 1
  one_head saver final = ground arith

  ask_client-Adds : (r : Request) → Adds 1 0 (atom (ask_client a 0 r))
  ask_client-Adds r =
      let counts : Counts (λ _. 1) (ask_client a 0 r) = Total-Counts (
        weaken-Total {R = λ _. Unit {0}} (ask_client-Total a origin 0 r)
          (λ saver final. (tt, one_head saver final))) in
      record { add = λ c sends. atom-Sends c 1 (λ _. 0) counts (λ x. omega arith) sends }

  proxy-Adds : (r : Request) → Adds 1 0 (proxy a r)
  unfolding proxy
  proxy-Adds r =
      bind-Adds (atom-Adds (modify-Counts _ (λ w. refl)))
        λ _. bind-Adds (ask_client-Adds r) λ saver. store_answer-Adds a saver r

  abbrev one_if : Bool → ℕ
  one_if b = if b then 1 else 0

  abbrev one_unless : Bool → ℕ
  one_unless b = if b then 0 else 1

  one_or_later : (b : Bool) → one_if b + one_unless b ≡ 1
  one_or_later true = omega arith
  one_or_later false = omega arith

  goes_on :
      (b : Bool) (k : K S (Unit {0})) (c : Unit {0} → Prog S)
      → Adds 1 0 k
      → ((x : Unit {0}) → Sends 0 (c x))
      → Sends (if b then 0 else 1) ((if b then pure tt else k) c)
  goes_on true k c p sends = sends tt
  goes_on false k c p sends = p.add c sends

  reused :
      (r : Request) (ce : CacheEntry) (k : K S (Unit {0}))
      → Adds 1 0 k
      → Adds 1 0 (λ c.
        atom
          (Handler.reuse_or_validate a r ce)
          (λ reason. (if is_empty_reason reason then pure tt else k) c))
  reused r ce k p = record {
    add = λ c sends.
        atom-Sends _ 1 (λ reason. if is_empty_reason reason then 0 else 1)
          (reuse_or_validate-Counts a origin r ce) (λ reason. one_or_later (is_empty_reason reason))
          (λ reason. goes_on (is_empty_reason reason) k c p sends);
  }

  try_entries-Adds : (r : Request) (entries : List CacheEntry) → Adds 1 0 (try_entries a r entries)
  unfolding try_entries
  try_entries-Adds r [] = proxy-Adds r
  try_entries-Adds r (ce ∷ entries) = reused r ce _ (try_entries-Adds r entries)

  pub serve_http-Adds : (r : Request) → Adds 1 0 (serve_http a r)
  unfolding serve_http
  serve_http-Adds r = bind-Adds (atom-Adds (gets-Counts _)) λ entries. try_entries-Adds _ entries
