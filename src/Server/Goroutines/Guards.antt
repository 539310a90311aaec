-- ===== src/Server/Goroutines/Guards.antt =====
-- Programs that keep a property of the state, whatever others do between their actions.
use always_cache.Base.{
  ℕ, ◌++◌, Bool, true, false, not, ◌||◌, List, [], ◌∷◌, Option, none, some, ◌⊎◌, inl, inr,
  if◌then◌else◌, ◌≡◌, refl, ap, ◌∙◌,
}
use always_cache.Base.Int.{pos, ltb_ℤ}
use always_cache.Go.Strings.{Str, codes}
use always_cache.Go.Http.{Request, Response, new_request}
use always_cache.Go.Panic.{Call, returns, panics}
use always_cache.CacheUpdate.{CacheUpdate}
use always_cache.Key.{KeyError}
use always_cache.Provider.{CacheEntry}
use always_cache.Rfc9211.{is_empty_reason}
use always_cache.Tee.{ResponseSaver, new_silent_saver}
use always_cache.Server.State.{
  AlwaysCache, World, M, Task, update_response, update_later, spawn, declare, assign, variable,
  set_at, returns_injective,
}
use always_cache.Server.Handler.{is_redirect}
use always_cache.Server.Run.Keeping.{
  Invariant, IsWritable, Ensures, Keeps, gets-Keeps, lift-Keeps, modify-Keeps, ask-Keeps,
  write_cache-Keeps,
}
use always_cache.Server.Run.Keeping.Updates.{
  has-Keeps, sleep-Keeps, invalidate_uri-Keeps, purge_unless-Keeps,
}
use always_cache.Server.Run.Keeping.Answers.{ask_client-Keeps, spawn-Keeps, reuse-Keeps}
use always_cache.Server.Goroutines.Alone.{exec, result, Runs, exec_result}
use always_cache.Server.Goroutines.{
  Prog, stop, crash, act, K, pure, left, rest, atom, save_request, update_path, save_each,
  save_updates, update_delayed, revalidate_uri, revalidate_uris, invalidate_uris, update_if_needed,
  update_response_and_locations, save_twice, update_entry, update_cache_round, update_keys,
  update_all, store_answer, proxy, try_entries, serve_http, run_task,
}

returned : {S : Type 0} {v w : World S} → ◌≡◌ {A = Call (World S)} (returns v) (returns w) → w ≡ v
returned e = cc

module _ {S : Type 0} (I : World S → Type 0) where
  -- Every action of the program keeps the property, whatever others do between the actions.
  abbrev pub Safe : Prog S → Type 0
  Safe stop = Unit {0}
  Safe crash = Unit {0}
  Safe (act f k) = (w : World S) → I w → I (f w) × Safe (k w)

-- The part of a program is safe, and hands on results with `P`.
pub record Guards {S A : Type 0} (I : World S → Type 0) (P : A → Type 0) (k : K S A) : Type 0 where
  pub guard : (c : A → Prog S) → ((x : A) → P x → Safe I (c x)) → Safe I (k c)

abbrev pub Guarded : {S A : Type 0} → (World S → Type 0) → K S A → Type 0
Guarded I k = Guards I (λ _. Unit {0}) k

module _ {S : Type 0} {I : World S → Type 0} where
  kept_left :
      {A : Type 0} {P : A → Type 0} (c : A → Prog S) (w : World S) (answer : Call (A × World S))
      → I w
      → ((w' : World S) (x : A) → answer ≡ returns (x, w') → I w' × P x)
      → ((x : A) → P x → Safe I (c x))
      → I (left w answer) × Safe I (rest c answer)
  kept_left c w panics i keep safe = (i, tt)
  kept_left c w (returns (x, w')) i keep safe = let (kept, p) = keep w' x refl in (kept, safe x p)

  pub atom-Guards : {A : Type 0} {P : A → Type 0} {m : M S A} → Ensures I P m → Guards I P (atom m)
  unfolding atom
  atom-Guards {m} keeps = record {
    guard = λ c safe w i. kept_left c w (m w) i (λ w' x e. keeps.after w w' x i e) safe;
  }

  pub pure-Guards : {A : Type 0} {P : A → Type 0} → (x : A) → P x → Guards {S = S} I P (pure x)
  pure-Guards x p = record { guard = λ c safe. safe x p }

  pub bind-Guards :
      {A B : Type 0} {P : A → Type 0} {Q : B → Type 0} {k : K S A} {f : A → K S B}
      → Guards I P k
      → ((x : A) → P x → Guards I Q (f x))
      → Guards I Q (λ c. k (λ x. f x c))
  bind-Guards first others = record {
    guard = λ c safe. first.guard _ (λ x p. (others x p).guard c safe);
  }

  pub cond-Guards :
      {A : Type 0} {P : A → Type 0} {k l : K S A}
      → (b : Bool) → Guards I P k
      → Guards I P l
      → Guards I P (if b then k else l)
  cond-Guards true p q = p
  cond-Guards false p q = q

  pub option-Guards :
      {A B : Type 0} {P : B → Type 0} {k : K S B} {f : A → K S B}
      → (o : Option A) → Guards I P k
      → ((x : A) → Guards I P (f x))
      → Guards {S = S} {A = B} I P (elim o [ none ↦ k | some x ↦ f x ])
  option-Guards none p q = p
  option-Guards (some x) p q = q x

Safe-exec :
    {S : Type 0} (I : World S → Type 0) (p : Prog S) (w w' : World S)
    → Safe I p
    → I w
    → exec p w ≡ returns w'
    → I w'
unfolding exec
Safe-exec I stop w w' safe i e = rw (returned e) i
Safe-exec I crash w w' safe i e = cc
Safe-exec I (act f k) w w' safe i e =
    let (kept, others) = safe w i in Safe-exec I (k w) (f w) w' others kept e

module _ {S : Type 0} {I : World S → Type 0} where
  -- What is safe among others is safe alone.
  pub kept_alone :
      {k : K S (Unit {0})} {m : M S (Unit {0})}
      → Guarded I k
      → Runs k m
      → (w w' : World S) → I w
      → m w ≡ returns (tt, w')
      → I w'
  kept_alone {k} {m} guards same w w' i e =
      Safe-exec I (k (λ x. stop)) w w' (guards.guard (λ x. stop) (λ x p. tt)) i
        (exec_result k m w same ∙ ap result e)

module _ {S : Type 0} {a : AlwaysCache S} {I : World S → Type 0}
    {Fair : ResponseSaver → Request → Type 0} (inv : Invariant a I Fair) where
  save_request-Guards : (req : Request) → Guarded I (save_request a req)
  unfolding save_request new_silent_saver
  save_request-Guards req = bind-Guards (atom-Guards (gets-Keeps _)) λ now _.
      bind-Guards (atom-Guards (ask-Keeps inv (new_silent_saver now) req (refl, refl, refl, refl)))
        λ rw fair. atom-Guards (write_cache-Keeps inv rw req (fair req (inl refl)))

  update_path-Guards : (path : Str) → Guarded I (update_path a path)
  unfolding update_path
  update_path-Guards path =
      option-Guards (new_request a.platform (codes "GET") path []) (pure-Guards tt tt)
        λ req. bind-Guards (save_request-Guards req) λ _ _. pure-Guards tt tt

  delayed-Keeps : (n : ℕ) → Keeps I (spawn (update_later n))
  unfolding spawn
  delayed-Keeps n = modify-Keeps _ (λ w i. inv.delayed w n i)

  assign-Keeps : (n : ℕ) (update : CacheUpdate) → Keeps I (assign n update)
  unfolding assign
  assign-Keeps n update = modify-Keeps _ (λ w i. inv.assigned w (set_at n update w.variables) i)

  declare-Keeps : (update : CacheUpdate) → Keeps I (declare update)
  unfolding declare
  declare-Keeps update = record {
    after = λ w w' x i e.
        (rw (returns_injective e).1 (inv.assigned w (w.variables ++ update ∷ []) i), tt);
  }

  variable-Keeps : (n : ℕ) → Keeps I (variable n)
  unfolding variable
  variable-Keeps n = gets-Keeps _

  save_each-Guards : (n : ℕ) (updates : List CacheUpdate) → Guarded I (save_each a n updates)
  unfolding save_each
  save_each-Guards n [] = pure-Guards tt tt
  save_each-Guards n (update ∷ rest) = bind-Guards (atom-Guards (assign-Keeps n update)) λ _ _.
      bind-Guards
        (cond-Guards (ltb_ℤ (pos 0) update.delay) (atom-Guards (delayed-Keeps n))
          (update_path-Guards update.path))
        λ _ _. save_each-Guards n rest

  save_updates-Guards : (updates : List CacheUpdate) → Guarded I (save_updates a updates)
  unfolding save_updates
  save_updates-Guards [] = pure-Guards tt tt
  save_updates-Guards (update ∷ rest) =
      bind-Guards (atom-Guards (declare-Keeps update)) λ n _. save_each-Guards n (update ∷ rest)

  update_delayed-Guards : (n : ℕ) → Guarded I (update_delayed a n)
  unfolding update_delayed
  update_delayed-Guards n = bind-Guards (atom-Guards (variable-Keeps n)) λ update _.
      bind-Guards (atom-Guards (sleep-Keeps inv update.delay))
        λ _ _. bind-Guards (atom-Guards (variable-Keeps n)) λ later _. update_path-Guards later.path

  revalidate_uri-Guards : (req : Request) → Guarded I (revalidate_uri a req)
  unfolding revalidate_uri
  revalidate_uri-Guards req = bind-Guards (atom-Guards (has-Keeps inv _)) λ known _.
      cond-Guards known (bind-Guards (save_request-Guards req) λ _ _. pure-Guards tt tt)
        (pure-Guards tt tt)

  revalidate_uris-Guards : (uris : List Str) → Guarded I (revalidate_uris a uris)
  unfolding revalidate_uris
  revalidate_uris-Guards [] = pure-Guards tt tt
  revalidate_uris-Guards (uri ∷ rest) =
      bind-Guards
        (option-Guards (new_request a.platform (codes "GET") uri []) (pure-Guards tt tt)
          λ req. revalidate_uri-Guards req)
        λ _ _. revalidate_uris-Guards rest

  invalidate_uris-Guards : (uris : List Str) → Guarded I (invalidate_uris a uris)
  unfolding invalidate_uris
  invalidate_uris-Guards [] = pure-Guards tt tt
  invalidate_uris-Guards (uri ∷ rest) =
      bind-Guards (atom-Guards (invalidate_uri-Keeps inv _)) λ _ _. invalidate_uris-Guards rest

  update_if_needed-Guards : (r : Request) (res : Response) → Guarded I (update_if_needed a r res)
  unfolding update_if_needed
  update_if_needed-Guards r res = bind-Guards (atom-Guards (lift-Keeps _)) λ uris _.
      bind-Guards
        (cond-Guards a.updates (revalidate_uris-Guards uris) (invalidate_uris-Guards uris))
        λ _ _. save_updates-Guards _

  update_response-Guards :
      (rw : ResponseSaver) (r : Request)
      → Fair rw r
      → Guarded I (update_response_and_locations a rw r)
  unfolding update_response_and_locations
  update_response-Guards rw r fair =
      bind-Guards (atom-Guards (write_cache-Keeps inv rw r fair)) λ _ _. update_if_needed-Guards r _

  save_twice-Guards : (req : Request) → Guarded I (save_twice a req)
  unfolding save_twice
  save_twice-Guards req = bind-Guards (save_request-Guards req) λ first _.
      cond-Guards (not first.0 || first.1)
        (bind-Guards (atom-Guards (sleep-Keeps inv _)) λ _ _. save_request-Guards req)
        (pure-Guards first tt)

  attempt-Guards :
      (found : KeyError ⊎ Request)
      → Guarded {A = Bool × Bool} I
          (elim found [ inl e ↦ pure (false, true) | inr req ↦ save_twice a req ])
  attempt-Guards (inl e) = pure-Guards (false, true) tt
  attempt-Guards (inr req) = save_twice-Guards req

  update_entry-Guards : (key : Str) → Guarded I (update_entry a key)
  unfolding update_entry
  update_entry-Guards key = bind-Guards (atom-Guards (lift-Keeps _)) λ found _.
      bind-Guards (attempt-Guards found) λ result _. atom-Guards (purge_unless-Keeps inv key result)

  pub round-Guards : Guarded I (update_cache_round a)
  unfolding update_cache_round
  round-Guards =
      bind-Guards (atom-Guards (gets-Keeps _))
        λ w _. cond-Guards _ (update_entry-Guards _) (atom-Guards (sleep-Keeps inv _))

  update_keys-Guards : (keys : List Str) → Guarded I (update_keys a keys)
  unfolding update_keys
  update_keys-Guards [] = pure-Guards tt tt
  update_keys-Guards (key ∷ keys) =
      bind-Guards (update_entry-Guards key) λ _ _. update_keys-Guards keys

  pub update_all-Guards : Guarded I (update_all a)
  unfolding update_all
  update_all-Guards = bind-Guards (atom-Guards (gets-Keeps _)) λ w _. update_keys-Guards _

  pub store_answer-Guards :
      (rw : ResponseSaver) (r : Request) → Fair rw r → Guarded I (store_answer a rw r)
  unfolding store_answer
  store_answer-Guards rw r fair =
      cond-Guards (is_redirect rw.status) (update_response-Guards rw r fair)
        (atom-Guards (spawn-Keeps inv rw r fair))

  -- The saver of a task that is fair has an answer.
  abbrev pub HasFair : Task → Type 0
  HasFair (update_response rw r) = Fair rw r
  HasFair (update_later n) = Unit {0}

  pub run_task-Guards : (t : Task) → HasFair t → Guarded I (run_task a t)
  unfolding run_task
  run_task-Guards (update_response rw r) fair = update_response-Guards rw r fair
  run_task-Guards (update_later n) fair = update_delayed-Guards n

module _ {S : Type 0} {a : AlwaysCache S} {I : World S → Type 0}
    {Fair : ResponseSaver → Request → Type 0} (inv : Invariant a I Fair)
    (writable : IsWritable I) where
  proxy-Guards : (r : Request) → Guarded I (proxy a r)
  unfolding proxy
  proxy-Guards r = bind-Guards (atom-Guards (modify-Keeps _ (λ w i. writable w _ i))) λ _ _.
      bind-Guards (atom-Guards (ask_client-Keeps inv writable 0 r))
        λ rw fair. store_answer-Guards inv rw r (fair r (inl refl))

  try_entries-Guards :
      (r : Request) (entries : List CacheEntry) → Guarded I (try_entries a r entries)
  unfolding try_entries
  try_entries-Guards r [] = proxy-Guards r
  try_entries-Guards r (ce ∷ entries) =
      bind-Guards (atom-Guards (reuse-Keeps inv writable r ce)) λ reason _.
        cond-Guards (is_empty_reason reason) (pure-Guards tt tt) (try_entries-Guards r entries)

  pub serve_http-Guards : (r : Request) → Guarded I (serve_http a r)
  unfolding serve_http
  serve_http-Guards r =
      bind-Guards (atom-Guards (gets-Keeps _)) λ entries _. try_entries-Guards _ entries
