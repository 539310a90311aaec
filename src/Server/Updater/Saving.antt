-- ===== src/Server/Updater/Saving.antt =====
-- updater.go, saveUpdates: what the updates that a response asks for lead to.
use always_cache.Base.{
  length, ℕ, ◌+◌, Bool, true, false, not, List, [], ◌∷◌, ◌++◌, append_assoc, append-nil, Option,
  none, some, inl, inr, if◌then◌else◌, ◌≡◌, refl, sym, ap, ◌∙◌, arith, Bool-cases,
}
use always_cache.Base.Int.{pos, ltb_ℤ}
use always_cache.Go.Strings.{Str, codes}
use always_cache.Go.Http.{Platform, Request, new_request}
use always_cache.Go.Panic.{returns}
use always_cache.Rfc9111.Entry.{Result, ok, err, must_not_store_checked}
use always_cache.CacheUpdate.{CacheUpdate}
use always_cache.Tee.{ResponseSaver, new_silent_saver, run}
use always_cache.Server.State.{
  AlwaysCache, Task, update_later, World, M, ◌>>=◌, ◌>>◌, pure, gets, modify, spawn, declare,
  assign, variable, set_at, value_at,
}
use always_cache.Server.Store.{
  saved_response, ask_origin, cache_entry, write_cache, put_entry, save_request,
}
use always_cache.Server.Updater.{update_path, save_each, save_updates, update_delayed, sleep}
use always_cache.Server.Run.{run_task}

-- The goroutines that wait for the delayed updates, which all have the number of the loop's variable.
abbrev waiting : ℕ → CacheUpdate → List Task
waiting n update = if ltb_ℤ (pos 0) update.delay then update_later n ∷ [] else []

unfoldable pub delayed : ℕ → List CacheUpdate → List Task
delayed n [] = []
delayed n (update ∷ updates) = waiting n update ++ delayed n updates

unfoldable pub last : CacheUpdate → List CacheUpdate → CacheUpdate
last update [] = update
last update (next ∷ updates) = last next updates

-- How many requests are made of what http.NewRequest gives.
abbrev asks : Option Request → ℕ
asks found = elim found [ none ↦ 0 | some req ↦ 1 ]

-- How many requests an update makes at once.
abbrev at_once : Platform → CacheUpdate → ℕ
at_once platform update =
    if ltb_ℤ (pos 0) update.delay
    then 0
    else asks (new_request platform (codes "GET") update.path [])

unfoldable pub immediate : Platform → List CacheUpdate → ℕ
immediate platform [] = 0
immediate platform (update ∷ updates) = at_once platform update + immediate platform updates

-- The state after a number of requests to the origin, and with more goroutines that wait.
abbrev pub Leaves : {S : Type 0} → ℕ → List Task → World S → World S → Type 0
Leaves n tasks w w' =
    (w'.calls ≡ w.calls + n)
    × (w'.tasks ≡ w.tasks ++ tasks)
    × (w'.client ≡ w.client)
    × (w'.now ≡ w.now)

set_at-length :
    (xs : List CacheUpdate) (x y : CacheUpdate) → set_at (length xs) y (xs ++ x ∷ []) ≡ xs ++ y ∷ []
unfolding set_at
set_at-length [] x y = refl
set_at-length (z ∷ xs) x y = ap (λ zs. z ∷ zs) (set_at-length xs x y)

value_at-length :
    (xs more : List CacheUpdate) (x : CacheUpdate) → value_at (length xs) (xs ++ x ∷ more) ≡ x
unfolding value_at
value_at-length [] more x = refl
value_at-length (z ∷ xs) more x = value_at-length xs more x

-- The operation returns, and leaves this behind.
abbrev Goes : {S A : Type 0} → ℕ → List Task → M S A → Type 0
Goes {S} {A} n tasks m =
    (w : World S)
    → (x : A) × (w' : World S) × (m w ≡ returns (x, w'))
      × Leaves n tasks w w'
      × (w'.variables ≡ w.variables)

Leaves-then :
    {S : Type 0} (n k : ℕ) (xs ys : List Task) (u v w : World S)
    → Leaves n xs u v
    → Leaves k ys v w
    → Leaves (n + k) (xs ++ ys) u w
Leaves-then n k xs ys u v w (calls, tasks, client, now) (calls', tasks', client', now') = (
  omega (arith, calls, calls'),
  tasks' ∙ ap (λ ts. ts ++ ys) tasks ∙ append_assoc u.tasks xs ys,
  client' ∙ client,
  now' ∙ now,
)

Goes-then :
    {S A B : Type 0} (n k : ℕ) (xs ys : List Task) (m : M S A) (f : A → M S B)
    → Goes n xs m
    → ((x : A) → Goes k ys (f x))
    → Goes (n + k) (xs ++ ys) (m >>= f)
unfolding ◌>>=◌
Goes-then n k xs ys m f first rest u =
    let (x, v, e, left, kept) = first u in
    let (y, w, e', left', kept') = rest x v in
    (y, w, rw e e', Leaves-then n k xs ys u v w left left', kept' ∙ kept)

Goes-pure : {S A : Type 0} (x : A) → Goes {S = S} 0 [] (pure x)
unfolding pure
Goes-pure x w = (x, w, refl, (omega arith, sym (append-nil _), refl, refl), refl)

module _ {S : Type 0} (a : AlwaysCache S) where
  write_cache-Leaves :
      (saver : ResponseSaver) (r : Request) (w : World S) (answer : Result Bool)
      → must_not_store_checked (saved_response saver r) ≡ answer
      → (x : Bool × Bool) × (w' : World S) × (write_cache a saver r w ≡ returns (x, w'))
        × Leaves 0 [] w w'
        × (w'.variables ≡ w.variables)
  unfolding write_cache put_entry
  write_cache-Leaves saver r w (err y z) e = (
    (false, true),
    w,
    rw (e, write_cache) refl,
    (omega arith, sym (append-nil _), refl, refl),
    refl,
  )
  write_cache-Leaves saver r w (ok true) e = (
    (false, false),
    w,
    rw (e, write_cache) refl,
    (omega arith, sym (append-nil _), refl, refl),
    refl,
  )
  write_cache-Leaves saver r w (ok false) e =
      let put = a.cache.put_ce w.store (cache_entry a w.now saver r) in
      (
        (not put.1, put.1),
        record w { store = put.0 },
        rw (e, write_cache) refl,
        (omega arith, sym (append-nil _), refl, refl),
        refl,
      )

  save_request-Goes : (req : Request) → Goes 1 [] (save_request a req)
  unfolding save_request ask_origin gets ◌>>=◌
  save_request-Goes req w =
      let saver = run a.platform (new_silent_saver w.now) (a.origin w.calls req) in
      let asked : World S = record w { calls = w.calls + 1 } in
      let (x, w', e, left, kept) = write_cache-Leaves saver req asked _ refl in
      (x, w', e, Leaves-then 1 0 [] [] w asked w' (refl, sym (append-nil _), refl, refl) left, kept)

  update_path-Goes :
      (path : Str) (found : Option Request)
      → new_request a.platform (codes "GET") path [] ≡ found
      → Goes (asks found) [] (update_path a path)
  unfolding update_path
  update_path-Goes path none e = rw (e, update_path) (Goes-pure tt)
  update_path-Goes path (some req) e =
      rw (e, update_path)
        (Goes-then 1 0 [] [] (save_request a req) _ (save_request-Goes req) λ x. Goes-pure tt)

  spawn-Goes : (task : Task) → Goes {S = S} 0 (task ∷ []) (spawn task)
  unfolding spawn modify
  spawn-Goes task w = (tt, _, refl, (omega arith, refl, refl, refl), refl)

  update-Goes :
      (n : ℕ) (update : CacheUpdate)
      → Goes
          (at_once a.platform update)
          (waiting n update)
          (if ltb_ℤ (pos 0) update.delay then spawn (update_later n) else update_path a update.path)
  update-Goes n update = elim (Bool-cases (ltb_ℤ (pos 0) update.delay)) [
    | inl later ↦ rw later (spawn-Goes (update_later n))
    | inr now ↦ rw now (update_path-Goes update.path _ refl)
  ]

  save_each-Leaves :
      (before : List CacheUpdate) (x : CacheUpdate) (updates : List CacheUpdate) (w : World S)
      → w.variables ≡ before ++ x ∷ []
      → (w' : World S) × (save_each a (length before) updates w ≡ returns (tt, w'))
        × Leaves (immediate a.platform updates) (delayed (length before) updates) w w'
        × (w'.variables ≡ before ++ last x updates ∷ [])
  unfolding save_each immediate delayed last pure assign modify ◌>>=◌
  save_each-Leaves before x [] w held =
      (w, refl, (omega arith, sym (append-nil _), refl, refl), held)
  save_each-Leaves before x (update ∷ updates) w held =
      let n = length before in
      let set : World S = record w { variables = set_at n update w.variables } in
      let now_held : set.variables ≡ before ++ update ∷ [] =
        ap (set_at n update) held ∙ set_at-length before x update in
      let (y, v, e, left, kept) = update-Goes n update set in
      let (w', e', left', ends) = save_each-Leaves before update updates v (kept ∙ now_held) in
      (
        w',
        rw e e',
        Leaves-then (at_once a.platform update) (immediate a.platform updates) (waiting n update)
            (delayed n updates) w v w' left left',
        ends,
      )

  -- saveUpdates, for one or more updates, returns. It has asked the origin once for each update
  -- without a delay of which http.NewRequest makes a GET request, and has left one goroutine for each
  -- other update, all with the loop's one variable, which holds the last update of the list; the
  -- client has got nothing. Such a goroutine that runs when the loop is over waits for the delay of
  -- the last update and updates the path of the last update, whichever update it was left for.
  pub save_updates-Leaves :
      (update : CacheUpdate) (updates : List CacheUpdate) (w v : World S) (more : List CacheUpdate)
      → v.variables ≡ w.variables ++ last update updates ∷ more
      → ((w' : World S) × (save_updates a (update ∷ updates) w ≡ returns (tt, w'))
          × Leaves
              (immediate a.platform (update ∷ updates))
              (delayed (length w.variables) (update ∷ updates))
              w
              w'
          × (w'.variables ≡ w.variables ++ last update updates ∷ []))
        × (run_task a (update_later (length w.variables)) v
            ≡ (sleep a (last update updates).delay >> update_path a (last update updates).path) v)
  unfolding save_updates declare ◌>>=◌ run_task update_delayed variable gets sleep modify last
  save_updates-Leaves update updates w v more held =
      let declared : World S = record w { variables = w.variables ++ update ∷ [] } in
      let (w', e, left, ends) =
        save_each-Leaves w.variables update (update ∷ updates) declared refl in
      let read : value_at (length w.variables) v.variables ≡ last update updates =
        ap (value_at (length w.variables)) held ∙ value_at-length w.variables more _ in
      ((w', e, left, ends), rw read refl)
