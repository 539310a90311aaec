-- ===== src/Server/Goroutines/Sound.antt =====
-- What the cache holds while goroutines run at the same time.
use always_cache.Base.{Option, List, [], ◌∷◌, ◌++◌, ◌≡◌, refl, All}
use always_cache.Provider.{CacheEntry, ProviderLaws}
use always_cache.Server.State.{AlwaysCache, World}
use always_cache.Go.Http.{Request}
use always_cache.Server.Run.{Reach}
use always_cache.Server.Run.Sound.{IsSound, IsSound-Invariant, run_fair-Guards, taken-IsSound}
use always_cache.Server.Goroutines.{Prog, stop, act}
use always_cache.Server.Goroutines.Guards.{
  Safe, Guarded, serve_http-Guards, round-Guards, update_all-Guards,
}
use always_cache.Server.Goroutines.Schedule.{
  Goroutine, System, goroutine, started, seen, acted, Step, serve, task, round, everything, tick,
  action, Interleaving, here, then,
}
use always_cache.Server.Goroutines.Simulated.{for_all, Reach-Can}

module _ {S : Type 0} (a : AlwaysCache S) {Holds : S → CacheEntry → Type 0}
    (laws : ProviderLaws a.cache Holds) where
  -- The shared state is sound, and no goroutine will make it unsound.
  abbrev AllSafe : List (Goroutine S) → Type 0
  AllSafe = All (λ g. Safe (IsSound a Holds) g.program)

  IsSafe : System S → Type 0
  IsSafe s = IsSound a Holds s.world × AllSafe s.running

  AllSafe-append : (xs ys : List (Goroutine S)) → AllSafe xs → AllSafe ys → AllSafe (xs ++ ys)
  AllSafe-append [] ys p q = q
  AllSafe-append (x ∷ xs) ys (h, p) q = (h, AllSafe-append xs ys p q)

  AllSafe-split : (xs ys : List (Goroutine S)) → AllSafe (xs ++ ys) → AllSafe xs × AllSafe ys
  AllSafe-split [] ys p = (tt, p)
  AllSafe-split (x ∷ xs) ys (h, p) = let (q, r) = AllSafe-split xs ys p in ((h, q), r)

  started-IsSafe :
      (s : System S) (w : World S) (request : Option Request) (p : Prog S)
      → IsSound a Holds w
      → Safe (IsSound a Holds) p
      → AllSafe s.running
      → IsSafe (started s w request p)
  unfolding IsSafe
  started-IsSafe s w request p i safe others =
      (i, AllSafe-append s.running (goroutine request p ∷ []) others (safe, tt))

  ended :
      {k : (Unit {0} → Prog S) → Prog S}
      → Guarded (IsSound a Holds) k
      → Safe (IsSound a Holds) (k (λ x. stop))
  ended guards = guards.guard (λ x. stop) (λ x p. tt)

  action-IsSafe :
      (s : System S) (before after : List (Goroutine S)) (g : Goroutine S) (f : World S → World S)
      (k : World S → Prog S)
      → s.running ≡ before ++ g ∷ after
      → g.program ≡ act f k
      → IsSafe s
      → IsSafe (acted s before after g f k)
  unfolding IsSafe
  action-IsSafe s before after g f k among e (i, safe) =
      let (p, (own, q)) = AllSafe-split before (g ∷ after) (rw among at safe) in
      let (kept, rest) = (rw e at own) (seen s g) i in (kept, AllSafe-append before _ p (rest, q))

  IsSafe-Step : (s t : System S) → Step a s t → IsSafe s → IsSafe t
  unfolding IsSafe
  IsSafe-Step s t (serve _ r) (i, safe) =
      started-IsSafe s s.world _ _ i
        (ended (serve_http-Guards (IsSound-Invariant a laws) (λ w client i. i) r)) safe
  IsSafe-Step s t (task _ before after u among) (i, safe) =
      let (fair, others) = taken-IsSound a laws s.world before after u among i in
      started-IsSafe s (record s.world { tasks = before ++ after }) _ _ others
        (ended (run_fair-Guards (IsSound-Invariant a laws) u fair)) safe
  IsSafe-Step s t (round _) (i, safe) =
      started-IsSafe s s.world _ _ i (ended (round-Guards (IsSound-Invariant a laws))) safe
  IsSafe-Step s t (everything _) (i, safe) =
      started-IsSafe s s.world _ _ i (ended (update_all-Guards (IsSound-Invariant a laws))) safe
  IsSafe-Step s t (tick _ now) (i, safe) = (i, safe)
  IsSafe-Step s t (action _ before after g f k among e) safe =
      action-IsSafe s before after g f k among e safe

  kept-IsSafe : (s t : System S) → Interleaving a s t → IsSafe s → IsSafe t
  kept-IsSafe s t (here _) safe = safe
  kept-IsSafe s t (then _ u _ steps step) safe = IsSafe-Step u t step (kept-IsSafe s u steps safe)

  -- With a cache provider that keeps the interface's promises, whatever goroutines run at the same
  -- time (requests, the tasks that they leave behind, rounds of updateCache, runs of updateAll), and
  -- however their actions interleave, every entry that the cache holds is one whole answer of the
  -- origin, kept by a saver that had got nothing before, to the very request of its key (asked as it
  -- is, or as what http.NewRequest makes of its method, URL and body, with its fields), which
  -- MustNotStore lets through, under the key of this request with the lines for the answer's Vary
  -- field; and every waiting task has such an answer for its request; if that was so before the
  -- first of them.
  pub Interleaving-IsSound :
      (s t : System S)
      → s.running ≡ []
      → Interleaving a s t
      → IsSound a Holds s.world
      → IsSound a Holds t.world
  unfolding IsSafe
  Interleaving-IsSound s t idle steps i = (kept-IsSafe s t steps (i, rw idle tt)).0

  -- With a cache provider that keeps the interface's promises, while the proxy runs (requests, the
  -- tasks that they leave behind, the loop of updateCache, updateAll, the clock), every entry that
  -- the cache holds is a whole answer of the origin to the request of its key that MustNotStore lets
  -- through, under the key with the lines for the answer's Vary field, and every waiting task has a
  -- whole answer to its request, if that was so in the beginning.
  pub Reach-IsSound : (w w' : World S) → Reach a w w' → IsSound a Holds w → IsSound a Holds w'
  Reach-IsSound w w' reached i =
      let s : System S = record { world = w; running = [] } in
      let (t, steps, e) = Reach-Can a w w' s refl reached in
      let sound : IsSound a Holds (for_all t.world) = Interleaving-IsSound s t refl steps i in
      rw e at sound
