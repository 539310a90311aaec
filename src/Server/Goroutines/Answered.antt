-- ===== src/Server/Goroutines/Answered.antt =====
-- What the clients have got while goroutines run at the same time.
use always_cache.Base.{
  ℕ, ◌+◌, ◌≤◌, Option, none, some, List, [], ◌∷◌, ◌++◌, In, In-append, In-append_left,
  In-append_right, ◌⊎◌, inl, inr, ◌≡◌, ◌≢◌, refl, arith,
}
use always_cache.Go.Http.{Request}
use always_cache.Server.State.{AlwaysCache, World}
use always_cache.Server.Total.{heads}
use always_cache.Server.Handler.Answers.{IsResponse}
use always_cache.Server.Goroutines.{Prog, stop, crash, act}
use always_cache.Server.Goroutines.Heads.{Sends}
use always_cache.Server.Goroutines.Sending.{
  serve_http-Adds, run_task-Adds, round-Adds, update_all-Adds,
}
use always_cache.Server.Goroutines.Schedule.{
  Goroutine, System, goroutine, started, seen, acted, Step, serve, task, round, everything, tick,
  action, Interleaving, here, then,
}

-- A goroutine that serves a request answers it once; another one answers nobody.
abbrev pub answers : {S : Type 0} → Goroutine S → ℕ
answers g = elim g.request [ some r ↦ 1 | none ↦ 0 ]

-- What the client has got and what the program will send make up the goroutine's answers.
IsOnWay : {S : Type 0} → Goroutine S → Type 0
IsOnWay g = (later : ℕ) × (heads g.client.sent + later ≡ answers g) × Sends later g.program

module _ {S : Type 0} (a : AlwaysCache S)
    (origin : (n : ℕ) (req : Request) → IsResponse (a.origin n req)) where
  -- Every goroutine that runs is on its way.
  AreOnWay : System S → Type 0
  AreOnWay s = (g : Goroutine S) → In g s.running → IsOnWay g

  started-AreOnWay :
      (s : System S) (w : World S) (request : Option Request) (p : Prog S)
      → Sends (answers (goroutine request p)) p
      → AreOnWay s
      → AreOnWay (started s w request p)
  unfolding AreOnWay IsOnWay
  started-AreOnWay s w request p sends before g among =
      elim (In-append g s.running (goroutine request p ∷ []) among) [
        | inl old ↦ before g old
        | inr (inl same) ↦ rw same (answers (goroutine request p), omega arith, sends)
        | inr (inr nothing) ↦ absurd nothing
      ]

  action-IsOnWay :
      (s : System S) (g : Goroutine S) (f : World S → World S) (k : World S → Prog S)
      → g.program ≡ act f k
      → IsOnWay g
      → IsOnWay
          (record { request = g.request; client = (f (seen s g)).client; program = k (seen s g) })
  unfolding IsOnWay
  action-IsOnWay s g f k e (later, sum, sends) =
      let own : Sends later (act f k) = rw e at sends in
      let (now, rest, all_sent, sent, after) = own (seen s g) in
      (rest, omega (arith, sum, all_sent, sent), after)

  action-AreOnWay :
      (s : System S) (before after : List (Goroutine S)) (g : Goroutine S) (f : World S → World S)
      (k : World S → Prog S)
      → s.running ≡ before ++ g ∷ after
      → g.program ≡ act f k
      → AreOnWay s
      → AreOnWay (acted s before after g f k)
  unfolding AreOnWay
  action-AreOnWay s before after g f k among e on_way h there =
      elim (In-append h before (_ ∷ after) there) [
        | inl left ↦ on_way h (rw among (In-append_left h before (g ∷ after) left))
        | inr (inl same) ↦ rw same (
            action-IsOnWay s g f k e
              (on_way g (rw among (In-append_right g before (g ∷ after) (inl refl)))))
        | inr (inr right) ↦ on_way h (rw among (In-append_right h before (g ∷ after) (inr right)))
      ]

  AreOnWay-Step : (s t : System S) → Step a s t → AreOnWay s → AreOnWay t
  unfolding AreOnWay
  AreOnWay-Step s t (serve _ r) before =
      started-AreOnWay s s.world (some r) _
        ((serve_http-Adds a origin r).add (λ x. stop) (λ x. refl)) before
  AreOnWay-Step s t (task _ earlier later u among) before =
      started-AreOnWay s (record s.world { tasks = earlier ++ later }) none _
        ((run_task-Adds a u).add (λ x. stop) (λ x. refl)) before
  AreOnWay-Step s t (round _) before =
      started-AreOnWay s s.world none _ ((round-Adds a).add (λ x. stop) (λ x. refl)) before
  AreOnWay-Step s t (everything _) before =
      started-AreOnWay s s.world none _ ((update_all-Adds a).add (λ x. stop) (λ x. refl)) before
  AreOnWay-Step s t (tick _ now) before = before
  AreOnWay-Step s t (action _ before after g f k among e) on_way =
      action-AreOnWay s before after g f k among e on_way

  kept-AreOnWay : (s t : System S) → Interleaving a s t → AreOnWay s → AreOnWay t
  kept-AreOnWay s t (here _) on_way = on_way
  kept-AreOnWay s t (then _ u _ steps step) on_way =
      AreOnWay-Step u t step (kept-AreOnWay s u steps on_way)

  finished :
      (g : Goroutine S) (p : Prog S) (later : ℕ)
      → g.program ≡ p
      → heads g.client.sent + later ≡ answers g
      → Sends later p
      → (heads g.client.sent ≤ answers g) × ((g.program ≢ stop) ⊎ (heads g.client.sent ≡ answers g))
  finished g stop later e sum sends = (omega (arith, sum), inr (omega (arith, sum, sends)))
  finished g crash later e sum sends = (omega (arith, sum), inl (λ same. cc))
  finished g (act f k) later e sum sends = (omega (arith, sum), inl (λ same. cc))

  -- If the origin answers every request with some fields, one status other than 0 and a body, then
  -- whatever goroutines run at the same time (requests of any method, the tasks that they leave
  -- behind, rounds of updateCache, runs of updateAll), and however their actions interleave, no
  -- client gets more than one response head. A goroutine that serves a request and has come to its
  -- end without a panic has sent exactly one, and the other goroutines have sent none.
  pub Interleaving-heads :
      (s t : System S) (g : Goroutine S)
      → s.running ≡ []
      → Interleaving a s t
      → In g t.running
      → (heads g.client.sent ≤ answers g) × ((g.program ≢ stop) ⊎ (heads g.client.sent ≡ answers g))
  unfolding AreOnWay IsOnWay
  Interleaving-heads s t g idle steps among =
      let nobody : AreOnWay s = λ h there. absurd (rw idle at there) in
      let (later, sum, sends) = kept-AreOnWay s t steps nobody g among in
      finished g g.program later refl sum sends
