-- ===== src/Server/Goroutines/Simulated.antt =====
-- The steps of a proxy that does one thing at a time, as interleavings.
use always_cache.Base.{Option, List, [], ◌∷◌, ◌++◌, ◌≡◌, refl, ap, ◌∙◌}
use always_cache.Go.Time.{Time}
use always_cache.Go.Panic.{returns}
use always_cache.Tee.{Client}
use always_cache.Server.State.{AlwaysCache, Task, World}
use always_cache.Go.Http.{Request}
use always_cache.Server.Run
use always_cache.Server.Run.{Reach, fresh_client}
use always_cache.Server.Goroutines.{Prog, stop, crash, act}
use always_cache.Server.Goroutines.Alone.{
  exec, result, exec_result, serve_http-Runs, run_task-Runs, round-Runs, update_all-Runs,
}
use always_cache.Server.Goroutines.Schedule.{
  Goroutine, System, started, seen, acted, Step, serve, task, round, everything, tick, action,
  Interleaving, here, then,
}

module _ {S : Type 0} where
  -- The state but for the writer of the client.
  abbrev pub for_all : World S → World S
  for_all w = record w { client = fresh_client }

  abbrev at_tasks : List Task → World S → World S
  at_tasks tasks w = record w { tasks = tasks }

  abbrev at_time : Time → World S → World S
  at_time now w = record w { now = now }

module _ {S : Type 0} (a : AlwaysCache S) where
  -- From the system, goroutines can get to the state, up to the client's writer.
  abbrev pub Can : System S → World S → Type 0
  Can s w = (t : System S) × Interleaving a s t × (for_all t.world ≡ for_all w)

  after_steps : (s t u : System S) → Interleaving a s t → Interleaving a t u → Interleaving a s u
  after_steps s t u first (here _) = first
  after_steps s t u first (then _ v _ others last) =
      then s v u (after_steps s t v first others) last

  Can-after : (s t : System S) (w : World S) → Interleaving a s t → Can t w → Can s w
  Can-after s t w first (u, others, e) = (u, after_steps s t u first others, e)

  -- A goroutine can go on alone.
  Can-exec :
      (p : Prog S) (s : System S) (before after : List (Goroutine S)) (request : Option Request)
      (client : Client) (w : World S)
      → s.running ≡ before ++ record { request = request; client = client; program = p } ∷ after
      → exec p (record s.world { client = client }) ≡ returns w
      → Can s w
  unfolding exec
  Can-exec stop s before after request client w among e = (s, here s, cc)
  Can-exec crash s before after request client w among e = cc
  Can-exec (act f k) s before after request client w among e =
      let g : Goroutine S = record { request = request; client = client; program = act f k } in
      let next = acted s before after g f k in
      Can-after s next w (then s s next (here s) (action s before after g f k among refl))
        (Can-exec (k (seen s g)) next before after request (f (seen s g)).client w refl e)

  Can-started :
      (request : Option Request) (p : Prog S) (s : System S) (v v' w : World S)
      → Step a s (started s v request p)
      → for_all v ≡ for_all v'
      → exec p (for_all v') ≡ returns w
      → Can s w
  Can-started request p s v v' w first same e =
      Can-after s (started s v request p) w (then s s _ (here s) first) (
        Can-exec p (started s v request p) s.running [] request fresh_client w refl
          (ap (exec p) same ∙ e))

  Can-Step :
      (s : System S) (w w' : World S) → for_all s.world ≡ for_all w → Run.Step a w w' → Can s w'
  Can-Step s w w' same (Run.serve _ _ r e) =
      Can-started _ _ s s.world w w' (serve s r) same
        (exec_result _ _ (for_all w) (serve_http-Runs a r) ∙ ap result e)
  Can-Step s w w' same (Run.task _ _ before after t among e) =
      Can-started _ _ s (record s.world { tasks = before ++ after })
        (record w { tasks = before ++ after }) w'
        (task s before after t (ap (λ v. v.tasks) same ∙ among))
        (ap (at_tasks (before ++ after)) same) (exec_result _ _ _ (run_task-Runs a t) ∙ ap result e)
  Can-Step s w w' same (Run.round _ _ e) =
      Can-started _ _ s s.world w w' (round s) same
        (exec_result _ _ (for_all w) (round-Runs a) ∙ ap result e)
  Can-Step s w w' same (Run.everything _ _ e) =
      Can-started _ _ s s.world w w' (everything s) same
        (exec_result _ _ (for_all w) (update_all-Runs a) ∙ ap result e)
  Can-Step s w w' same (Run.tick _ now) =
      (_, then s s _ (here s) (tick s now), ap (at_time now) same)

  -- Whatever state the proxy reaches in steps that run one after the other, goroutines reach from
  -- the same state, up to the client's writer, whatever other goroutines wait.
  pub Reach-Can :
      (w w' : World S) (s : System S) → for_all s.world ≡ for_all w → Reach a w w' → Can s w'
  Reach-Can w w' s same (Run.here _) = (s, here s, same)
  Reach-Can w w' s same (Run.then _ v _ reached last) =
      let (t, steps, e) = Reach-Can w v s same reached in
      Can-after s t w' steps (Can-Step t v w' e last)
