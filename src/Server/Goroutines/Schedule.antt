-- ===== src/Server/Goroutines/Schedule.antt =====
-- Goroutines that run at the same time: requests, the tasks that they leave behind, rounds of
-- updateCache and runs of updateAll, with any interleaving of their actions.
use always_cache.Base.{Option, none, some, List, [], ◌∷◌, ◌++◌, ◌≡◌}
use always_cache.Go.Time.{Time}
use always_cache.Go.Http.{Request}
use always_cache.Tee.{Client}
use always_cache.Server.State.{AlwaysCache, Task, World}
use always_cache.Server.Run.{fresh_client}
use always_cache.Server.Goroutines.{
  Prog, stop, act, serve_http, run_task, update_cache_round, update_all,
}

-- A goroutine has the request that it serves, if any, the writer of its client, and its program.
pub record Goroutine (S : Type 0) : Type 0 where
  pub request : Option Request
  pub client : Client
  pub program : Prog S

-- What the goroutines share, and those that run.
pub record System (S : Type 0) : Type 0 where
  pub world : World S
  pub running : List (Goroutine S)

module _ {S : Type 0} where
  abbrev pub goroutine : Option Request → Prog S → Goroutine S
  goroutine request program = record { request = request; client = fresh_client; program = program }

  -- A new goroutine, for which the shared state is as given.
  abbrev pub started : System S → World S → Option Request → Prog S → System S
  started s w request program = record {
    world = w;
    running = s.running ++ goroutine request program ∷ [];
  }

  -- The state as a goroutine sees it.
  abbrev pub seen : System S → Goroutine S → World S
  seen s g = record s.world { client = g.client }

  abbrev pub acted :
      System S
      → List (Goroutine S)
      → List (Goroutine S)
      → Goroutine S
      → (World S → World S)
      → (World S → Prog S)
      → System S
  acted s before after g f k = record {
    world = f (seen s g);
    running =
        before
        ++ record { request = g.request; client = (f (seen s g)).client; program = k (seen s g) }
          ∷ after;
  }

module _ {S : Type 0} (a : AlwaysCache S) where
  pub data Step : System S → System S → Type 0 where
    serve :
        (s : System S) (r : Request)
        → Step s (started s s.world (some r) (serve_http a r (λ x. stop)))
    task :
        (s : System S) (before after : List Task) (t : Task)
        → s.world.tasks ≡ before ++ t ∷ after
        → Step s
            (started s (record s.world { tasks = before ++ after }) none (run_task a t (λ x. stop)))
    round : (s : System S) → Step s (started s s.world none (update_cache_round a (λ x. stop)))
    everything : (s : System S) → Step s (started s s.world none (update_all a (λ x. stop)))
    tick : (s : System S) (now : Time) → Step s (record s { world = record s.world { now = now } })
    -- One action of one goroutine.
    action :
        (s : System S) (before after : List (Goroutine S)) (g : Goroutine S) (f : World S → World S)
        (k : World S → Prog S)
        → s.running ≡ before ++ g ∷ after
        → g.program ≡ act f k
        → Step s (acted s before after g f k)

  pub data Interleaving : System S → System S → Type 0 where
    here : (s : System S) → Interleaving s s
    then : (s t u : System S) → Interleaving s t → Step t u → Interleaving s u
