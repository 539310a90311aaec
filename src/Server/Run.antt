-- ===== src/Server/Run.antt =====
-- How the proxy runs: requests, the tasks that they leave behind, the loop of updateCache and the
-- clock, one after the other.
pub mod Keeping
pub mod Sound
pub mod Served
pub mod Given
use always_cache.Base.{List, [], ◌∷◌, ◌++◌, ◌≡◌}
use always_cache.Go.Strings.{Str}
use always_cache.Go.Time.{Time}
use always_cache.Go.Http.{Request}
use always_cache.Go.Panic.{Call, returns}
use always_cache.Tee.{Client}
use always_cache.Server.State.{
  AlwaysCache, Task, update_response, update_later, World, M, ◌>>=◌, ◌>>◌,
}
use always_cache.Server.Updater.{
  update_delayed, update_response_and_locations, update_cache_round, update_all,
}
use always_cache.Server.Handler.{serve_http}

-- A request finds a new writer; what is done behind the requests has none.
abbrev pub fresh_client : Client
fresh_client = record { header = []; sent = [] }

module _ {S : Type 0} (a : AlwaysCache S) where
  -- The body of a goroutine.
  unfoldable pub run_task : Task → M S (Unit {0})
  unfolding update_delayed
  run_task (update_response rw r) = update_response_and_locations a rw r
  run_task (update_later n) = update_delayed a n

  -- A step runs one action to its end. A task that has not run may run at any time.
  pub data Step : World S → World S → Type 0 where
    serve :
        (w w' : World S) (r : Request)
        → serve_http a r (record w { client = fresh_client }) ≡ returns (tt, w')
        → Step w w'
    task :
        (w w' : World S) (before after : List Task) (t : Task)
        → w.tasks ≡ before ++ t ∷ after
        → run_task t (record w { tasks = before ++ after; client = fresh_client })
          ≡ returns (tt, w')
        → Step w w'
    round :
        (w w' : World S)
        → update_cache_round a (record w { client = fresh_client }) ≡ returns (tt, w')
        → Step w w'
    everything :
        (w w' : World S)
        → update_all a (record w { client = fresh_client }) ≡ returns (tt, w')
        → Step w w'
    tick : (w : World S) (now : Time) → Step w (record w { now = now })

  pub data Reach : World S → World S → Type 0 where
    here : (w : World S) → Reach w w
    then : (u v w : World S) → Reach u v → Step v w → Reach u w
