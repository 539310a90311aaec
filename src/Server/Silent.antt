-- ===== src/Server/Silent.antt =====
-- Actions that return and send the client nothing.
use always_cache.Base.{arith, Bool, true, false, not, ◌≡◌, refl}
use always_cache.Go.Http.{Request}
use always_cache.Go.Panic.{returns}
use always_cache.Rfc9111.Entry.{Result, ok, err, must_not_store_checked}
use always_cache.Tee.{ResponseSaver}
use always_cache.Server.State.{AlwaysCache, Task, spawn, World}
use always_cache.Server.Total.{Silent, gets-Total, modify-Total, then-Total}
use always_cache.Server.Store.{
  saved_response, cache_entry, put_entry, write_cache, ask_origin, save_request,
}

pub spawn-Total : {S : Type 0} (t : Task) → Silent (spawn {S = S} t)
unfolding spawn
spawn-Total t = modify-Total _ 0 (λ w. omega arith)

module _ {S : Type 0} (a : AlwaysCache S) where
  -- writeCache sends nothing.
  written :
      (saver : ResponseSaver) (r : Request) (w : World S) (answer : Result Bool)
      → must_not_store_checked (saved_response saver r) ≡ answer
      → (x : Bool × Bool) × (w' : World S) × (write_cache a saver r w ≡ returns (x, w'))
        × (w'.client ≡ w.client)
  unfolding write_cache put_entry
  written saver r w (ok true) e = ((false, false), w, rw (e, write_cache) refl, refl)
  written saver r w (ok false) e =
      let (store', failed) = a.cache.put_ce w.store (cache_entry a w.now saver r) in
      ((not failed, failed), record w { store = store' }, rw (e, write_cache) refl, refl)
  written saver r w (err no_store x) e = ((false, true), w, rw (e, write_cache) refl, refl)

  pub write_cache-Total : (saver : ResponseSaver) (r : Request) → Silent (write_cache a saver r)
  write_cache-Total saver r = record {
    run = λ w.
        let (x, w', e, same) = written saver r w _ refl in (x, w', e, tt, rw same (omega arith));
  }

  pub ask_origin-Total : (saver : ResponseSaver) (r : Request) → Silent (ask_origin a saver r)
  unfolding ask_origin
  ask_origin-Total saver r = record { run = λ w. (_, _, refl, tt, omega arith) }

  pub save_request-Total : (req : Request) → Silent (save_request a req)
  unfolding save_request
  save_request-Total req =
      then-Total (gets-Total _)
        λ now _. then-Total (ask_origin-Total _ req) λ saver _. write_cache-Total saver req
