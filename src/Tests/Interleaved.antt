-- ===== src/Tests/Interleaved.antt =====
-- Two requests for one page whose goroutines act in turn.
use always_cache.Base.{In, inl, none, ◌≤◌, ◌≢◌, ◌⊎◌, List, [], ◌∷◌, ◌≡◌, refl}
use always_cache.Base.Lists.{length}
use always_cache.Sqlite.{Row, sqlite_cache}
use always_cache.Sqlite.Laws.{HasEntry, sqlite_cache-ProviderLaws}
use always_cache.Tee.{run, new_response_saver}
use always_cache.Server.Run.Sound.{IsSound}
use always_cache.Server.Goroutines.{
  stop, atom, serve_http, try_entries, proxy, store_answer, run_task, update_response_and_locations,
  update_if_needed, save_updates, invalidate_uris,
}
use always_cache.Server.Goroutines.Schedule.{System, Goroutine, goroutine}
use always_cache.Server.Goroutines.Answered.{answers, Interleaving-heads}
use always_cache.Server.Total.{heads}
use always_cache.Tests.Answers.{origin_answer}
use always_cache.Server.Goroutines.Sound.{Interleaving-IsSound}
use always_cache.Server.Goroutines.Turns
use always_cache.Server.Goroutines.Turns.{Turn, request, goes, waiting, take_turns}
use always_cache.Base.{refl}
use always_cache.Go.Strings.{split, to_lower, split_two, same}
use always_cache.Go.Http.{new_request}
use always_cache.Sqlite.{all, put_ce}
use always_cache.Tee.{run, write_header, write, new_response_saver}
use always_cache.Server.State.{◌>>=◌, gets, modify, pure, lift, spawn}
use always_cache.Server.Store.{
  get_responses_for_uri, ask_origin, cache_entry, write_cache, put_entry,
}
use always_cache.CacheUpdate.{get_cache_updates}
use always_cache.Rfc9111.Reuse.{unsafe_request}
use always_cache.Rfc9111.Storing.{must_not_store}
use always_cache.Rfc9111.Entry.{must_not_store_checked}
use always_cache.Rfc9111.Invalidation.{get_invalidate_uris}
use always_cache.Rfc9111.CacheControl.{has_directive, parse_cache_control}
use always_cache.Go.Header.{values, get, add}
use always_cache.Server.Handler.{ask_client, is_redirect}
use always_cache.Tests.Memory.{memory}
use always_cache.Tests.Data.{page}
use always_cache.Tests.Memory.{memory-EngineLaws}
use always_cache.Tests.Proxy.{server, world, world-IsSound}

abbrev idle : System (List Row)
idle = record { world = world; running = [] }

-- Both requests look into the empty cache before either asks the origin, and the first leaves its
-- goroutine while the second still waits.
abbrev turns : List Turn
turns =
    request page
    ∷ request page
    ∷ goes 0
    ∷ goes 1
    ∷ goes 1
    ∷ goes 0
    ∷ goes 0
    ∷ goes 0
    ∷ goes 1
    ∷ waiting 0
    ∷ goes 2
    ∷ goes 1
    ∷ goes 2
    ∷ []

abbrev both : Turns.Run server idle
both = take_turns server idle turns

Interleaving-IsSound_example : IsSound server (HasEntry (λ db. db)) both.last.world
unfolding sqlite_cache
Interleaving-IsSound_example =
    Interleaving-IsSound server (sqlite_cache-ProviderLaws memory-EngineLaws) idle both.last refl
      both.steps world-IsSound

-- Both requests reach the origin, and what the first left is stored before the second is done.
both_ran : (both.last.world.calls ≡ 2) × (length both.last.world.store ≡ 1)
unfolding take_turns serve_http try_entries proxy store_answer run_task
    update_response_and_locations update_if_needed save_updates invalidate_uris atom
    get_responses_for_uri ask_client ask_origin ◌>>=◌ gets modify pure lift spawn sqlite_cache all
    put_ce memory run write_header write new_response_saver is_redirect write_cache put_entry
    cache_entry must_not_store_checked must_not_store has_directive parse_cache_control values split
    to_lower split_two get add get_invalidate_uris unsafe_request same get_cache_updates new_request
both_ran = (refl, refl)

abbrev head_or : {A : Type 0} → A → List A → A
head_or x [] = x
head_or x (y ∷ ys) = y

-- The goroutine of the first request.
abbrev first : Goroutine (List Row)
first = head_or (goroutine none stop) both.last.running

first_runs : In first both.last.running
unfolding take_turns serve_http try_entries proxy store_answer run_task
    update_response_and_locations update_if_needed save_updates invalidate_uris atom
    get_responses_for_uri ask_client ask_origin ◌>>=◌ gets modify pure lift spawn sqlite_cache all
    put_ce memory run write_header write new_response_saver is_redirect write_cache put_entry
    cache_entry must_not_store_checked must_not_store has_directive parse_cache_control values split
    to_lower split_two get add get_invalidate_uris unsafe_request same get_cache_updates new_request
first_runs = inl refl

Interleaving-heads_example :
    (heads first.client.sent ≤ answers first)
    × ((first.program ≢ stop) ⊎ (heads first.client.sent ≡ answers first))
Interleaving-heads_example =
    Interleaving-heads server origin_answer idle both.last first refl both.steps first_runs
