-- ===== src/Tests/Proxy.antt =====
-- A proxy over a database in memory: a request that the origin answers, the task behind it, and a
-- request that the cache answers.
use always_cache.Base.{some, All, Bool, true, false, List, [], ◌∷◌, ◌++◌, ◌≡◌, refl}
use always_cache.Go.Strings.{
  Str, codes, split, to_lower, split_two, same, has_prefix, trim_prefix, cut, split_first, to_upper,
  trim,
}
use always_cache.Go.Http.{Request, new_request}
use always_cache.Go.Panic.{Call, returns, panics}
use always_cache.Provider.{CacheEntry}
use always_cache.Rfc9211.{uri_miss, new_cache_status, set_forward, set_hit}
use always_cache.Sqlite.{Row, sqlite_cache, all, put_ce}
use always_cache.Sqlite.Laws.{HasEntry, sqlite_cache-ProviderLaws}
use always_cache.Tee.{
  ResponseSaver, Act, set_field, set_status, put_bytes, run, write_header, write,
  new_response_saver,
}
use always_cache.Server.State.{
  AlwaysCache, update_response, World, ◌>>=◌, gets, modify, pure, lift, spawn,
}
use always_cache.Server.Store.{
  saved_response, get_responses_for_uri, ask_origin, cache_entry, write_cache, put_entry,
}
use always_cache.Server.Updater.{
  update_response_and_locations, update_if_needed, invalidate_uris, save_updates,
}
use always_cache.CacheUpdate.{get_cache_updates}
use always_cache.Rfc9111.Reuse.{
  unsafe_request, must_not_reuse, must_write_through, header_fields_match,
}
use always_cache.Rfc9111.Fields.{get_list_header}
use always_cache.Key.{get_key_prefix, add_vary_keys, get_request_from_key, new_cache_keyer}
use always_cache.Rfc9111.Storing.{must_not_store}
use always_cache.Rfc9111.Entry.{must_not_store_checked, must_not_reuse_checked}
use always_cache.Rfc9111.Invalidation.{get_invalidate_uris, non_error_response}
use always_cache.Rfc9111.CacheControl.{
  has_directive, parse_cache_control, s_max_age, max_age, get_delta_seconds, get as get_directive,
}
use always_cache.Rfc9111.Freshness.{is_fresh, freshness_lifetime}
use always_cache.Rfc9111.Age.{current_age, age_value, get_age, date_value}
use always_cache.Rfc9111.Syntax.{http_date, imf_date, normalize_date_str, obs_date, delta_seconds}
use always_cache.Go.Conv.{parse_uint}
use always_cache.Go.Time.{plus, sub, of_unix, unix, times_second}
use always_cache.Go.Header.{values, get, add}
use always_cache.Server.Handler.{
  serve_http, try_entries, ask_client, store_answer, proxy, is_redirect, with_cache_status,
  reuse_or_validate, follow, send_hit, send_stored_response, create_stored_response,
}
use always_cache.Server.Run.{serve, task, Reach, here, then, fresh_client, run_task}
use always_cache.Server.Run.Sound.{IsSound, IsStored}
use always_cache.Server.Goroutines.Sound.{Reach-IsSound}
use always_cache.Server.Handler.Serving.{Hit}
use always_cache.Server.Run.Served.{serve_http-Hit}
use always_cache.Server.Updater.{purge}
use always_cache.Server.Updater.Laws.{NotOf}
use always_cache.Server.Updater.Invalidating.{locations, update_response_and_locations-NotOf}
use always_cache.Tests.Data.{platform, page, second, keyer}
use always_cache.Tests.Memory.{memory, memory-EngineLaws}

abbrev pub answer : List Act
answer =
    set_field (codes "Cache-Control") (codes "max-age=60")
    ∷ set_status 200
    ∷ put_bytes (codes "hi")
    ∷ []

abbrev pub server : AlwaysCache (List Row)
server = record {
  platform = platform;
  cache = sqlite_cache memory;
  keyer = keyer;
  modify_response = λ r. r;
  origin = λ n r. answer;
  updates = false;
  update_timeout = second 1;
}

abbrev pub world : World (List Row)
world = record {
  store = [];
  now = second 9;
  calls = 0;
  client = fresh_client;
  tasks = [];
  variables = [];
}

abbrev after_call : {A B : Type 0} → B → Call (A × B) → B
after_call w panics = w
after_call w (returns (x, v)) = v

abbrev served : World (List Row)
served = after_call world (serve_http server page world)

abbrev returned : {A : Type 0} → Call A → Bool
returned panics = false
returned (returns x) = true

returned_lem :
    {B : Type 0} (w : B) (c : Call (Unit {0} × B))
    → returned c ≡ true
    → c ≡ returns (tt, after_call w c)
returned_lem w panics e = cc
returned_lem w (returns (x, v)) e = refl

first_request : returned (serve_http server page world) ≡ true
unfolding serve_http try_entries get_responses_for_uri proxy ask_client ask_origin store_answer
    ◌>>=◌ gets modify pure spawn sqlite_cache all memory run write_header write is_redirect
first_request = refl

abbrev pub saver : ResponseSaver
saver =
    run platform
      (new_response_saver (second 9)
        (with_cache_status (set_forward uri_miss new_cache_status) world).client 0)
      answer

-- What the request leaves to be done.
left_over : served.tasks ≡ [] ++ update_response saver page ∷ []
unfolding serve_http try_entries get_responses_for_uri proxy ask_client ask_origin store_answer
    ◌>>=◌ gets modify pure spawn sqlite_cache all memory run write_header write is_redirect
left_over = refl

abbrev served_rest : World (List Row)
served_rest = record served { tasks = []; client = fresh_client }

abbrev pub stored : World (List Row)
stored = after_call served_rest (run_task server (update_response saver page) served_rest)

first_task : returned (run_task server (update_response saver page) served_rest) ≡ true
unfolding run_task update_response_and_locations update_if_needed ◌>>=◌ pure lift gets modify
    write_cache put_entry must_not_store_checked run write_header write new_response_saver
    must_not_store has_directive parse_cache_control values split to_lower split_two get add
    get_invalidate_uris unsafe_request same invalidate_uris save_updates get_cache_updates
first_task = refl

pub stored_Reach : Reach server world stored
stored_Reach =
    then world served stored
      (then world world served (here world)
        (serve world served page (returned_lem world (serve_http server page world) first_request)))
      (task served stored [] [] (update_response saver page) left_over (
        returned_lem served_rest (run_task server (update_response saver page) served_rest)
          first_task))

pub world-IsSound : IsSound server (HasEntry (λ db. db)) world
world-IsSound = (λ e held. absurd held.1, λ t h. absurd h)

abbrev hit : World (List Row)
hit = after_call stored (serve_http server page stored)

-- The cache answers, and the origin is not called.
second_request : (returned (serve_http server page stored) ≡ true) × (hit.calls ≡ stored.calls)
unfolding serve_http try_entries get_responses_for_uri ◌>>=◌ pure lift gets modify sqlite_cache all
    put_ce memory run_task update_response_and_locations update_if_needed write_cache put_entry
    cache_entry must_not_store_checked run write_header write new_response_saver must_not_store
    has_directive parse_cache_control values split to_lower split_two get add get_invalidate_uris
    unsafe_request same invalidate_uris save_updates get_cache_updates proxy ask_client ask_origin
    store_answer spawn is_redirect reuse_or_validate follow send_hit send_stored_response
    create_stored_response get_request_from_key has_prefix must_not_reuse_checked must_not_reuse
    must_write_through header_fields_match get_list_header get_key_prefix add_vary_keys cut
    trim_prefix new_request new_cache_keyer is_fresh current_age plus age_value get_age split_first
    sub of_unix unix date_value http_date imf_date to_upper freshness_lifetime s_max_age max_age
    get_delta_seconds get_directive delta_seconds parse_uint times_second trim normalize_date_str
    obs_date set_hit
second_request = (refl, refl)

abbrev rows : List Row → List Row
rows db = db

stored-IsSound : IsSound server (HasEntry rows) stored
unfolding sqlite_cache
stored-IsSound =
    Reach-IsSound server (sqlite_cache-ProviderLaws memory-EngineLaws) world stored stored_Reach
      world-IsSound

serve_http-Hit_example :
    (ce : CacheEntry) × HasEntry rows stored.store ce
    × IsStored server ce
    × Hit server page stored hit ce
unfolding sqlite_cache
serve_http-Hit_example =
    serve_http-Hit server (sqlite_cache-ProviderLaws memory-EngineLaws) page stored hit
      stored-IsSound (returned_lem stored (serve_http server page stored) second_request.0)
      second_request.1

-- A request that changes the page, and its answer.
abbrev change : Request
change = record page { method = codes "POST" }

abbrev changed : ResponseSaver
changed = record saver { header = (codes "Location", codes "/b" ∷ []) ∷ []; status = 200 }

abbrev changing : Call (Unit {0} × World (List Row))
changing = update_response_and_locations server changed change stored

change_returns : returned changing ≡ true
unfolding update_response_and_locations update_if_needed invalidate_uris save_updates new_request
    has_prefix ◌>>=◌ purge memory gets lift modify pure sqlite_cache get_invalidate_uris
    get_cache_updates unsafe_request same values get write_cache put_entry put_ce
    must_not_store_checked must_not_store has_directive parse_cache_control split to_lower split_two
    run write write_header new_response_saver non_error_response
change_returns = refl

update_response_and_locations-NotOf_example :
    (uris : List Str) × (locations server (saved_response changed change) ≡ some uris)
    × ((e : CacheEntry)
        → HasEntry rows (after_call stored changing).store e
        → All (NotOf server e) (change.url.text ∷ uris))
unfolding sqlite_cache values unsafe_request same non_error_response
update_response_and_locations-NotOf_example =
    update_response_and_locations-NotOf server (sqlite_cache-ProviderLaws memory-EngineLaws) change
      changed stored (after_call stored changing) refl refl refl refl
      (returned_lem stored changing change_returns)
