-- ===== src/Tests/Replayed.antt =====
-- An answer that is stored, and served again eleven seconds later.
use always_cache.Base.{List, [], ◌∷◌, ◌≡◌, refl, arith, true, false, inl}
use always_cache.Go.Strings.{codes}
use always_cache.Go.Panic.{returns}
use always_cache.Provider.{CacheEntry}
use always_cache.Sqlite.{Row, sqlite_cache, entry_row}
use always_cache.Sqlite.Laws.{rounded}
use always_cache.Server.State.{World}
use always_cache.Server.Store.{cache_entry, write_cache, get_responses_for_uri}
use always_cache.Server.Handler.{serve_http}
use always_cache.Server.Handler.Again.{IsServable}
use always_cache.Server.Handler.Stored.{answered, serve_http-write_cache}
use always_cache.Go.Strings.{
  split, to_lower, split_two, same, has_prefix, cut, split_first, to_upper, trim,
}
use always_cache.Go.Http.{new_request}
use always_cache.Sqlite.{all, put_ce}
use always_cache.Tee.{run, write_header, write, new_response_saver}
use always_cache.Server.Store.{put_entry}
use always_cache.Rfc9111.Reuse.{unsafe_request}
use always_cache.Rfc9111.Fields.{get_list_header}
use always_cache.Key.{get_key_prefix, add_vary_keys, new_cache_keyer}
use always_cache.Rfc9111.Storing.{must_not_store}
use always_cache.Rfc9111.Entry.{must_not_store_checked}
use always_cache.Rfc9111.CacheControl.{
  has_directive, parse_cache_control, s_max_age, max_age, get_delta_seconds, get as get_directive,
}
use always_cache.Rfc9111.Freshness.{is_fresh, freshness_lifetime}
use always_cache.Rfc9111.Age.{current_age, age_value, get_age, date_value}
use always_cache.Rfc9111.Syntax.{http_date, imf_date, normalize_date_str, obs_date, delta_seconds}
use always_cache.Go.Conv.{parse_uint}
use always_cache.Go.Time.{plus, sub, of_unix, unix, times_second}
use always_cache.Go.Header.{values, get, add}
use always_cache.Tests.Memory.{memory}
use always_cache.Go.Http.{Response}
use always_cache.Tests.Data.{page, second}
use always_cache.Tests.Memory.{memory-EngineLaws}
use always_cache.Tests.Proxy.{server, world, saver}
use always_cache.Tests.Answers.{made, page-IsKeyable}

abbrev kept : CacheEntry
kept = cache_entry server (second 9) saver page

abbrev written : World (List Row)
written = record world { store = entry_row kept ∷ [] }

abbrev later : World (List Row)
later = record written { now = second 20 }

-- net/http reads the stored bytes back.
abbrev read_back : Response
read_back = record made { body = saver.buffer }

was_written : write_cache server saver page world ≡ returns ((true, false), written)
unfolding run write_header write new_response_saver write_cache put_entry must_not_store_checked
    must_not_store has_directive parse_cache_control values split to_lower split_two get add same
    sqlite_cache put_ce memory
was_written = refl

kept-IsServable : IsServable server (codes "o") (second 20) page page read_back (rounded kept)
unfolding cache_entry add_vary_keys get_key_prefix new_cache_keyer get same values split to_lower
    get_list_header split_two new_request has_prefix unsafe_request has_directive
    parse_cache_control is_fresh current_age plus age_value get_age sub of_unix unix date_value
    http_date imf_date to_upper freshness_lifetime s_max_age max_age get_delta_seconds get_directive
    delta_seconds parse_uint times_second trim normalize_date_str obs_date split_first cut run
    write_header write new_response_saver add
kept-IsServable = record {
  keyer = refl;
  keyed = refl;
  read = refl;
  keyable = page-IsKeyable;
  fits = tt;
  starless = tt;
  requestable = refl;
  same_url = refl;
  named = cc;
  safe = refl;
  fields = cc;
  status = omega arith;
  unconditional = refl;
  fresh = refl;
}

only_kept : get_responses_for_uri server later page ≡ rounded kept ∷ []
unfolding get_responses_for_uri sqlite_cache all memory cache_entry run write_header write
    new_response_saver add_vary_keys get_key_prefix new_cache_keyer get same values split to_lower
    get_list_header split_two of_unix unix add
only_kept = refl

readable : (server.cache.all later.store (get_key_prefix server.keyer page)).1 ≡ false
unfolding get_responses_for_uri sqlite_cache all memory cache_entry run write_header write
    new_response_saver add_vary_keys get_key_prefix new_cache_keyer get same values split to_lower
    get_list_header split_two of_unix unix add
readable = refl

serve_http-write_cache_example :
    serve_http server page later
    ≡ returns (tt, answered server (codes "o") page page read_back (rounded kept) later)
serve_http-write_cache_example =
    serve_http-write_cache memory-EngineLaws server (codes "o") page page page read_back saver world
      written later refl refl was_written refl readable kept-IsServable
      (rw only_kept (inl refl, tt))
