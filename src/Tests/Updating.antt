-- ===== src/Tests/Updating.antt =====
-- An entry that is updated, and a field that asks for an update.
use always_cache.Base.{some, true, List, [], ◌∷◌, ◌⊎◌, inr, ◌≡◌, refl, arith}
use always_cache.Go.Strings.{
  Str, codes, split, to_lower, same, has_prefix, split_two, cut, trim_prefix,
}
use always_cache.Go.Header.{values, get}
use always_cache.Key.{
  get_request_from_key, add_vary_keys, get_key_prefix, new_cache_keyer, method_prefix,
}
use always_cache.Key.Vary.{added}
use always_cache.Rfc9111.Fields.{get_list_header}
use always_cache.Go.Http.{new_request}
use always_cache.Go.Panic.{returns}
use always_cache.Go.Conv.{format_uint}
use always_cache.CacheUpdate.{CacheUpdate, cache_update}
use always_cache.Server.Run.{run_task}
use always_cache.Server.State.{◌>>◌}
use always_cache.Server.Updater.{save_updates, sleep, update_path}
use always_cache.Server.Updater.Saving.{Leaves, last, delayed, immediate, save_updates-Leaves}
use always_cache.Server.State.{update_later}
use always_cache.CacheUpdate.Laws.{cache_update-update_value}
use always_cache.Sqlite
use always_cache.Go.Time.{add, sub, of_unix, unix}
use always_cache.Sqlite.{Row, sqlite_cache, all_keys, purge}
use always_cache.Sqlite.Laws.{sqlite_cache-ProviderLaws}
use always_cache.Server.State.{AlwaysCache, World, gets, lift, pure, ◌>>=◌}
use always_cache.Server.Store.{save_request, ask_origin, write_cache}
use always_cache.Tee.{set_field, set_status, new_silent_saver, run, write_header}
use always_cache.Rfc9111.Entry.{must_not_store_checked}
use always_cache.Rfc9111.Storing.{must_not_store}
use always_cache.Rfc9111.CacheControl.{has_directive, parse_cache_control}
use always_cache.Go.Header.{add as add_field}
use always_cache.Server.Updater.{revalidate_uri, revalidate_uris, has}
use always_cache.Server.Updater.Revalidating.{AreUnstorable, revalidate_uris_unstorable}
use always_cache.Server.Updater.{update_all, update_cache_round}
use always_cache.Server.Updater.Round.{oldest, IsDue, update_cache_round-IsRefreshed}
use always_cache.Server.Updater.All.{AreRefreshed, update_all-AreRefreshed}
use always_cache.Server.Updater.Entry.{IsPurgeable, IsRefreshed}
use always_cache.Server.Total.{heads}
use always_cache.Tests.Answers.{entry, filled}
use always_cache.Tests.Data.{platform, page, second, keyer}
use always_cache.Tests.Memory.{memory, memory-EngineLaws, without}
use always_cache.Tests.Proxy.{server}

abbrev rows : List Row → List Row
rows db = db

entry_found : get_request_from_key platform keyer entry.key ≡ returns (inr page)
unfolding get_request_from_key has_prefix add_vary_keys get_key_prefix new_cache_keyer get same
    values split to_lower get_list_header cut trim_prefix new_request split_two added
entry_found = refl

abbrev keys : List Str
keys = server.cache.all_keys filled.store server.keyer.origin_prefix

entry_keys : keys ≡ entry.key ∷ []
unfolding sqlite_cache all_keys memory add_vary_keys get_key_prefix new_cache_keyer get same values
    split to_lower get_list_header
entry_keys = refl

purgeable : IsPurgeable server entry.key
unfolding sqlite_cache purge memory
purgeable db = (without entry.key db, refl)

update_all-AreRefreshed_example :
    (w' : World (List Row)) × (update_all server filled ≡ returns (tt, w'))
    × (heads w'.client.sent ≡ heads filled.client.sent)
    × AreRefreshed server (sqlite_cache-ProviderLaws memory-EngineLaws) keys filled w'
unfolding sqlite_cache
update_all-AreRefreshed_example =
    update_all-AreRefreshed server (sqlite_cache-ProviderLaws memory-EngineLaws) filled
      (rw entry_keys ((inr page, entry_found), tt)) (rw entry_keys (purgeable, tt))

-- The entry expires at this second.
abbrev ripe : World (List Row)
ripe = record filled { now = second 60 }

ripe_key : (oldest server ripe).key ≡ entry.key
unfolding sqlite_cache Sqlite.oldest memory add_vary_keys get_key_prefix new_cache_keyer get same
    values split to_lower get_list_header method_prefix
ripe_key = refl

ripe-IsDue : IsDue server ripe
unfolding sqlite_cache Sqlite.oldest memory add_vary_keys get_key_prefix new_cache_keyer get same
    values split to_lower get_list_header method_prefix sub of_unix unix
ripe-IsDue = (refl, λ e. cc, omega arith)

update_cache_round-IsRefreshed_example :
    (w' : World (List Row)) × (update_cache_round server ripe ≡ returns (tt, w'))
    × (heads w'.client.sent ≡ heads ripe.client.sent)
    × ((IsDue server ripe
          × IsRefreshed server
              (sqlite_cache-ProviderLaws memory-EngineLaws)
              (oldest server ripe).key
              w')
        ⊎ (¬ IsDue server ripe × (w' ≡ record ripe { now = add ripe.now server.update_timeout })))
unfolding sqlite_cache
update_cache_round-IsRefreshed_example =
    update_cache_round-IsRefreshed server (sqlite_cache-ProviderLaws memory-EngineLaws) ripe
      (inr page, rw ripe_key entry_found) (rw ripe_key purgeable)

cache_update-update_value_example :
    cache_update platform page.url (codes "/list; delay=30")
    ≡ record { path = codes "/list"; delay = second 30 }
unfolding format_uint
cache_update-update_value_example =
    cache_update-update_value (codes "/list") 30 page.url platform (omega arith) (omega arith)
      (omega arith)

-- A proxy with updates whose origin has an answer that may not be stored.
abbrev refusing : AlwaysCache (List Row)
refusing = record server {
  cache = sqlite_cache (record memory { exec_select = λ db key. some 1 });
  origin = λ n req. set_field (codes "Cache-Control") (codes "no-store") ∷ set_status 200 ∷ [];
  updates = true;
}

refusing-AreUnstorable : AreUnstorable refusing (codes "/a" ∷ [])
unfolding new_silent_saver run write_header must_not_store_checked must_not_store has_directive
    parse_cache_control values split to_lower split_two get add_field same
refusing-AreUnstorable uri req among made now n e = ground arith

abbrev asked_again : World (List Row)
asked_again = record filled { calls = 1 }

asks_again : revalidate_uris refusing (codes "/a" ∷ []) filled ≡ returns (tt, asked_again)
unfolding revalidate_uris revalidate_uri has gets lift pure ◌>>=◌ save_request ask_origin
    write_cache sqlite_cache Sqlite.has new_request has_prefix new_silent_saver run write_header
    must_not_store_checked must_not_store has_directive parse_cache_control values split to_lower
    split_two get add_field same
asks_again = refl

-- The entry for the page is still there after the origin was asked.
revalidate_uris_unstorable_example : asked_again.store ≡ filled.store
revalidate_uris_unstorable_example =
    revalidate_uris_unstorable refusing (codes "/a" ∷ []) filled asked_again refusing-AreUnstorable
      asks_again

abbrev two_updates : List CacheUpdate
two_updates =
    record { path = codes "/list"; delay = second 30 }
    ∷ record { path = codes "/a"; delay = second 0 }
    ∷ []

-- One of them waits, the other one is made at once, and the loop's variable ends with the second.
one_waits : (delayed 0 two_updates ≡ update_later 0 ∷ []) × (immediate platform two_updates ≡ 1)
unfolding delayed immediate new_request has_prefix
one_waits = (refl, refl)

abbrev first_update : CacheUpdate
first_update = record { path = codes "/list"; delay = second 30 }

abbrev second_update : CacheUpdate
second_update = record { path = codes "/a"; delay = second 0 }

-- The loop is over, and its variable holds the second update.
abbrev loop_over : World (List Row)
loop_over = record filled { variables = second_update ∷ [] }

save_updates-Leaves_example :
    ((w' : World (List Row)) × (save_updates server (first_update ∷ second_update ∷ []) filled
        ≡ returns (tt, w'))
      × Leaves
          (immediate platform (first_update ∷ second_update ∷ []))
          (delayed 0 (first_update ∷ second_update ∷ []))
          filled
          w'
      × (w'.variables ≡ second_update ∷ []))
    × (run_task server (update_later 0) loop_over
        ≡ (sleep server (second 0) >> update_path server (codes "/a")) loop_over)
unfolding last
save_updates-Leaves_example =
    save_updates-Leaves server first_update (second_update ∷ []) filled loop_over [] refl
