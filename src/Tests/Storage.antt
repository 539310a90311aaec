-- ===== src/Tests/Storage.antt =====
-- The theorems on the response saver and the database at concrete inputs.
use always_cache.Base.{◌==◌, Bool, true, not, List, [], ◌∷◌, ◌++◌, In, some, ◌≡◌, refl}
use always_cache.Base.Int.{pos}
use always_cache.Go.Strings.{Str, codes, has_prefix}
use always_cache.Go.Panic.{returns}
use always_cache.Provider.{CacheEntry, ProviderLaws}
use always_cache.Sqlite.{Row, all, get, put, put_ce, sqlite_cache}
use always_cache.Sqlite.Laws.{HasEntry, rounded, sqlite_cache-ProviderLaws, all-put_ce, all-put}
use always_cache.Sqlite.History.{
  Change, puts, puts_entry, purges, change_all, all_changed, looked_up, get-change_all,
}
use always_cache.Tee.{
  Client, head, ResponseSaver, new_response_saver, set_status, head_text, copy_header, run,
}
use always_cache.Tee.Laws.{writes, concat, passed_on, sent_bytes, run_response}
use always_cache.Tests.Data.{platform, second}
use always_cache.Tests.Memory.{memory, without, memory-EngineLaws}

abbrev new_client : Client
new_client = record { header = []; sent = [] }

abbrev saver : ResponseSaver
saver = new_response_saver (second 9) new_client 304

run_response_example :
    ((run platform saver (set_status 200 ∷ writes (codes "hi" ∷ []))).buffer
      ≡ saver.buffer ++ (head_text platform 200 saver.header ++ concat (codes "hi" ∷ [])))
    × ((run platform saver (set_status 200 ∷ writes (codes "hi" ∷ []))).status ≡ 200)
    × ((run platform saver (set_status 200 ∷ writes (codes "hi" ∷ []))).client.sent
        ≡ passed_on (not (200 == saver.status_filter)) saver.client.sent (
            head 200 (copy_header saver.client.header saver.header) ∷ sent_bytes (codes "hi" ∷ [])))
unfolding new_response_saver
run_response_example = run_response platform saver 200 (codes "hi" ∷ []) refl

abbrev entry : CacheEntry
entry = record {
  key = codes "o:GET:/a\t";
  expires = second 70;
  requested_at = second 9;
  received_at = pos 10500000000;
  bytes = codes "hi";
}

sqlite_cache-ProviderLaws_example : ProviderLaws (sqlite_cache memory) (HasEntry (λ db. db))
sqlite_cache-ProviderLaws_example = sqlite_cache-ProviderLaws memory-EngineLaws

all-put_ce_example : In (rounded entry) (all memory (put_ce memory [] entry).0 (codes "o:GET:")).0
unfolding put_ce all memory has_prefix
all-put_ce_example = all-put_ce memory-EngineLaws [] entry (codes "o:GET:") refl refl refl

all-put_example :
    (all memory (put memory [] (codes "o:GET:/a") (second 70) (codes "hi")).0 (codes "o:")).1 ≡ true
unfolding put memory has_prefix
all-put_example =
    all-put memory-EngineLaws [] (codes "o:GET:/a") (codes "o:") (codes "hi") (second 70) refl refl

deletes : (db : List Row) (key : Str) → (db' : List Row) × (memory.delete db key ≡ some db')
unfolding memory
deletes db key = (without key db, refl)

-- A row that Put writes, the entry in its place, and another key's removal.
abbrev changes : List Change
changes =
    puts entry.key (second 3) (codes "old") ∷ puts_entry entry ∷ purges (codes "o:GET:/b\t") ∷ []

get-change_all_example :
    (db' : List Row) × (failed : List Bool) × (change_all memory [] changes ≡ returns (db', failed))
    × (get memory db' (second 9) entry.key
        ≡ looked_up (all_changed (memory.select_key []) changes failed) (second 9) entry.key)
get-change_all_example = get-change_all memory-EngineLaws deletes [] changes (second 9) entry.key
