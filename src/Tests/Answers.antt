-- ===== src/Tests/Answers.antt =====
-- A proxy that answers from its database, and from its origin.
use always_cache.Base.{List, [], ◌∷◌, ◌≡◌, ◌+◌, refl, arith, some, none, ℕ, false}
use always_cache.Go.Strings.{codes, split, to_lower, same, has_prefix, split_two, cut, trim_prefix}
use always_cache.Go.Header.{values, get}
use always_cache.Go.Http.{Request, Response, new_request}
use always_cache.Go.Panic.{returns}
use always_cache.Provider.{CacheEntry}
use always_cache.Key.{add_vary_keys, get_key_prefix, new_cache_keyer, get_request_from_key}
use always_cache.Key.Vary.{added}
use always_cache.Key.RoundTrip.{IsKeyable}
use always_cache.Rfc9111.Reuse.{unsafe_request}
use always_cache.Rfc9111.Fields.{get_list_header}
use always_cache.Rfc9111.CacheControl.{}
use always_cache.Go.Time.{of_unix, unix}
use always_cache.Server.Total.{heads}
use always_cache.Sqlite.{Row, entry_row, sqlite_cache, all}
use always_cache.Server.State.{World}
use always_cache.Server.Store.{get_responses_for_uri}
use always_cache.Server.Handler.{create_stored_response, serve_http}
use always_cache.Server.Handler.Again.{revived}
use always_cache.Server.Handler.Answering.{serve_http-heads}
use always_cache.Server.Handler.Answers.{IsResponse}
use always_cache.Tests.Data.{page, second, keyer, epoch}
use always_cache.Tests.Memory.{memory}
use always_cache.Tests.Proxy.{answer, server, world}

abbrev pub made : Response
made = record {
  status_code = 200;
  header = (codes "Date", epoch ∷ []) ∷ (codes "Cache-Control", codes "max-age=60" ∷ []) ∷ [];
  body = codes "hi";
  request = none;
}

abbrev pub entry : CacheEntry
entry = record {
  key = add_vary_keys (get_key_prefix keyer page) page made.header;
  expires = second 60;
  requested_at = second 0;
  received_at = second 0;
  bytes = codes "hi";
}

abbrev pub filled : World (List Row)
filled = record world { store = entry_row entry ∷ [] }

pub page-IsKeyable : IsKeyable (codes "o") page
unfolding get
page-IsKeyable = record {
  origin_line = omega arith;
  method_line = omega arith;
  uri_line = omega arith;
  method_colon = omega arith;
  method_tab = omega arith;
  uri_tab = omega arith;
  cache_key_line = omega arith;
}

entry_listed : get_responses_for_uri server filled page ≡ entry ∷ []
unfolding get_responses_for_uri sqlite_cache all memory add_vary_keys get_key_prefix new_cache_keyer
    get same values split to_lower get_list_header of_unix unix
entry_listed = refl

-- The origin answers with a field, a status and a body.
pub origin_answer : (n : ℕ) (req : Request) → IsResponse answer
origin_answer n req =
    ((codes "Cache-Control", codes "max-age=60") ∷ [], 200, codes "hi" ∷ [], omega arith, refl)

page_safe : unsafe_request page ≡ false
unfolding unsafe_request same
page_safe = refl

entry_read : create_stored_response server entry ≡ returns (some (revived page page made))
unfolding create_stored_response get_request_from_key has_prefix add_vary_keys get_key_prefix
    new_cache_keyer get same values split to_lower get_list_header cut trim_prefix new_request
    split_two added
entry_read = refl

serve_http-heads_example :
    (w' : World (List Row)) × (serve_http server page filled ≡ returns (tt, w'))
    × (heads w'.client.sent ≡ heads filled.client.sent + 1)
serve_http-heads_example =
    serve_http-heads server origin_answer page filled page_safe
      (rw entry_listed ((revived page page made, entry_read), tt))
