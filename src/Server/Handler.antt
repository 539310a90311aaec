-- ===== src/Server/Handler.antt =====
-- always-cache.go: the handler of client requests.
pub mod Serving
pub mod Again
pub mod Stored
pub mod Answers
pub mod Answering
pub mod Expiring
use always_cache.Base.{
  ℕ, Bool, true, false, ◌&&◌, ◌||◌, not, List, [], ◌∷◌, ◌++◌, Option, none, some, inl, inr, ◌==◌,
  if◌then◌else◌,
}
use always_cache.Go.Strings.{Str, codes, same, is_empty, before_last}
use always_cache.Go.Header.{Header, add}
use always_cache.Go.Http.{Platform, Request, Response}
use always_cache.Go.Panic.{Call, returns, panics}
use always_cache.Rfc9111.Age.{add_age_header}
use always_cache.Rfc9111.Entry.{Result, ok, err, must_not_reuse_checked}
use always_cache.Rfc9211.{
  FwdReason, empty, miss, uri_miss, is_empty_reason, CacheStatus, new_cache_status, set_hit,
  set_forward, cache_status_text,
}
use always_cache.Key.{KeyError, get_request_from_key}
use always_cache.Provider.{CacheEntry}
use always_cache.Tee.{Client, Sent, head, bytes, ResponseSaver, new_response_saver}
use always_cache.Server.State.{
  AlwaysCache, Task, update_response, World, M, ◌>>=◌, ◌>>◌, pure, lift, gets, modify, spawn,
}
use always_cache.Server.Store.{ask_origin, get_responses_for_uri}
use always_cache.Server.Updater.{update_response_and_locations}

unfoldable pub is_redirect : ℕ → Bool
is_redirect code = code == 301 || code == 302 || code == 303 || code == 307 || code == 308

-- The address up to its last colon.
unfoldable pub get_request_source_ip : Str → Str
get_request_source_ip ip_and_port = elim (before_last b':' ip_and_port) [
  | none ↦ ip_and_port
  | some ip ↦ ip
]

abbrev is_forwarded : Str → Bool
is_forwarded k =
    same k (codes "X-Forwarded-For")
    || same k (codes "X-Forwarded-Proto")
    || same k (codes "X-Forwarded-Host")

add_values : Header → Str → List Str → Header
add_values dst k [] = dst
add_values dst k (v ∷ vs) = add_values (add dst k v) k vs

-- copyHeader of always-cache.go leaves out the fields of an upstream proxy.
unfoldable pub copy_header : Header → Header → Header
unfolding add_values
copy_header dst [] = dst
copy_header dst ((k, vs) ∷ src) =
    copy_header (if is_forwarded k then dst else add_values dst k vs) src

with_request : Request → Option Response → Option Response
with_request req none = none
with_request req (some res) = some (record res { request = some req })

-- Writing an empty body writes nothing.
body_sent : Str → List Sent
body_sent body = if is_empty body then [] else bytes body ∷ []

-- proxy adds a Cache-Status field before the origin's.
abbrev pub with_cache_status : {S : Type 0} → CacheStatus → World S → World S
with_cache_status cs w = record w {
  client = record w.client {
    header = add w.client.header (codes "Cache-Status") (cache_status_text cs);
  };
}

module _ {S : Type 0} (a : AlwaysCache S) where
  -- createStoredResponse: `none` for nil.
  unfoldable pub create_stored_response : CacheEntry → Call (Option Response)
  unfolding with_request
  create_stored_response ce = elim (get_request_from_key a.platform a.keyer ce.key) [
    | panics ↦ panics
    | returns found ↦ elim found [
      | inl e ↦ returns none
      | inr req ↦ returns (with_request req (a.platform.read_response ce.bytes (some req)))
    ]
  ]

  -- What sendStoredResponse leaves at the client.
  unfoldable pub stored_response_sent : World S → Response → CacheEntry → CacheStatus → Client
  unfolding copy_header body_sent
  stored_response_sent w res ce cs =
      let aged = add_age_header a.platform w.now res ce.received_at ce.requested_at in
      let header' =
        add (copy_header w.client.header aged.header) (codes "Cache-Status")
          (cache_status_text cs) in
      record {
        header = header';
        sent = w.client.sent ++ (head res.status_code header' ∷ body_sent res.body);
      }

  unfoldable pub send_stored_response : Response → CacheEntry → CacheStatus → M S (Unit {0})
  unfolding stored_response_sent
  send_stored_response res ce cs =
      modify (λ w. record w { client = stored_response_sent w res ce cs })

  -- The rest of reuseOrValidate for a usable response; a nil one has panicked before.
  unfoldable pub send_hit : Option Response → CacheEntry → M S FwdReason
  unfolding send_stored_response
  send_hit none ce = lift panics
  send_hit (some res) ce = do
    send_stored_response res ce (set_hit new_cache_status)
    pure (set_hit new_cache_status).fwd_reason

  -- The origin's answer goes to the client too, unless its status is the given one.
  unfoldable pub ask_client : ℕ → Request → M S ResponseSaver
  unfolding ask_origin
  ask_client blocked req = do
    w ← gets (λ w. w)
    rwtee ← ask_origin a (new_response_saver w.now w.client blocked) req
    modify (λ v. record v { client = rwtee.client })
    pure rwtee

  -- sendToClientIfValidationFailed. The client request shares its header with the validation request.
  unfoldable pub send_to_client_if_validation_failed : Request → Request → M S Bool
  unfolding ask_client
  send_to_client_if_validation_failed client_request validation_req = do
    rwtee ← ask_client 304 validation_req
    if not (rwtee.status == 304)
        then (do
          spawn (update_response rwtee (record client_request { header = validation_req.header }))
          pure true)
        else pure false

  -- What reuseOrValidate does with the answer of MustNotReuse.
  unfoldable pub follow :
      Request → CacheEntry → Option Response → Result (FwdReason × Option Request) → M S FwdReason
  follow r ce res (err _ e) = pure miss
  follow r ce res (ok (reason, some validation_req)) = do
    failed ← send_to_client_if_validation_failed r validation_req
    if failed then pure empty else send_hit res ce
  follow r ce res (ok (reason, none)) =
      if not (is_empty_reason reason) then pure reason else send_hit res ce

  unfoldable pub reuse_or_validate : Request → CacheEntry → M S FwdReason
  reuse_or_validate r ce = do
    w ← gets (λ w. w)
    res ← lift (create_stored_response ce)
    answer ← lift (must_not_reuse_checked a.platform w.now r res ce.requested_at ce.received_at)
    follow r ce res answer

  -- The end of proxy: a redirect is stored before the client gets on.
  unfoldable pub store_answer : ResponseSaver → Request → M S (Unit {0})
  store_answer rwtee r =
      if is_redirect rwtee.status
      then update_response_and_locations a rwtee r
      else spawn (update_response rwtee r)

  unfoldable pub proxy : Request → M S (Unit {0})
  unfolding ask_client store_answer
  proxy r = do
    modify (with_cache_status (set_forward uri_miss new_cache_status))
    rwtee ← ask_client 0 r
    store_answer rwtee r

  -- The loop of ServeHTTP: the first entry that answers the request ends it.
  unfoldable pub try_entries : Request → List CacheEntry → M S (Unit {0})
  try_entries r [] = proxy r
  try_entries r (ce ∷ entries) = do
    reason ← reuse_or_validate r ce
    if is_empty_reason reason then pure tt else try_entries r entries

  unfoldable pub serve_http : Request → M S (Unit {0})
  serve_http r = do
    let r' = a.modify_response r
    entries ← gets (λ w. get_responses_for_uri a w r')
    try_entries r' entries
