-- ===== src/Server/Logging.antt =====
-- always-cache.go: logRequest, and copyHeadersTo, which nothing calls.
use always_cache.Base.{ℕ, Bool, List, [], ◌∷◌, if◌then◌else◌}
use always_cache.Base.Int.{ℤ}
use always_cache.Go.Strings.{Str}
use always_cache.Go.Header.{Header, set}
use always_cache.Go.Http.{Request}
use always_cache.Rfc9211.{CacheStatus, FwdReason, Status, is_empty_reason}
use always_cache.Server.Handler.{get_request_source_ip}

-- The fields of the line that is logged.
pub record LogLine : Type 0 where
  pub method : Str
  pub url : Str
  pub source_ip : Str
  pub status : Status
  pub fwd : FwdReason
  pub stored : Bool
  pub ttl : ℤ
  pub hit : ℕ

-- `remote_addr` is the request's RemoteAddr.
unfoldable pub log_request : Request → Str → CacheStatus → LogLine
log_request r remote_addr cs = record {
  method = r.method;
  url = r.url.text;
  source_ip = get_request_source_ip remote_addr;
  status = cs.status;
  fwd = cs.fwd_reason;
  stored = cs.stored;
  ttl = cs.time_to_live;
  hit = if is_empty_reason cs.fwd_reason then 1 else 0;
}

set_each : Header → Str → List Str → Header
set_each dst name [] = dst
set_each dst name (value ∷ rest) = set_each (set dst name value) name rest

-- The last value of a field stays.
unfoldable pub copy_headers_to : Header → Header → Header
unfolding set_each
copy_headers_to dst [] = dst
copy_headers_to dst ((name, values) ∷ src) = copy_headers_to (set_each dst name values) src
