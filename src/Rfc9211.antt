-- ===== src/Rfc9211.antt =====
-- rfc9211/2._cache-status.go: the Cache-Status field that goes to the client.
pub mod Text
pub mod Laws
use always_cache.Base.{Bool, true, false, ◌&&◌, not, [], ◌++◌, if◌then◌else◌}
use always_cache.Base.Int.{ℤ, pos, eqb_ℤ}
use always_cache.Go.Strings.{Str, codes, is_empty}
use always_cache.Go.Conv.{format_int}

pub data Status : Type 0 where
  unset hit fwd : Status

-- The constants of the source, the empty reason, and the "error" of MustNotReuse.
pub data FwdReason : Type 0 where
  empty bypass method uri_miss vary_miss miss request stale partial error : FwdReason

abbrev pub status_text : Status → Str
status_text unset = []
status_text hit = codes "hit"
status_text fwd = codes "fwd"

abbrev pub reason_text : FwdReason → Str
reason_text empty = []
reason_text bypass = codes "bypass"
reason_text method = codes "method"
reason_text uri_miss = codes "uri-miss"
reason_text vary_miss = codes "vary-miss"
reason_text miss = codes "miss"
reason_text request = codes "request"
reason_text stale = codes "stale"
reason_text partial = codes "partial"
reason_text error = codes "error"

abbrev pub is_fwd : Status → Bool
is_fwd fwd = true
is_fwd _ = false

abbrev pub is_empty_reason : FwdReason → Bool
is_empty_reason empty = true
is_empty_reason _ = false

pub record CacheStatus : Type 0 where
  pub status : Status
  pub detail : Str
  pub fwd_reason : FwdReason
  pub stored : Bool
  pub time_to_live : ℤ

-- rfc9211.CacheStatus{}
abbrev pub new_cache_status : CacheStatus
new_cache_status = record {
  status = unset;
  detail = [];
  fwd_reason = empty;
  stored = false;
  time_to_live = pos 0;
}

unfoldable pub set_hit : CacheStatus → CacheStatus
set_hit cs = record cs { status = hit }

unfoldable pub set_forward : FwdReason → CacheStatus → CacheStatus
set_forward reason cs = record cs { status = fwd; fwd_reason = reason }

-- CacheStatus.String
unfoldable pub cache_status_text : CacheStatus → Str
cache_status_text cs =
    codes "Always-Cache; "
    ++ status_text cs.status
    ++ (if is_fwd cs.status && not (is_empty_reason cs.fwd_reason)
        then codes "=" ++ reason_text cs.fwd_reason
        else [])
    ++ (if is_empty cs.detail then [] else codes "; detail=" ++ cs.detail)
    ++ (if cs.stored then codes "; stored" else [])
    ++ (if eqb_ℤ cs.time_to_live (pos 0) then [] else codes "; ttl=" ++ format_int cs.time_to_live)
