-- ===== src/Tests/Status.antt =====
-- A Cache-Status field that has all of its parameters.
use always_cache.Base.{true, ◌≡◌, refl, arith}
use always_cache.Base.Int.{pos}
use always_cache.Go.Strings.{codes}
use always_cache.Go.Conv.{format_int, format_uint}
use always_cache.Rfc9211.{fwd, uri_miss, CacheStatus, cache_status_text}
use always_cache.Rfc9211.Text.{read_cache_status}
use always_cache.Rfc9211.Laws.{read_cache_status-cache_status_text}

abbrev forwarded : CacheStatus
forwarded = record {
  status = fwd;
  detail = codes "no=entry";
  fwd_reason = uri_miss;
  stored = true;
  time_to_live = pos 60;
}

forwarded_text :
    cache_status_text forwarded
    ≡ codes "Always-Cache; fwd=uri-miss; detail=no=entry; stored; ttl=60"
unfolding cache_status_text format_int format_uint
forwarded_text = refl

read_cache_status-cache_status_text_example :
    read_cache_status (cache_status_text forwarded) ≡ forwarded
read_cache_status-cache_status_text_example =
    read_cache_status-cache_status_text forwarded (record {
      set = cc;
      hit_only = λ e. cc;
      standard_reason = cc;
      detail_part = omega arith;
      int_ttl = (omega arith, omega arith);
    })
