-- ===== src/Server/Handler/Again.antt =====
-- A stored answer answers the request that it was stored for.
use always_cache.Base.{
  true, false, List, [], ◌∷◌, ◌++◌, none, some, inr, ◌≡◌, ◌≢◌, refl, sym, arith, All, ◌∙◌,
}
use always_cache.Go.Strings.{Str, codes}
use always_cache.Go.Header.{values}
use always_cache.Go.Time.{Time}
use always_cache.Go.Http.{Request, Response, new_request}
use always_cache.Go.Panic.{returns}
use always_cache.Rfc9111.CacheControl.{has_directive, parse_cache_control}
use always_cache.Rfc9111.Fields.{get_list_header}
use always_cache.Rfc9111.Freshness.{is_fresh}
use always_cache.Rfc9111.Freshness.Laws.{is_fresh-eq-true_iff}
use always_cache.Rfc9111.Reuse.{unsafe_request, must_write_through}
use always_cache.Rfc9111.Reuse.Laws.{IsReusable}
use always_cache.Rfc9111.Entry.{ok, must_not_reuse_checked}
use always_cache.Rfc9111.Entry.Laws.{
  check_response-eq-inr, judge_reuse-eq-ok, must_not_reuse_checked_lem,
}
use always_cache.Rfc9211.{FwdReason, empty, is_empty_reason, new_cache_status, set_hit}
use always_cache.Key.{new_cache_keyer, get_key_prefix, add_vary_keys, get_request_from_key}
use always_cache.Key.Vary.{Fits, added}
use always_cache.Key.Copies.{SameField-added}
use always_cache.Key.RoundTrip.{IsKeyable, get_request_from_key-add_vary_keys}
use always_cache.Provider.{CacheEntry}
use always_cache.Server.State.{AlwaysCache, World, ◌>>=◌, pure, lift, gets, modify}
use always_cache.Server.Store.{get_responses_for_uri}
use always_cache.Server.Handler.{
  create_stored_response, with_request, follow, send_hit, send_stored_response,
  stored_response_sent, reuse_or_validate, try_entries, serve_http,
}

-- The request that is read back from the entry's key.
abbrev pub rebuilt : Request → Request → Response → Request
rebuilt r made res = record made {
  header = added r.header [] (get_list_header res.header (codes "Vary"));
}

-- The stored response as reuseOrValidate gets it.
abbrev pub revived : Request → Request → Response → Response
revived r made res = record res { request = some (rebuilt r made res) }

-- The entry is one that was written for the request: its key is the request's with the lines for
-- the Vary field, and its bytes are those of a response that is fresh and may be reused.
pub record IsServable {S : Type 0} (a : AlwaysCache S) (origin_id : Str) (now : Time)
    (r made : Request) (res : Response) (ce : CacheEntry) : Type 0 where
  pub keyer : a.keyer ≡ new_cache_keyer origin_id
  pub keyed : ce.key ≡ add_vary_keys (get_key_prefix (new_cache_keyer origin_id) r) r res.header
  pub read : a.platform.read_response ce.bytes (some (rebuilt r made res)) ≡ some res
  pub keyable : IsKeyable origin_id r
  pub fits : Fits r.header (get_list_header res.header (codes "Vary"))
  pub starless : All (λ name. name ≢ codes "*") (get_list_header res.header (codes "Vary"))
  pub requestable : new_request a.platform r.method r.url.request_uri [] ≡ some made
  pub same_url : made.url.text ≡ r.url.text
  pub named : made.method ≢ []
  pub safe : unsafe_request r ≡ false
  pub fields : res.header ≢ []
  pub status : res.status_code ≢ 0
  pub unconditional :
      has_directive
        (parse_cache_control (values res.header (codes "Cache-Control")))
        (codes "no-cache")
      ≡ false
  pub fresh : is_fresh a.platform now (revived r made res) ce.received_at ce.requested_at ≡ true

-- An entry that does not answer the request, and leaves the state as it is.
abbrev pub Passes : {S : Type 0} → AlwaysCache S → Request → World S → CacheEntry → Type 0
Passes a r w other =
    (reason : FwdReason) × (is_empty_reason reason ≡ false)
    × (reuse_or_validate a r other w ≡ returns (reason, w))

module _ {S : Type 0} (a : AlwaysCache S) (origin_id : Str) (r made : Request) (res : Response)
    (ce : CacheEntry) where
  create_stored_response-revived :
      (now : Time)
      → IsServable a origin_id now r made res ce
      → create_stored_response a ce ≡ returns (some (revived r made res))
  unfolding create_stored_response with_request
  create_stored_response-revived now s =
      let back =
        get_request_from_key-add_vary_keys a.platform origin_id r made res.header s.keyable s.fits
          s.requestable in
      let found : get_request_from_key a.platform a.keyer ce.key
          ≡ returns (inr (rebuilt r made res)) =
        rw (s.keyer, s.keyed) back in
      rw (found, create_stored_response) (rw (s.read, with_request))

  must_write_through_safe :
      unsafe_request r ≡ false → must_write_through r (revived r made res) ≡ false
  unfolding must_write_through
  must_write_through_safe h = ground arith

  judged :
      (now : Time)
      → IsServable a origin_id now r made res ce
      → must_not_reuse_checked a.platform now r
          (some (revived r made res))
          ce.requested_at
          ce.received_at
        ≡ returns (ok (empty, none))
  judged now s =
      let complete =
        check_response-eq-inr (revived r made res) (rebuilt r made res) s.fields s.status refl
          s.named in
      let reusable : IsReusable a.platform now r (rebuilt r made res) (revived r made res)
          ce.requested_at ce.received_at =
        record {
          same_uri = sym s.same_url;
          same_fields =
              SameField-added r.header (get_list_header res.header (codes "Vary")) s.fits
                s.starless;
          unconditional = s.unconditional;
          fresh =
              (is_fresh-eq-true_iff a.platform now (revived r made res) ce.received_at
                  ce.requested_at).0
                s.fresh;
        } in
      let answer =
        judge_reuse-eq-ok a.platform now r (revived r made res) ce.requested_at ce.received_at
          (rebuilt r made res) (must_write_through_safe s.safe) reusable in
      must_not_reuse_checked_lem a.platform now r (revived r made res) ce.requested_at
        ce.received_at
      ∙ rw (complete, answer)

  pub reuse_or_validate-IsServable :
      (w : World S)
      → IsServable a origin_id w.now r made res ce
      → reuse_or_validate a r ce w
        ≡ returns (
          empty,
          record w {
            client = stored_response_sent a w (revived r made res) ce (set_hit new_cache_status);
          },
        )
  unfolding reuse_or_validate ◌>>=◌ lift gets follow send_hit send_stored_response modify pure
      set_hit
  reuse_or_validate-IsServable w s =
      rw (create_stored_response-revived w.now s, judged w.now s) refl

  try_entries-IsServable :
      (w : World S) (before rest : List CacheEntry)
      → All (Passes a r w) before
      → IsServable a origin_id w.now r made res ce
      → try_entries a r (before ++ ce ∷ rest) w
        ≡ returns (
          tt,
          record w {
            client = stored_response_sent a w (revived r made res) ce (set_hit new_cache_status);
          },
        )
  unfolding try_entries ◌>>=◌ pure
  try_entries-IsServable w [] rest passed s = rw (reuse_or_validate-IsServable w s) refl
  try_entries-IsServable w (other ∷ before) rest ((reason, missed, passed), more) s =
      rw (passed, missed) (try_entries-IsServable w before rest more s)

  -- A response that was stored for a safe request answers this request again while it is fresh, if
  -- it has no no-cache directive and no star in its Vary field: the entry's key is the request's,
  -- with the lines for the Vary field, its bytes are read back as the response, and the key can be
  -- read back. If the entries that come before it do not answer the request, it is served from this
  -- entry, with its age and a Cache-Status of hit, and the origin is not called.
  serve_http-IsServable :
      (client : Request) (w : World S) (before rest : List CacheEntry)
      → a.modify_response client ≡ r
      → get_responses_for_uri a w r ≡ before ++ ce ∷ rest
      → All (Passes a r w) before
      → IsServable a origin_id w.now r made res ce
      → serve_http a client w
        ≡ returns (
          tt,
          record w {
            client = stored_response_sent a w (revived r made res) ce (set_hit new_cache_status);
          },
        )
  unfolding serve_http ◌>>=◌ gets
  serve_http-IsServable client w before rest same listed passed s =
      rw (same, listed) (try_entries-IsServable w before rest passed s)
