-- ===== src/Server/Run/Given.antt =====
-- always-cache.go: all that the client of a request can get.
pub mod Trials
use always_cache.Base.{
  ℕ, Bool, true, false, not, [], Option, none, some, ◌⊎◌, inl, inr, ◌==◌, if◌then◌else◌, ◌≡◌, refl,
  sym, arith, ap, ◌∙◌, Bool-cases,
}
use always_cache.Go.Strings.{codes}
use always_cache.Go.Header.{add}
use always_cache.Go.Http.{Request, Response}
use always_cache.Go.Panic.{returns}
use always_cache.Rfc9211.{
  FwdReason, empty, is_empty_reason, uri_miss, new_cache_status, set_hit, set_forward,
  cache_status_text,
}
use always_cache.Rfc9111.Entry.{Result, ok, err, must_not_reuse_checked}
use always_cache.Rfc9111.Entry.Laws.{must_not_reuse_checked_validation}
use always_cache.Provider.{CacheEntry}
use always_cache.Tee.{Client, ResponseSaver, new_response_saver, run}
use always_cache.Server.Asked.{IsFor, generate_conditional_request-IsFor}
use always_cache.Server.State.{
  AlwaysCache, update_response, World, ◌>>=◌, pure, gets, modify, spawn, >>=-eq-returns,
  returns_injective,
}
use always_cache.Server.Store.{ask_origin}
use always_cache.Server.Handler.{
  create_stored_response, stored_response_sent, send_hit, ask_client,
  send_to_client_if_validation_failed, follow, reuse_or_validate,
}
use always_cache.Server.Handler.Serving.{
  send_hit-eq-returns, reuse_or_validate-eq-returns, reuse_or_validate-miss,
}
use always_cache.Server.Run.{fresh_client}
use always_cache.Server.Run.Sound.{IsStored}
use always_cache.Server.Run.Served.{is_empty-empty}

-- The writer of a request that goes to the origin since no entry answers it.
abbrev pub forwarding : Client
forwarding = record fresh_client {
  header =
      add fresh_client.header (codes "Cache-Status")
        (cache_status_text (set_forward uri_miss new_cache_status));
}

module _ {S : Type 0} (a : AlwaysCache S) where
  -- The saver for a client with the answer of the origin's n-th call.
  abbrev pub teed : World S → Client → ℕ → Request → ResponseSaver
  teed w client blocked asked =
      run a.platform (new_response_saver w.now client blocked) (a.origin w.calls asked)

  -- MustNotReuse gives this answer for the stored response of an entry that is stored rightly.
  abbrev pub IsJudged :
      World S → Request → CacheEntry → Response → FwdReason → Option Request → Type 0
  IsJudged w r ce stored reason validation =
      IsStored a ce
      × (create_stored_response a ce ≡ returns (some stored))
      × (must_not_reuse_checked a.platform w.now r (some stored) ce.requested_at ce.received_at
          ≡ returns (ok (reason, validation)))

  -- What the client of a request may have got: nothing yet, the origin's answer to this very request, a
  -- stored response that MustNotReuse lets be reused, a stored response for which MustNotReuse asks for
  -- a validation that the origin answers with 304, or the origin's answer to such a validation request
  -- when its status is not 304. The validation is asked for this very request.
  pub data IsGiven (r : Request) (c : Client) : Type 0 where
    nothing : (c.sent ≡ []) → IsGiven r c
    by_origin : (w : World S) → c ≡ (teed w forwarding 0 r).client → IsGiven r c
    by_cache :
        (w : World S) (ce : CacheEntry) (stored : Response)
        → IsJudged w r ce stored empty none
        → c
          ≡ stored_response_sent a
              (record w { client = fresh_client })
              stored
              ce
              (set_hit new_cache_status)
        → IsGiven r c
    validated :
        (w : World S) (ce : CacheEntry) (stored : Response) (reason : FwdReason) (v : Request)
        → IsJudged w r ce stored reason (some v)
        → IsFor a.platform v (record r { header = v.header })
        → (teed w fresh_client 304 v).status ≡ 304
        → c
          ≡ stored_response_sent a
              (record w { client = (teed w fresh_client 304 v).client })
              stored
              ce
              (set_hit new_cache_status)
        → IsGiven r c
    replaced :
        (w : World S) (ce : CacheEntry) (stored : Response) (reason : FwdReason) (v : Request)
        → IsJudged w r ce stored reason (some v)
        → IsFor a.platform v (record r { header = v.header })
        → ((teed w fresh_client 304 v).status == 304) ≡ false
        → c ≡ (teed w fresh_client 304 v).client
        → IsGiven r c
