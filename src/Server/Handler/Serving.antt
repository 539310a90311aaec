-- ===== src/Server/Handler/Serving.antt =====
-- What the client gets from the cache.
use always_cache.Base.{
  ◌+◌, Bool, true, false, Option, none, some, if◌then◌else◌, ◌≡◌, refl, arith, ap,
}
use always_cache.Go.Http.{Request, Response}
use always_cache.Go.Panic.{returns}
use always_cache.Rfc9211.{FwdReason, empty, is_empty_reason, new_cache_status, set_hit}
use always_cache.Rfc9111.Entry.{Result, ok, err, must_not_reuse_checked}
use always_cache.Provider.{CacheEntry}
use always_cache.Server.State.{
  AlwaysCache, World, ◌>>=◌, pure, lift, gets, modify, spawn, >>=-eq-returns, lift->>=-eq-returns,
}
use always_cache.Server.Store.{ask_origin}
use always_cache.Server.Handler.{
  create_stored_response, stored_response_sent, send_hit, send_stored_response, follow,
  reuse_or_validate, send_to_client_if_validation_failed, ask_client,
}

empty_given : {reason : FwdReason} → reason ≡ empty → is_empty_reason reason ≡ false → ⊥
empty_given e missed = cc

module _ {S : Type 0} (a : AlwaysCache S) where
  -- Sending a stored response changes the client alone.
  pub send_hit-eq-returns :
      (res : Option Response) (ce : CacheEntry) (w w' : World S) (reason : FwdReason)
      → send_hit a res ce w ≡ returns (reason, w')
      → (r : Response) × (res ≡ some r)
        × (reason ≡ empty)
        × (w' ≡ record w { client = stored_response_sent a w r ce (set_hit new_cache_status) })
  unfolding send_hit set_hit send_stored_response ◌>>=◌ pure lift gets modify spawn
  send_hit-eq-returns none ce w w' reason e = cc
  send_hit-eq-returns (some r) ce w w' reason e = (r, refl, cc, ground arith)

  -- Asking the origin counts.
  calls-send_to_client :
      (r v : Request) (w w' : World S) (failed : Bool)
      → send_to_client_if_validation_failed a r v w ≡ returns (failed, w')
      → w'.calls ≡ w.calls + 1
  unfolding send_to_client_if_validation_failed ask_client ask_origin ◌>>=◌ pure lift gets modify
      spawn
  calls-send_to_client r v w w' failed e = ground arith

  calls_after :
      (failed : Bool) (res : Option Response) (ce : CacheEntry) (v w' : World S)
      → (if failed then pure empty else send_hit a res ce) v ≡ returns (empty, w')
      → w'.calls ≡ v.calls
  unfolding pure
  calls_after true res ce v w' e = ground arith
  calls_after false res ce v w' e =
      let (stored, present, _, same) = send_hit-eq-returns res ce v w' empty e in
      ap (λ (u : World S). u.calls) same

  follow-hit :
      (r : Request) (ce : CacheEntry) (res : Option Response)
      (answer : Result (FwdReason × Option Request)) (w w' : World S)
      → follow a r ce res answer w ≡ returns (empty, w')
      → w'.calls ≡ w.calls
      → (stored : Response) × (res ≡ some stored)
        × (answer ≡ ok (empty, none))
        × (w' ≡ record w { client = stored_response_sent a w stored ce (set_hit new_cache_status) })
  unfolding pure
  follow-hit r ce res (err _ x) w w' e c = unfold follow in cc
  follow-hit r ce res (ok (reason, some v)) w w' e c =
      let (failed, v', sent, rest) =
        >>=-eq-returns (send_to_client_if_validation_failed a r v)
          (λ failed. if failed then pure empty else send_hit a res ce) w w' empty
          (unfold follow in e) in
      absurd (
        omega (
          arith,
          calls-send_to_client r v w v' failed sent,
          c,
          calls_after failed res ce v' w' rest,
        ))
  follow-hit r ce res (ok (empty, none)) w w' e c =
      let (stored, present, _, same) = send_hit-eq-returns res ce w w' empty (unfold follow in e) in
      (stored, present, refl, same)
  follow-hit r ce res (ok (_, none)) w w' e c = unfold follow in cc

  -- What reuseOrValidate has called when it returns.
  pub reuse_or_validate-eq-returns :
      (r : Request) (ce : CacheEntry) (w w' : World S) (reason : FwdReason)
      → reuse_or_validate a r ce w ≡ returns (reason, w')
      → (res : Option Response) × (answer : Result (FwdReason × Option Request))
        × (create_stored_response a ce ≡ returns res)
        × (must_not_reuse_checked a.platform w.now r res ce.requested_at ce.received_at
            ≡ returns answer)
        × (follow a r ce res answer w ≡ returns (reason, w'))
  unfolding reuse_or_validate gets ◌>>=◌
  reuse_or_validate-eq-returns r ce w w' reason e =
      let (res, created, e₁) =
        lift->>=-eq-returns (create_stored_response a ce)
          (λ res.
            lift (must_not_reuse_checked a.platform w.now r res ce.requested_at ce.received_at)
            >>= follow a r ce res)
          w w' reason e in
      let (answer, answered, e₂) =
        lift->>=-eq-returns
          (must_not_reuse_checked a.platform w.now r res ce.requested_at ce.received_at)
          (follow a r ce res) w w' reason e₁ in
      (res, answer, created, answered, e₂)

  -- The entry answers a request from the cache alone: its response may be reused as MustNotReuse
  -- says, and the client has got it with its age and a Cache-Status of hit; nothing else changes.
  abbrev pub Hit : Request → World S → World S → CacheEntry → Type 0
  Hit r w w' ce =
      (stored : Response) × (create_stored_response a ce ≡ returns (some stored))
      × (must_not_reuse_checked a.platform w.now r (some stored) ce.requested_at ce.received_at
          ≡ returns (ok (empty, none)))
      × (w' ≡ record w { client = stored_response_sent a w stored ce (set_hit new_cache_status) })

  -- An entry that answers a request when the origin was not asked is a hit.
  pub reuse_or_validate-Hit :
      (r : Request) (ce : CacheEntry) (w w' : World S)
      → reuse_or_validate a r ce w ≡ returns (empty, w')
      → w'.calls ≡ w.calls
      → Hit r w w' ce
  reuse_or_validate-Hit r ce w w' e c =
      let (res, answer, created, answered, followed) =
        reuse_or_validate-eq-returns r ce w w' empty e in
      let (stored, present, allowed, same) = follow-hit r ce res answer w w' followed c in
      (stored, cc, cc, same)

  failed_reason :
      (failed : Bool) (res : Option Response) (ce : CacheEntry) (v w' : World S)
      (reason : FwdReason)
      → (if failed then pure empty else send_hit a res ce) v ≡ returns (reason, w')
      → reason ≡ empty
  unfolding pure
  failed_reason true res ce v w' reason e = ground arith
  failed_reason false res ce v w' reason e =
      let (stored, present, none_left, same) = send_hit-eq-returns res ce v w' reason e in none_left

  follow-miss :
      (r : Request) (ce : CacheEntry) (res : Option Response)
      (answer : Result (FwdReason × Option Request)) (w w' : World S) (reason : FwdReason)
      → follow a r ce res answer w ≡ returns (reason, w')
      → is_empty_reason reason ≡ false
      → w' ≡ w
  unfolding follow pure
  follow-miss r ce res (err _ x) w w' reason e missed = ground arith
  follow-miss r ce res (ok (_, some v)) w w' reason e missed =
      let (failed, v', sent, rest) =
        >>=-eq-returns (send_to_client_if_validation_failed a r v)
          (λ failed. if failed then pure empty else send_hit a res ce) w w' reason e in
      absurd (empty_given (failed_reason failed res ce v' w' reason rest) missed)
  follow-miss r ce res (ok (empty, none)) w w' reason e missed =
      let (stored, present, none_left, same) = send_hit-eq-returns res ce w w' reason e in
      absurd (empty_given none_left missed)
  follow-miss r ce res (ok (_, none)) w w' reason e missed = ground arith

  -- An entry that does not answer the request changes nothing.
  pub reuse_or_validate-miss :
      (r : Request) (ce : CacheEntry) (w w' : World S) (reason : FwdReason)
      → reuse_or_validate a r ce w ≡ returns (reason, w')
      → is_empty_reason reason ≡ false
      → w' ≡ w
  reuse_or_validate-miss r ce w w' reason e missed =
      let (res, answer, created, answered, followed) =
        reuse_or_validate-eq-returns r ce w w' reason e in
      follow-miss r ce res answer w w' reason followed missed
