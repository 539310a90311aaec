-- ===== src/Server/Run/Given/Trials.antt =====
-- always-cache.go: what the trial of an entry, and an exchange with the origin, give to the client.
use always_cache.Base.{
  ℕ, Bool, true, false, not, Option, none, some, ◌⊎◌, inl, inr, ◌==◌, if◌then◌else◌, ◌≡◌, refl, sym,
  arith, ap, ◌∙◌, Bool-cases,
}
use always_cache.Go.Http.{Request, Response}
use always_cache.Go.Panic.{returns}
use always_cache.Rfc9211.{FwdReason, empty, is_empty_reason, new_cache_status, set_hit}
use always_cache.Rfc9111.Entry.{Result, ok, err, must_not_reuse_checked}
use always_cache.Rfc9111.Entry.Laws.{must_not_reuse_checked_validation}
use always_cache.Provider.{CacheEntry}
use always_cache.Tee.{Client, ResponseSaver}
use always_cache.Server.Asked.{IsFor, generate_conditional_request-IsFor}
use always_cache.Server.State.{
  AlwaysCache, update_response, World, ◌>>=◌, pure, gets, modify, spawn, >>=-eq-returns,
  returns_injective,
}
use always_cache.Server.Store.{ask_origin}
use always_cache.Server.Handler.{
  create_stored_response, stored_response_sent, send_hit, ask_client,
  send_to_client_if_validation_failed, follow, reuse_or_validate,
}
use always_cache.Server.Handler.Serving.{
  send_hit-eq-returns, reuse_or_validate-eq-returns, reuse_or_validate-miss,
}
use always_cache.Server.Run.{fresh_client}
use always_cache.Server.Run.Sound.{IsStored}
use always_cache.Server.Run.Served.{is_empty-empty}
use always_cache.Server.Run.Given.{teed, IsJudged, IsGiven, by_cache, validated, replaced}

module _ {S : Type 0} (a : AlwaysCache S) where
  -- What asking the origin for the client gives.
  pub ask_client-eq-returns :
      (blocked : ℕ) (r : Request) (w w' : World S) (saver : ResponseSaver)
      → ask_client a blocked r w ≡ returns (saver, w')
      → (saver ≡ teed a w w.client blocked r)
        × (w'.client ≡ (teed a w w.client blocked r).client)
        × (w'.now ≡ w.now)
  unfolding ask_client ask_origin ◌>>=◌ gets modify pure
  ask_client-eq-returns blocked r w w' saver e = ground arith

  -- What follows the validation request.
  after_asking :
      (r v : Request) (u w' : World S) (failed : Bool) (saver : ResponseSaver)
      → (if not (saver.status == 304)
            then (spawn (update_response saver (record r { header = v.header })) >>= λ _. pure true)
            else pure false)
          u
        ≡ returns (failed, w')
      → (w'.client ≡ u.client)
        × (w'.now ≡ u.now)
        × (((failed ≡ true) × ((saver.status == 304) ≡ false))
            ⊎ ((failed ≡ false) × (saver.status ≡ 304)))
  unfolding pure spawn modify ◌>>=◌
  after_asking r v u w' failed saver e = elim (Bool-cases (saver.status == 304)) [
    | inl modified ↦
        let left : failed ≡ false = ground (arith, modified) in
        (ground (arith, modified), ground (arith, modified), inr (left, ground (arith, modified)))
    | inr kept ↦
        let left : failed ≡ true = ground (arith, kept) in
        (ground (arith, kept), ground (arith, kept), inl (left, kept))
  ]

  send_to_client-eq-returns :
      (r v : Request) (w w' : World S) (failed : Bool)
      → send_to_client_if_validation_failed a r v w ≡ returns (failed, w')
      → (w'.client ≡ (teed a w w.client 304 v).client)
        × (w'.now ≡ w.now)
        × (((failed ≡ true) × (((teed a w w.client 304 v).status == 304) ≡ false))
            ⊎ ((failed ≡ false) × ((teed a w w.client 304 v).status ≡ 304)))
  unfolding send_to_client_if_validation_failed
  send_to_client-eq-returns r v w w' failed e =
      let (saver, u, asked, others) =
        >>=-eq-returns (ask_client a 304 v)
          (λ saver.
            (if not (saver.status == 304)
              then (spawn (update_response saver (record r { header = v.header })) >>= λ _.
                  pure true)
              else pure false))
          w w' failed e in
      let (same, given, time) = ask_client-eq-returns 304 v w u saver asked in
      let (client, now, how) = after_asking r v u w' failed saver others in
      (client ∙ given, now ∙ time, rw same at how)

  -- The state as the goroutine of a new request sees it.
  abbrev unanswered : World S → World S
  unanswered w = record w { client = fresh_client }

  client-send_hit :
      (stored : Response) (ce : CacheEntry) (w u w' : World S) (c : Client)
      → u.client ≡ c
      → u.now ≡ w.now
      → send_hit a (some stored) ce u ≡ returns (empty, w')
      → w'.client
        ≡ stored_response_sent a (record w { client = c }) stored ce (set_hit new_cache_status)
  unfolding stored_response_sent
  client-send_hit stored ce w u w' c given time e =
      let (res, present, _, same) = send_hit-eq-returns a (some stored) ce u w' empty e in
      let one : stored ≡ res = cc in
      ap (λ (x : World S). x.client) same ∙ rw (← one, given, time) refl

  after_validation :
      (r v : Request) (ce : CacheEntry) (stored : Response) (reason : FwdReason) (failed : Bool)
      (w u w' : World S)
      → IsJudged a w r ce stored reason (some v)
      → IsFor a.platform v (record r { header = v.header })
      → u.client ≡ (teed a w fresh_client 304 v).client
      → u.now ≡ w.now
      → ((failed ≡ true) × (((teed a w fresh_client 304 v).status == 304) ≡ false))
        ⊎ ((failed ≡ false) × ((teed a w fresh_client 304 v).status ≡ 304))
      → (if failed then pure empty else send_hit a (some stored) ce) u ≡ returns (empty, w')
      → IsGiven a r w'.client
  unfolding pure
  after_validation r v ce stored reason true w u w' judged asked given time how e =
      let same : w' ≡ u = (returns_injective e).1 in
      elim how [
        | inl (fails, status) ↦
            replaced w ce stored reason v judged asked status
              (ap (λ (x : World S). x.client) same ∙ given)
        | inr (holds, status) ↦ cc
      ]
  after_validation r v ce stored reason false w u w' judged asked given time how e = elim how [
    | inl (fails, status) ↦ cc
    | inr (holds, status) ↦
        validated w ce stored reason v judged asked status
          (client-send_hit stored ce w u w' (teed a w fresh_client 304 v).client given time e)
  ]

  validation-IsGiven :
      (r v : Request) (ce : CacheEntry) (stored : Response) (reason : FwdReason) (w w' : World S)
      → IsJudged a w r ce stored reason (some v)
      → IsFor a.platform v (record r { header = v.header })
      → follow a r ce (some stored) (ok (reason, some v)) (unanswered w) ≡ returns (empty, w')
      → IsGiven a r w'.client
  unfolding follow
  validation-IsGiven r v ce stored reason w w' judged asked e =
      let (failed, u, sent, others) =
        >>=-eq-returns (send_to_client_if_validation_failed a r v)
          (λ failed. if failed then pure empty else send_hit a (some stored) ce) (unanswered w) w'
          empty e in
      let (given, time, how) = send_to_client-eq-returns r v (unanswered w) u failed sent in
      after_validation r v ce stored reason failed w u w' judged asked given time how others

  follow-IsGiven :
      (r : Request) (ce : CacheEntry) (stored : Response)
      (answer : Result (FwdReason × Option Request)) (w w' : World S)
      → IsStored a ce
      → create_stored_response a ce ≡ returns (some stored)
      → must_not_reuse_checked a.platform w.now r (some stored) ce.requested_at ce.received_at
        ≡ returns answer
      → follow a r ce (some stored) answer (unanswered w) ≡ returns (empty, w')
      → IsGiven a r w'.client
  unfolding pure
  follow-IsGiven r ce stored (err _ x) w w' right made judged e = unfold follow in cc
  follow-IsGiven r ce stored (ok (empty, none)) w w' right made judged e =
      by_cache w ce stored (right, made, judged)
        (client-send_hit stored ce w (unanswered w) w' fresh_client refl refl (unfold follow in e))
  follow-IsGiven r ce stored (ok (_, none)) w w' right made judged e = unfold follow in cc
  follow-IsGiven r ce stored (ok (reason, some v)) w w' right made judged e =
      let (_, _, _, _, of_request) =
        must_not_reuse_checked_validation a.platform w.now r stored ce.requested_at ce.received_at
          reason v judged in
      validation-IsGiven r v ce stored reason w w' (right, made, judged)
        (generate_conditional_request-IsFor a.platform r v stored of_request) e

  followed-IsGiven :
      (r : Request) (ce : CacheEntry) (res : Option Response)
      (answer : Result (FwdReason × Option Request)) (w w' : World S)
      → IsStored a ce
      → create_stored_response a ce ≡ returns res
      → must_not_reuse_checked a.platform w.now r res ce.requested_at ce.received_at
        ≡ returns answer
      → follow a r ce res answer (unanswered w) ≡ returns (empty, w')
      → IsGiven a r w'.client
  unfolding must_not_reuse_checked
  followed-IsGiven r ce none answer w w' right made judged e = cc
  followed-IsGiven r ce (some stored) answer w w' right made judged e =
      follow-IsGiven r ce stored answer w w' right made judged e

  tried-IsGiven :
      (r : Request) (ce : CacheEntry) (w w' : World S) (reason : FwdReason)
      → IsStored a ce
      → reuse_or_validate a r ce (unanswered w) ≡ returns (reason, w')
      → ((is_empty_reason reason ≡ true) × IsGiven a r w'.client)
        ⊎ ((is_empty_reason reason ≡ false) × (w' ≡ unanswered w))
  tried-IsGiven r ce w w' reason right e = elim (Bool-cases (is_empty_reason reason)) [
    | inl answered ↦
        let (res, answer, made, judged, followed) =
          reuse_or_validate-eq-returns a r ce (unanswered w) w' reason e in
        inl (
          answered,
          followed-IsGiven r ce res answer w w' right made judged
              (rw (is_empty-empty reason answered) at followed),
        )
    | inr missed ↦ inr (missed, reuse_or_validate-miss a r ce (unanswered w) w' reason e missed)
  ]

  -- A trial of an entry answers a client that has got nothing, or leaves everything as it was.
  pub reuse_or_validate-IsGiven :
      (r : Request) (ce : CacheEntry) (w w' : World S) (reason : FwdReason)
      → w.client ≡ fresh_client
      → IsStored a ce
      → reuse_or_validate a r ce w ≡ returns (reason, w')
      → ((is_empty_reason reason ≡ true) × IsGiven a r w'.client)
        ⊎ ((is_empty_reason reason ≡ false) × (w' ≡ w))
  reuse_or_validate-IsGiven r ce w w' reason new right e =
      let same : w ≡ unanswered w = ap (λ c. record w { client = c }) new in
      elim (tried-IsGiven r ce w w' reason right (rw same at e)) [
        | inl done ↦ inl done
        | inr (missed, left) ↦ inr (missed, left ∙ sym same)
      ]
