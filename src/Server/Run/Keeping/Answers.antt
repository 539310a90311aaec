-- ===== src/Server/Run/Keeping/Answers.antt =====
-- always-cache.go: the handler keeps what the actions keep.
use always_cache.Base.{ℕ, true, false, not, Option, none, some, ◌==◌, ◌≡◌, refl}
use always_cache.Go.Http.{Request, Response}
use always_cache.Rfc9111.Entry.{Result, ok, err, must_not_reuse_checked}
use always_cache.Rfc9111.Entry.Laws.{must_not_reuse_checked_validation}
use always_cache.Rfc9211.{FwdReason, is_empty_reason, empty, CacheStatus}
use always_cache.Provider.{CacheEntry}
use always_cache.Tee.{ResponseSaver, new_response_saver}
use always_cache.Server.State.{AlwaysCache, update_response, World, spawn}
use always_cache.Server.Handler.{
  send_stored_response, send_hit, ask_client, send_to_client_if_validation_failed, follow,
  reuse_or_validate,
}
use always_cache.Server.Run.Keeping.{
  Invariant, Ensures, Keeps, pure-Keeps, gets-Keeps, lift-Keeps, modify-Keeps, bind-Keeps,
  cond-Keeps, ask-Keeps, lift-Ensures, IsFairFor, IsWritable,
}
use always_cache.Server.Asked.{IsFor, generate_conditional_request-IsFor}
use always_cache.Go.Time.{Time}
use always_cache.Go.Panic.{returns}

module _ {S : Type 0} {a : AlwaysCache S} {I : World S → Type 0}
    {Fair : ResponseSaver → Request → Type 0} (inv : Invariant a I Fair) where
  pub spawn-Keeps :
      (saver : ResponseSaver) (r : Request)
      → Fair saver r
      → Keeps I (spawn (update_response saver r))
  unfolding spawn
  spawn-Keeps saver r fair = modify-Keeps _ (λ w i. inv.spawned w saver r fair i)

module _ {S : Type 0} {a : AlwaysCache S} {I : World S → Type 0}
    {Fair : ResponseSaver → Request → Type 0} (inv : Invariant a I Fair)
    (writable : IsWritable I) where
  send-Keeps :
      (res : Response) (ce : CacheEntry) (cs : CacheStatus)
      → Keeps I (send_stored_response a res ce cs)
  unfolding send_stored_response
  send-Keeps res ce cs = modify-Keeps _ (λ w i. writable w _ i)

  send_hit-Keeps : (res : Option Response) (ce : CacheEntry) → Keeps I (send_hit a res ce)
  unfolding send_hit
  send_hit-Keeps none ce = lift-Keeps _
  send_hit-Keeps (some res) ce = bind-Keeps (send-Keeps res ce _) λ _ _. pure-Keeps _ tt

  pub ask_client-Keeps :
      (status : ℕ) (req : Request) → Ensures I (IsFairFor a Fair req) (ask_client a status req)
  unfolding ask_client new_response_saver
  ask_client-Keeps status req = bind-Keeps (gets-Keeps _) λ w _.
      bind-Keeps
        (ask-Keeps inv (new_response_saver w.now w.client status) req (refl, refl, refl, refl))
        λ saver fair.
          bind-Keeps (modify-Keeps _ (λ v i. writable v saver.client i))
            λ _ _. pure-Keeps saver fair

  validation-Keeps :
      (r v : Request)
      → IsFor a.platform v (record r { header = v.header })
      → Keeps I (send_to_client_if_validation_failed a r v)
  unfolding send_to_client_if_validation_failed
  validation-Keeps r v asked = bind-Keeps (ask_client-Keeps 304 v) λ saver fair.
      cond-Keeps (not (saver.status == 304))
        (bind-Keeps (spawn-Keeps inv saver _ (fair _ asked)) λ _ _. pure-Keeps true tt)
        (pure-Keeps false tt)

  -- A validation request that is answered comes from the client's request.
  abbrev IsFollowed : Request → Result (FwdReason × Option Request) → Type 0
  IsFollowed r (ok (reason, some v)) = IsFor a.platform v (record r { header = v.header })
  IsFollowed r _ = Unit {0}

  follow-Keeps :
      (r : Request) (ce : CacheEntry) (res : Option Response)
      (answer : Result (FwdReason × Option Request))
      → IsFollowed r answer
      → Keeps I (follow a r ce res answer)
  unfolding follow
  follow-Keeps r ce res (err _ e) asked = pure-Keeps _ tt
  follow-Keeps r ce res (ok (reason, some v)) asked =
      bind-Keeps (validation-Keeps r v asked)
        λ failed _. cond-Keeps failed (pure-Keeps empty tt) (send_hit-Keeps res ce)
  follow-Keeps r ce res (ok (reason, none)) asked =
      cond-Keeps (not (is_empty_reason reason)) (pure-Keeps reason tt) (send_hit-Keeps res ce)

  judged-IsFollowed :
      (now : Time) (r : Request) (res : Option Response) (ce : CacheEntry)
      (answer : Result (FwdReason × Option Request))
      → must_not_reuse_checked a.platform now r res ce.requested_at ce.received_at ≡ returns answer
      → IsFollowed r answer
  judged-IsFollowed now r (some res) ce (ok (reason, some v)) e =
      let (original, _, _, _, made) =
        must_not_reuse_checked_validation a.platform now r res ce.requested_at ce.received_at reason
          v e in
      generate_conditional_request-IsFor a.platform r v res made
  judged-IsFollowed now r none ce (ok (reason, some v)) e = unfold must_not_reuse_checked in cc
  judged-IsFollowed now r res ce (ok (reason, none)) e = tt
  judged-IsFollowed now r res ce (err x y) e = tt

  pub reuse-Keeps : (r : Request) (ce : CacheEntry) → Keeps I (reuse_or_validate a r ce)
  unfolding reuse_or_validate
  reuse-Keeps r ce = bind-Keeps (gets-Keeps _) λ w _. bind-Keeps (lift-Keeps _) λ res _.
      bind-Keeps (lift-Ensures _)
        λ answer e. follow-Keeps r ce res answer (judged-IsFollowed w.now r res ce answer e)
