-- ===== src/Server/Handler/Answers.antt =====
-- How many response heads an entry and the origin give the client.
use always_cache.Base.{
  ℕ, ◌+◌, Bool, true, false, not, List, [], ◌∷◌, ◌++◌, Option, none, some, inl, inr, ◌==◌,
  if◌then◌else◌, ◌≡◌, ◌≢◌, refl, arith, Bool-cases, ◌∙◌,
}
use always_cache.Go.Strings.{Str}
use always_cache.Go.Header.{Header}
use always_cache.Go.Http.{Request, Response}
use always_cache.Go.Panic.{returns}
use always_cache.Rfc9111.Entry.{Result, ok, err}
use always_cache.Rfc9111.Entry.Laws.{must_not_reuse_checked_lem}
use always_cache.Rfc9211.{FwdReason, empty, miss, is_empty_reason, set_hit, CacheStatus}
use always_cache.Provider.{CacheEntry}
use always_cache.Tee.{
  Sent, head, ResponseSaver, new_response_saver, Act, set_status, run, copy_header,
}
use always_cache.Tee.Laws.{writes, set_fields, run-set_fields, sent_bytes, passed_on, run_response}
use always_cache.Server.State.{
  AlwaysCache, Task, update_response, World, ◌>>=◌, ◌>>◌, pure, gets, modify, spawn,
}
use always_cache.Server.Store.{ask_origin}
use always_cache.Server.Updater.{}
use always_cache.Server.Handler.{
  create_stored_response, stored_response_sent, send_hit, send_stored_response, ask_client, follow,
  send_to_client_if_validation_failed, reuse_or_validate, body_sent,
}
use always_cache.Server.Silent.{spawn-Total}
use always_cache.Server.Total.{
  heads, heads-append, Total, pure-Total, gets-Total, lift-Total, modify-Total, bind-Total,
  then-Total, weaken-Total,
}

-- One answer of the origin: some fields, one status that is not 0, and the body.
abbrev pub IsResponse : List Act → Type 0
IsResponse acts =
    (fields : List (Str × Str)) × (code : ℕ) × (bs : List Str) × (code ≢ 0)
    × (acts ≡ set_fields fields ++ set_status code ∷ writes bs)

-- The stored response of the entry can be read.
abbrev pub IsReadable : {S : Type 0} → AlwaysCache S → CacheEntry → Type 0
IsReadable a ce = (res : Response) × (create_stored_response a ce ≡ returns (some res))

heads-sent_bytes : (bs : List Str) → heads (sent_bytes bs) ≡ 0
heads-sent_bytes [] = refl
heads-sent_bytes (b ∷ bs) = heads-sent_bytes bs

heads-body_sent : (body : Str) → heads (body_sent body) ≡ 0
unfolding body_sent
heads-body_sent body = ground arith

heads-passed_on :
    (code blocked : ℕ) (h : Header) (before : List Sent) (bs : List Str)
    → heads (passed_on (not (code == blocked)) before (head code h ∷ sent_bytes bs))
      ≡ heads before + (if code == blocked then 0 else 1)
heads-passed_on code blocked h before bs = elim (Bool-cases (code == blocked)) [
  | inl held ↦ rw held (omega arith)
  | inr passed ↦
      rw passed
        (omega (arith, heads-append before (head code h ∷ sent_bytes bs), heads-sent_bytes bs))
]

module _ {S : Type 0} (a : AlwaysCache S) where
  send-Total :
      (res : Response) (ce : CacheEntry) (cs : CacheStatus)
      → Total (λ _. Unit {0}) (λ _. 1) (send_stored_response a res ce cs)
  unfolding send_stored_response stored_response_sent
  send-Total res ce cs =
      modify-Total _ 1
        (λ (w : World S). heads-append w.client.sent _ ∙ omega (arith, heads-body_sent res.body))

  send_hit-Total :
      (res : Response) (ce : CacheEntry)
      → Total (λ reason. reason ≡ empty) (λ _. 1) (send_hit a (some res) ce)
  unfolding send_hit set_hit
  send_hit-Total res ce =
      bind-Total (send-Total res ce _) (λ _ _. pure-Total empty refl) (λ x y e. (e, omega arith))

  -- Heads that the client gets of an answer.
  abbrev passed : ℕ → ResponseSaver → ℕ
  passed blocked saver = if saver.status == blocked then 0 else 1

  answered :
      (t : ResponseSaver) (acts : List Act)
      → IsResponse acts
      → t.forwards ≡ true
      → ((run a.platform t acts).status ≢ 0)
        × (heads (run a.platform t acts).client.sent
            ≡ heads t.client.sent + passed t.status_filter (run a.platform t acts))
  answered t acts (fields, code, bs, final, same) forwards =
      let (h, fielded) = run-set_fields a.platform t fields (set_status code ∷ writes bs) in
      let (buffer, status, sent) =
        run_response a.platform (record t { header = h }) code bs forwards in
      let whole : run a.platform t acts
          ≡ run a.platform (record t { header = h }) (set_status code ∷ writes bs) =
        rw same fielded in
      (
        rw (whole, status) final,
        rw (whole, status, sent)
            (heads-passed_on code t.status_filter (copy_header t.client.header h) t.client.sent bs),
      )

  module _ (origin : (n : ℕ) (req : Request) → IsResponse (a.origin n req)) where
    pub ask_client-Total :
        (blocked : ℕ) (req : Request)
        → Total (λ saver. saver.status ≢ 0) (passed blocked) (ask_client a blocked req)
    unfolding ask_client ask_origin ◌>>=◌ gets modify pure new_response_saver
    ask_client-Total blocked req = record {
      run = λ w.
          let t = new_response_saver w.now w.client blocked in
          let (final, sent) = answered t (a.origin w.calls req) (origin w.calls req) refl in
          (run a.platform t (a.origin w.calls req), _, refl, final, sent);
    }

    told-Total :
        (t : Task) (different : Bool)
        → Total
            (λ failed. failed ≡ different)
            (λ _. 0)
            (if different then (spawn {S = S} t >> pure true) else pure false)
    told-Total t true = then-Total (spawn-Total t) (λ _ _. pure-Total true refl)
    told-Total t false = pure-Total false refl

    validation-Total :
        (r v : Request)
        → Total
            (λ _. Unit {0})
            (λ failed. if failed then 1 else 0)
            (send_to_client_if_validation_failed a r v)
    unfolding send_to_client_if_validation_failed
    validation-Total r v =
        bind-Total (ask_client-Total 304 v)
          (λ saver _.
            told-Total (update_response saver (record r { header = v.header }))
              (not (saver.status == 304)))
          (λ saver failed e. (tt, ground arith))

    given-Total :
        (failed : Bool) (res : Response) (ce : CacheEntry)
        → Total
            (λ reason. reason ≡ empty)
            (λ _. if failed then 0 else 1)
            (if failed then pure empty else send_hit a (some res) ce)
    given-Total true res ce = pure-Total empty refl
    given-Total false res ce = send_hit-Total res ce

    settled-Total :
        (reason : FwdReason) (res : Response) (ce : CacheEntry)
        → Total
            (λ _. Unit {0})
            (λ reason. if is_empty_reason reason then 1 else 0)
            (if not (is_empty_reason reason) then pure reason else send_hit a (some res) ce)
    settled-Total empty res ce = weaken-Total (send_hit-Total res ce) (λ y e. (tt, rw e refl))
    settled-Total reason res ce =
        weaken-Total (pure-Total {P = λ y. y ≡ reason} reason refl) (λ y e. (tt, rw e refl))

    pub reuse-Total :
        (r : Request) (ce : CacheEntry) (res : Response)
        (answer : Result (FwdReason × Option Request))
        → Total
            (λ _. Unit {0})
            (λ reason. if is_empty_reason reason then 1 else 0)
            (follow a r ce (some res) answer)
    unfolding follow
    reuse-Total r ce res (err _ e) =
        weaken-Total (pure-Total {P = λ y. y ≡ miss} miss refl) (λ y e. (tt, rw e refl))
    reuse-Total r ce res (ok (reason, some v)) =
        bind-Total (validation-Total r v) (λ failed _. given-Total failed res ce)
          (λ failed reason e. (tt, rw e (ground arith)))
    reuse-Total r ce res (ok (reason, none)) = settled-Total reason res ce

    pub reuse_or_validate-Total :
        (r : Request) (ce : CacheEntry)
        → IsReadable a ce
        → Total
            (λ _. Unit {0})
            (λ reason. if is_empty_reason reason then 1 else 0)
            (reuse_or_validate a r ce)
    unfolding reuse_or_validate
    reuse_or_validate-Total r ce (res, read) = then-Total (gets-Total _) λ w _.
        then-Total (lift-Total {P = λ found. found ≡ some res} _ _ read refl) λ found same.
          rw same (
            then-Total
              (lift-Total {P = λ _. Unit {0}} _ _
                (must_not_reuse_checked_lem a.platform w.now r res ce.requested_at ce.received_at)
                tt)
              λ answer _. reuse-Total r ce res answer)
