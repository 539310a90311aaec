-- ===== src/Rfc9111/Entry/Laws.antt =====
-- What the two entry points let through.
use always_cache.Base.{
  All, false, ◌⊎◌, inl, inr, [], none, some, ◌≡◌, ◌≢◌, ◌↔◌, refl, ap, ◌∙◌, arith,
}
use always_cache.Go.Time.{Time}
use always_cache.Go.Http.{Platform, Request, Response}
use always_cache.Go.Panic.{returns}
use always_cache.Rfc9111.Reuse.{must_write_through, must_not_reuse}
use always_cache.Rfc9111.Reuse.Laws.{
  IsReusable, SameField, IsSafe, must_write_through_iff, must_not_reuse-eq-empty_iff,
  must_not_reuse_validation,
}
use always_cache.Rfc9111.Entry.{Error, ok, check_response, judge_reuse, must_not_reuse_checked}
use always_cache.Rfc9211.{FwdReason, empty}
use always_cache.Rfc9111.Validation.{generate_conditional_request}
use always_cache.Rfc9111.Fields.{get_list_header}
use always_cache.Go.Strings.{codes}

check_response-inr :
    (res : Response) (req : Request)
    → check_response res ≡ inr req
    → (res.request ≡ some req) × (res.header ≢ []) × (res.status_code ≢ 0) × (req.method ≢ [])
unfolding check_response
check_response-inr res req e = (ground arith, ground arith, ground arith, ground arith)

pub check_response-eq-inr :
    (res : Response) (req : Request)
    → res.header ≢ []
    → res.status_code ≢ 0
    → res.request ≡ some req
    → req.method ≢ []
    → check_response res ≡ inr req
unfolding check_response
check_response-eq-inr res req h c e m = ground arith

module _ (platform : Platform) (now : Time) (client : Request) (res : Response)
    (request_time response_time : Time) where
  judge_reuse-IsReusable :
      (checked : Error ⊎ Request)
      → judge_reuse platform now client res request_time response_time checked ≡ ok (empty, none)
      → (original : Request) × (checked ≡ inr original)
        × (must_write_through client res ≡ false)
        × IsReusable platform now client original res request_time response_time
  unfolding judge_reuse
  judge_reuse-IsReusable (inl x) e = cc
  judge_reuse-IsReusable (inr original) e = (
    original,
    refl,
    ground arith,
    (must_not_reuse-eq-empty_iff platform now client original res request_time response_time).0
        (ground arith),
  )

  pub judge_reuse-eq-ok :
      (original : Request)
      → must_write_through client res ≡ false
      → IsReusable platform now client original res request_time response_time
      → judge_reuse platform now client res request_time response_time (inr original)
        ≡ ok (empty, none)
  unfolding judge_reuse
  judge_reuse-eq-ok original through h = rw (
    through,
    (must_not_reuse-eq-empty_iff platform now client original res request_time response_time).1 h,
  )

  pub must_not_reuse_checked_lem :
      must_not_reuse_checked platform now client (some res) request_time response_time
      ≡ returns
          (judge_reuse platform now client res request_time response_time (check_response res))
  unfolding must_not_reuse_checked
  must_not_reuse_checked_lem = refl

  -- The response and the requests that a stored response may be reused for.
  abbrev pub MayBeReused : Type 0
  MayBeReused =
      (original : Request) × (res.request ≡ some original)
      × (res.header ≢ [])
      × (res.status_code ≢ 0)
      × (original.method ≢ [])
      × IsSafe client res
      × IsReusable platform now client original res request_time response_time

  must_not_reuse_checked-MayBeReused :
      must_not_reuse_checked platform now client (some res) request_time response_time
        ≡ returns (ok (empty, none))
      → MayBeReused
  must_not_reuse_checked-MayBeReused e =
      let answered : judge_reuse platform now client res request_time response_time
            (check_response res)
          ≡ ok (empty, none) =
        cc must_not_reuse_checked_lem in
      let (original, checked, through, reusable) =
        judge_reuse-IsReusable (check_response res) answered in
      let (same_request, fields, status, named) = check_response-inr res original checked in
      (
        original,
        same_request,
        fields,
        status,
        named,
        (must_write_through_iff client res).0 through,
        reusable,
      )

  must_not_reuse_checked_allowed :
      MayBeReused
      → must_not_reuse_checked platform now client (some res) request_time response_time
        ≡ returns (ok (empty, none))
  must_not_reuse_checked_allowed (original, same_request, fields, status, named, safe, reusable) =
      must_not_reuse_checked_lem
      ∙ rw (check_response-eq-inr res original fields status same_request named) (
          ap (λ answer. returns answer)
            (judge_reuse-eq-ok original ((must_write_through_iff client res).1 safe) reusable))

  pub must_not_reuse_checked-eq-ok_iff :
      (must_not_reuse_checked platform now client (some res) request_time response_time
        ≡ returns (ok (empty, none)))
      ↔ MayBeReused
  must_not_reuse_checked-eq-ok_iff =
      (must_not_reuse_checked-MayBeReused, must_not_reuse_checked_allowed)

  judge_reuse_validation :
      (reason : FwdReason) (validation : Request) (checked : Error ⊎ Request)
      → judge_reuse platform now client res request_time response_time checked
        ≡ ok (reason, some validation)
      → (original : Request) × (checked ≡ inr original)
        × (must_not_reuse platform now client original res request_time response_time
            ≡ (reason, some validation))
  unfolding judge_reuse
  judge_reuse_validation reason validation (inl x) e = cc
  judge_reuse_validation reason validation (inr original) e = (original, refl, ground arith)

  -- A validation request that MustNotReuse gives is made of the client's request.
  pub must_not_reuse_checked_validation :
      (reason : FwdReason) (validation : Request)
      → must_not_reuse_checked platform now client (some res) request_time response_time
        ≡ returns (ok (reason, some validation))
      → (original : Request) × (res.request ≡ some original)
        × (client.url.text ≡ original.url.text)
        × All (SameField client.header original.header) (get_list_header res.header (codes "Vary"))
        × (generate_conditional_request platform client res ≡ some validation)
  must_not_reuse_checked_validation reason validation e =
      let answered : judge_reuse platform now client res request_time response_time
            (check_response res)
          ≡ ok (reason, some validation) =
        cc must_not_reuse_checked_lem in
      let (original, checked, judged) =
        judge_reuse_validation reason validation (check_response res) answered in
      let (same_request, fields, status, named) = check_response-inr res original checked in
      let (stale_one, same_uri, same_fields, made) =
        must_not_reuse_validation platform now client original res request_time response_time
          judged in
      (original, same_request, same_uri, same_fields, made)
