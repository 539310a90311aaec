-- ===== src/Rfc9111/Entry.antt =====
-- rfc9111/rfc9111.go: the two questions that the proxy asks of the standard, with the checks of
-- their arguments. (AddAgeHeader stands with the age calculation.)
pub mod Laws
use always_cache.Base.{
  Bool, true, false, ◌⊎◌, inl, inr, [], ◌∷◌, Option, none, some, ◌==◌, if◌then◌else◌,
}
use always_cache.Go.Strings.{Str, is_empty}
use always_cache.Go.Header.{Header}
use always_cache.Go.Time.{Time}
use always_cache.Go.Http.{Platform, Request, Response}
use always_cache.Go.Panic.{Call, returns, panics}
use always_cache.Rfc9111.Storing.{must_not_store}
use always_cache.Rfc9111.Reuse.{must_write_through, must_not_reuse}
use always_cache.Rfc9211.{FwdReason, error, method}

pub data Error : Type 0 where
  headers_empty status_code_empty request_empty method_empty : Error

-- A value beside an error, as Go returns it.
pub data Result {ℓ} (A : Type ℓ) : Type ℓ where
  ok : A → Result A
  err : A → Error → Result A

abbrev has_no_fields : Header → Bool
has_no_fields [] = true
has_no_fields (f ∷ h) = false

-- The checks that both functions begin with: the request, if nothing is missing.
pub check_response : Response → Error ⊎ Request
check_response res =
    if has_no_fields res.header
    then inl headers_empty
    else if res.status_code == 0
    then inl status_code_empty
    else elim res.request [
      | none ↦ inl request_empty
      | some req ↦ if is_empty req.method then inl method_empty else inr req
    ]

-- MustNotStore
unfoldable pub must_not_store_checked : Response → Result Bool
unfolding check_response
must_not_store_checked res = elim (check_response res) [
  | inl e ↦ err true e
  | inr req ↦ ok (must_not_store req res)
]

-- What MustNotReuse answers once its arguments are checked.
pub judge_reuse :
    Platform
    → Time
    → Request
    → Response
    → Time
    → Time
    → Error ⊎ Request
    → Result (FwdReason × Option Request)
judge_reuse platform now client res request_time response_time (inl e) = err (error, none) e
judge_reuse platform now client res request_time response_time (inr original) =
    if must_write_through client res
    then ok (method, none)
    else ok (must_not_reuse platform now client original res request_time response_time)

-- MustNotReuse; a stored response that is nil panics.
unfoldable pub must_not_reuse_checked :
    Platform
    → Time
    → Request
    → Option Response
    → Time
    → Time
    → Call (Result (FwdReason × Option Request))
unfolding judge_reuse check_response
must_not_reuse_checked platform now client none request_time response_time = panics
must_not_reuse_checked platform now client (some res) request_time response_time =
    returns (judge_reuse platform now client res request_time response_time (check_response res))
