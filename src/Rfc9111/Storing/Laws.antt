-- ===== src/Rfc9111/Storing/Laws.antt =====
-- Which responses are stored.
use always_cache.Base.{true, false, not, [], ◌≤◌, ◌≡◌, ◌≢◌, ◌↔◌, ◌⊎◌, inl, inr, arith, Bool-cases}
use always_cache.Go.Strings.{Str, codes}
use always_cache.Go.Strings.Laws.{same_iff}
use always_cache.Go.Header.{get}
use always_cache.Go.Http.{Request, Response}
use always_cache.Rfc9111.CacheControl.{has_directive}
use always_cache.Rfc9111.Storing.{
  may_use_response_for_authenticated_request, res_cache_control, must_not_store,
}

abbrev pub Has : Response → Str → Type 0
Has res directive = has_directive (res_cache_control res) directive ≡ true

abbrev pub HasNot : Response → Str → Type 0
HasNot res directive = has_directive (res_cache_control res) directive ≡ false

-- What section 3 of the standard asks of a stored response, but for its last point.
pub record IsAllowed (req : Request) (res : Response) : Type 0 where
  pub method : (req.method ≡ codes "GET") ⊎ (req.method ≡ codes "POST")
  pub final : (200 ≤ res.status_code) × (res.status_code ≤ 599)
  pub not_partial : res.status_code ≢ 206
  pub not_unmodified : res.status_code ≢ 304
  pub understood : HasNot res (codes "must-understand") ⊎ (res.status_code ≡ 200)
  pub storable : HasNot res (codes "no-store")
  pub shared : HasNot res (codes "private")
  pub anonymous : get req.header (codes "Authorization") ≡ []

-- A response without public and s-maxage is stored only if section 3 allows it.
must_not_store-IsAllowed :
    (req : Request) (res : Response)
    → HasNot res (codes "public")
    → HasNot res (codes "s-maxage")
    → must_not_store req res ≡ false
    → IsAllowed req res
unfolding must_not_store
must_not_store-IsAllowed req res hp hs e =
    ground (arith, same_iff req.method (codes "GET"), same_iff req.method (codes "POST"))

must_not_store_allowed :
    (req : Request) (res : Response) → IsAllowed req res → must_not_store req res ≡ false
unfolding must_not_store
must_not_store_allowed req res h =
    ground (arith, same_iff req.method (codes "GET"), same_iff req.method (codes "POST"))

must_not_store_shared :
    (req : Request) (res : Response)
    → Has res (codes "public") ⊎ Has res (codes "s-maxage")
    → must_not_store req res ≡ false
unfolding must_not_store
must_not_store_shared req res h = ground arith

-- A response is let through exactly if it has public or s-maxage, whatever the method, the status
-- and the other directives are, or if it answers a GET or POST request with no Authorization field,
-- has a final status other than 206 and 304 (200 if it must be understood), and has neither no-store
-- nor private, also if nothing in it says how long it may be kept.
pub must_not_store-eq-false_iff :
    (req : Request) (res : Response)
    → (must_not_store req res ≡ false)
      ↔ ((Has res (codes "public") ⊎ Has res (codes "s-maxage")) ⊎ IsAllowed req res)
must_not_store-eq-false_iff req res = (
  λ e. elim (Bool-cases (has_directive (res_cache_control res) (codes "public"))) [
    | inl public ↦ inl (inl public)
    | inr closed ↦ elim (Bool-cases (has_directive (res_cache_control res) (codes "s-maxage"))) [
      | inl lasting ↦ inl (inr lasting)
      | inr brief ↦ inr (must_not_store-IsAllowed req res closed brief e)
    ]
  ],
  λ h. elim h [
    | inl shared ↦ must_not_store_shared req res shared
    | inr allowed ↦ must_not_store_allowed req res allowed
  ],
)

-- A response to a request with credentials is stored exactly if it has public or s-maxage.
pub must_not_store_authorized :
    (req : Request) (res : Response)
    → get req.header (codes "Authorization") ≢ []
    → must_not_store req res
      ≡ not (may_use_response_for_authenticated_request (res_cache_control res))
unfolding must_not_store
must_not_store_authorized req res h = ground arith
