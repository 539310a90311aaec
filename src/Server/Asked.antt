-- ===== src/Server/Asked.antt =====
-- What the origin is asked for a client's request.
use always_cache.Base.{some, ◌⊎◌, inr, ◌≡◌, inl, arith, Option-cases}
use always_cache.Go.Http.{Platform, Request, Response, new_request}
use always_cache.Rfc9111.Validation.{generate_conditional_request}

-- The request itself, or what http.NewRequest makes of its method, URL and body, with its fields.
abbrev pub IsFor : Platform → Request → Request → Type 0
IsFor platform asked r =
    (asked ≡ r)
    ⊎ ((made : Request) × (new_request platform r.method r.url.text r.body ≡ some made)
        × (asked ≡ record made { header = r.header }))

-- A validation request is one for the client's request with the fields of the validation request.
pub generate_conditional_request-IsFor :
    (platform : Platform) (r v : Request) (res : Response)
    → generate_conditional_request platform r res ≡ some v
    → IsFor platform v (record r { header = v.header })
unfolding generate_conditional_request
generate_conditional_request-IsFor platform r v res e =
    elim (Option-cases (new_request platform r.method r.url.text r.body)) [
      | inl failed ↦ ground (arith, failed)
      | inr (made, done) ↦ inr (made, done, ground (arith, done))
    ]
