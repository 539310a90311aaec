-- ===== src/Rfc9111/Validation.antt =====
-- rfc9111/4.3.1._sending-a-validation-request.go. The new request shares the client request's
-- header map, so the fields that are set show in both.
pub mod Laws
use always_cache.Base.{ℕ, Bool, true, false, List, [], ◌∷◌, ◌++◌, Option, none, some, if◌then◌else◌}
use always_cache.Go.Strings.{Str, codes, is_empty}
use always_cache.Go.Header.{Header, get, set, values}
use always_cache.Go.Http.{Platform, Request, Response, new_request}
use always_cache.Go.Panic.{Call, returns, panics}
use always_cache.Rfc9111.Fields.{get_list_header}

-- A field is set to a validator only if there is one.
unfoldable pub set_if_present : Header → Str → Str → Header
set_if_present header name v = if is_empty v then header else set header name v

-- The preconditions taken from the stored response's validators.
unfoldable pub set_preconditions : Response → Header → Header
set_preconditions res header =
    let h =
      set_if_present header (codes "If-Modified-Since") (get res.header (codes "Last-Modified")) in
    set_if_present h (codes "If-None-Match") (get res.header (codes "ETag"))

-- Whether the stored request holds a field that the response's Vary field names.
unfoldable pub has_vary_value : List Str → Header → Bool
has_vary_value [] header = false
has_vary_value (field ∷ rest) header = elim (values header field) [
  | [] ↦ has_vary_value rest header
  | v ∷ vs ↦ true
]

module _ (platform : Platform) where
  -- generateConditionalRequest for a client request: `none` where the request cannot be made.
  unfoldable pub generate_conditional_request : Request → Response → Option Request
  unfolding set_preconditions
  generate_conditional_request req res =
      elim (new_request platform req.method req.url.text req.body) [
        | none ↦ none
        | some r ↦ some (record r { header = set_preconditions res req.header })
      ]

  -- With a nil client request the fields are added to the nil request, which panics.
  unfoldable pub generate_independent_request : Request → Response → Call (Option Request)
  unfolding set_preconditions has_vary_value
  generate_independent_request original res =
      elim (new_request platform original.method original.url.text original.body) [
        | none ↦ returns none
        | some r ↦
            if has_vary_value (get_list_header res.header (codes "Vary")) original.header
            then panics
            else returns (some (record r { header = set_preconditions res [] }))
      ]
