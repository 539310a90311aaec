-- ===== src/Rfc9111/Reuse/Laws.antt =====
-- When a stored response is reused, and when it is validated first.
use always_cache.Base.{true, false, List, [], ◌∷◌, none, some, ◌≡◌, ◌≢◌, ◌↔◌, ◌⊎◌, refl, arith, All}
use always_cache.Go.Strings.{Str, codes}
use always_cache.Go.Strings.Laws.{same_iff}
use always_cache.Go.Header.{Header, get, values}
use always_cache.Go.Time.{Time}
use always_cache.Go.Http.{Platform, Request, Response}
use always_cache.Rfc9111.CacheControl.{parse_cache_control, has_directive}
use always_cache.Rfc9111.Fields.{get_list_header, field_absent}
use always_cache.Rfc9111.Freshness.{freshness_lifetime}
use always_cache.Rfc9111.Freshness.Laws.{is_fresh-eq-true_iff}
use always_cache.Rfc9111.Age.{current_age}
use always_cache.Base.Int.{◌<ℤ◌}
use always_cache.Rfc9111.Validation.{generate_conditional_request}
use always_cache.Rfc9111.Reuse.{
  field_matches, fields_match, header_fields_match, must_not_reuse, must_write_through,
  unsafe_request,
}
use always_cache.Rfc9211.{FwdReason, empty, stale}

-- A nominated field is the same in both requests: its first value, and whether it is there at all.
abbrev pub SameField : Header → Header → Str → Type 0
SameField presented original item =
    (get presented item ≡ get original item)
    × (field_absent presented item ≡ field_absent original item)
    × (item ≢ codes "*")

field_matches_iff :
    (presented original : Header) (item : Str)
    → (field_matches presented original item ≡ true) ↔ SameField presented original item
unfolding field_matches
field_matches_iff p o item = (
  λ e. ground (arith, same_iff (get p item) (get o item), same_iff item (codes "*")),
  λ h. ground (arith, same_iff (get p item) (get o item), same_iff item (codes "*")),
)

fields_match_iff :
    (presented original : Header) (items : List Str)
    → (fields_match presented original items ≡ true) ↔ All (SameField presented original) items
unfolding fields_match
fields_match_iff p o [] = (λ e. tt, λ h. refl)
fields_match_iff p o (item ∷ rest) = (
  λ e.
      let here : field_matches p o item ≡ true = ground arith in
      let there : fields_match p o rest ≡ true = ground arith in
      ((field_matches_iff p o item).0 here, (fields_match_iff p o rest).0 there),
  λ h. ground (arith, (field_matches_iff p o item).1 h.0, (fields_match_iff p o rest).1 h.1),
)

-- The requests match exactly if every field that the Vary field lists is the same in both, and
-- none of the listed names is a star.
pub header_fields_match_iff :
    (req original : Request) (stored : Response)
    → (header_fields_match req original stored ≡ true)
      ↔ All (SameField req.header original.header) (get_list_header stored.header (codes "Vary"))
unfolding header_fields_match
header_fields_match_iff req original stored = fields_match_iff req.header original.header _

-- The response may answer the request with no call to the origin.
pub record IsReusable (platform : Platform) (now : Time) (req original : Request) (res : Response)
    (request_time response_time : Time) : Type 0 where
  pub same_uri : req.url.text ≡ original.url.text
  pub same_fields :
      All (SameField req.header original.header) (get_list_header res.header (codes "Vary"))
  pub unconditional :
      has_directive
        (parse_cache_control (values res.header (codes "Cache-Control")))
        (codes "no-cache")
      ≡ false
  pub fresh :
      current_age platform now res response_time request_time <ℤ freshness_lifetime platform now res

-- A request that a stored response may answer at all: it is safe, or the response says so.
abbrev pub IsSafe : Request → Response → Type 0
IsSafe client res =
    ((client.method ≡ codes "GET") ⊎ (client.method ≡ codes "HEAD"))
    ⊎ (has_directive (parse_cache_control (values res.header (codes "Cache-Control")))
          (codes "safe")
        ≡ true)

pub must_write_through_iff :
    (client : Request) (res : Response)
    → (must_write_through client res ≡ false) ↔ IsSafe client res
unfolding must_write_through unsafe_request
must_write_through_iff client res = (
  λ e. ground (arith, same_iff client.method (codes "GET"), same_iff client.method (codes "HEAD")),
  λ h. ground (arith, same_iff client.method (codes "GET"), same_iff client.method (codes "HEAD")),
)

module _ (platform : Platform) (now : Time) (req original : Request) (res : Response)
    (request_time response_time : Time) where
  -- No forward reason is given exactly if the response is for the same URI, the nominated fields
  -- match, it has no no-cache directive and its age is less than its lifetime. Then there is no validation request.
  pub must_not_reuse-eq-empty_iff :
      (must_not_reuse platform now req original res request_time response_time ≡ (empty, none))
      ↔ IsReusable platform now req original res request_time response_time
  unfolding must_not_reuse
  must_not_reuse-eq-empty_iff = (
    λ e. record {
      same_uri = ground (arith, same_iff req.url.text original.url.text);
      same_fields =
          (header_fields_match_iff req original res).0
            (ground (arith, same_iff req.url.text original.url.text));
      unconditional = ground arith;
      fresh = (is_fresh-eq-true_iff platform now res response_time request_time).0 (ground arith);
    },
    λ h. ground (
      arith,
      same_iff req.url.text original.url.text,
      (header_fields_match_iff req original res).1 h.same_fields,
      (is_fresh-eq-true_iff platform now res response_time request_time).1 h.fresh,
    ),
  )

  -- A validation request is made only for a response of the same URI with matching fields, and the
  -- forward reason is then that the response is stale.
  pub must_not_reuse_validation :
      {reason : FwdReason} {validation : Request}
      → must_not_reuse platform now req original res request_time response_time
        ≡ (reason, some validation)
      → (reason ≡ stale)
        × (req.url.text ≡ original.url.text)
        × All (SameField req.header original.header) (get_list_header res.header (codes "Vary"))
        × (generate_conditional_request platform req res ≡ some validation)
  unfolding must_not_reuse
  must_not_reuse_validation e = (
    ground arith,
    ground (arith, same_iff req.url.text original.url.text),
    (header_fields_match_iff req original res).0 (ground arith),
    ground arith,
  )
