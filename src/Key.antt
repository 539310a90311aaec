-- ===== src/Key.antt =====
-- pkg/cache-key/key.go: the keys of stored responses.
pub mod Vary
pub mod Copies
pub mod RoundTrip
use always_cache.Base.{
  ℕ, Bool, true, false, List, [], ◌∷◌, ◌++◌, Option, none, some, ◌⊎◌, inl, inr, if◌then◌else◌,
}
use always_cache.Go.Strings.{Str, codes, to_lower, has_prefix, trim_prefix, cut, split, split_two}
use always_cache.Go.Header.{Header, get, add}
use always_cache.Go.Http.{Platform, Request, new_request}
use always_cache.Go.Panic.{Call, returns, panics, ◌>>=◌}
use always_cache.Rfc9111.Fields.{get_list_header, field_absent}

abbrev pub origin_separator : Str
origin_separator = codes ":"

abbrev pub method_separator : Str
method_separator = codes ":"

abbrev pub vary_separator : Str
vary_separator = codes "\t"

pub record CacheKeyer : Type 0 where
  pub origin_id : Str
  pub origin_prefix : Str

unfoldable pub new_cache_keyer : Str → CacheKeyer
new_cache_keyer origin_id = record {
  origin_id = origin_id;
  origin_prefix = origin_id ++ origin_separator;
}

unfoldable pub method_prefix : CacheKeyer → Str → Str
method_prefix c method = c.origin_id ++ origin_separator ++ method ++ method_separator

-- The key without the vary lines; a missing Cache-Key field adds nothing.
unfoldable pub get_key_prefix : CacheKeyer → Request → Str
get_key_prefix c r =
    c.origin_id
    ++ (origin_separator
        ++ (r.method
            ++ (method_separator
                ++ (r.url.request_uri ++ (vary_separator ++ get r.header (codes "Cache-Key"))))))

-- What one nominated field adds: a line, if the request has the field.
pub vary_line : Header → Str → Str
vary_line header name =
    if field_absent header name
    then []
    else codes "\n" ++ (to_lower name ++ (codes ": " ++ get header name))

pub vary_lines : Header → List Str → Str
unfolding vary_line
vary_lines header [] = []
vary_lines header (name ∷ names) = vary_line header name ++ vary_lines header names

-- AddVaryKeys, for the header of the response.
unfoldable pub add_vary_keys : Str → Request → Header → Str
unfolding vary_lines
add_vary_keys prefix req res_header =
    prefix ++ vary_lines req.header (get_list_header res_header (codes "Vary"))

-- An entry that has no second part panics.
pub add_entry : Header → Str × Option Str → Call Header
add_entry header (name, none) = panics
add_entry header (name, some value) = returns (add header name value)

-- The loop of GetVaryHeaders.
pub add_lines : Header → List Str → Call Header
unfolding add_entry
add_lines header [] = returns header
add_lines header (line ∷ lines) =
    add_entry header (split_two line (codes ": ")) >>= λ h. add_lines h lines

abbrev pub behind_first : List Str → List Str
behind_first [] = []
behind_first (line ∷ lines) = lines

unfoldable pub get_vary_headers : Str → Call Header
unfolding add_lines
get_vary_headers key = add_lines [] (behind_first (split key (codes "\n")))

pub data KeyError : Type 0 where
  origin_mismatch malformed_key bad_request : KeyError

with_vary_headers : Str → Option Request → Call (KeyError ⊎ Request)
unfolding get_vary_headers
with_vary_headers key none = returns (inl bad_request)
with_vary_headers key (some req) =
    get_vary_headers key >>= λ header. returns (inr (record req { header = header }))

unfoldable pub get_request_from_key : Platform → CacheKeyer → Str → Call (KeyError ⊎ Request)
unfolding with_vary_headers
get_request_from_key platform c key =
    if has_prefix key c.origin_prefix
    then (elim (cut (trim_prefix key c.origin_prefix) vary_separator) [
      | none ↦ returns (inl malformed_key)
      | some (key_no_vary, behind) ↦ elim (cut key_no_vary method_separator) [
        | none ↦ returns (inl malformed_key)
        | some (method, uri) ↦ with_vary_headers key (new_request platform method uri [])
      ]
    ])
    else returns (inl origin_mismatch)
