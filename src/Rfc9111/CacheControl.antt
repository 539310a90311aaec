-- ===== src/Rfc9111/CacheControl.antt =====
-- rfc9111/5.2._cache-control.go: the directives of Cache-Control fields.
pub mod Laws
use always_cache.Base.{
  ℕ, Bool, true, false, ◌&&◌, List, [], ◌∷◌, Option, none, some, is_some, ◌==◌, if◌then◌else◌,
}
use always_cache.Go.Strings.{Str, codes, same, is_empty, to_lower, trim, split, split_two}
use always_cache.Go.Time.{Duration}
use always_cache.Rfc9111.Syntax.{delta_seconds}

-- The map from directives to arguments.
pub record CacheControl : Type 0 where
  pub directives : List (Str × Str)

lookup : Str → List (Str × Str) → Option Str
lookup name [] = none
lookup name ((k, arg) ∷ m) = if same k name then some arg else lookup name m

-- m[name] = arg
assign : Str → Str → List (Str × Str) → List (Str × Str)
assign name arg [] = (name, arg) ∷ []
assign name arg ((k, a) ∷ m) = if same k name then (name, arg) ∷ m else (k, a) ∷ assign name arg m

unfoldable pub get : CacheControl → Str → Option Str
unfolding lookup
get c directive = lookup directive c.directives

unfoldable pub has_directive : CacheControl → Str → Bool
unfolding get
has_directive c directive = is_some (get c directive)

unfoldable pub get_cache_control_directive_name : Str → Str
get_cache_control_directive_name token = to_lower token

unfoldable pub get_cache_control_directive_argument : Str → Str
get_cache_control_directive_argument arg = trim (λ c. c == b'"') arg

-- The name of one directive, and its argument; no equals sign means an empty argument.
unfoldable pub directive_name : Str → Str
unfolding get_cache_control_directive_name
directive_name directive = get_cache_control_directive_name (split_two directive (codes "=")).0

unfoldable pub directive_argument : Str → Str
unfolding get_cache_control_directive_argument
directive_argument directive = elim (split_two directive (codes "=")).1 [
  | none ↦ []
  | some arg ↦ get_cache_control_directive_argument arg
]

unfoldable pub add_directive : List (Str × Str) → Str → List (Str × Str)
unfolding assign directive_name directive_argument
add_directive m directive = assign (directive_name directive) (directive_argument directive) m

add_directives : List (Str × Str) → List Str → List (Str × Str)
unfolding add_directive
add_directives m [] = m
add_directives m (directive ∷ rest) = add_directives (add_directive m directive) rest

add_headers : List (Str × Str) → List Str → List (Str × Str)
unfolding add_directives
add_headers m [] = m
add_headers m (header ∷ rest) = add_headers (add_directives m (split header (codes ", "))) rest

unfoldable pub parse_cache_control : List Str → CacheControl
unfolding add_headers
parse_cache_control headers = record { directives = add_headers [] headers }

-- A directive without an argument counts as absent here.
unfoldable pub get_delta_seconds : CacheControl → Str → Option Duration
unfolding get
get_delta_seconds c directive = elim (get c directive) [
  | none ↦ none
  | some seconds ↦ if is_empty seconds then none else delta_seconds seconds
]

unfoldable pub max_age : CacheControl → Option Duration
unfolding get_delta_seconds
max_age c = get_delta_seconds c (codes "max-age")

unfoldable pub s_max_age : CacheControl → Option Duration
unfolding get_delta_seconds
s_max_age c = get_delta_seconds c (codes "s-maxage")
