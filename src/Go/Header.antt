-- ===== src/Go/Header.antt =====
-- net/http.Header: a map from canonical field names to lists of values. The list's order stands
-- for the order, left open by Go, in which a range over the map visits the names.
pub mod Laws
pub mod Names
use always_cache.Base.{
  ℕ, Bool, true, false, ◌&&◌, ◌||◌, List, [], ◌∷◌, ◌++◌, all, any, leb, ◌==◌, if◌then◌else◌,
}
use always_cache.Go.Strings.{Str, codes, same, lower, upper, in_range, is_digit}

abbrev pub Header : Type 0
Header = List (Str × List Str)

abbrev is_letter : ℕ → Bool
is_letter c = in_range b'a' b'z' c || in_range b'A' b'Z' c

-- The bytes that a field name may hold: the `token` of RFC 7230.
unfoldable pub is_token : ℕ → Bool
is_token c = is_letter c || is_digit c || any (λ d. c == d) (codes "!#$%&'*+-.^_`|~")

canonical_from : Bool → Str → Str
unfolding upper lower
canonical_from start [] = []
canonical_from start (c ∷ s) = (if start then upper c else lower c) ∷ canonical_from (c == b'-') s

-- textproto.CanonicalMIMEHeaderKey: a name with other bytes than those is left alone.
unfoldable pub canonical : Str → Str
unfolding is_token canonical_from
canonical name = if all is_token name then canonical_from true name else name

-- The map's own operations, at a name in canonical form.
lookup : Str → Header → List Str
unfolding same
lookup k [] = []
lookup k ((j, vs) ∷ h) = if same j k then vs else lookup k h

store : Str → List Str → Header → Header
unfolding same
store k vs [] = (k, vs) ∷ []
store k vs ((j, ws) ∷ h) = if same j k then (k, vs) ∷ h else (j, ws) ∷ store k vs h

delete : Str → Header → Header
unfolding same
delete k [] = []
delete k ((j, ws) ∷ h) = if same j k then delete k h else (j, ws) ∷ delete k h

abbrev pub first : List Str → Str
first [] = []
first (v ∷ vs) = v

-- Header.Values
unfoldable pub values : Header → Str → List Str
unfolding lookup canonical
values h name = lookup (canonical name) h

-- Header.Get: the first value, or the empty text.
unfoldable pub get : Header → Str → Str
unfolding values
get h name = first (values h name)

-- Header.Set
unfoldable pub set : Header → Str → Str → Header
unfolding store canonical
set h name v = store (canonical name) (v ∷ []) h

-- Header.Add
unfoldable pub add : Header → Str → Str → Header
unfolding store lookup canonical
add h name v = store (canonical name) (lookup (canonical name) h ++ v ∷ []) h

-- Header.Del
unfoldable pub del : Header → Str → Header
unfolding delete canonical
del h name = delete (canonical name) h
