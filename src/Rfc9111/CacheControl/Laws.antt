-- ===== src/Rfc9111/CacheControl/Laws.antt =====
-- What a lookup in parsed Cache-Control fields finds.
use always_cache.Base.{
  ℕ, List, [], ◌∷◌, ◌++◌, append_assoc, append-nil, ap, ◌∙◌, Option, none, some, if◌then◌else◌, ◌≡◌,
  refl, arith, Option-cases, inl, inr,
}
use always_cache.Go.Strings.{Str, codes, same, cut, split, split_from, strip_prefix, prepend}
use always_cache.Go.Strings.Laws.{same_iff}
use always_cache.Rfc9111.CacheControl.{
  lookup, assign, get, has_directive, directive_name, directive_argument, add_directives,
  add_headers, parse_cache_control,
}

lookup-assign :
    (j k arg : Str) (m : List (Str × Str))
    → lookup j (assign k arg m) ≡ (if same k j then some arg else lookup j m)
unfolding lookup assign
lookup-assign j k arg [] = refl
lookup-assign j k arg ((i, a) ∷ m) =
    ground (arith, same_iff i k, same_iff i j, same_iff k j, lookup-assign j k arg m)

-- All directives of the fields, in order.
abbrev pub directives_of : List Str → List Str
directives_of [] = []
directives_of (header ∷ rest) = split header (codes ", ") ++ directives_of rest

-- The argument of the last directive with this name.
abbrev pub last_argument : Str → List Str → Option Str
last_argument name [] = none
last_argument name (directive ∷ rest) = elim (last_argument name rest) [
  | some arg ↦ some arg
  | none ↦
      if same (directive_name directive) name then some (directive_argument directive) else none
]

abbrev or_else : Option Str → Option Str → Option Str
or_else (some a) o = some a
or_else none o = o

or_else-none : (o : Option Str) → or_else o none ≡ o
or_else-none none = refl
or_else-none (some a) = refl

none_ne_some : {a : Str × Str} → some a ≡ none → ⊥
none_ne_some e = cc

prepend-none : (c : ℕ) (o : Option (Str × Str)) → prepend c o ≡ none → o ≡ none
prepend-none c none e = refl
prepend-none c (some p) e = cc

last_argument-append :
    (name : Str) (xs ys : List Str)
    → last_argument name (xs ++ ys) ≡ or_else (last_argument name ys) (last_argument name xs)
last_argument-append name [] ys = ground arith
last_argument-append name (x ∷ xs) ys = ground (arith, last_argument-append name xs ys)

lookup-add_directives :
    (name : Str) (m : List (Str × Str)) (ds : List Str)
    → lookup name (add_directives m ds) ≡ or_else (last_argument name ds) (lookup name m)
unfolding add_directives
lookup-add_directives name m [] = refl
lookup-add_directives name m (d ∷ ds) = ground (
  arith,
  lookup-add_directives name (assign (directive_name d) (directive_argument d) m) ds,
  lookup-assign name (directive_name d) (directive_argument d) m,
)

lookup-add_headers :
    (name : Str) (m : List (Str × Str)) (headers : List Str)
    → lookup name (add_headers m headers)
      ≡ or_else (last_argument name (directives_of headers)) (lookup name m)
unfolding add_headers
lookup-add_headers name m [] = refl
lookup-add_headers name m (h ∷ hs) =
    let ds = split h (codes ", ") in
    ground (
      arith,
      lookup-add_headers name (add_directives m ds) hs,
      lookup-add_directives name m ds,
      last_argument-append name ds (directives_of hs),
    )

-- A directive's argument is that of the last directive of this name in any of the fields, and it
-- is missing exactly if no directive has the name.
pub get-parse_cache_control :
    (headers : List Str) (name : Str)
    → get (parse_cache_control headers) name ≡ last_argument name (directives_of headers)
unfolding get parse_cache_control lookup
get-parse_cache_control headers name =
    lookup-add_headers name [] headers ∙ or_else-none (last_argument name (directives_of headers))

split_from_absent :
    (sep part s : Str) → cut s sep ≡ none → split_from sep 0 part s ≡ (part ++ s) ∷ []
unfolding split_from cut
split_from_absent sep part [] h = rw append-nil
split_from_absent sep part (c ∷ s) h = elim (Option-cases (strip_prefix sep (c ∷ s))) [
  | inl absent ↦
      rw (absent, split_from)
        (split_from_absent sep (part ++ c ∷ []) s (prepend-none c _ (rw (absent, cut) at h))
          ∙ ap (λ (t : Str). t ∷ []) (append_assoc part (c ∷ []) s))
  | inr (rest, found) ↦ absurd (none_ne_some (rw (found, cut) at h))
]

split_absent : (s sep : Str) → cut s sep ≡ none → split s sep ≡ s ∷ []
unfolding split
split_absent s sep h = split_from_absent sep [] s h

-- A field that never has a comma with a space behind it is one directive, whatever commas it holds.
pub has_directive-parse_cache_control :
    (header name : Str)
    → cut header (codes ", ") ≡ none
    → has_directive (parse_cache_control (header ∷ [])) name ≡ same (directive_name header) name
unfolding has_directive
has_directive-parse_cache_control header name h =
    rw (get-parse_cache_control, split_absent header (codes ", ") h) (ground arith)
