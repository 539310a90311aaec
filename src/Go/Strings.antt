-- ===== src/Go/Strings.antt =====
-- Package strings, over texts as lists of bytes. Case and white space are those of ASCII; a byte
-- above 127 is no letter and no space here.
pub mod Laws
pub mod Splitting
use Prim.Native.Char.{code}
use Prim.Native.String.{String}
use mathlib.Core.List.{reverse}
use always_cache.Base.{
  ℕ, zero, suc, ◌+◌, ◌-◌, Bool, true, false, ◌&&◌, ◌||◌, not, List, [], ◌∷◌, ◌++◌, map, Option,
  none, some, length, any, leb, ◌==◌, if◌then◌else◌, drop,
}

abbrev pub Str : Type 0
Str = List ℕ

-- The bytes of a literal.
abbrev pub codes : String → Str
codes String.[] = []
codes (String.◌∷◌ c s) = code c ∷ codes s

unfoldable pub same : Str → Str → Bool
same [] [] = true
same [] (d ∷ t) = false
same (c ∷ s) [] = false
same (c ∷ s) (d ∷ t) = c == d && same s t

abbrev pub is_empty : Str → Bool
is_empty [] = true
is_empty (c ∷ s) = false

unfoldable pub contains : Str → List Str → Bool
contains t [] = false
contains t (s ∷ ss) = same t s || contains t ss

abbrev pub in_range : ℕ → ℕ → ℕ → Bool
in_range lo hi c = leb lo c && leb c hi

abbrev pub is_digit : ℕ → Bool
is_digit = in_range b'0' b'9'

unfoldable pub lower : ℕ → ℕ
lower c = if in_range b'A' b'Z' c then c + 32 else c

unfoldable pub upper : ℕ → ℕ
upper c = if in_range b'a' b'z' c then c - 32 else c

unfoldable pub to_lower : Str → Str
unfolding lower
to_lower s = map lower s

unfoldable pub to_upper : Str → Str
unfolding upper
to_upper s = map upper s

-- What is left of a text behind a prefix.
unfoldable pub strip_prefix : Str → Str → Option Str
strip_prefix [] s = some s
strip_prefix (p ∷ ps) [] = none
strip_prefix (p ∷ ps) (c ∷ s) = if p == c then strip_prefix ps s else none

unfoldable pub has_prefix : Str → Str → Bool
unfolding strip_prefix
has_prefix s prefix = elim (strip_prefix prefix s) [ none ↦ false | some rest ↦ true ]

unfoldable pub trim_prefix : Str → Str → Str
unfolding strip_prefix
trim_prefix s prefix = elim (strip_prefix prefix s) [ none ↦ s | some rest ↦ rest ]

abbrev pub prepend : ℕ → Option (Str × Str) → Option (Str × Str)
prepend c none = none
prepend c (some (before, after)) = some (c ∷ before, after)

-- strings.Cut at a separator that is not empty; `none` where it is not found.
unfoldable pub cut : Str → Str → Option (Str × Str)
unfolding strip_prefix
cut [] sep = none
cut (c ∷ s) sep = elim (strip_prefix sep (c ∷ s)) [
  | some rest ↦ some ([], rest)
  | none ↦ prepend c (cut s sep)
]

-- The parts of a text; `skip` counts the bytes left of a separator that has been seen.
unfoldable pub split_from : Str → ℕ → Str → Str → List Str
unfolding strip_prefix
split_from sep skip part [] = part ∷ []
split_from sep (suc skip) part (c ∷ s) = split_from sep skip part s
split_from sep zero part (c ∷ s) = elim (strip_prefix sep (c ∷ s)) [
  | some rest ↦ part ∷ split_from sep (length sep - 1) [] s
  | none ↦ split_from sep zero (part ++ c ∷ []) s
]

-- strings.Split at a separator that is not empty.
unfoldable pub split : Str → Str → List Str
unfolding split_from
split s sep = split_from sep 0 [] s

-- strings.Split(s, sep)[0]
unfoldable pub split_first : Str → Str → Str
unfolding cut
split_first s sep = elim (cut s sep) [ none ↦ s | some (before, after) ↦ before ]

-- The bytes from the first one that is not in the set.
unfoldable pub trim_left : (ℕ → Bool) → Str → Str
trim_left cutset [] = []
trim_left cutset (c ∷ s) = if cutset c then trim_left cutset s else c ∷ s

unfoldable pub trim : (ℕ → Bool) → Str → Str
unfolding trim_left
trim cutset s = reverse (trim_left cutset (reverse (trim_left cutset s)))

abbrev pub is_space : ℕ → Bool
is_space c = c == 32 || in_range 9 13 c

unfoldable pub trim_space : Str → Str
unfolding trim
trim_space s = trim is_space s

-- The text before the last occurrence of a byte; `none` where it does not occur.
unfoldable pub before_last : ℕ → Str → Option Str
before_last b [] = none
before_last b (c ∷ s) = elim (before_last b s) [
  | some t ↦ some (c ∷ t)
  | none ↦ if c == b then some [] else none
]

-- strings.SplitN(s, sep, 2): the first part, and the second one if there is one.
unfoldable pub split_two : Str → Str → Str × Option Str
unfolding cut
split_two s sep = elim (cut s sep) [
  | none ↦ (s, none)
  | some (before, after) ↦ (before, some after)
]
