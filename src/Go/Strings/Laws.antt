-- ===== src/Go/Strings/Laws.antt =====
-- Equality of texts, cutting, and trimming.
use always_cache.Base.{ℕ, true, [], ◌∷◌, ◌++◌, none, some, ◌≡◌, ◌≢◌, ◌↔◌, refl, arith, All}
use always_cache.Go.Strings.{Str, same, strip_prefix, has_prefix, trim_prefix, cut}

pub same_self : (s : Str) → same s s ≡ true
unfolding same
same_self [] = refl
same_self (c ∷ s) = ground (arith, same_self s)

pub eq_of_same : (s t : Str) → same s t ≡ true → s ≡ t
unfolding same
eq_of_same [] [] h = refl
eq_of_same [] (d ∷ t) h = cc
eq_of_same (c ∷ s) [] h = cc
eq_of_same (c ∷ s) (d ∷ t) h = ground (arith, eq_of_same s t)

pub same_iff : (s t : Str) → (same s t ≡ true) ↔ (s ≡ t)
same_iff s t = (eq_of_same s t, λ e. rw (← e) (same_self s))

pub same_comm : (s t : Str) → same s t ≡ same t s
unfolding same
same_comm [] [] = refl
same_comm [] (d ∷ t) = refl
same_comm (c ∷ s) [] = refl
same_comm (c ∷ s) (d ∷ t) = ground (arith, same_comm s t)

-- The byte `b` does not occur in the text.
abbrev pub Lacks : ℕ → Str → Type 0
Lacks b = All (λ c. c ≢ b)

pub strip_prefix-append : (p s : Str) → strip_prefix p (p ++ s) ≡ some s
unfolding strip_prefix
strip_prefix-append [] s = refl
strip_prefix-append (c ∷ p) s = ground (arith, strip_prefix-append p s)

pub has_prefix-append : (p s : Str) → has_prefix (p ++ s) p ≡ true
unfolding has_prefix
has_prefix-append p s = rw (strip_prefix-append p s, has_prefix)

pub trim_prefix-append : (p s : Str) → trim_prefix (p ++ s) p ≡ s
unfolding trim_prefix
trim_prefix-append p s = rw (strip_prefix-append p s, trim_prefix)

-- A text that lacks the separator's byte is cut off at the first separator behind it.
pub cut-append : (b : ℕ) (s rest : Str) → Lacks b s → cut (s ++ b ∷ rest) (b ∷ []) ≡ some (s, rest)
unfolding cut strip_prefix
cut-append b [] rest h = ground arith
cut-append b (c ∷ s) rest (n, h) = ground (arith, cut-append b s rest h)

pub cut_absent : (b : ℕ) (s : Str) → Lacks b s → cut s (b ∷ []) ≡ none
unfolding cut strip_prefix
cut_absent b [] h = refl
cut_absent b (c ∷ s) (n, h) = ground (arith, cut_absent b s h)
