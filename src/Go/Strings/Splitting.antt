-- ===== src/Go/Strings/Splitting.antt =====
-- Splitting at a separator, and case.
use always_cache.Base.{
  ℕ, false, ◌&&◌, [], ◌∷◌, ◌++◌, append_assoc, append-nil, some, leb, ◌≡◌, ◌≢◌, arith,
}
use always_cache.Go.Strings.{Str, lower, to_lower, strip_prefix, cut, split_from, split_two}
use always_cache.Go.Strings.Laws.{Lacks}

-- Up to the first separator.
pub split_from-append :
    (b : ℕ) (part p rest : Str)
    → Lacks b p
    → split_from (b ∷ []) 0 part (p ++ b ∷ rest) ≡ (part ++ p) ∷ split_from (b ∷ []) 0 [] rest
unfolding split_from strip_prefix
split_from-append b part [] rest h = ground (arith, append-nil part)
split_from-append b part (c ∷ p) rest (n, h) =
    ground (arith, split_from-append b (part ++ c ∷ []) p rest h, append_assoc part (c ∷ []) p)

-- With no separator left.
pub split_from_last :
    (b : ℕ) (part p : Str) → Lacks b p → split_from (b ∷ []) 0 part p ≡ (part ++ p) ∷ []
unfolding split_from strip_prefix
split_from_last b part [] h = ground (arith, append-nil part)
split_from_last b part (c ∷ p) (n, h) =
    ground (arith, split_from_last b (part ++ c ∷ []) p h, append_assoc part (c ∷ []) p)

-- A separator of two bytes, whose first byte is not in the text before it.
cut-append_two :
    (b d : ℕ) (s rest : Str) → Lacks b s → cut (s ++ b ∷ d ∷ rest) (b ∷ d ∷ []) ≡ some (s, rest)
unfolding cut strip_prefix
cut-append_two b d [] rest h = ground arith
cut-append_two b d (c ∷ s) rest (n, h) = ground (arith, cut-append_two b d s rest h)

pub split_two-append :
    (b d : ℕ) (s rest : Str)
    → Lacks b s
    → split_two (s ++ b ∷ d ∷ rest) (b ∷ d ∷ []) ≡ (s, some rest)
unfolding split_two
split_two-append b d s rest h = rw (split_two, cut-append_two b d s rest h)

lower-ne : (b c : ℕ) → c ≢ b → (leb b'a' b && leb b b'z') ≡ false → lower c ≢ b
unfolding lower
lower-ne b c h k = ground arith

pub to_lower-Lacks :
    (b : ℕ) (s : Str) → (leb b'a' b && leb b b'z') ≡ false → Lacks b s → Lacks b (to_lower s)
unfolding to_lower
to_lower-Lacks b [] k h = tt
to_lower-Lacks b (c ∷ s) k (h, hs) = (lower-ne b c h k, to_lower-Lacks b s k hs)
