-- ===== src/Go/Header/Names.antt =====
-- Field names are compared in their canonical form, which does not depend on case.
use always_cache.Base.{
  ℕ, Bool, true, false, ◌&&◌, [], ◌∷◌, ◌==◌, leb, all, ◌≡◌, refl, ap, arith, Bool-cases, inl, inr,
}
use always_cache.Go.Strings.{Str, lower, upper, to_lower}
use always_cache.Go.Header.{Header, canonical, canonical_from, is_token, lookup, values}

lower_other : (c : ℕ) → (leb b'A' c && leb c b'Z') ≡ false → lower c ≡ c
unfolding lower
lower_other c h = ground arith

is_token-lower : (c : ℕ) → is_token (lower c) ≡ is_token c
is_token-lower c = elim (Bool-cases (leb b'A' c && leb c b'Z')) [
  | inl big ↦ unfold is_token lower in ground arith
  | inr other ↦ ap is_token (lower_other c other)
]

all-to_lower : (s : Str) → all is_token (to_lower s) ≡ all is_token s
unfolding to_lower
all-to_lower [] = refl
all-to_lower (c ∷ s) = rw (is_token-lower c, all-to_lower s)

lower_twice : (c : ℕ) → lower (lower c) ≡ lower c
unfolding lower
lower_twice c = ground arith

upper-lower : (c : ℕ) → upper (lower c) ≡ upper c
unfolding lower upper
upper-lower c = ground arith

dash-lower : (c : ℕ) → (lower c == b'-') ≡ (c == b'-')
unfolding lower
dash-lower c = ground arith

canonical_from-to_lower :
    (start : Bool) (s : Str) → canonical_from start (to_lower s) ≡ canonical_from start s
unfolding canonical_from to_lower
canonical_from-to_lower start [] = refl
canonical_from-to_lower start (c ∷ s) =
    rw (lower_twice c, upper-lower c, dash-lower c, canonical_from-to_lower (c == b'-') s)

-- A name of token bytes has the canonical form of its lower-case form.
pub canonical-to_lower : (s : Str) → all is_token s ≡ true → canonical (to_lower s) ≡ canonical s
unfolding canonical
canonical-to_lower s h = rw (all-to_lower s, h, canonical_from-to_lower true s)

-- Names with one canonical form have the same values.
pub values_congr : (h : Header) (a b : Str) → canonical a ≡ canonical b → values h a ≡ values h b
unfolding values
values_congr h a b e = ap (λ (k : Str). lookup k h) e
