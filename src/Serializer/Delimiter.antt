-- ===== src/Serializer/Delimiter.antt =====
-- The delimiter between a request and its response, and the parts that it makes.
use always_cache.Base.{ℕ, [], ◌∷◌, ◌++◌, none, ◌≡◌, refl, arith, ap, ◌∙◌, append-nil, append_assoc}
use always_cache.Go.Strings.{Str, codes, cut, split, split_from, strip_prefix}
use always_cache.Serializer.{dashes, delim}

-- The text does not contain another one.
abbrev pub Omits : Str → Str → Type 0
Omits sep s = cut s sep ≡ none

Omits-tail :
    (c : ℕ) (sep s : Str) → Omits sep (c ∷ s) → (strip_prefix sep (c ∷ s) ≡ none) × Omits sep s
unfolding cut
Omits-tail c sep s h = ground arith

-- A text that does not begin with the dashes does not begin with them before a delimiter.
strip_prefix-dashes :
    (c : ℕ) (s rest : Str)
    → strip_prefix dashes (c ∷ s) ≡ none
    → strip_prefix delim ((c ∷ s) ++ (delim ++ rest)) ≡ none
unfolding strip_prefix
strip_prefix-dashes c [] rest h = ground arith
strip_prefix-dashes c (c1 ∷ []) rest h = ground arith
strip_prefix-dashes c (c1 ∷ c2 ∷ []) rest h = ground arith
strip_prefix-dashes c (c1 ∷ c2 ∷ c3 ∷ []) rest h = ground arith
strip_prefix-dashes c (c1 ∷ c2 ∷ c3 ∷ c4 ∷ []) rest h = ground arith
strip_prefix-dashes c (c1 ∷ c2 ∷ c3 ∷ c4 ∷ c5 ∷ []) rest h = ground arith
strip_prefix-dashes c (c1 ∷ c2 ∷ c3 ∷ c4 ∷ c5 ∷ c6 ∷ []) rest h = ground arith
strip_prefix-dashes c (c1 ∷ c2 ∷ c3 ∷ c4 ∷ c5 ∷ c6 ∷ c7 ∷ s) rest h = ground arith

split_from_skip :
    (sep part : Str) (c : ℕ) (s : Str)
    → strip_prefix sep (c ∷ s) ≡ none
    → split_from sep 0 part (c ∷ s) ≡ split_from sep 0 (part ++ c ∷ []) s
unfolding split_from
split_from_skip sep part c s h = rw (h, split_from) refl

split_from-delim :
    (part s rest : Str)
    → Omits dashes s
    → split_from delim 0 part (s ++ (delim ++ rest)) ≡ (part ++ s) ∷ split_from delim 0 [] rest
unfolding split_from strip_prefix
split_from-delim part [] rest h = rw (append-nil part) refl
split_from-delim part (c ∷ s) rest h =
    let (first, others) = Omits-tail c dashes s h in
    split_from_skip delim part c (s ++ (delim ++ rest)) (strip_prefix-dashes c s rest first)
    ∙ rw (← append_assoc part (c ∷ []) s) (split_from-delim (part ++ c ∷ []) s rest others)

split_from-last : (part s : Str) → Omits delim s → split_from delim 0 part s ≡ (part ++ s) ∷ []
unfolding split_from
split_from-last part [] h = rw (append-nil part) refl
split_from-last part (c ∷ s) h =
    let (first, others) = Omits-tail c delim s h in
    split_from_skip delim part c s first
    ∙ rw (← append_assoc part (c ∷ []) s) (split_from-last (part ++ c ∷ []) s others)

-- The parts of a request and a response.
pub split-delim :
    (s t : Str) → Omits dashes s → Omits delim t → split (s ++ (delim ++ t)) delim ≡ s ∷ t ∷ []
unfolding split
split-delim s t h k = split_from-delim [] s t h ∙ ap (λ parts. s ∷ parts) (split_from-last [] t k)

-- The parts where the response contains the delimiter.
pub split-delim_twice :
    (s t more : Str)
    → Omits dashes s
    → Omits dashes t
    → split (s ++ (delim ++ (t ++ (delim ++ more)))) delim ≡ s ∷ t ∷ split more delim
unfolding split
split-delim_twice s t more h k =
    split_from-delim [] s (t ++ (delim ++ more)) h
    ∙ ap (λ parts. s ∷ parts) (split_from-delim [] t more k)

pub split_whole : (s : Str) → Omits delim s → split s delim ≡ s ∷ []
unfolding split
split_whole s h = split_from-last [] s h

strip_prefix_longer : (p q s : Str) → strip_prefix p s ≡ none → strip_prefix (p ++ q) s ≡ none
unfolding strip_prefix
strip_prefix_longer [] q s h = cc
strip_prefix_longer (a ∷ p) q [] h = refl
strip_prefix_longer (a ∷ p) q (c ∷ s) h = ground (arith, strip_prefix_longer p q s)

Omits-longer : (p q s : Str) → Omits p s → Omits (p ++ q) s
unfolding cut
Omits-longer p q [] h = refl
Omits-longer p q (c ∷ s) h =
    let (first, others) = Omits-tail c p s h in
    rw (cut, strip_prefix_longer p q (c ∷ s) first, Omits-longer p q s others) refl

pub dashes-Omits : (s : Str) → Omits dashes s → Omits delim s
dashes-Omits s h = Omits-longer dashes (codes "\r\n\r\n") s h
