-- ===== src/Rfc9211/Text.antt =====
-- The text of a Cache-Status field, read as the standard describes it: parameters with or without a
-- value, behind semicolons.
use mathlib.Core.List.{foldl}
use always_cache.Base.{
  Bool, true, false, List, [], ◌∷◌, ◌++◌, map, append_assoc, append-nil, Option, none, some, All,
  ◌&&◌, not, ◌≡◌, refl, sym, ap, ◌∙◌, arith, Bool-cases, if◌then◌else◌, inl, inr,
}
use always_cache.Base.Int.{ℤ, pos, eqb_ℤ}
use always_cache.Go.Strings.{
  Str, codes, is_empty, is_space, same, split, split_from, split_two, trim_left,
}
use always_cache.Go.Strings.Laws.{Lacks}
use always_cache.Go.Strings.Splitting.{split_from-append, split_from_last}
use always_cache.Go.Conv.{parse_int, format_int}
use always_cache.Rfc9211.{
  Status, hit, fwd, FwdReason, empty, bypass, method, uri_miss, vary_miss, miss, request, stale,
  partial, status_text, reason_text, is_fwd, is_empty_reason, CacheStatus, new_cache_status,
  cache_status_text,
}

-- The reasons that the standard has.
unfoldable pub reasons : List FwdReason
reasons = bypass ∷ method ∷ uri_miss ∷ vary_miss ∷ miss ∷ request ∷ stale ∷ partial ∷ []

unfoldable pub reason_among : Str → List FwdReason → FwdReason
reason_among text [] = empty
reason_among text (r ∷ rs) = if same text (reason_text r) then r else reason_among text rs

unfoldable pub read_reason : Option Str → FwdReason
unfolding reasons reason_among
read_reason none = empty
read_reason (some text) = reason_among text reasons

unfoldable pub or_zero : Option ℤ → ℤ
or_zero none = pos 0
or_zero (some z) = z

unfoldable pub read_number : Option Str → ℤ
unfolding or_zero
read_number none = pos 0
read_number (some text) = or_zero (parse_int text)

abbrev text_of : Option Str → Str
text_of none = []
text_of (some text) = text

-- What a parameter says.
unfoldable pub read_param : CacheStatus → Str × Option Str → CacheStatus
unfolding read_reason read_number
read_param cs (name, value) =
    if same name (codes "hit")
    then record cs { status = hit }
    else if same name (codes "fwd")
    then record cs { status = fwd; fwd_reason = read_reason value }
    else if same name (codes "detail")
    then record cs { detail = text_of value }
    else if same name (codes "stored")
    then record cs { stored = true }
    else if same name (codes "ttl")
    then record cs { time_to_live = read_number value }
    else cs

unfoldable pub read_item : CacheStatus → Str → CacheStatus
unfolding read_param
read_item cs item = read_param cs (split_two (trim_left is_space item) (codes "="))

abbrev pub behind_first : List Str → List Str
behind_first [] = []
behind_first (name ∷ items) = items

-- The name of the cache comes first.
unfoldable pub read_cache_status : Str → CacheStatus
unfolding read_item
read_cache_status text = foldl read_item new_cache_status (behind_first (split text (codes ";")))

-- The items behind the name.
abbrev pub tails : List Str → Str
tails [] = []
tails (x ∷ xs) = codes "; " ++ x ++ tails xs

tails-append : (xs ys : List Str) → tails (xs ++ ys) ≡ tails xs ++ tails ys
tails-append [] ys = refl
tails-append (x ∷ xs) ys =
    rw (tails-append xs ys) (ap (λ t. codes "; " ++ t) (sym (append_assoc x (tails xs) (tails ys))))

abbrev pub spaced : Str → Str
spaced x = b' ' ∷ x

abbrev pub IsPart : Str → Type 0
IsPart = Lacks b';'

pub split-tails :
    (first : Str) (items : List Str)
    → IsPart first
    → All IsPart items
    → split_from (codes ";") 0 [] (first ++ tails items) ≡ first ∷ map spaced items
split-tails first [] h hs = rw (append-nil first) (split_from_last b';' [] first h)
split-tails first (x ∷ xs) h (k, hs) =
    split_from-append b';' [] first (spaced x ++ tails xs) h
    ∙ ap (λ parts. first ∷ parts) (split-tails (spaced x) xs (omega arith, k) hs)

abbrev pub status_item : Status → FwdReason → Str
status_item status reason =
    status_text status
    ++ (if is_fwd status && not (is_empty_reason reason)
        then codes "=" ++ reason_text reason
        else [])

abbrev pub detail_items : Str → List Str
detail_items detail = if is_empty detail then [] else (codes "detail=" ++ detail) ∷ []

abbrev pub stored_items : Bool → List Str
stored_items stored = if stored then codes "stored" ∷ [] else []

abbrev pub ttl_items : ℤ → List Str
ttl_items ttl = if eqb_ℤ ttl (pos 0) then [] else (codes "ttl=" ++ format_int ttl) ∷ []

abbrev pub optional_items : CacheStatus → List Str
optional_items cs = detail_items cs.detail ++ stored_items cs.stored ++ ttl_items cs.time_to_live

abbrev pub items : CacheStatus → List Str
items cs = status_item cs.status cs.fwd_reason ∷ optional_items cs

detail_part :
    (detail : Str)
    → (if is_empty detail then [] else codes "; detail=" ++ detail) ≡ tails (detail_items detail)
detail_part [] = refl
detail_part (c ∷ detail) = rw (append-nil detail) refl

stored_part :
    (stored : Bool) → (if stored then codes "; stored" else []) ≡ tails (stored_items stored)
stored_part true = refl
stored_part false = refl

ttl_part :
    (ttl : ℤ)
    → (if eqb_ℤ ttl (pos 0) then [] else codes "; ttl=" ++ format_int ttl) ≡ tails (ttl_items ttl)
ttl_part ttl = elim (Bool-cases (eqb_ℤ ttl (pos 0))) [
  | inl zero ↦ rw zero refl
  | inr some_number ↦ rw (some_number, append-nil (format_int ttl)) refl
]

joined :
    (p x y z : Str) (xs ys zs : List Str)
    → x ≡ tails xs
    → y ≡ tails ys
    → z ≡ tails zs
    → p ++ x ++ y ++ z ≡ p ++ tails (xs ++ ys ++ zs)
joined p x y z xs ys zs e f g =
    rw (e, f, g, tails-append (xs ++ ys) zs, tails-append xs ys)
      (ap (λ t. t ++ tails zs) (append_assoc p (tails xs) (tails ys))
        ∙ append_assoc p (tails xs ++ tails ys) (tails zs))

pub cache_status_text-tails :
    (cs : CacheStatus) → cache_status_text cs ≡ codes "Always-Cache" ++ tails (items cs)
unfolding cache_status_text
cache_status_text-tails cs =
    joined (codes "Always-Cache; " ++ status_item cs.status cs.fwd_reason) _ _ _
      (detail_items cs.detail) (stored_items cs.stored) (ttl_items cs.time_to_live)
      (detail_part cs.detail) (stored_part cs.stored) (ttl_part cs.time_to_live)
