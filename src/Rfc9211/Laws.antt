-- ===== src/Rfc9211/Laws.antt =====
-- The text of a Cache-Status field says what the status holds.
use mathlib.Core.List.{foldl}
use always_cache.Base.{
  suc, Bool, true, false, List, [], ◌∷◌, ◌++◌, map, All, All-append, ◌≡◌, ◌≢◌, refl, ap, ◌∙◌, arith,
  Bool-cases, inl, inr,
}
use always_cache.Base.Int.{ℤ, pos, negsuc, eqb_ℤ, FitsInt64}
use always_cache.Go.Strings.{
  Str, codes, is_digit, same, split, split_two, cut, strip_prefix, trim_left, split_from,
}
use always_cache.Go.Conv.{format_int}
use always_cache.Go.Conv.Laws.{parse_int-format_int, format_uint-IsDigits}
use always_cache.Rfc9211.{
  Status, unset, hit, fwd, FwdReason, empty, bypass, method, uri_miss, vary_miss, miss, request,
  stale, partial, error, CacheStatus, new_cache_status, cache_status_text,
}
use always_cache.Rfc9211.Text.{
  reasons, reason_among, read_reason, or_zero, read_number, read_param, read_item,
  read_cache_status, behind_first, spaced, IsPart, split-tails, status_item, detail_items,
  stored_items, ttl_items, optional_items, items, cache_status_text-tails,
}

status_read :
    (status : Status) (reason : FwdReason)
    → status ≢ unset
    → (status ≡ hit → reason ≡ empty)
    → reason ≢ error
    → read_item new_cache_status (spaced (status_item status reason))
      ≡ record new_cache_status { status = status; fwd_reason = reason }
unfolding read_item read_param read_reason reasons reason_among split_two cut strip_prefix trim_left
    same
status_read unset reason h k l = absurd (h refl)
status_read hit reason h k l = rw (k refl) refl
status_read fwd empty h k l = refl
status_read fwd bypass h k l = refl
status_read fwd method h k l = refl
status_read fwd uri_miss h k l = refl
status_read fwd vary_miss h k l = refl
status_read fwd miss h k l = refl
status_read fwd request h k l = refl
status_read fwd stale h k l = refl
status_read fwd partial h k l = refl
status_read fwd error h k l = absurd (l refl)

-- Items, one after the other.
abbrev read_items : CacheStatus → List Str → CacheStatus
read_items cs xs = foldl read_item cs (map spaced xs)

read_items-append :
    (cs : CacheStatus) (xs ys : List Str)
    → read_items cs (xs ++ ys) ≡ read_items (read_items cs xs) ys
read_items-append cs [] ys = refl
read_items-append cs (x ∷ xs) ys = read_items-append (read_item cs (spaced x)) xs ys

detail_read :
    (cs : CacheStatus) (detail : Str)
    → cs.detail ≡ []
    → read_items cs (detail_items detail) ≡ record cs { detail = detail }
unfolding read_item read_param split_two cut strip_prefix trim_left same
detail_read cs [] e = cc
detail_read cs (c ∷ detail) e = refl

stored_read :
    (cs : CacheStatus) (stored : Bool)
    → cs.stored ≡ false
    → read_items cs (stored_items stored) ≡ record cs { stored = stored }
unfolding read_item read_param split_two cut strip_prefix trim_left same
stored_read cs true e = refl
stored_read cs false e = cc

zero_lem : (ttl : ℤ) → eqb_ℤ ttl (pos 0) ≡ true → ttl ≡ pos 0
zero_lem (pos n) e = ground arith
zero_lem (negsuc n) e = ground arith

zero_read : {cs : CacheStatus} → cs.time_to_live ≡ pos 0 → cs ≡ record cs { time_to_live = pos 0 }
zero_read e = cc

ttl_read :
    (cs : CacheStatus) (ttl : ℤ)
    → cs.time_to_live ≡ pos 0
    → FitsInt64 ttl
    → read_items cs (ttl_items ttl) ≡ record cs { time_to_live = ttl }
unfolding read_item read_param read_number or_zero split_two cut strip_prefix trim_left same
ttl_read cs ttl e fits = elim (Bool-cases (eqb_ℤ ttl (pos 0))) [
  | inl zero ↦ rw (zero_lem ttl zero) (zero_read e)
  | inr some_number ↦ rw (some_number, parse_int-format_int ttl fits) refl
]

-- A status as the standard has it: a hit with no reason to forward, or a forward with one of the
-- standard's reasons or none; a detail without a semicolon; and an int for the time to live.
pub record IsStandard (cs : CacheStatus) : Type 0 where
  pub set : cs.status ≢ unset
  pub hit_only : cs.status ≡ hit → cs.fwd_reason ≡ empty
  pub standard_reason : cs.fwd_reason ≢ error
  pub detail_part : IsPart cs.detail
  pub int_ttl : FitsInt64 cs.time_to_live

digit-ne-semicolon : (s : Str) → All (λ c. is_digit c ≡ true) s → IsPart s
digit-ne-semicolon [] h = tt
digit-ne-semicolon (c ∷ s) (d, h) = (ground arith, digit-ne-semicolon s h)

format_int-IsPart : (z : ℤ) → IsPart (format_int z)
unfolding format_int
format_int-IsPart (pos n) = digit-ne-semicolon _ (format_uint-IsDigits n)
format_int-IsPart (negsuc n) = (omega arith, digit-ne-semicolon _ (format_uint-IsDigits (suc n)))

status_item-IsPart : (status : Status) (reason : FwdReason) → IsPart (status_item status reason)
status_item-IsPart unset reason = tt
status_item-IsPart hit reason = omega arith
status_item-IsPart fwd empty = omega arith
status_item-IsPart fwd bypass = omega arith
status_item-IsPart fwd method = omega arith
status_item-IsPart fwd uri_miss = omega arith
status_item-IsPart fwd vary_miss = omega arith
status_item-IsPart fwd miss = omega arith
status_item-IsPart fwd request = omega arith
status_item-IsPart fwd stale = omega arith
status_item-IsPart fwd partial = omega arith
status_item-IsPart fwd error = omega arith

detail_items-IsPart : (detail : Str) → IsPart detail → All IsPart (detail_items detail)
detail_items-IsPart [] h = tt
detail_items-IsPart (c ∷ detail) h =
    (All-append (λ c. c ≢ b';') (codes "detail=") (c ∷ detail) (omega arith) h, tt)

stored_items-IsPart : (stored : Bool) → All IsPart (stored_items stored)
stored_items-IsPart true = (omega arith, tt)
stored_items-IsPart false = tt

ttl_items-IsPart : (ttl : ℤ) → All IsPart (ttl_items ttl)
ttl_items-IsPart ttl = elim (Bool-cases (eqb_ℤ ttl (pos 0))) [
  | inl zero ↦ rw zero tt
  | inr some_number ↦ rw some_number (
    All-append (λ c. c ≢ b';') (codes "ttl=") (format_int ttl) (omega arith)
        (format_int-IsPart ttl),
    tt,
  )
]

items-IsPart : (cs : CacheStatus) → IsStandard cs → All IsPart (items cs)
items-IsPart cs s = (
  status_item-IsPart cs.status cs.fwd_reason,
  All-append IsPart (detail_items cs.detail ++ stored_items cs.stored) (ttl_items cs.time_to_live)
      (All-append IsPart (detail_items cs.detail) (stored_items cs.stored)
        (detail_items-IsPart cs.detail s.detail_part) (stored_items-IsPart cs.stored))
      (ttl_items-IsPart cs.time_to_live),
)

optional_read :
    (cs start : CacheStatus)
    → start.detail ≡ []
    → start.stored ≡ false
    → start.time_to_live ≡ pos 0
    → FitsInt64 cs.time_to_live
    → read_items start (optional_items cs)
      ≡ record start { detail = cs.detail; stored = cs.stored; time_to_live = cs.time_to_live }
optional_read cs start e f g fits =
    read_items-append start (detail_items cs.detail ++ stored_items cs.stored)
      (ttl_items cs.time_to_live)
    ∙ ap (λ c. read_items c (ttl_items cs.time_to_live))
        (read_items-append start (detail_items cs.detail) (stored_items cs.stored)
          ∙ ap (λ c. read_items c (stored_items cs.stored)) (detail_read start cs.detail e)
          ∙ stored_read (record start { detail = cs.detail }) cs.stored f)
    ∙ ttl_read (record start { detail = cs.detail; stored = cs.stored }) cs.time_to_live g fits

-- The text that CacheStatus.String gives is read back as the status that it was made of, by a reader
-- that takes it apart at its semicolons and each part at its first equals sign, if the status is a
-- hit with no forward reason, or a forward with one of the standard's reasons or none, its detail
-- holds no semicolon, and its time to live is an int64.
pub read_cache_status-cache_status_text :
    (cs : CacheStatus) → IsStandard cs → read_cache_status (cache_status_text cs) ≡ cs
unfolding read_cache_status split
read_cache_status-cache_status_text cs s =
    let parts : split_from (codes ";") 0 [] (cache_status_text cs)
        ≡ codes "Always-Cache" ∷ map spaced (items cs) =
      rw (cache_status_text-tails cs)
        (split-tails (codes "Always-Cache") (items cs) (omega arith) (items-IsPart cs s)) in
    ap (λ l. foldl read_item new_cache_status (behind_first l)) parts
    ∙ ap (λ c. read_items c (optional_items cs))
        (status_read cs.status cs.fwd_reason s.set s.hit_only s.standard_reason)
    ∙ optional_read cs (record new_cache_status { status = cs.status; fwd_reason = cs.fwd_reason })
        refl refl refl s.int_ttl
