-- ===== src/Key/Copies.antt =====
-- The header read from a key's vary lines holds what the request's header holds in those fields.
use always_cache.Base.{
  true, false, List, [], ◌∷◌, ◌++◌, ◌≡◌, ◌≢◌, ◌⊎◌, refl, sym, ◌∙◌, arith, All, Bool-cases, inl, inr,
}
use always_cache.Go.Strings.{Str, codes, same, to_lower}
use always_cache.Go.Strings.Laws.{same_iff}
use always_cache.Go.Header.{Header, canonical, get, values, add, first}
use always_cache.Go.Header.Laws.{values-add}
use always_cache.Go.Header.Names.{canonical-to_lower, values_congr}
use always_cache.Rfc9111.Fields.{field_absent}
use always_cache.Rfc9111.Reuse.Laws.{SameField}
use always_cache.Key.Vary.{IsFieldName, Fits, added}

-- The values `xs` of one field copy the values `ys`: they are none, or begin alike.
abbrev IsCopy : List Str → List Str → Type 0
IsCopy xs ys = (xs ≡ []) ⊎ ((xs ≢ []) × (ys ≢ []) × (first xs ≡ first ys))

abbrev Copies : Header → Header → Type 0
Copies acc h = (other : Str) → IsCopy (values acc other) (values h other)

IsCopy-append : (xs ys : List Str) → ys ≢ [] → IsCopy xs ys → IsCopy (xs ++ first ys ∷ []) ys
IsCopy-append [] ys n c = ground arith
IsCopy-append (x ∷ xs) ys n c = ground arith

present_values : (h : Header) (name : Str) → field_absent h name ≡ false → values h name ≢ []
unfolding field_absent
present_values h name e = ground arith

absent_values : (h : Header) (name : Str) → field_absent h name ≡ true → values h name ≡ []
unfolding field_absent
absent_values h name e = ground arith

get-first : (h : Header) (name : Str) → get h name ≡ first (values h name)
unfolding get
get-first h name = refl

IsNonempty-append : (xs : List Str) (v : Str) → xs ++ v ∷ [] ≢ []
IsNonempty-append [] v = cc
IsNonempty-append (x ∷ xs) v = cc

module _ (h : Header) where
  add-Copies :
      (acc : Header) (name : Str)
      → IsFieldName name
      → values h name ≢ []
      → Copies acc h
      → Copies (add acc (to_lower name) (get h name)) h
  add-Copies acc name n p c other =
      elim (Bool-cases (same (canonical (to_lower name)) (canonical other))) [
        | inl here ↦
            let e = (same_iff (canonical (to_lower name)) (canonical other)).0 here in
            let named = sym (canonical-to_lower name n.tokens) ∙ e in
            rw
              (
                values-add acc (to_lower name) other (get h name),
                here,
                values_congr acc (to_lower name) other e,
                get-first h name,
                values_congr h name other named,
              )
              (IsCopy-append (values acc other) (values h other)
                (λ z. p (values_congr h name other named ∙ z)) (c other))
        | inr there ↦ rw (values-add acc (to_lower name) other (get h name), there) (c other)
      ]

  added-Copies :
      (acc : Header) (names : List Str) → Fits h names → Copies acc h → Copies (added h acc names) h
  unfolding added
  added-Copies acc [] f c = c
  added-Copies acc (name ∷ names) ((n, v), f) c = elim (Bool-cases (field_absent h name)) [
    | inl absent ↦ rw absent (added-Copies acc names f c)
    | inr present ↦ rw present (
        added-Copies (add acc (to_lower name) (get h name)) names f
          (add-Copies acc name n (present_values h name present) c))
  ]

  -- What a header holds stays held.
  add_keeps :
      (acc : Header) (name other v : Str)
      → values acc other ≢ []
      → values (add acc name v) other ≢ []
  add_keeps acc name other v p = elim (Bool-cases (same (canonical name) (canonical other))) [
    | inl here ↦ rw (values-add acc name other v, here) (IsNonempty-append (values acc name) v)
    | inr there ↦ rw (values-add acc name other v, there) p
  ]

  added_keeps :
      (acc : Header) (names : List Str) (other : Str)
      → values acc other ≢ []
      → values (added h acc names) other ≢ []
  unfolding added
  added_keeps acc [] other p = p
  added_keeps acc (name ∷ names) other p = elim (Bool-cases (field_absent h name)) [
    | inl absent ↦ rw absent (added_keeps acc names other p)
    | inr present ↦ rw present (
        added_keeps (add acc (to_lower name) (get h name)) names other
          (add_keeps acc (to_lower name) other (get h name) p))
  ]

  add_holds :
      (acc : Header) (name v : Str)
      → IsFieldName name
      → values (add acc (to_lower name) v) name ≢ []
  add_holds acc name v n =
      rw
        (
          values-add acc (to_lower name) name v,
          (same_iff (canonical (to_lower name)) (canonical name)).1
              (canonical-to_lower name n.tokens),
        )
        (IsNonempty-append (values acc (to_lower name)) v)

  -- Every nominated field that the request has is held.
  added_holds :
      (acc final : Header) (names : List Str)
      → Fits h names
      → final ≡ added h acc names
      → All (λ name. (values h name ≡ []) ⊎ (values final name ≢ [])) names
  unfolding added
  added_holds acc final [] f e = tt
  added_holds acc final (name ∷ names) ((n, v), f) e = elim (Bool-cases (field_absent h name)) [
    | inl absent ↦
        (inl (absent_values h name absent), added_holds acc final names f (rw absent at e))
    | inr present ↦
        let acc' = add acc (to_lower name) (get h name) in
        let e' : final ≡ added h acc' names = rw present at e in
        (
          inr (rw e' (added_keeps acc' names name (add_holds acc name (get h name) n))),
          added_holds acc' final names f e',
        )
  ]

-- One field is the same in both headers, if the one copies the other and holds what that has.
IsCopy-SameField :
    (h g : Header) (name : Str)
    → name ≢ codes "*"
    → IsCopy (values g name) (values h name)
    → (values h name ≡ []) ⊎ (values g name ≢ [])
    → SameField h g name
IsCopy-SameField h g name s c k =
    (rw (get-first h name, get-first g name) (ground arith), unfold field_absent in ground arith, s)

SameField-All :
    (h g : Header) (names : List Str)
    → All (λ name. name ≢ codes "*") names
    → Copies g h
    → All (λ name. (values h name ≡ []) ⊎ (values g name ≢ [])) names
    → All (SameField h g) names
SameField-All h g [] s c k = tt
SameField-All h g (name ∷ names) (s, ss) c (k, ks) =
    (IsCopy-SameField h g name s (c name) k, SameField-All h g names ss c ks)

-- The nominated fields are the same in the request's header and in the header read from its key.
pub SameField-added :
    (h : Header) (names : List Str)
    → Fits h names
    → All (λ name. name ≢ codes "*") names
    → All (SameField h (added h [] names)) names
SameField-added h names f s =
    SameField-All h (added h [] names) names s
      (added-Copies h [] names f (λ other. inl (unfold values in refl)))
      (added_holds h [] (added h [] names) names f refl)
