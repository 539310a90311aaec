-- ===== src/Key/Vary.antt =====
-- The vary lines of a key, read back as a header.
use always_cache.Base.{
  ℕ, true, List, [], ◌∷◌, ◌++◌, append-nil, all, if◌then◌else◌, ◌≡◌, refl, ap, ◌∙◌, arith, All,
  Bool-cases, inl, inr,
}
use always_cache.Go.Strings.{Str, codes, to_lower, split, split_from, split_two}
use always_cache.Go.Strings.Laws.{Lacks}
use always_cache.Go.Strings.Splitting.{
  split_from-append, split_from_last, split_two-append, to_lower-Lacks,
}
use always_cache.Go.Header.{Header, is_token, get, add}
use always_cache.Go.Panic.{Call, returns, ◌>>=◌}
use always_cache.Rfc9111.Fields.{field_absent}
use always_cache.Key.{vary_lines, add_entry, add_lines, behind_first}

abbrev pub newline : ℕ
newline = b'\n'

-- A field name as the standard has it: token bytes, which a colon and a newline are not.
pub record IsFieldName (name : Str) : Type 0 where
  pub tokens : all is_token name ≡ true
  pub one_line : Lacks newline name
  pub no_colon : Lacks b':' name

-- The text of one line.
abbrev line_of : Header → Str → Str
line_of h name = to_lower name ++ (codes ": " ++ get h name)

-- The lines for the nominated fields that the request has.
lines_of : Header → List Str → List Str
lines_of h [] = []
lines_of h (name ∷ names) =
    if field_absent h name then lines_of h names else line_of h name ∷ lines_of h names

-- The header that the lines stand for.
unfoldable pub added : Header → Header → List Str → Header
added h acc [] = acc
added h acc (name ∷ names) =
    added h (if field_absent h name then acc else add acc (to_lower name) (get h name)) names

-- The nominated fields and their values fit in lines.
abbrev pub Fits : Header → List Str → Type 0
Fits h = All (λ name. IsFieldName name × Lacks newline (get h name))

Lacks-append : (b : ℕ) (s t : Str) → Lacks b s → Lacks b t → Lacks b (s ++ t)
Lacks-append b [] t h k = k
Lacks-append b (c ∷ s) t (n, h) k = (n, Lacks-append b s t h k)

line_of-Lacks :
    (h : Header) (name : Str)
    → IsFieldName name
    → Lacks newline (get h name)
    → Lacks newline (line_of h name)
line_of-Lacks h name f g =
    Lacks-append newline (to_lower name) _ (to_lower-Lacks newline name refl f.one_line)
      (Lacks-append newline (codes ": ") (get h name) (omega arith) g)

split_from-vary_lines :
    (h : Header) (names : List Str) (part p : Str)
    → Fits h names
    → Lacks newline p
    → split_from (newline ∷ []) 0 part (p ++ vary_lines h names) ≡ (part ++ p) ∷ lines_of h names
unfolding vary_lines lines_of
split_from-vary_lines h [] part p f l = rw append-nil (split_from_last newline part p l)
split_from-vary_lines h (name ∷ names) part p ((n, v), f) l =
    elim (Bool-cases (field_absent h name)) [
      | inl absent ↦ rw absent (split_from-vary_lines h names part p f l)
      | inr present ↦ rw (
        present,
        split_from-append newline part p (line_of h name ++ vary_lines h names) l,
        split_from-vary_lines h names [] (line_of h name) f (line_of-Lacks h name n v),
      )
    ]

add_entry-line_of :
    (h acc : Header) (name : Str)
    → IsFieldName name
    → add_entry acc (split_two (line_of h name) (codes ": "))
      ≡ returns (add acc (to_lower name) (get h name))
add_entry-line_of h acc name n =
    rw
      (split_two-append b':' 32 (to_lower name) (get h name)
        (to_lower-Lacks b':' name refl n.no_colon))
      (unfold add_entry in refl)

add_lines-lines_of :
    (h acc : Header) (names : List Str)
    → Fits h names
    → add_lines acc (lines_of h names) ≡ returns (added h acc names)
unfolding lines_of added add_lines
add_lines-lines_of h acc [] f = refl
add_lines-lines_of h acc (name ∷ names) ((n, v), f) = elim (Bool-cases (field_absent h name)) [
  | inl absent ↦ rw absent (add_lines-lines_of h acc names f)
  | inr present ↦ rw present (
      ap (λ (c : Call Header). c >>= λ g. add_lines g (lines_of h names))
        (add_entry-line_of h acc name n)
      ∙ add_lines-lines_of h (add acc (to_lower name) (get h name)) names f)
]

-- Reading the lines behind a text without newlines gives the nominated fields of the request.
pub add_lines-split :
    (h : Header) (names : List Str) (p : Str)
    → Fits h names
    → Lacks newline p
    → add_lines [] (behind_first (split (p ++ vary_lines h names) (newline ∷ [])))
      ≡ returns (added h [] names)
unfolding split
add_lines-split h names p f l =
    rw (split_from-vary_lines h names [] p f l) (add_lines-lines_of h [] names f)
