-- ===== src/Sqlite/Scan.antt =====
-- Reading rows back: which entries a query gives, and when it fails.
use always_cache.Base.{
  true, false, List, [], ◌∷◌, ◌++◌, In, In-append, In-append_left, In-append_right, some, ◌⊎◌, inl,
  inr, ◌≡◌, refl, Option-cases,
}
use always_cache.Provider.{CacheEntry}
use always_cache.Sqlite.{Row, scan_row, scan_rows}

pub scan_rows_members :
    (es : List CacheEntry) (rs : List Row) (e : CacheEntry)
    → In e (scan_rows es rs).0
    → In e es ⊎ ((r : Row) × In r rs × (scan_row r ≡ some e))
unfolding scan_rows
scan_rows_members es [] e h = inl h
scan_rows_members es (r ∷ rs) e h = elim (Option-cases (scan_row r)) [
  | inl unread ↦ inl (rw (unread, scan_rows) at h)
  | inr (entry, read) ↦
      elim (scan_rows_members (es ++ entry ∷ []) rs e (rw (read, scan_rows) at h)) [
        | inl old ↦ elim (In-append e es (entry ∷ []) old) [
          | inl before ↦ inl before
          | inr (inl same) ↦ inr (r, inl refl, rw same read)
          | inr (inr none_left) ↦ absurd none_left
        ]
        | inr (r', among, read') ↦ inr (r', inr among, read')
      ]
]

scan_rows_keeps :
    (es : List CacheEntry) (rs : List Row) (e : CacheEntry) → In e es → In e (scan_rows es rs).0
unfolding scan_rows
scan_rows_keeps es [] e h = h
scan_rows_keeps es (r ∷ rs) e h = elim (Option-cases (scan_row r)) [
  | inl unread ↦ rw (unread, scan_rows) h
  | inr (entry, read) ↦
      rw (read, scan_rows)
        (scan_rows_keeps (es ++ entry ∷ []) rs e (In-append_left e es (entry ∷ []) h))
]

scan_rows_step :
    (es : List CacheEntry) (q : Row) (rs : List Row) (entry : CacheEntry)
    → scan_row q ≡ some entry
    → scan_rows es (q ∷ rs) ≡ scan_rows (es ++ entry ∷ []) rs
unfolding scan_rows
scan_rows_step es q rs entry read = rw (read, scan_rows)

pub true-ne-false : true ≡ false → ⊥
true-ne-false e = cc

-- A query with no error has read every row.
pub scan_rows_complete :
    (es : List CacheEntry) (rs : List Row) (r : Row)
    → (scan_rows es rs).1 ≡ false
    → In r rs
    → (e : CacheEntry) × (scan_row r ≡ some e) × In e (scan_rows es rs).0
unfolding scan_rows
scan_rows_complete es [] r ok h = absurd h
scan_rows_complete es (q ∷ rs) r ok h = elim (Option-cases (scan_row q)) [
  | inl unread ↦ absurd (true-ne-false (rw (unread, scan_rows) at ok))
  | inr (entry, read) ↦
      let step = scan_rows_step es q rs entry read in
      let ok' : (scan_rows (es ++ entry ∷ []) rs).1 ≡ false = rw step at ok in
      elim h [
        | inl same ↦ (
          entry,
          rw same read,
          rw step (
              scan_rows_keeps (es ++ entry ∷ []) rs entry
                (In-append_right entry es (entry ∷ []) (inl refl))),
        )
        | inr among ↦
            let (e, read', there) = scan_rows_complete (es ++ entry ∷ []) rs r ok' among in
            (e, read', rw step there)
      ]
]
