-- ===== src/Tests/Memory.antt =====
-- A database in memory, which behaves as SQLiteCache asks.
use always_cache.Base.{
  Bool, true, false, List, [], ◌∷◌, ◌++◌, In, Option, none, some, ◌==◌, if◌then◌else◌, inl, inr,
  ◌≡◌, ◌≢◌, refl, sym, ap, ◌∙◌, arith, Bool-cases,
}
use always_cache.Go.Strings.{Str, codes, same, has_prefix, strip_prefix}
use always_cache.Go.Strings.Laws.{same_iff, same_self}
use always_cache.Sqlite.{Row, Engine}
use always_cache.Sqlite.Scan.{true-ne-false}
use always_cache.Sqlite.Laws.{EngineLaws}

-- LIKE for a pattern whose only wildcard is a percent sign at its end, and no other.
abbrev pub like : Str → Str → Bool
like [] key = false
like (c ∷ pattern) [] = c == b'%'
like (c ∷ pattern) (d ∷ key) =
    if c == b'%' then true else if c == d then like pattern key else false

pub found : Str → List Row → List Row
found pattern [] = []
found pattern (row ∷ rows) =
    if like pattern row.key then row ∷ found pattern rows else found pattern rows

pub without : Str → List Row → List Row
without key [] = []
without key (row ∷ rows) = if same row.key key then without key rows else row ∷ without key rows

abbrev first_row : List Row → Option Row
first_row [] = none
first_row (row ∷ rows) = some row

abbrev with_key : Str → List Row → Option Row
with_key key [] = none
with_key key (row ∷ rows) = if same row.key key then some row else with_key key rows

unfoldable pub memory : Engine (List Row)
unfolding found without
memory = record {
  select_like = λ db pattern. some (found pattern db);
  select_key = λ db key. with_key key db;
  select_oldest = λ db pattern. some (first_row (found pattern db));
  insert_or_replace = λ db row. some (row ∷ without row.key db);
  delete = λ db key. some (without key db);
  exec_select = λ db key. some 0;
}

not_key : (row r : Row) (key : Str) → same row.key key ≡ false → r ≡ row → r.key ≢ key
not_key row r key kept same_row e =
    true-ne-false
      (sym ((same_iff row.key key).1 (sym (ap (λ (x : Row). x.key) same_row) ∙ e)) ∙ kept)

some_rows : {xs ys : List Row} → some xs ≡ some ys → xs ≡ ys
some_rows e = cc

member : {xs ys : List Row} (r : Row) → xs ≡ ys → In r xs → In r ys
member r e h = rw e at h

In-without :
    (key : Str) (rows : List Row) (r : Row) → In r (without key rows) → In r rows × (r.key ≢ key)
unfolding without
In-without key [] r h = absurd h
In-without key (row ∷ rows) r h = elim (Bool-cases (same row.key key)) [
  | inl gone ↦ let (old, other) = In-without key rows r (rw gone at h) in (inr old, other)
  | inr kept ↦ elim (rw kept at h) [
    | inl same_row ↦ (inl same_row, λ e. not_key row r key kept same_row e)
    | inr later ↦ let (old, other) = In-without key rows r later in (inr old, other)
  ]
]

In-found : (pattern : Str) (rows : List Row) (r : Row) → In r (found pattern rows) → In r rows
unfolding found
In-found pattern [] r h = absurd h
In-found pattern (row ∷ rows) r h = elim (Bool-cases (like pattern row.key)) [
  | inl fit ↦ elim (rw fit at h) [
    | inl same_row ↦ inl same_row
    | inr later ↦ inr (In-found pattern rows r later)
  ]
  | inr unfit ↦ inr (In-found pattern rows r (rw unfit at h))
]

found_every :
    (pattern : Str) (rows : List Row) (r : Row)
    → In r rows
    → like pattern r.key ≡ true
    → In r (found pattern rows)
unfolding found
found_every pattern [] r h e = absurd h
found_every pattern (row ∷ rows) r h e = elim (Bool-cases (like pattern row.key)) [
  | inl fit ↦ elim h [
    | inl same_row ↦ rw fit (inl same_row)
    | inr later ↦ rw fit (inr (found_every pattern rows r later e))
  ]
  | inr unfit ↦ elim h [
    | inl same_row ↦ absurd (true-ne-false (rw (← same_row, e) at unfit))
    | inr later ↦ rw unfit (found_every pattern rows r later e)
  ]
]

like_prefix :
    (prefix key : Str) → has_prefix key prefix ≡ true → like (prefix ++ codes "%") key ≡ true
unfolding has_prefix strip_prefix
like_prefix [] [] h = refl
like_prefix [] (d ∷ key) h = refl
like_prefix (c ∷ prefix) [] h = cc
like_prefix (c ∷ prefix) (d ∷ key) h = ground (arith, like_prefix prefix key)

with_key-without :
    (key gone : Str) (rows : List Row)
    → key ≢ gone
    → with_key key (without gone rows) ≡ with_key key rows
unfolding without
with_key-without key gone [] n = refl
with_key-without key gone (row ∷ rows) n =
    ground (arith, same_iff row.key key, same_iff row.key gone, with_key-without key gone rows)

select_inserted :
    (db db' : List Row) (row : Row)
    → some (row ∷ without row.key db) ≡ some db'
    → with_key row.key db' ≡ some row
select_inserted db db' row e = rw (← some_rows e) (rw (same_self row.key) refl)

select_kept :
    (db db' : List Row) (row : Row) (key : Str)
    → some (row ∷ without row.key db) ≡ some db'
    → key ≢ row.key
    → with_key key db' ≡ with_key key db
select_kept db db' row key e other =
    rw (← some_rows e) (ground (arith, same_iff row.key key, with_key-without key row.key db))

with_key_gone : (key : Str) (rows : List Row) → with_key key (without key rows) ≡ none
unfolding without
with_key_gone key [] = refl
with_key_gone key (row ∷ rows) = ground (arith, with_key_gone key rows)

pub memory-EngineLaws : EngineLaws memory (λ db. db) like
unfolding memory
memory-EngineLaws = record {
  insert_only = λ db db' row r e h. elim (member r (sym (some_rows e)) h) [
    | inl new ↦ inl new
    | inr old ↦ inr (In-without row.key db r old)
  ];
  insert_new = λ db db' row e. member row (some_rows e) (inl refl);
  select_new = λ db db' row e. select_inserted db db' row e;
  select_other = λ db db' row key e other. select_kept db db' row key e other;
  delete_only = λ db db' key r e h. In-without key db r (member r (sym (some_rows e)) h);
  select_deleted = λ db db' key e. rw (← some_rows e) (with_key_gone key db);
  select_not_deleted = λ db db' gone key e n. rw (← some_rows e) (with_key-without key gone db n);
  select_only = λ db pattern rows r e h. In-found pattern db r (member r (sym (some_rows e)) h);
  select_every =
      λ db pattern rows r e h fit. member r (some_rows e) (found_every pattern db r h fit);
  like_prefix = like_prefix;
}
