-- ===== src/Sqlite/Laws.antt =====
-- SQLiteCache keeps what the interface promises, if the engine does what its statements say.
use always_cache.Base.{
  Bool, true, false, List, [], ◌++◌, In, none, some, ◌⊎◌, inl, inr, ◌≡◌, ◌≢◌, refl, sym, ap, ◌∙◌,
  arith, Bool-cases, [], Option-cases,
}
use always_cache.Base.Int.{pos, negsuc, ◌+ℤ◌, ◌*ℤ◌, ◌≤ℤ◌, ◌<ℤ◌}
use always_cache.Go.Strings.{Str, codes, has_prefix}
use always_cache.Go.Time.{Time, nanos, unix, of_unix}
use always_cache.Go.Panic.{returns}
use always_cache.Provider.{CacheEntry, ProviderLaws}
use always_cache.Sqlite.Scan.{true-ne-false, scan_rows_members, scan_rows_complete}
use always_cache.Sqlite.{
  Row, Engine, put_row, scan_row, scan_rows, entry_row, all, put, put_ce, purge, write_row,
  sqlite_cache,
}

-- The engine's documented behaviour, for the rows of a database and the LIKE operator.
pub record EngineLaws {Db : Type 0} (engine : Engine Db) (rows : Db → List Row)
    (like : Str → Str → Bool) : Type 0 where
  -- INSERT OR REPLACE leaves the new row, and the old rows with other keys.
  pub insert_only :
      (db db' : Db) (row r : Row)
      → engine.insert_or_replace db row ≡ some db'
      → In r (rows db')
      → (r ≡ row) ⊎ (In r (rows db) × (r.key ≢ row.key))
  pub insert_new :
      (db db' : Db) (row : Row) → engine.insert_or_replace db row ≡ some db' → In row (rows db')
  -- SELECT by the primary key gives the row that has it.
  pub select_new :
      (db db' : Db) (row : Row)
      → engine.insert_or_replace db row ≡ some db'
      → engine.select_key db' row.key ≡ some row
  pub select_other :
      (db db' : Db) (row : Row) (key : Str)
      → engine.insert_or_replace db row ≡ some db'
      → key ≢ row.key
      → engine.select_key db' key ≡ engine.select_key db key
  -- DELETE leaves the rows with other keys.
  pub delete_only :
      (db db' : Db) (key : Str) (r : Row)
      → engine.delete db key ≡ some db'
      → In r (rows db')
      → In r (rows db) × (r.key ≢ key)
  pub select_deleted :
      (db db' : Db) (key : Str) → engine.delete db key ≡ some db' → engine.select_key db' key ≡ none
  pub select_not_deleted :
      (db db' : Db) (gone key : Str)
      → engine.delete db gone ≡ some db'
      → key ≢ gone
      → engine.select_key db' key ≡ engine.select_key db key
  -- SELECT gives the rows whose keys fit the pattern.
  pub select_only :
      (db : Db) (pattern : Str) (found : List Row) (r : Row)
      → engine.select_like db pattern ≡ some found
      → In r found
      → In r (rows db)
  pub select_every :
      (db : Db) (pattern : Str) (found : List Row) (r : Row)
      → engine.select_like db pattern ≡ some found
      → In r (rows db)
      → like pattern r.key ≡ true
      → In r found
  -- A text with a prefix fits the prefix and a percent sign.
  pub like_prefix :
      (prefix key : Str) → has_prefix key prefix ≡ true → like (prefix ++ codes "%") key ≡ true

-- The database has a row for the entry.
abbrev pub HasEntry : {Db : Type 0} → (Db → List Row) → Db → CacheEntry → Type 0
HasEntry rows db e = (r : Row) × In r (rows db) × (scan_row r ≡ some e)

-- The times of an entry, as they are read back.
abbrev pub to_seconds : Time → Time
to_seconds t = of_unix (unix t)

abbrev pub rounded : CacheEntry → CacheEntry
rounded ce = record {
  key = ce.key;
  expires = to_seconds ce.expires;
  requested_at = to_seconds ce.requested_at;
  received_at = to_seconds ce.received_at;
  bytes = ce.bytes;
}

pub scan_row-entry_row : (ce : CacheEntry) → scan_row (entry_row ce) ≡ some (rounded ce)
unfolding scan_row
scan_row-entry_row ce = refl

-- A time is read back as the beginning of its second.
pub to_seconds_bounds : (t : Time) → (to_seconds t ≤ℤ t) × (t <ℤ to_seconds t +ℤ pos nanos)
unfolding unix of_unix ◌+ℤ◌ ◌*ℤ◌
to_seconds_bounds (pos n) = ground arith
to_seconds_bounds (negsuc n) = ground arith

new_entry :
    (ce e : CacheEntry) → scan_row (entry_row ce) ≡ some e → (e.key ≡ ce.key) × (e.bytes ≡ ce.bytes)
unfolding scan_row
new_entry ce e h = ground arith

scanned_key : (r : Row) (e : CacheEntry) → scan_row r ≡ some e → e.key ≡ r.key
unfolding scan_row
scanned_key r e h = ground arith

put_row_unread :
    (key : Str) (expires : Time) (bytes : Str) (e : CacheEntry)
    → scan_row (put_row key expires bytes) ≡ some e
    → ⊥
unfolding scan_row
put_row_unread key expires bytes e h = cc

some_injective : {x y : CacheEntry} → some x ≡ some y → x ≡ y
some_injective e = cc

module _ {Db : Type 0} {engine : Engine Db} {rows : Db → List Row} {like : Str → Str → Bool}
    (laws : EngineLaws engine rows like) where
  put_ce_holds :
      (db : Db) (ce e : CacheEntry)
      → HasEntry rows (put_ce engine db ce).0 e
      → HasEntry rows db e ⊎ ((e.key ≡ ce.key) × (e.bytes ≡ ce.bytes))
  unfolding put_ce
  put_ce_holds db ce e h = elim (Option-cases (engine.insert_or_replace db (entry_row ce))) [
    | inl failed ↦ inl (rw (failed, write_row) at h)
    | inr (db', done) ↦
        let (r, among, read) : HasEntry rows db' e = rw (done, write_row) at h in
        elim (laws.insert_only db db' (entry_row ce) r done among) [
          | inl new ↦ inr (new_entry ce e (rw new at read))
          | inr (old, other) ↦ inl (r, old, read)
        ]
  ]

  purge_holds :
      (db db' : Db) (key : Str) (e : CacheEntry)
      → purge engine db key ≡ returns db'
      → HasEntry rows db' e
      → HasEntry rows db e × (e.key ≢ key)
  unfolding purge
  purge_holds db db' key e done (r, among, read) =
      let deleted : engine.delete db key ≡ some db' = ground arith in
      let (old, other) = laws.delete_only db db' key r deleted among in
      ((r, old, read), rw (scanned_key r e read) other)

  all_failed :
      (db : Db) (prefix : Str)
      → engine.select_like db (prefix ++ codes "%") ≡ none
      → all engine db prefix ≡ ([], true)
  unfolding all
  all_failed db prefix e = rw (e, all)

  all_found :
      (db : Db) (prefix : Str) (found : List Row)
      → engine.select_like db (prefix ++ codes "%") ≡ some found
      → all engine db prefix ≡ scan_rows [] found
  unfolding all
  all_found db prefix found e = rw (e, all)

  nothing-In :
      (db : Db) (e : CacheEntry) (l : List CacheEntry × Bool) → l ≡ ([], true) → In e l.0 → ⊥
  nothing-In db e l same h = rw same at h

  all_holds :
      (db : Db) (prefix : Str) (e : CacheEntry) → In e (all engine db prefix).0 → HasEntry rows db e
  all_holds db prefix e h = elim (Option-cases (engine.select_like db (prefix ++ codes "%"))) [
    | inl failed ↦ absurd (nothing-In db e _ (all_failed db prefix failed) h)
    | inr (found, done) ↦
        elim (scan_rows_members [] found e (rw (all_found db prefix found done) at h)) [
          | inl nothing ↦ absurd nothing
          | inr (r, among, read) ↦ (r, laws.select_only db _ found r done among, read)
        ]
  ]

  -- A row of a prefix is read, if All has no error.
  all_read :
      (db : Db) (prefix : Str) (r : Row)
      → In r (rows db)
      → has_prefix r.key prefix ≡ true
      → (all engine db prefix).1 ≡ false
      → (e : CacheEntry) × (scan_row r ≡ some e) × In e (all engine db prefix).0
  all_read db prefix r among begins listed =
      elim (Option-cases (engine.select_like db (prefix ++ codes "%"))) [
        | inl failed ↦ absurd (
            true-ne-false (
              sym (ap (λ (l : List CacheEntry × Bool). l.1) (all_failed db prefix failed))
              ∙ listed))
        | inr (found, done) ↦
            let same = all_found db prefix found done in
            let fits = laws.like_prefix prefix r.key begins in
            let there = laws.select_every db _ found r done among fits in
            let (e, read, given) = scan_rows_complete [] found r (rw same at listed) there in
            (e, read, rw same given)
      ]

  write_row_done :
      (db : Db) (row : Row)
      → (write_row engine db row).1 ≡ false
      → In row (rows (write_row engine db row).0)
  unfolding write_row
  write_row_done db row stored = elim (Option-cases (engine.insert_or_replace db row)) [
    | inl failed ↦ absurd (true-ne-false (rw (failed, write_row) at stored))
    | inr (db', done) ↦ rw (done, write_row) (laws.insert_new db db' row done)
  ]

  -- SQLiteCache is a CacheProvider that keeps the interface's promises (PutCE adds one entry at most,
  -- Purge takes a key's entries away, All gives entries that are held), if the engine does what its
  -- statements say.
  pub sqlite_cache-ProviderLaws : ProviderLaws (sqlite_cache engine) (HasEntry rows)
  unfolding sqlite_cache
  sqlite_cache-ProviderLaws = record {
    put_ce_holds = put_ce_holds;
    purge_holds = purge_holds;
    all_holds = all_holds;
  }

  -- If the engine does what its statements say, an entry that PutCE has stored is among those that All
  -- gives for a prefix of its key, if neither reports an error; its times have lost their fractions
  -- of a second.
  pub all-put_ce :
      (db : Db) (ce : CacheEntry) (prefix : Str)
      → (put_ce engine db ce).1 ≡ false
      → has_prefix ce.key prefix ≡ true
      → (all engine (put_ce engine db ce).0 prefix).1 ≡ false
      → In (rounded ce) (all engine (put_ce engine db ce).0 prefix).0
  unfolding put_ce
  all-put_ce db ce prefix stored begins listed =
      let there = write_row_done db (entry_row ce) stored in
      let (e, read, given) =
        all_read (put_ce engine db ce).0 prefix (entry_row ce) there begins listed in
      rw (some_injective (sym (scan_row-entry_row ce) ∙ read)) given

  -- If the engine does what its statements say, a row that Put has written makes All fail for every
  -- prefix of its key.
  pub all-put :
      (db : Db) (key prefix bytes : Str) (expires : Time)
      → (put engine db key expires bytes).1 ≡ false
      → has_prefix key prefix ≡ true
      → (all engine (put engine db key expires bytes).0 prefix).1 ≡ true
  unfolding put
  all-put db key prefix bytes expires stored begins =
      elim (Bool-cases (all engine (put engine db key expires bytes).0 prefix).1) [
        | inl failed ↦ failed
        | inr listed ↦
            let there = write_row_done db (put_row key expires bytes) stored in
            let (e, read, given) =
              all_read (put engine db key expires bytes).0 prefix (put_row key expires bytes) there
                begins listed in
            absurd (put_row_unread key expires bytes e read)
      ]
