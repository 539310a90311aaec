-- ===== src/Sqlite.antt =====
-- cache/cache-provider.go, the type SQLiteCache. The database engine is a parameter: what each
-- statement of the source gives, with `none` for an error.
pub mod Scan
pub mod Laws
pub mod Lookup
pub mod History
use always_cache.Base.{
  ℕ, Bool, true, false, List, [], ◌∷◌, ◌++◌, map, Option, none, some, ltb, if◌then◌else◌,
}
use always_cache.Base.Int.{ℤ, ltb_ℤ}
use always_cache.Go.Strings.{Str, codes}
use always_cache.Go.Time.{Time, zero_time, unix, of_unix}
use always_cache.Go.Panic.{Call, returns, panics}
use always_cache.Provider.{CacheEntry, Got, Oldest, CacheProvider}

-- A row of the table cache. The two times are null where Put wrote the row.
pub record Row : Type 0 where
  pub key : Str
  pub expires : ℤ
  pub requested_at : Option ℤ
  pub received_at : Option ℤ
  pub bytes : Str

pub record Engine (Db : Type 0) : Type 0 where
  -- SELECT ... FROM cache WHERE key LIKE ?
  pub select_like : Db → Str → Option (List Row)
  -- SELECT expires, bytes FROM cache WHERE key = ?, read by QueryRow: no row is an error
  pub select_key : Db → Str → Option Row
  -- SELECT key, expires ... WHERE key LIKE ? AND expires > 0 ORDER BY expires ASC LIMIT 1
  pub select_oldest : Db → Str → Option (Option Row)
  -- INSERT OR REPLACE INTO cache
  pub insert_or_replace : Db → Row → Option Db
  -- DELETE FROM cache WHERE key = ?
  pub delete : Db → Str → Option Db
  -- RowsAffected of SELECT 1 FROM cache WHERE key = ?, run by Exec
  pub exec_select : Db → Str → Option ℕ

-- Scanning a null into an int64 is an error.
pub scan_row : Row → Option CacheEntry
scan_row row = elim row.requested_at [
  | none ↦ none
  | some req ↦ elim row.received_at [
    | none ↦ none
    | some rec ↦ some (record {
      key = row.key;
      expires = of_unix row.expires;
      requested_at = of_unix req;
      received_at = of_unix rec;
      bytes = row.bytes;
    })
  ]
]

-- The loop of All: it ends at the first row that cannot be read, with the entries so far.
pub scan_rows : List CacheEntry → List Row → List CacheEntry × Bool
unfolding scan_row
scan_rows entries [] = (entries, false)
scan_rows entries (row ∷ rows) = elim (scan_row row) [
  | none ↦ (entries, true)
  | some entry ↦ scan_rows (entries ++ entry ∷ []) rows
]

abbrev pub entry_row : CacheEntry → Row
entry_row ce = record {
  key = ce.key;
  expires = unix ce.expires;
  requested_at = some (unix ce.requested_at);
  received_at = some (unix ce.received_at);
  bytes = ce.bytes;
}

-- Put gives no times of the request and the response.
abbrev pub put_row : Str → Time → Str → Row
put_row key expires bytes = record {
  key = key;
  expires = unix expires;
  requested_at = none;
  received_at = none;
  bytes = bytes;
}

abbrev row_key : Row → Str
row_key row = row.key

module _ {Db : Type 0} (engine : Engine Db) where
  unfoldable pub all : Db → Str → List CacheEntry × Bool
  unfolding scan_rows
  all db prefix = elim (engine.select_like db (prefix ++ codes "%")) [
    | none ↦ ([], true)
    | some rows ↦ scan_rows [] rows
  ]

  unfoldable pub get : Db → Time → Str → Got
  get db now key = elim (engine.select_key db key) [
    | none ↦ record { bytes = []; found = false; failed = true }
    | some row ↦
        if ltb_ℤ (of_unix row.expires) now
        then record { bytes = []; found = false; failed = false }
        else record { bytes = row.bytes; found = true; failed = false }
  ]

  write_row : Db → Row → Db × Bool
  write_row db row = elim (engine.insert_or_replace db row) [
    | none ↦ (db, true)
    | some db' ↦ (db', false)
  ]

  unfoldable pub put : Db → Str → Time → Str → Db × Bool
  unfolding write_row
  put db key expires bytes = write_row db (put_row key expires bytes)

  unfoldable pub put_ce : Db → CacheEntry → Db × Bool
  unfolding write_row
  put_ce db ce = write_row db (entry_row ce)

  unfoldable pub oldest : Db → Str → Oldest
  oldest db prefix = elim (engine.select_oldest db (prefix ++ codes "%")) [
    | none ↦ record { key = []; expires = zero_time; failed = true }
    | some found ↦ elim found [
      | none ↦ record { key = []; expires = zero_time; failed = false }
      | some row ↦ record { key = row.key; expires = of_unix row.expires; failed = false }
    ]
  ]

  unfoldable pub purge : Db → Str → Call Db
  purge db key = elim (engine.delete db key) [ none ↦ panics | some db' ↦ returns db' ]

  unfoldable pub has : Db → Str → Call Bool
  has db key = elim (engine.exec_select db key) [ none ↦ panics | some n ↦ returns (ltb 0 n) ]

  -- AllKeys, as the list of the keys that the callback gets.
  unfoldable pub all_keys : Db → Str → List Str
  all_keys db prefix = elim (engine.select_like db (prefix ++ codes "%")) [
    | none ↦ []
    | some rows ↦ map row_key rows
  ]

  -- SQLiteCache as a CacheProvider.
  unfoldable pub sqlite_cache : CacheProvider Db
  unfolding all_keys all get put put_ce oldest purge has
  sqlite_cache = record {
    all_keys = all_keys;
    all = all;
    get = get;
    put = put;
    put_ce = put_ce;
    oldest = oldest;
    purge = purge;
    has = has;
  }
