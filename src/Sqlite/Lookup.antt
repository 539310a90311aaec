-- ===== src/Sqlite/Lookup.antt =====
-- What Get finds after an entry was put.
use always_cache.Base.{
  Bool, true, false, List, [], inl, inr, ◌≡◌, ◌≢◌, refl, Option-cases, if◌then◌else◌,
}
use always_cache.Base.Int.{ltb_ℤ}
use always_cache.Go.Strings.{Str}
use always_cache.Go.Time.{Time}
use always_cache.Provider.{CacheEntry}
use always_cache.Sqlite.{Row, Engine, entry_row, get, put_ce, write_row}
use always_cache.Sqlite.Scan.{true-ne-false}
use always_cache.Sqlite.Laws.{EngineLaws, to_seconds}

module _ {Db : Type 0} {engine : Engine Db} {rows : Db → List Row} {like : Str → Str → Bool}
    (laws : EngineLaws engine rows like) where
  -- If the engine does what its statements say, then after a PutCE without an error, Get finds the
  -- entry's bytes under its key, unless the second in which it expires began before the present time,
  -- and it gives for any other key what it gave before.
  pub get-put_ce :
      (db : Db) (now : Time) (ce : CacheEntry) (key : Str)
      → (put_ce engine db ce).1 ≡ false
      → key ≢ ce.key
      → (get engine (put_ce engine db ce).0 now ce.key ≡ (
          if ltb_ℤ (to_seconds ce.expires) now
          then record { bytes = []; found = false; failed = false }
          else record { bytes = ce.bytes; found = true; failed = false }))
        × (get engine (put_ce engine db ce).0 now key ≡ get engine db now key)
  unfolding put_ce write_row get
  get-put_ce db now ce key stored other =
      elim (Option-cases (engine.insert_or_replace db (entry_row ce))) [
        | inl failed ↦ absurd (true-ne-false (rw (failed, write_row) at stored))
        | inr (db', done) ↦ (
          rw (done, write_row, get, laws.select_new db db' (entry_row ce) done) refl,
          rw (done, write_row, get, laws.select_other db db' (entry_row ce) key done other) refl,
        )
      ]
