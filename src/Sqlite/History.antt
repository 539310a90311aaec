-- ===== src/Sqlite/History.antt =====
-- SQLiteCache refines a map from keys to rows.
use always_cache.Base.{
  Bool, true, false, List, [], ◌∷◌, Option, none, some, inl, inr, ◌≡◌, ◌≢◌, refl, sym, ◌∙◌,
  Bool-cases, Option-cases, if◌then◌else◌,
}
use always_cache.Base.Int.{ltb_ℤ}
use always_cache.Go.Strings.{Str, same}
use always_cache.Go.Strings.Laws.{same_iff, eq_of_same}
use always_cache.Go.Time.{Time, of_unix}
use always_cache.Go.Panic.{Call, returns, ◌>>=◌}
use always_cache.Provider.{CacheEntry, Got}
use always_cache.Sqlite.{Row, Engine, entry_row, put_row, write_row, get, put, put_ce, purge}
use always_cache.Sqlite.Scan.{true-ne-false}
use always_cache.Sqlite.Laws.{EngineLaws}

-- A call of the cache that changes it.
pub data Change : Type 0 where
  puts : Str → Time → Str → Change
  puts_entry : CacheEntry → Change
  purges : Str → Change

-- The abstract cache: the row of each key.
abbrev pub Rows : Type 0
Rows = Str → Option Row

abbrev pub with_row : Rows → Row → Rows
with_row m row key = if same key row.key then some row else m key

-- What a change does to the map, if it gave no error; with an error it does nothing.
abbrev pub changed : Rows → Change → Bool → Rows
changed m change true = m
changed m (puts key expires bytes) false = with_row m (put_row key expires bytes)
changed m (puts_entry ce) false = with_row m (entry_row ce)
changed m (purges gone) false = λ key. if same key gone then none else m key

abbrev pub all_changed : Rows → List Change → List Bool → Rows
all_changed m [] failed = m
all_changed m (change ∷ changes) [] = m
all_changed m (change ∷ changes) (f ∷ failed) = all_changed (changed m change f) changes failed

-- What the map gives for a key: no row is an error, and a row that has expired is not found.
abbrev pub looked_up : Rows → Time → Str → Got
looked_up m now key = elim (m key) [
  | none ↦ record { bytes = []; found = false; failed = true }
  | some row ↦
      if ltb_ℤ (of_unix row.expires) now
      then record { bytes = []; found = false; failed = false }
      else record { bytes = row.bytes; found = true; failed = false }
]

module _ {Db : Type 0} (engine : Engine Db) where
  change : Db → Change → Call (Db × Bool)
  change db (puts key expires bytes) = returns (put engine db key expires bytes)
  change db (puts_entry ce) = returns (put_ce engine db ce)
  change db (purges key) = purge engine db key >>= λ db'. returns (db', false)

  -- The changes one after the other, with `true` for each that gave an error.
  unfoldable pub change_all : Db → List Change → Call (Db × List Bool)
  unfolding change
  change_all db [] = returns (db, [])
  change_all db (c ∷ cs) =
      change db c >>= λ (db', f). change_all db' cs >>= λ (last, failed). returns (last, f ∷ failed)

other_key : {key k : Str} → same key k ≡ false → key ≢ k
other_key {key} {k} other e = true-ne-false (sym ((same_iff key k).1 e) ∙ other)

-- The database has the rows of the map.
abbrev Refines : {Db : Type 0} → Engine Db → Db → Rows → Type 0
Refines engine db m = (key : Str) → engine.select_key db key ≡ m key

module _ {Db : Type 0} {engine : Engine Db} {rows : Db → List Row} {like : Str → Str → Bool}
    (laws : EngineLaws engine rows like) where
  written :
      (db : Db) (m : Rows) (row : Row)
      → Refines engine db m
      → Refines engine
          (write_row engine db row).0
          (if (write_row engine db row).1 then m else with_row m row)
  unfolding write_row
  written db m row same_rows key = elim (Option-cases (engine.insert_or_replace db row)) [
    | inl failed ↦ rw (failed, write_row) (same_rows key)
    | inr (db', done) ↦ elim (Bool-cases (same key row.key)) [
      | inl equal ↦
          rw (done, write_row, equal, eq_of_same key row.key equal)
            (laws.select_new db db' row done)
      | inr other ↦
          rw (done, write_row, other)
            (laws.select_other db db' row key done (other_key other) ∙ same_rows key)
    ]
  ]

  deleted :
      (db db' : Db) (m : Rows) (gone : Str)
      → Refines engine db m
      → engine.delete db gone ≡ some db'
      → Refines engine db' (λ key. if same key gone then none else m key)
  deleted db db' m gone same_rows done key = elim (Bool-cases (same key gone)) [
    | inl equal ↦ rw (equal, eq_of_same key gone equal) (laws.select_deleted db db' gone done)
    | inr other ↦
        rw other (laws.select_not_deleted db db' gone key done (other_key other) ∙ same_rows key)
  ]

  -- A change that writes a row.
  writes :
      (m : Rows) (c : Change) (row : Row) (result : Db × Bool)
      → changed m c false ≡ with_row m row
      → Refines engine result.0 (if result.1 then m else with_row m row)
      → (db' : Db) × (failed : Bool) × (returns result ≡ returns (db', failed))
        × Refines engine db' (changed m c failed)
  writes m c row (db', true) e h = (db', true, refl, h)
  writes m c row (db', false) e h = (db', false, refl, rw e h)

  -- DELETE has no error.
  abbrev pub Deletes : Type 0
  Deletes = (db : Db) (key : Str) → (db' : Db) × (engine.delete db key ≡ some db')

  change-Refines :
      Deletes
      → (db : Db) (m : Rows) (c : Change) → Refines engine db m
      → (db' : Db) × (failed : Bool) × (change engine db c ≡ returns (db', failed))
        × Refines engine db' (changed m c failed)
  unfolding change put put_ce purge
  change-Refines deletes db m (puts key expires bytes) same_rows =
      writes m (puts key expires bytes) (put_row key expires bytes)
        (put engine db key expires bytes) refl (written db m (put_row key expires bytes) same_rows)
  change-Refines deletes db m (puts_entry ce) same_rows =
      writes m (puts_entry ce) (entry_row ce) (put_ce engine db ce) refl
        (written db m (entry_row ce) same_rows)
  change-Refines deletes db m (purges gone) same_rows =
      let (db', done) = deletes db gone in
      (db', false, rw (change, purge, done) refl, deleted db db' m gone same_rows done)

  change_all-Refines :
      Deletes
      → (db : Db) (m : Rows) (changes : List Change) → Refines engine db m
      → (db' : Db) × (failed : List Bool) × (change_all engine db changes ≡ returns (db', failed))
        × Refines engine db' (all_changed m changes failed)
  unfolding change_all
  change_all-Refines deletes db m [] same_rows = (db, [], refl, same_rows)
  change_all-Refines deletes db m (c ∷ cs) same_rows =
      let (db₁, f, e, same_rows₁) = change-Refines deletes db m c same_rows in
      let (db₂, failed, e₂, same_rows₂) =
        change_all-Refines deletes db₁ (changed m c f) cs same_rows₁ in
      (db₂, f ∷ failed, rw (e, e₂) refl, same_rows₂)

  -- Puts, PutCEs and Purges, in any order and number, do not panic, if DELETE has no error and the
  -- engine does what its statements say. Get then gives for every key what the map gives that has
  -- undergone the changes that had no error, from what SELECT gave for each key in the beginning: an
  -- error where there is no row, nothing if the second in which the row expires began before the
  -- present time, and otherwise the bytes that were written last.
  pub get-change_all :
      (deletes : Deletes) (db : Db) (changes : List Change) (now : Time) (key : Str)
      → (db' : Db) × (failed : List Bool) × (change_all engine db changes ≡ returns (db', failed))
        × (get engine db' now key
            ≡ looked_up (all_changed (engine.select_key db) changes failed) now key)
  unfolding get
  get-change_all deletes db changes now key =
      let (db', failed, e, same_rows) =
        change_all-Refines deletes db (engine.select_key db) changes (λ k. refl) in
      (db', failed, e, rw (same_rows key, get) refl)
