-- ===== src/Setup/Laws.antt =====
-- When the program comes to listen, and with what.
use always_cache.Base.{
  true, false, not, List, [], ◌∷◌, ◌++◌, ◌&&◌, Option, none, some, ◌≡◌, ◌≢◌, ◌⊎◌, ◌↔◌, inl, inr,
  refl, sym, arith, ap, ◌∙◌, if◌then◌else◌, Bool-cases,
}
use always_cache.Base.Int.{ℤ}
use always_cache.Go.Strings.{Str, codes, is_empty, same}
use always_cache.Go.Strings.Laws.{same_iff}
use always_cache.Go.Panic.{Call, returns, ◌>>=◌, Call-cases}
use always_cache.Provider.{CacheProvider}
use always_cache.Setup.{
  OriginUrl, Config, Flags, fatal, crashed, listening, Shell, Driver, listen, find_origin, main,
  new_sqlite_cache, db_name, in_memory, Logger, Level, debug, trace, Output, console, file, global,
  main_logger, log_level, log_outputs, log_version, create_table_cache, create_index_expires,
  pragma_journal_wal, or_panic, https,
}

-- The global logger: how much it tells, where, and as which version.
abbrev pub IsLogger : Shell → Flags → Logger → Type 0
IsLogger shell flags logger =
    (level : Level) × (outputs : List Output) × (version : Str) × (logger
      ≡ global level outputs version)
    × (((flags.verbosity_trace ≡ true) × (level ≡ trace))
        ⊎ ((flags.verbosity_trace ≡ false) × (level ≡ debug)))
    × (((flags.log_filename ≡ []) × (outputs ≡ console ∷ []))
        ⊎ ((flags.log_filename ≢ []) × (outputs ≡ console ∷ file flags.log_filename ∷ [])))
    × (((shell.version ≡ []) × (version ≡ codes "DEV"))
        ⊎ ((shell.version ≢ []) × (version ≡ shell.version)))

level_iff :
    (flags : Flags) (level : Level)
    → (level ≡ log_level flags) ↔ (
        ((flags.verbosity_trace ≡ true) × (level ≡ trace))
        ⊎ ((flags.verbosity_trace ≡ false) × (level ≡ debug)))
level_iff flags level = (λ e. ground arith, λ h. ground arith)

outputs_iff :
    (flags : Flags) (outputs : List Output)
    → (outputs ≡ log_outputs flags) ↔ (
        ((flags.log_filename ≡ []) × (outputs ≡ console ∷ []))
        ⊎ ((flags.log_filename ≢ []) × (outputs ≡ console ∷ file flags.log_filename ∷ [])))
outputs_iff flags outputs = (λ e. ground arith, λ h. ground arith)

version_iff :
    (shell : Shell) (version : Str)
    → (version ≡ log_version shell) ↔ (
        ((shell.version ≡ []) × (version ≡ codes "DEV"))
        ⊎ ((shell.version ≢ []) × (version ≡ shell.version)))
version_iff shell version = (λ e. ground arith, λ h. ground arith)

IsLogger-iff :
    (shell : Shell) (flags : Flags) (logger : Logger)
    → (logger ≡ main_logger shell flags) ↔ IsLogger shell flags logger
IsLogger-iff shell flags logger = (
  λ e. (
    log_level flags,
    log_outputs flags,
    log_version shell,
    e,
    (level_iff flags _).0 refl,
    (outputs_iff flags _).0 refl,
    (version_iff shell _).0 refl,
  ),
  λ (level, outputs, version, e, l, o, v).
      let l' = (level_iff flags level).1 l in
      let o' = (outputs_iff flags outputs).1 o in
      let v' = (version_iff shell version).1 v in e ∙ (λ i. global (l' i) (o' i) (v' i)),
)

module _ {Db : Type 0} (driver : Driver Db) where
  -- The database of this name is opened, and gets its table, its index and its journal.
  abbrev IsOpened : Str → Db → Type 0
  IsOpened name db =
      (opened : Db) × (with_table : Db) × (with_index : Db) × (driver.open_db name ≡ some opened)
      × (driver.exec opened create_table_cache ≡ some with_table)
      × (driver.exec with_table create_index_expires ≡ some with_index)
      × (driver.exec with_index pragma_journal_wal ≡ some db)

  -- The names `memory` and the empty one stand for a database in memory.
  abbrev pub IsDatabase : Flags → Db → Type 0
  IsDatabase flags db =
      (((flags.db_filename ≡ []) ⊎ (flags.db_filename ≡ codes "memory")) × IsOpened in_memory db)
      ⊎ ((flags.db_filename ≢ [])
          × (flags.db_filename ≢ codes "memory")
          × IsOpened flags.db_filename db)

  or_panic-eq-returns :
      {A B : Type 0} (x : Option A) (f : A → Call B) (b : B)
      → (or_panic x >>= f) ≡ returns b
      → (a : A) × (x ≡ some a) × (f a ≡ returns b)
  or_panic-eq-returns none f b e = cc
  or_panic-eq-returns (some a) f b e = (a, refl, e)

  or_panic-eq-some : {A : Type 0} (x : Option A) (a : A) → or_panic x ≡ returns a → x ≡ some a
  or_panic-eq-some none a e = cc
  or_panic-eq-some (some x) a e = cc

  new_sqlite_cache_iff :
      (filename : Str) (db : Db)
      → (new_sqlite_cache driver filename ≡ returns db)
        ↔ IsOpened (if is_empty filename then in_memory else filename) db
  unfolding new_sqlite_cache
  new_sqlite_cache_iff filename db = (
    λ e.
        let (opened, o, e₁) = or_panic-eq-returns _ _ db e in
        let (with_table, t, e₂) = or_panic-eq-returns _ _ db e₁ in
        let (with_index, x, e₃) = or_panic-eq-returns _ _ db e₂ in
        (opened, with_table, with_index, o, t, x, or_panic-eq-some _ db e₃),
    λ (opened, with_table, with_index, o, t, x, j). rw (o, t, x, j) refl,
  )

  abbrev file_name : Flags → Str
  file_name flags = if is_empty (db_name flags) then in_memory else db_name flags

  in_memory_named :
      (flags : Flags)
      → (flags.db_filename ≡ []) ⊎ (flags.db_filename ≡ codes "memory")
      → file_name flags ≡ in_memory
  in_memory_named flags h = ground (arith, same_iff flags.db_filename (codes "memory"))

  file_is_named :
      (flags : Flags)
      → flags.db_filename ≢ []
      → flags.db_filename ≢ codes "memory"
      → file_name flags ≡ flags.db_filename
  file_is_named flags h k = ground (arith, same_iff flags.db_filename (codes "memory"))

  file_named :
      (flags : Flags)
      → (((flags.db_filename ≡ []) ⊎ (flags.db_filename ≡ codes "memory"))
          × (file_name flags ≡ in_memory))
        ⊎ ((flags.db_filename ≢ [])
            × (flags.db_filename ≢ codes "memory")
            × (file_name flags ≡ flags.db_filename))
  file_named flags = elim (Bool-cases (same flags.db_filename (codes "memory"))) [
    | inl e ↦
        let memory = (same_iff flags.db_filename (codes "memory")).0 e in
        inl (inr memory, in_memory_named flags (inr memory))
    | inr e ↦
        let other : flags.db_filename ≢ codes "memory" =
          ground (arith, same_iff flags.db_filename (codes "memory")) in
        elim (Bool-cases (is_empty flags.db_filename)) [
          | inl e' ↦
              let empty : flags.db_filename ≡ [] = ground arith in
              inl (inl empty, in_memory_named flags (inl empty))
          | inr e' ↦
              let filled : flags.db_filename ≢ [] = ground arith in
              inr (filled, other, file_is_named flags filled other)
        ]
  ]

  IsDatabase-iff :
      (flags : Flags) (db : Db)
      → (new_sqlite_cache driver (db_name flags) ≡ returns db) ↔ IsDatabase flags db
  IsDatabase-iff flags db = (
    λ e.
        let opened = (new_sqlite_cache_iff (db_name flags) db).0 e in
        elim (file_named flags) [
          | inl (named, name) ↦ inl (named, rw name at opened)
          | inr (filled, other, name) ↦ inr (filled, other, rw name at opened)
        ],
    λ h. (new_sqlite_cache_iff (db_name flags) db).1 (elim h [
      | inl (named, opened) ↦ rw (in_memory_named flags named) opened
      | inr (filled, other, opened) ↦ rw (file_is_named flags filled other) opened
    ]),
  )

fatal-ne-listening :
    {S : Type 0} (text : Str) (port : ℤ) (logger : Logger) (db : S) (config : Config S)
    → fatal text ≢ listening port logger db config
fatal-ne-listening text port logger db config e = cc

crashed-ne-listening :
    {S : Type 0} (port : ℤ) (logger : Logger) (db : S) (config : Config S)
    → crashed ≢ listening port logger db config
crashed-ne-listening port logger db config e = cc

module _ {Db : Type 0} (shell : Shell) (driver : Driver Db) (cache : Db → CacheProvider Db) where
  -- The URL and the name that the flags choose.
  abbrev pub IsChosen : Flags → OriginUrl → Str → Type 0
  IsChosen flags url name =
      ((flags.origin ≢ []) × (shell.parse_origin flags.origin ≡ some url) × (name ≡ []))
      ⊎ ((flags.origin ≡ [])
          × (flags.addr ≢ [])
          × (shell.parse_origin (codes "https://" ++ flags.addr) ≡ some url)
          × (name ≡ flags.host))

  -- What `main` listens with, but for the origin.
  abbrev pub IsGiven : Flags → ℤ → Db → Config Db → Type 0
  IsGiven flags port db config =
      (port ≡ flags.port)
      × (config.cache ≡ cache db)
      × (config.disable_updates ≡ flags.legacy_mode)
      × (config.logger ≡ none)
      × (config.request_modifier ≡ none)
      × (config.response_modifier ≡ none)

  listen_iff :
      (flags : Flags) (db : Db) (name : Str) (found : Option OriginUrl) (port : ℤ) (logger : Logger)
      (db' : Db) (config : Config Db)
      → (listen shell driver cache flags db name found ≡ listening port logger db' config) ↔ (
          (db ≡ db')
          × (found ≡ some config.origin_url)
          × (config.origin_host ≡ name)
          × (logger ≡ main_logger shell flags)
          × IsGiven flags port db' config)
  unfolding listen
  listen_iff flags db name none port logger db' config = (λ e. cc, λ h. cc)
  listen_iff flags db name (some url) port logger db' config = (
    λ e. (cc, cc, cc, cc, (cc, cc, cc, cc, cc, cc)),
    λ (d, f, n, l, (p, c, u, g, q, r)).
        let from : url ≡ config.origin_url = cc in
        λ i. listening ((sym p) i) ((sym l) i) (d i) (record {
          cache = ((ap (λ x. cache x) d) ∙ sym c) i;
          origin_url = from i;
          origin_host = (sym n) i;
          logger = (sym g) i;
          request_modifier = (sym q) i;
          response_modifier = (sym r) i;
          disable_updates = (sym u) i;
        }),
  )

  -- `main` goes on with the URL and the name that the flags choose.
  find_origin-IsChosen :
      (flags : Flags) (db : Db) (url : OriginUrl) (name : Str)
      → IsChosen flags url name
      → find_origin shell driver cache flags db ≡ listen shell driver cache flags db name (some url)
  unfolding find_origin
  find_origin-IsChosen flags db url name (inl (given, parsed, unnamed)) =
      let e : is_empty flags.origin ≡ false = ground arith in rw (e, parsed, unnamed) refl
  find_origin-IsChosen flags db url name (inr (missing, given, parsed, named)) =
      let e : is_empty flags.origin ≡ true = ground arith in
      let f : is_empty flags.addr ≡ false = ground arith in rw (e, f, parsed, named) refl

  listening-IsChosen :
      (flags : Flags) (db : Db) (port : ℤ) (logger : Logger) (db' : Db) (config : Config Db)
      → find_origin shell driver cache flags db ≡ listening port logger db' config
      → IsChosen flags config.origin_url config.origin_host
  unfolding find_origin
  listening-IsChosen flags db port logger db' config e = elim (Bool-cases (is_empty flags.origin)) [
    | inr given ↦
        let (_, f, n, _, _) =
          (listen_iff flags db [] (shell.parse_origin flags.origin) port logger db' config).0
            (rw given at e) in
        inl (ground arith, f, n)
    | inl missing ↦ elim (Bool-cases (is_empty flags.addr)) [
      | inr given ↦
          let (_, f, n, _, _) =
            (listen_iff flags db flags.host (shell.parse_origin (https flags.addr)) port logger db'
                config).0
              (rw (missing, given) at e) in
          inr (ground arith, ground arith, f, n)
      | inl none_given ↦ absurd (fatal-ne-listening _ _ _ _ _ (rw (missing, none_given) at e))
    ]
  ]

  find_origin_iff :
      (flags : Flags) (db : Db) (port : ℤ) (logger : Logger) (db' : Db) (config : Config Db)
      → (find_origin shell driver cache flags db ≡ listening port logger db' config) ↔ (
          (db ≡ db')
          × IsChosen flags config.origin_url config.origin_host
          × (logger ≡ main_logger shell flags)
          × IsGiven flags port db' config)
  find_origin_iff flags db port logger db' config = (
    λ e.
        let chosen = listening-IsChosen flags db port logger db' config e in
        let (d, _, _, l, given) =
          (listen_iff flags db config.origin_host (some config.origin_url) port logger db' config).0
            (sym (find_origin-IsChosen flags db _ _ chosen) ∙ e) in
        (d, chosen, l, given),
    λ (d, chosen, l, given).
        find_origin-IsChosen flags db _ _ chosen
        ∙ (listen_iff flags db config.origin_host (some config.origin_url) port logger db' config).1
            (d, refl, refl, l, given),
  )

  -- `main` comes to listen exactly if the log file, where there is one, can be opened, the database
  -- of the flags (one in memory for the name `memory` or none) is opened and gets its table, its
  -- index and its journal, and a URL is chosen and can be parsed: that of the origin flag, without
  -- a host name of its own, or, if that flag is empty, the https URL of the address flag, with the
  -- name of the host flag. It then listens on the port of the flags, over that database, with no
  -- updates in the legacy mode and no modifiers, and a global logger of the level, the outputs and
  -- the version that the flags and the build say; the configuration has no logger.
  pub main-eq-listening_iff :
      (flags : Flags) (port : ℤ) (logger : Logger) (db : Db) (config : Config Db)
      → (main shell driver cache flags ≡ listening port logger db config) ↔ (
          ((flags.log_filename ≡ []) ⊎ (shell.opens_log flags.log_filename ≡ true))
          × IsDatabase driver flags db
          × IsChosen flags config.origin_url config.origin_host
          × IsLogger shell flags logger
          × IsGiven flags port db config)
  unfolding main
  main-eq-listening_iff flags port logger db config = (
    λ e.
        elim (Bool-cases
          (not (is_empty flags.log_filename) && not (shell.opens_log flags.log_filename))) [
            | inl closed ↦ absurd (fatal-ne-listening _ _ _ _ _ (rw closed at e))
            | inr opened ↦ elim (Call-cases (new_sqlite_cache driver (db_name flags))) [
              | inl panicked ↦ absurd (crashed-ne-listening _ _ _ _ (rw (opened, panicked) at e))
              | inr (db', made) ↦
                  let (d, chosen, l, given) =
                    (find_origin_iff flags db' port logger db config).0 (rw (opened, made) at e) in
                  (
                    ground arith,
                    (IsDatabase-iff driver flags db).0 (made ∙ ap (λ (x : Db). returns x) d),
                    chosen,
                    (IsLogger-iff shell flags logger).0 l,
                    given,
                  )
            ]
          ],
    λ (log, database, chosen, l, given).
        let opened : not (is_empty flags.log_filename) && not (shell.opens_log flags.log_filename)
            ≡ false =
          ground arith in
        let made = (IsDatabase-iff driver flags db).1 database in
        rw (opened, made)
          ((find_origin_iff flags db port logger db config).1
            (refl, chosen, (IsLogger-iff shell flags logger).1 l, given)),
  )
