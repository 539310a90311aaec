-- ===== src/Setup.antt =====
-- How the proxy is set up: Config and CreateCache of always-cache.go, NewSQLiteCache of
-- cache/cache-provider.go, and the flags of cmd/always-cache/main.go.
pub mod Laws
use always_cache.Base.{
  ℕ, Bool, false, ◌&&◌, not, List, [], ◌∷◌, ◌++◌, Option, none, some, if◌then◌else◌,
}
use always_cache.Base.Int.{ℤ, pos}
use always_cache.Go.Strings.{Str, codes, is_empty, same}
use always_cache.Go.Time.{nanos}
use always_cache.Go.Http.{Platform, Request, Response}
use always_cache.Go.Panic.{Call, returns, panics, ◌>>=◌}
use always_cache.Key.{new_cache_keyer}
use always_cache.Provider.{CacheProvider}
use always_cache.Tee.{Act}
use always_cache.Server.State.{AlwaysCache}

-- A url.URL by what the set up reads of it: String(), Scheme and Host.
pub record OriginUrl : Type 0 where
  pub text : Str
  pub scheme : Str
  pub host : Str

-- zerolog's loggers, by how they are made: the new console logger of CreateCache, the global logger
-- that `main` sets, with its level, its outputs and its version, and a logger with the field origin.
pub data Level : Type 0 where
  debug trace : Level

pub data Output : Type 0 where
  console : Output
  file : Str → Output

pub data Logger : Type 0 where
  new_console : Logger
  global : Level → List Output → Str → Logger
  with_origin : Str → Logger → Logger

pub record Config (S : Type 0) : Type 0 where
  pub cache : CacheProvider S
  pub origin_url : OriginUrl
  pub origin_host : Str
  pub logger : Option Logger
  pub request_modifier : Option (Request → Request)
  pub response_modifier : Option (Response → Option Response)
  pub disable_updates : Bool

-- Where the reverse proxy sends a request: the URL's scheme and host, and the Host field.
pub record Target : Type 0 where
  pub scheme : Str
  pub host : Str
  pub host_header : Str

-- httputil.ReverseProxy. `server_name` is that of the TLS configuration of the transport that
-- CreateCache makes for an origin host; the default transport has none.
pub record ReverseProxy : Type 0 where
  pub director : Target → Target
  pub server_name : Option Str
  pub modify_response : Option (Response → Option Response)

unfoldable pub create_director : Str → Str → Str → Target → Target
create_director scheme host host_header req = record {
  scheme = scheme;
  host = host;
  host_header = if is_empty host_header then req.host_header else host_header;
}

unfoldable pub reverse_proxy : {S : Type 0} → Config S → ReverseProxy
unfolding create_director
reverse_proxy config =
    let host = config.origin_url.host in
    let named = not (is_empty config.origin_host) in
    record {
      director =
          create_director config.origin_url.scheme host
            (if named then config.origin_host else host);
      server_name = if named then some config.origin_host else none;
      modify_response = config.response_modifier;
    }

abbrev modifier : Option (Request → Request) → Request → Request
modifier none r = r
modifier (some modify) r = modify r

-- What a reverse proxy writes for its n-th request is a parameter.
abbrev pub Serve : Type 0
Serve = ReverseProxy → ℕ → Request → List Act

-- The logger of the configuration, or a new one.
abbrev or_console : Option Logger → Logger
or_console none = new_console
or_console (some logger) = logger

-- CreateCache, its logger, and whether it starts the loop of updateCache.
unfoldable pub create_cache :
    {S : Type 0} → Platform → Serve → Config S → AlwaysCache S × Logger × Bool
unfolding reverse_proxy
create_cache platform serve config =
    let updates = not config.disable_updates in
    (
      record {
        platform = platform;
        cache = config.cache;
        keyer = new_cache_keyer config.origin_url.text;
        modify_response = modifier config.request_modifier;
        origin = serve (reverse_proxy config);
        updates = updates;
        update_timeout = if updates then pos nanos else pos 0;
      },
      with_origin config.origin_url.text (or_console config.logger),
      updates,
    )

-- The statements of NewSQLiteCache.
pub data Statement : Type 0 where
  create_table_cache : Statement
  create_index_expires : Statement
  pragma_journal_wal : Statement

-- sql.Open and Exec, with `none` for an error.
pub record Driver (Db : Type 0) : Type 0 where
  pub open_db : Str → Option Db
  pub exec : Db → Statement → Option Db

abbrev pub in_memory : Str
in_memory = codes "file::memory:?cache=shared"

abbrev or_panic : {A : Type 0} → Option A → Call A
or_panic none = panics
or_panic (some x) = returns x

unfoldable pub new_sqlite_cache : {Db : Type 0} → Driver Db → Str → Call Db
new_sqlite_cache driver filename =
    or_panic (driver.open_db (if is_empty filename then in_memory else filename)) >>= λ db.
    or_panic (driver.exec db create_table_cache) >>= λ with_table.
    or_panic (driver.exec with_table create_index_expires) >>= λ with_index.
    or_panic (driver.exec with_index pragma_journal_wal)

-- The flags of the command line.
pub record Flags : Type 0 where
  pub port : ℤ
  pub origin : Str
  pub addr : Str
  pub host : Str
  pub db_filename : Str
  pub legacy_mode : Bool
  pub verbosity_trace : Bool
  pub log_filename : Str

-- What a flag holds.
pub data FlagValue : Type 0 where
  text : Str → FlagValue
  number : ℤ → FlagValue
  switch : Bool → FlagValue

-- `init`: the names of the flags, with their values where the command line has none.
abbrev pub declared : List (Str × FlagValue)
declared =
    (codes "origin", text [])
    ∷ (codes "addr", text [])
    ∷ (codes "host", text [])
    ∷ (codes "port", number (pos 8080))
    ∷ (codes "db", text (codes "cache.db"))
    ∷ (codes "legacy", switch false)
    ∷ (codes "vv", switch false)
    ∷ (codes "log-file", text [])
    ∷ []

-- The flags after flag.Parse, which is a parameter: the value of each declared flag by its name. A
-- flag keeps the type that it was declared with.
abbrev text_of : FlagValue → Str
text_of (text s) = s
text_of _ = []

abbrev number_of : FlagValue → ℤ
number_of (number n) = n
number_of _ = pos 0

abbrev switch_of : FlagValue → Bool
switch_of (switch b) = b
switch_of _ = false

unfoldable pub flags_of : (Str → FlagValue) → Flags
flags_of value = record {
  port = number_of (value (codes "port"));
  origin = text_of (value (codes "origin"));
  addr = text_of (value (codes "addr"));
  host = text_of (value (codes "host"));
  db_filename = text_of (value (codes "db"));
  legacy_mode = switch_of (value (codes "legacy"));
  verbosity_trace = switch_of (value (codes "vv"));
  log_filename = text_of (value (codes "log-file"));
}

-- How `main` goes on: it ends with a message, it panics, or it listens on a port with the proxy
-- that CreateCache makes of the configuration, with a global logger.
pub data Start (S : Type 0) : Type 0 where
  fatal : Str → Start S
  crashed : Start S
  listening : ℤ → Logger → S → Config S → Start S

-- The library functions that `main` calls: url.Parse, and whether the log file can be opened; and
-- the version that the build sets.
pub record Shell : Type 0 where
  pub version : Str
  pub parse_origin : Str → Option OriginUrl
  pub opens_log : Str → Bool

abbrev pub log_level : Flags → Level
log_level flags = if flags.verbosity_trace then trace else debug

abbrev pub log_outputs : Flags → List Output
log_outputs flags =
    console ∷ (if is_empty flags.log_filename then [] else file flags.log_filename ∷ [])

abbrev pub log_version : Shell → Str
log_version shell = if is_empty shell.version then codes "DEV" else shell.version

abbrev pub main_logger : Shell → Flags → Logger
main_logger shell flags = global (log_level flags) (log_outputs flags) (log_version shell)

-- The name `memory` stands for a database in memory.
abbrev pub db_name : Flags → Str
db_name flags = if same flags.db_filename (codes "memory") then in_memory else flags.db_filename

abbrev pub https : Str → Str
https addr = codes "https://" ++ addr

abbrev could_not_parse : Str
could_not_parse = codes "Clould not parse url"

module _ {Db : Type 0} (shell : Shell) (driver : Driver Db) (cache : Db → CacheProvider Db) where
  -- The configuration for a URL and the name that the origin is asked by.
  abbrev pub config_of : Flags → Db → Str → OriginUrl → Config Db
  config_of flags db origin_host url = record {
    cache = cache db;
    origin_url = url;
    origin_host = origin_host;
    logger = none;
    request_modifier = none;
    response_modifier = none;
    disable_updates = flags.legacy_mode;
  }

  -- The end of `main` for a parsed URL.
  unfoldable pub listen : Flags → Db → Str → Option OriginUrl → Start Db
  listen flags db origin_host none = fatal could_not_parse
  listen flags db origin_host (some url) =
      listening flags.port (main_logger shell flags) db (config_of flags db origin_host url)

  -- The origin flag overrides the address and the host.
  unfoldable pub find_origin : Flags → Db → Start Db
  unfolding listen
  find_origin flags db =
      if not (is_empty flags.origin)
      then listen flags db [] (shell.parse_origin flags.origin)
      else if not (is_empty flags.addr)
      then listen flags db flags.host (shell.parse_origin (https flags.addr))
      else fatal (codes "Please specify origin")

  unfoldable pub main : Flags → Start Db
  unfolding find_origin new_sqlite_cache
  main flags =
      if not (is_empty flags.log_filename) && not (shell.opens_log flags.log_filename)
      then fatal (codes "Cannot open log file")
      else elim (new_sqlite_cache driver (db_name flags)) [
        | panics ↦ crashed
        | returns db ↦ find_origin flags db
      ]
