-- ===== src/Tests/Starting.antt =====
-- The flags of a command line, and the proxy that they give.
use always_cache.Base.{true, List, [], ◌∷◌, if◌then◌else◌, some, ◌≡◌, ◌↔◌, ◌⊎◌, refl, inl, inr}
use always_cache.Go.Strings.{Str, codes, same}
use always_cache.Sqlite.{Row, sqlite_cache}
use always_cache.Setup.{
  OriginUrl, Config, Flags, Shell, Driver, FlagValue, text, switch, declared, flags_of, config_of,
  console, file, Logger, global, trace, listening, main,
}
use always_cache.Base.Int.{pos}
use always_cache.Setup.Laws.{IsDatabase, IsChosen, IsLogger, IsGiven, main-eq-listening_iff}
use always_cache.Tests.Memory.{memory}

-- Every text is the URL of one host.
abbrev url_of : Str → OriginUrl
url_of whole = record { text = whole; scheme = codes "https"; host = codes "10.0.0.1" }

abbrev shell : Shell
shell = record {
  version = [];
  parse_origin = λ whole. some (url_of whole);
  opens_log = λ name. same name (codes "a.log");
}

abbrev driver : Driver (List Row)
driver = record { open_db = λ name. some []; exec = λ db statement. some db }

-- The value of a flag: the one of the command line, or else the declared one.
abbrev value_among : List (Str × FlagValue) → Str → FlagValue
value_among [] name = text []
value_among ((flag, value) ∷ flags) name = if same flag name then value else value_among flags name

-- --addr 10.0.0.1 --host a.example --db memory --legacy --vv --log-file a.log
abbrev flags : Flags
flags = flags_of (
    value_among (
      (codes "addr", text (codes "10.0.0.1"))
      ∷ (codes "host", text (codes "a.example"))
      ∷ (codes "db", text (codes "memory"))
      ∷ (codes "legacy", switch true)
      ∷ (codes "vv", switch true)
      ∷ (codes "log-file", text (codes "a.log"))
      ∷ declared))

flags_read : flags ≡ record {
  port = pos 8080;
  origin = [];
  addr = codes "10.0.0.1";
  host = codes "a.example";
  db_filename = codes "memory";
  legacy_mode = true;
  verbosity_trace = true;
  log_filename = codes "a.log";
}
unfolding flags_of same
flags_read = refl

abbrev config : Config (List Row)
config =
    config_of shell driver (λ db. sqlite_cache memory) flags [] (codes "a.example")
      (url_of (codes "https://10.0.0.1"))

abbrev logger : Logger
logger = global trace (console ∷ file (codes "a.log") ∷ []) (codes "DEV")

main-eq-listening_iff_example :
    (main shell driver (λ db. sqlite_cache memory) flags ≡ listening (pos 8080) logger [] config)
    ↔ (((flags.log_filename ≡ []) ⊎ (shell.opens_log flags.log_filename ≡ true))
        × IsDatabase driver flags []
        × IsChosen shell driver
            (λ db. sqlite_cache memory)
            flags
            config.origin_url
            config.origin_host
        × IsLogger shell flags logger
        × IsGiven shell driver (λ db. sqlite_cache memory) flags (pos 8080) [] config)
main-eq-listening_iff_example =
    main-eq-listening_iff shell driver (λ db. sqlite_cache memory) flags (pos 8080) logger [] config

-- `main` comes to listen with these flags.
flags_listening :
    main shell driver (λ db. sqlite_cache memory) flags ≡ listening (pos 8080) logger [] config
unfolding flags_of same
flags_listening =
    (main-eq-listening_iff shell driver (λ db. sqlite_cache memory) flags (pos 8080) logger []
        config).1
      (
        inr refl,
        inl (inr refl, ([], [], [], refl, refl, refl, refl)),
        inr (refl, λ e. cc, refl, refl),
        (
          trace,
          console ∷ file (codes "a.log") ∷ [],
          codes "DEV",
          refl,
          inl (refl, refl),
          inr (λ e. cc, refl),
          inl (refl, refl),
        ),
        (refl, refl, refl, refl, refl, refl),
      )
