-- ===== src/Lib.antt =====
-- always-cache: an HTTP cache (RFC 9111) in front of one origin server.
--
-- A request goes to ServeHTTP (always-cache.go). It asks the cache provider for the entries of the
-- request's key (pkg/cache-key/key.go), and each entry's stored response is tried in turn: package
-- rfc9111 tells whether it may be reused, or only after a validation request. If no entry answers,
-- the request goes to the origin through a response saver (pkg/response-writer-tee/tee.go), which
-- keeps what it passes on, and a goroutine stores it, if package rfc9111 lets it be stored, and
-- updates or invalidates what the response makes out of date (updater.go). A loop updates the entry
-- that expires first.
--
-- The files, and what they model:
--   Base          the shared library names, Boolean tests, lists, integers and 64-bit wrap-around
--   Go            the parts of Go's library that the program uses: strings, numbers, http.Header,
--                 time, requests and URLs, panics
--   Rfc9111       rfc9111/*.go: Syntax (1.2), CacheControl (5.2), Fields (3.1), Storing (3 and 3.5),
--                 Reuse (4 and 4.1), Freshness (4.2, 4.2.1, 5.3), Age (4.2.3, 5.1), Validation
--                 (4.3.1), Invalidation (4.4), Entry (rfc9111.go)
--   Rfc9211       rfc9211/2._cache-status.go
--   Key           pkg/cache-key/key.go
--   CacheUpdate   pkg/cache-update/cache-update.go
--   Tee           pkg/response-writer-tee/tee.go
--   Serializer    pkg/response-serializer/response.go
--   Provider      the interface and the entries of cache/cache-provider.go; Sqlite its SQLite cache
--   Server        always-cache.go and updater.go: State (the type AlwaysCache and the actions on the
--                 state), Store, Updater, Handler, Responses, Logging; Run, which puts them into
--                 steps, one after the other; Goroutines, which cuts them into actions that
--                 interleave; Asked says which requests the origin is asked for a client's request,
--                 Run/Given what the client of a request may get; Total, Silent and Counts hold
--                 rules for what an operation returns and sends
--   Setup         CreateCache, NewSQLiteCache and cmd/always-cache/main.go
--   Tests         the theorems at concrete inputs
-- A definition has the name of the Go function in small letters with underscores; a theorem about it
-- stands in a child module, most often Laws.
--
-- How the program is modelled:
--   Texts are lists of bytes; ToLower and ToUpper work on the letters of ASCII, and
--   TrimSpace on its spaces. A header is a list of names and values; its order stands for the order
--   in which Go visits a map, which Go leaves open. A URL is known by its three texts that the
--   program reads. A time is a number of nanoseconds; durations are int64 and wrap around or stop
--   at their bounds as Go's do. One action reads the clock once.
--   A nil pointer or an index out of range is `panics`, and nothing catches it.
--   The functions of the Go library that stay parameters are in the record Platform: url.Parse,
--   ResolveReference, time.Parse for one layout, the print of a float64, http.StatusText,
--   Header.Write and http.ReadResponse. Nothing is assumed of them.
--   The origin with the reverse proxy before it is a function: what it writes for the n-th request.
--   The SQL engine is a record of the results of the statements in the source; EngineLaws says what
--   these statements do. ProviderLaws is what the proxy relies on in its cache provider.
--   go.mod says Go 1.19, where a loop has one variable for all its rounds. The goroutines that
--   saveUpdates leaves behind share the variable of its loop: the state holds these variables, and
--   such a goroutine reads its own when it runs.
--   A goroutine that has not started is a task in the state. Run.antt has the steps of a proxy that
--   does one thing at a time: a step runs one request, one waiting task, one round of the update
--   loop or updateAll to its end; the tasks may run in any order. Goroutines.antt has the same
--   functions as programs of actions: an action is one access to the cache provider, one exchange
--   with the origin, the trial of one stored response, which does not touch the cache, or a sleep.
--   In Goroutines/Schedule.antt any number of goroutines run at the same time, each step is one
--   action of one of them, and each has the request that it serves, if any, and a writer of its own,
--   to which a request's goroutine writes.
--   Rounds of the update loop may overlap there, which the one loop of the program does not do. A
--   goroutine that panics stops; that the whole process may end is left out. Goroutines/Turns.antt
--   runs a given order of turns.
--   The only loop on fuel is the print of a number, whose fuel is the number itself and one more; all
--   else is structural recursion.
--   What net/http writes and reads of whole messages for the serializer is the record Wire. A theorem
--   about one response has what net/http does with it as its hypotheses. The set-up takes url.Parse,
--   flag.Parse, the opening of files and of the database, and the reverse proxy as parameters.
--   TimeToLive takes its float64 arithmetic as an argument, ToHttpDate the print of a date.
--
-- Not modelled: what is written to the logs, and the net/http server (input and output); actions
-- that interleave within one access to the cache provider or one exchange with the origin; header
-- maps that are nil, which net/http does not make for a message that it has read. The other
-- files of the packages rfc9111 and rfc9211, and most lines of those that are modelled, are the text
-- of the standards in comments.
pub mod Base
pub mod Go
pub mod Rfc9111
pub mod Rfc9211
pub mod Key
pub mod CacheUpdate
pub mod Tee
pub mod Serializer
pub mod Provider
pub mod Sqlite
pub mod Server
pub mod Setup
pub mod Tests
