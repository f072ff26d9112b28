-- ===== src/Lib.antt =====
-- The feature toggle server of FeatureProbe: what it keeps, what it serves, and how it starts.
--
-- The server holds a table of SDK clients, one for each server key, and a mapping from client keys
-- to server keys. Two loops feed it: one fetches the mapping, the other makes the table of clients
-- follow the mapping. The SDKs ask over HTTP for toggles with a server key or a client key, send
-- events, which are sent on to other services, and wait in rooms of a socket for the news that
-- toggles have changed.
--
--   Error              the errors of src/base.rs and their texts
--   Config             `ServerConfig::try_parse` of src/base.rs. Faults says when it fails, Fields
--                      and Ports what it returns; Display is the `Display` of a configuration.
--   Log                `LogFormatter` of src/base.rs and `init_log` of src/main.rs. Lines has the text
--                      of a line, Brackets its brackets.
--   Secrets            `SecretMapping` of src/secrets.rs. Invariant relates its two directions,
--                      Versions the order in which mappings arrive.
--   Realtime           `RealtimeSocket` of src/realtime.rs, as the calls on the socket server
--   Repo               `SdkRepository` and `Inner` of src/repo.rs: the writes. Read has the reads,
--                      Clients, Access and Toggles their theorems, Published the way of a new key,
--                      Notify what the callbacks reach and Hears which sockets hear them, Steps the
--                      loops, View what the repository promises (its state without the order of the
--                      maps' entries, with steps and reads of its own), Races concurrent calls of
--                      `update_mapping`, Passes a call of `update_clients` key by key, Locks the
--                      locks that these two take (Order and Finishes: threads that keep to an order
--                      of the locks; Kept and Deadlock: when these two do and when not; Crowd: any
--                      number of threads, with the requests).
--   Http               src/http: Response (`into_response` and the fixed responses), Handler
--                      (`FpHttpHandler`; Answers and ClientAnswers have all that an SDK can be
--                      answered), Events (`handle_events`), LocalFile
--                      (`LocalFileHttpHandlerForTest`), Traits (`HttpHandler` and `EventHandler`, with
--                      both handlers as instances), Router (`serve_http`, over any handler; Local has the
--                      handler of the tests behind it)
--   Main               src/main.rs, from the settings to the tasks that run. Run has the runs of the
--                      server, in which requests and the steps of the loops follow one another in any
--                      order, Isolation what is served at each of their points, Widths what stays of the
--                      configuration and the ranges of the integers, and Notified who hears of
--                      changes there.
--   Example            examples/local_file.rs
--   Scenarios          the tests of src/repo.rs (RepoSync), src/http/mod.rs (Requests, with the requests
--                      that they send in Browser) and src/main.rs (Startup): what they set up, and
--                      what they assert. Sleep has what can happen while a test sleeps.
--   HashMap            the maps of the standard library, as lists of entries
--   Crates             the other crates, as a record of types and operations
--   Prelude            names and lemmas that the modules share
--   Tests              runs of the model, with small stand-ins for the other crates
--
-- A method is a function of the source's name. One that writes takes the state and returns the
-- new one; one that fails returns a result with the source's error; `?` is a bind. `Arc` and
-- clones of the shared state are one value. A method is one step, although three release a lock
-- on their way: `Inner::update_mapping` is taken apart in Repo/Races and `Inner::update_clients`
-- in Repo/Passes; `Inner::sync` looks and writes in two parts, but is only called from the start
-- and from one loop. Repo/Locks follows the operations on the locks themselves. The loops of
-- src/repo.rs are the steps of Repo/Steps, in any order and number, so that no fuel is needed
-- there; the one function on fuel is `decimal` in Prelude, which prints a number and whose lemma
-- says that its fuel is enough. Numbers are natural numbers, and the casts to `u16` and `u64`
-- are written out as remainders, and `+` of two `u16` may panic. The server only compares and
-- copies a version, a `u128`; the handler of the tests adds one to it, up to a greatest version.
-- Main/Widths has the ranges of the server's integers. A result `none` is a panic: of an `unwrap`
-- in the tests and the example, and of `start`, where `tokio::time::interval` is given a period of
-- zero. A HEAD request reaches the functions of GET, as axum has it; that the response then loses
-- its body is not modelled.
--
-- What comes from other crates (the SDK client, the parsers, axum, the settings) is a parameter:
-- its types and operations are fields of `Crates`, of `Axum` in Http/Router and of `Files` in
-- Http/LocalFile. What the server relies on is stated beside them, in `Relied` in Repo/Steps (an
-- SDK client reads the toggles of the key it was made with and calls the callback set last, and
-- serde builds maps), in `RwLock` in Repo/Locks and in `Faithful` in Http/LocalFile/Versions. The
-- log writes to a `Write` that may fail, and is passed the time and the fields as writes.
--
-- A test is split where it sleeps: a function of the numbers of its ports sets up a repository or a
-- server, `Slept` relates that to what it can have become, and a function of the test's name gives
-- the conjunction of what it asserts, or `none` where a handler panics. The files of the fixtures are
-- in `Kit` and what reqwest sends in `Browser`, both parameters; that the SDK client has read what
-- the mock holds by the time the test wakes is a hypothesis, since nothing else makes it so.
--
-- Not modelled: the test of serde in src/http/mod.rs, what is logged and when, timers and time-
-- outs, the outcomes of the requests that send events on, which only reach the log, the wait for
-- the signal that ends the process, and the feature `unstable`, with which the crate does not
-- compile. The feature `realtime`, which is on by default, is taken as on.
pub mod Prelude
pub mod HashMap
pub mod Error
pub mod Crates
pub mod Secrets
pub mod Config
pub mod Realtime
pub mod Repo
pub mod Http
pub mod Log
pub mod Main
pub mod Example
pub mod Scenarios
pub mod Tests
