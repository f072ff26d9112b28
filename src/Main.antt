-- ===== src/Main.antt =====
-- src/main.rs: from the settings to a running server, without the set-up of the log.
pub mod Isolation
pub mod Notified
pub mod Run
pub mod Start
pub mod Widths
use Prim.Native.String
use mathlib.Core.Option.{map}
use feature_probe_server.Prelude.{
  ℕ, String, Option, none, some, List, [], ◌∷◌, Result, ok, err, ◌>>=◌, map_err, if◌then◌else◌,
}
use feature_probe_server.Error.{FpServerError, config_error, to_string}
use feature_probe_server.Crates.{Config, Crates, is_zero_duration}
use feature_probe_server.Config.{ServerConfig, try_parse}
use feature_probe_server.Realtime.{RealtimeSocket, serve}
use feature_probe_server.Repo
use feature_probe_server.Repo.{Inner}
use feature_probe_server.Http.Handler.{FpHttpHandler}

-- A loop that `sync_with` spawns over the shared repository.
pub data Task (Url : Type 0) : Type 0 where
  sync_secret_keys : Url → Task Url
  update_clients : Task Url

-- What is running after `start`: the handler behind `serve_http`, and the loops.
pub record Running (crates : Crates) : Type 0 where
  pub port : ℕ
  pub handler : FpHttpHandler crates
  pub tasks : List (Task crates.Url)

module _ (crates : Crates) where
  open crates use {Url, ConfigBuilder, builder, add_environment, build}

  given_or_new : Option ConfigBuilder → ConfigBuilder
  given_or_new (some c) = c
  given_or_new none = builder

  unfoldable pub init_server_config : Option ConfigBuilder → Result (ServerConfig Url) FpServerError
  unfolding given_or_new
  init_server_config config = do
    built ← map_err (build (add_environment "FP" (given_or_new config))) config_error
    try_parse crates built

  -- `SdkRepository::sync_with`; `tokio::time::interval`, which `sync_secret_keys` calls before it
  -- spawns its loop, panics on a period of zero.
  unfoldable pub sync_with : Inner crates → Url → Option (List (Task Url))
  sync_with inner keys_url =
      if is_zero_duration inner.server_config.refresh_interval
      then none
      else some (sync_secret_keys keys_url ∷ update_clients ∷ [])

  pub handler_over : ServerConfig Url → Inner crates → FpHttpHandler crates
  handler_over server_config repo = record {
    repo = repo;
    http_client = crates.http_client;
    events_url = server_config.events_url;
    analysis_url = server_config.analysis_url;
    events_timeout = server_config.refresh_interval;
  }

  -- The repository that a configuration asks for, and the loops that feed it; `none` is a panic, as
  -- in what follows.
  with_loops :
      Inner crates
      → Option (List (Task Url))
      → Option (Result (Inner crates × List (Task Url)) FpServerError)
  with_loops repo none = none
  with_loops repo (some tasks) = some (ok (repo, tasks))

  init_repo :
      Option Url
      → Option String
      → Option String
      → Inner crates
      → Option (Result (Inner crates × List (Task Url)) FpServerError)
  init_repo (some keys_url) client server repo = with_loops repo (sync_with repo keys_url)
  init_repo none (some client_sdk_key) (some server_sdk_key) repo =
      some (ok (Repo.sync crates repo client_sdk_key server_sdk_key 1, []))
  init_repo none client server repo =
      some (err (config_error "not set FP_SERVER_SDK and FP_CLIENT_SDK"))

  served_by :
      ServerConfig Url
      → Result (Inner crates × List (Task Url)) FpServerError
      → Result (FpHttpHandler crates × List (Task Url)) FpServerError
  served_by server_config result = do
    (repo, tasks) ← result
    ok (handler_over server_config repo, tasks)

  unfoldable pub init_handler :
      ServerConfig Url
      → RealtimeSocket
      → Option (Result (FpHttpHandler crates × List (Task Url)) FpServerError)
  unfolding handler_over init_repo with_loops sync_with served_by
  init_handler server_config realtime_socket = map (served_by server_config) (
      init_repo server_config.keys_url server_config.client_sdk_key server_config.server_sdk_key
        (Repo.new crates server_config realtime_socket))

  bail : FpServerError → String
  bail e = String.◌++◌ "server config error: " (to_string e)

  spawn_http :
      ℕ
      → Result (FpHttpHandler crates × List (Task Url)) FpServerError
      → Result (Running crates) String
  unfolding bail
  spawn_http server_port result = do
    (handler, tasks) ← map_err result bail
    ok (record { port = server_port; handler = handler; tasks = tasks })

  unfoldable pub start : ServerConfig Url → Option (Result (Running crates) String)
  unfolding bail serve spawn_http
  start server_config =
      map (spawn_http server_config.server_port)
        (init_handler server_config (serve server_config.realtime_port server_config.realtime_path))

  -- `main`, up to the wait for the signal that ends it.
  unfoldable pub main : Option (Result (Running crates) String)
  unfolding bail
  main = elim (init_server_config none) [
    | err e ↦ some (err (bail e))
    | ok server_config ↦ start server_config
  ]
