-- ===== src/Example.antt =====
-- examples/local_file.rs: a server whose toggles come from a handler of the tests.
pub mod Begins
use Prim.Native.String.{◌++◌}
use feature_probe_server.Prelude.{ℕ, String, false, Option, none, some, Result, ok, err}
use feature_probe_server.Prelude.Options.{◌>>=◌}
use feature_probe_server.Prelude.Decimal.{decimal}
use feature_probe_server.Crates.{Crates, Duration, from_secs}
use feature_probe_server.Config.{ServerConfig}
use feature_probe_server.Realtime.{serve}
use feature_probe_server.Repo
use feature_probe_server.Http.Handler.{FpHttpHandler}
use feature_probe_server.Http.LocalFile.{LocalFileHttpHandlerForTest}

-- The two servers that are spawned, with their ports.
pub record Spawned (crates : Crates) : Type 0 where
  pub api_port : ℕ
  pub api : LocalFileHttpHandlerForTest
  pub fp_port : ℕ
  pub fp_server : FpHttpHandler crates

abbrev pub api_port : ℕ
api_port = 9991

-- A url on the port of the first server.
unfoldable pub api_url : String → String
api_url path = "http://0.0.0.0:" ++ decimal api_port ++ path

abbrev pub server_sdk_key : String
server_sdk_key = "server-sdk-key1"

abbrev pub client_sdk_key : String
client_sdk_key = "client-sdk-key1"

module _ (crates : Crates) where
  open crates use {Url, url_parse}

  -- `Url::parse(..).unwrap()`; `none` is a panic.
  unfoldable pub unwrap_url : String → Option Url
  unwrap_url text = elim (url_parse text) [ ok url ↦ some url | err e ↦ none ]

  unfoldable pub example_config : Url → Url → ServerConfig Url
  example_config toggles_url events_url = record {
    toggles_url = toggles_url;
    events_url = events_url;
    keys_url = none;
    analysis_url = none;
    refresh_interval = from_secs 1;
    client_sdk_key = some client_sdk_key;
    server_sdk_key = some server_sdk_key;
    server_port = 9000;
    realtime_port = 9100;
    realtime_path = "/server/realtime";
  }

  -- What `main` spawns once its urls have parsed.
  unfoldable pub spawned : Url → Url → Url → Spawned crates
  unfolding serve
  spawned toggles_url events_url analysis_url =
      let config = example_config toggles_url events_url in
      let repo = Repo.new crates config (serve config.realtime_port config.realtime_path) in
      record {
        api_port = api_port;
        api = record { version_update = false; body = none };
        fp_port = 9990;
        fp_server = record {
          repo = Repo.sync crates repo client_sdk_key server_sdk_key 1;
          http_client = crates.http_client;
          events_url = events_url;
          analysis_url = some analysis_url;
          events_timeout = config.refresh_interval;
        };
      }

  -- `main`, up to the wait for the signal that ends it.
  unfoldable pub example_main : Option (Spawned crates)
  example_main = do
    toggles_url ← unwrap_url (api_url "/api/server-sdk/toggles")
    events_url ← unwrap_url (api_url "/api/events")
    analysis_url ← unwrap_url (api_url "/analysis/events")
    some (spawned toggles_url events_url analysis_url)
