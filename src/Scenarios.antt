-- ===== src/Scenarios.antt =====
-- The servers that the tests of src/repo.rs and src/http/mod.rs set up, before the tests wait for them.
-- `none` is a panic, of an `unwrap` or of an addition.
pub mod Sleep
pub mod Browser
pub mod RepoSync
pub mod Requests
pub mod Startup
use Prim.Native.String.{◌++◌}
use feature_probe_server.Prelude.{
  ℕ, String, ◌+◌, Bool, Option, none, some, List, [], ◌∷◌, ltb, if◌then◌else◌,
}
use feature_probe_server.Prelude.Options.{◌>>=◌}
use feature_probe_server.Prelude.Decimal.{decimal}
use feature_probe_server.Crates.{Crates, Duration, from_secs, from_millis}
use feature_probe_server.Config.{ServerConfig}
use feature_probe_server.Realtime.{serve}
use feature_probe_server.Repo
use feature_probe_server.Repo.{Inner}
use feature_probe_server.Http.Handler.{FpHttpHandler}
use feature_probe_server.Http.LocalFile.{LocalFileHttpHandlerForTest, Files}
use feature_probe_server.Main.{Task, sync_with}
use feature_probe_server.Example.{unwrap_url}

-- What the tests take from other crates beside `Crates`: the files, and `==` of repositories.
pub record Kit (crates : Crates) : Type 0 where
  pub files : Files crates
  pub same_repository : crates.Repository → crates.Repository → Bool

-- A url on a port of this machine.
unfoldable pub local_url : ℕ → String → String
local_url port path = "http://127.0.0.1:" ++ decimal port ++ path

-- `+` of two `u16`
unfoldable pub add_u16 : ℕ → ℕ → Option ℕ
add_u16 a b = if ltb (a + b) 65536 then some (a + b) else none

-- What the mock of src/repo.rs answers to a request for the keys.
abbrev pub secret_keys_text : String
secret_keys_text = " { \"version\": 1, \"mapping\": { \"client-sdk-key\": \"server-sdk-key\" } }"

module _ (crates : Crates) where
  open crates use {Url}

  -- A repository over a configuration.
  unfoldable pub new_repository : ServerConfig Url → Inner crates
  unfolding serve
  new_repository config = Repo.new crates config (serve config.realtime_port config.realtime_path)

  -- The configuration with a pair of keys and no url for keys.
  unfoldable pub paired_config : Url → Url → String → String → ℕ → ℕ → ServerConfig Url
  paired_config toggles_url events_url client_sdk_key server_sdk_key port realtime_port = record {
    toggles_url = toggles_url;
    events_url = events_url;
    keys_url = none;
    analysis_url = none;
    refresh_interval = from_secs 1;
    client_sdk_key = some client_sdk_key;
    server_sdk_key = some server_sdk_key;
    server_port = port;
    realtime_port = realtime_port;
    realtime_path = "/server/realtime";
  }

  -- The repository over a pair of keys of a version, its toggles on `target_port`.
  unfoldable pub paired_repository : ℕ → ℕ → String → String → ℕ → Option (Inner crates)
  paired_repository target_port port client_sdk_key server_sdk_key version = do
    toggles_url ← unwrap_url crates (local_url target_port "/api/server-sdk/toggles")
    events_url ← unwrap_url crates (local_url target_port "/api/events")
    realtime_port ← add_u16 port 100
    let config =
        paired_config toggles_url events_url client_sdk_key server_sdk_key port realtime_port
    some (Repo.sync crates (new_repository config) client_sdk_key server_sdk_key version)

  -- `setup_repository` of src/repo.rs
  unfoldable pub setup_repository : ℕ → String → String → Option (Inner crates)
  setup_repository port client_sdk_key server_sdk_key =
      paired_repository port port client_sdk_key server_sdk_key 1

  -- `setup_not_ready_repository`
  unfoldable pub setup_not_ready_repository : ℕ → String → String → Option (Inner crates)
  setup_not_ready_repository port client_sdk_key server_sdk_key =
      paired_repository port port client_sdk_key server_sdk_key 0

  -- `setup_repository2`: the url of the keys, the repository, and the loops that are spawned.
  unfoldable pub setup_repository2 : ℕ → Option (Url × Inner crates × List (Task Url))
  setup_repository2 port = do
    toggles_url ← unwrap_url crates (local_url port "/api/server-sdk/toggles")
    events_url ← unwrap_url crates (local_url port "/api/events")
    keys_url ← unwrap_url crates (local_url port "/api/secret-keys")
    realtime_port ← add_u16 port 100
    let config : ServerConfig Url = record {
      toggles_url = toggles_url;
      events_url = events_url;
      keys_url = some keys_url;
      analysis_url = none;
      refresh_interval = from_millis 100;
      client_sdk_key = none;
      server_sdk_key = none;
      server_port = port;
      realtime_port = realtime_port;
      realtime_path = "/server/realtime";
    }
    let repo = new_repository config
    tasks ← sync_with crates repo keys_url
    some (keys_url, repo, tasks)

  -- `setup_fp_server` of src/http/mod.rs; the repository that it returns is that of the handler.
  unfoldable pub setup_fp_server : ℕ → ℕ → String → String → Option (FpHttpHandler crates)
  setup_fp_server target_port listen_port client_sdk_key server_sdk_key = do
    events_url ← unwrap_url crates (local_url target_port "/api/events")
    repo ← paired_repository target_port listen_port client_sdk_key server_sdk_key 1
    some (record {
      repo = repo;
      http_client = crates.http_client;
      events_url = events_url;
      analysis_url = none;
      events_timeout = from_secs 10;
    })
