-- ===== src/Config.antt =====
-- `ServerConfig` of src/base.rs, and `ServerConfig::try_parse`. The feature `realtime` is on, as
-- it is by default.
pub mod Display
pub mod Faults
pub mod Fields
pub mod Ports
use Prim.Native.String
use feature_probe_server.Prelude.{ℕ, String, Option, none, some, Result, ok, err, ◌>>=◌}
use feature_probe_server.Prelude.Int.{ℤ, as_unsigned}
use feature_probe_server.Error.{FpServerError, config_error}
use feature_probe_server.Crates.{Config, Crates, Duration, from_secs}

pub record ServerConfig (Url : Type 0) : Type 0 where
  pub toggles_url : Url
  pub events_url : Url
  pub keys_url : Option Url
  pub analysis_url : Option Url
  pub refresh_interval : Duration
  pub server_sdk_key : Option String
  pub client_sdk_key : Option String
  pub server_port : ℕ
  pub realtime_port : ℕ
  pub realtime_path : String

-- `config.get_int(…)` cast to `u16`, with the default port.
unfoldable pub port_or : ℕ → Option ℤ → ℕ
port_or default none = default
port_or default (some port) = as_unsigned 16 port

unfoldable pub string_or : String → Option String → String
string_or default none = default
string_or default (some path) = path

-- `Duration::from_secs(interval as u64)`
unfoldable pub refresh_interval_of : Option ℤ → Result Duration FpServerError
refresh_interval_of none = err (config_error "NOT SET FP_REFRESH_SECONDS")
refresh_interval_of (some interval) = ok (from_secs (as_unsigned 64 interval))

module _ (crates : Crates) where
  open crates use {Url, url_parse}

  -- A url that is set must parse.
  unfoldable pub parse_url : String → String → Result Url FpServerError
  parse_url invalid url = elim (url_parse url) [
    | ok u ↦ ok u
    | err e ↦ err (config_error (String.◌++◌ invalid e))
  ]

  unfoldable pub required_url : String → String → Option String → Result Url FpServerError
  required_url not_set invalid none = err (config_error not_set)
  required_url not_set invalid (some url) = parse_url invalid url

  unfoldable pub optional_url : String → Option String → Result (Option Url) FpServerError
  optional_url invalid none = ok none
  optional_url invalid (some url) = do u ← parse_url invalid url; ok (some u)

  -- Without a `keys_url` both SDK keys have to be set.
  unfoldable pub keys_url_of :
      Option String → Option String → Option String → Result (Option Url) FpServerError
  keys_url_of (some url) client server = do u ← parse_url "INVALID FP_KEYS_URL: " url; ok (some u)
  keys_url_of none none server = err (config_error "NOT SET FP_CLIENT_SDK_KEY")
  keys_url_of none (some c) none = err (config_error "NOT SET FP_SERVER_SDK_KEY")
  keys_url_of none (some c) (some s) = ok none

  unfoldable pub try_parse : Config → Result (ServerConfig Url) FpServerError
  try_parse config = do
    toggles_url ←
        required_url "NOT SET FP_TOGGLES_URL" "INVALID FP_TOGGLES_URL: "
          (config.get_string "toggles_url")
    events_url ←
        required_url "NOT SET FP_EVENTS_URL" "INVALID FP_EVENTS_URL: "
          (config.get_string "events_url")
    let client_sdk_key = config.get_string "client_sdk_key"
    let server_sdk_key = config.get_string "server_sdk_key"
    keys_url ← keys_url_of (config.get_string "keys_url") client_sdk_key server_sdk_key
    analysis_url ← optional_url "INVALID FP_ANALYSIS_URL: " (config.get_string "analysis_url")
    refresh_interval ← refresh_interval_of (config.get_int "refresh_seconds")
    ok (record {
      toggles_url = toggles_url;
      events_url = events_url;
      keys_url = keys_url;
      analysis_url = analysis_url;
      refresh_interval = refresh_interval;
      server_sdk_key = server_sdk_key;
      client_sdk_key = client_sdk_key;
      server_port = port_or 9000 (config.get_int "server_port");
      realtime_port = port_or 9100 (config.get_int "realtime_port");
      realtime_path = string_or "/server/realtime" (config.get_string "realtime_path");
    })
