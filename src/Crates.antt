-- ===== src/Crates.antt =====
-- What the server takes from other crates, as a record of types and operations: `url`, `config`,
-- `reqwest`, `serde_json`, `base64` and `feature_probe_server_sdk`; and the durations of the standard library.
use Prim.Native.Nat.{◌/◌, ◌%◌, ◌*◌}
use feature_probe_server.Prelude.{ℕ, String, ◌≡◌, Bool, is_zero, ◌&&◌, Option, List, Result, ok}
use feature_probe_server.Prelude.Int.{ℤ}
use feature_probe_server.HashMap.{HashMap}

-- `config::Config`. The server reads only whether a getter succeeds, and the value if it does.
pub record Config : Type 0 where
  pub get_string : String → Option String
  pub get_int : String → Option ℤ

-- `std::time::Duration`: whole seconds, and nanoseconds below a second.
pub record Duration : Type 0 where
  pub secs : ℕ
  pub nanos : ℕ

-- `Duration::from_secs` and `Duration::from_millis`
abbrev pub from_secs : ℕ → Duration
from_secs n = record { secs = n; nanos = 0 }

abbrev pub from_millis : ℕ → Duration
from_millis n = record { secs = n / 1000; nanos = n % 1000 * 1000000 }

-- `Duration::is_zero`
unfoldable pub is_zero_duration : Duration → Bool
is_zero_duration d = is_zero d.secs && is_zero d.nanos

-- `feature_probe_server_sdk::SyncType`
pub data SyncType : Type 0 where
  realtime polling : SyncType

-- The fields of `FPConfig` that the server sets; the others have their defaults.
pub record FpConfig (Url HttpClient : Type 0) : Type 0 where
  pub server_sdk_key : String
  pub remote_url : Url
  pub toggles_url : Option Url
  pub refresh_interval : Duration
  pub http_client : Option HttpClient

-- What the closure that `setup_notify` builds has captured: the two keys to notify.
pub record Callback : Type 0 where
  pub sdk_key : String
  pub client_sdk_key : Option String

pub record Crates : Type 1 where
  pub Url : Type 0
  -- `Url::parse`; an error is read through its `Display` only.
  pub url_parse : String → Result Url String
  pub url_to_string : Url → String
  -- `Url::parse("http://nouse.com").unwrap()` does not panic.
  pub nouse_url : Url
  pub nouse_url_lem : url_parse "http://nouse.com" ≡ ok nouse_url
  pub ConfigBuilder : Type 0
  pub builder : ConfigBuilder
  pub add_environment : String → ConfigBuilder → ConfigBuilder
  pub build : ConfigBuilder → Result Config String
  pub HttpClient : Type 0
  pub http_client : HttpClient
  -- `FPClient`, `Repository`, `FPUser`, `Toggle` and `EvalDetail` of the SDK.
  pub FpClient : Type 0
  pub Repository : Type 0
  pub FpUser : Type 0
  pub Toggle : Type 0
  pub Segments : Type 0
  pub Events : Type 0
  pub EvalDetail : Type 0
  pub client_new : FpConfig Url HttpClient → FpClient
  pub initialized : FpClient → Bool
  pub client_repo : FpClient → Repository
  pub sync_now : FpClient → SyncType → FpClient
  pub set_update_callback : FpClient → Callback → FpClient
  pub repository_default : Repository
  pub toggles : Repository → HashMap Toggle
  pub segments : Repository → Segments
  pub events : Repository → Events
  pub is_for_client : Toggle → Bool
  pub eval_detail : Toggle → FpUser → Segments → EvalDetail
  -- `serde_json::to_string(&Repository::default()).unwrap()` does not panic.
  pub default_json : String
  -- `serde_json`; an error is read through its `Display` only.
  pub repository_to_json : Repository → Result String String
  pub default_json_lem : repository_to_json repository_default ≡ ok default_json
  pub details_to_json : HashMap EvalDetail → Result String String
  pub events_to_json : Events → Result String String
  -- `json!({ "error": message })` as a text.
  pub error_body : String → String
  pub user_from_json : String → Option FpUser
  -- The fields `version` and `mapping` of a `SecretMapping`.
  pub secrets_from_json : String → Option (ℕ × HashMap String)
  pub base64_decode : String → Option (List ℕ)
  pub from_utf8 : List ℕ → Option String
  -- `SdkAuthorization(key).encode()` and `HeaderValue::from_str`
  pub authorization_encode : String → String
  pub header_value : String → Option String
  -- `socketio_rs::Payload` and `serde_json::Value`, as far as `register` reads them.
  pub Payload : Type 0
  pub Value : Type 0
  pub payload_json : Payload → Option Value
  pub value_get : Value → String → Option Value
  pub value_string : Value → Option String
  pub empty_text : Value
