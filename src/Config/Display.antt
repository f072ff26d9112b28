-- ===== src/Config/Display.antt =====
-- `Display` of `ServerConfig`, which `start` logs. `debug_string` and `debug_duration` are the standard
-- library's `Debug` of a string, quotes and escapes included, and of a duration.
use Prim.Native.String.{◌++◌}
use feature_probe_server.Prelude.{String, Option, none, some}
use feature_probe_server.Prelude.Decimal.{decimal}
use feature_probe_server.Crates.{Crates, Duration}
use feature_probe_server.Config.{ServerConfig}

module _ (crates : Crates) (debug_string : String → String)
    (debug_duration : Duration → String) where
  open crates use {Url, url_to_string}

  debug_option : Option String → String
  debug_option none = "None"
  debug_option (some s) = "Some(" ++ debug_string s ++ ")"

  display_url : Option Url → String
  display_url none = "None"
  display_url (some url) = url_to_string url

  unfoldable pub display_config : ServerConfig Url → String
  unfolding debug_option display_url
  display_config self =
      "server_port "
      ++ decimal self.server_port
      ++ ", toggles_url "
      ++ url_to_string self.toggles_url
      ++ ", events_url "
      ++ url_to_string self.events_url
      ++ ", analysis_url "
      ++ display_url self.analysis_url
      ++ ", keys_url "
      ++ display_url self.keys_url
      ++ ", refresh_interval "
      ++ debug_duration self.refresh_interval
      ++ ", client_sdk_key "
      ++ debug_option self.client_sdk_key
      ++ ", server_sdk_key "
      ++ debug_option self.server_sdk_key
