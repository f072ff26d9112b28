-- ===== src/Scenarios/Startup.antt =====
-- The test of src/main.rs: the settings that it makes, and what it asserts of them.
pub mod Holds
use mathlib.Core.Option.{map}
use feature_probe_server.Prelude.{
  String, Bool, true, false, Option, none, some, List, [], ◌∷◌, Result, ok, err,
}
use feature_probe_server.Prelude.Options.{◌>>=◌}
use feature_probe_server.Crates.{Crates}
use feature_probe_server.Error.{FpServerError}
use feature_probe_server.Config.{ServerConfig}
use feature_probe_server.Main.{init_server_config, start}
use feature_probe_server.Scenarios.{local_url}

-- `ConfigBuilder::set_default(…).unwrap()`
abbrev pub SetDefault : Crates → Type 0
SetDefault crates = crates.ConfigBuilder → String → String → Option crates.ConfigBuilder

abbrev pub succeeds : {A E : Type 0} → Result A E → Bool
succeeds (ok a) = true
succeeds (err e) = false

-- The defaults that `test_main` sets.
abbrev pub main_defaults : List (String × String)
main_defaults =
    ("toggles_url", local_url 9009 "/api/server-sdk/toggles")
    ∷ ("events_url", local_url 9009 "/api/events")
    ∷ ("client_sdk_key", "client-sdk-key1")
    ∷ ("server_sdk_key", "server-sdk-key1")
    ∷ ("refresh_seconds", "1")
    ∷ []

module _ (crates : Crates) (set_default : SetDefault crates) where
  -- `set_default` for one default after another.
  unfoldable pub set_defaults :
      crates.ConfigBuilder → List (String × String) → Option crates.ConfigBuilder
  set_defaults builder [] = some builder
  set_defaults builder ((key, value) ∷ defaults) = do
    next ← set_default builder key value
    set_defaults next defaults

  -- `none` is a panic; `start` is reached only with a configuration: the test unwraps it.
  abbrev starts : Result (ServerConfig crates.Url) FpServerError → Option Bool
  starts (err e) = some false
  starts (ok server_config) = map succeeds (start crates server_config)

  unfoldable pub test_main : Option Bool
  test_main = do
    config ← set_defaults crates.builder main_defaults
    starts (init_server_config crates (some config))
