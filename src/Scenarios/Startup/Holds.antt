-- ===== src/Scenarios/Startup/Holds.antt =====
-- What the test of src/main.rs asserts holds where the environment sets nothing.
use feature_probe_server.Prelude.{◌≡◌, refl, true, none, some, ok, inl, inr, arith}
use feature_probe_server.Prelude.Int.{pos}
use feature_probe_server.Crates.{Config, Crates}
use feature_probe_server.Config.{
  ServerConfig, try_parse, required_url, optional_url, keys_url_of, refresh_interval_of, parse_url,
}
use feature_probe_server.Main.{init_server_config}
use feature_probe_server.Main.Start.{start-Begins}
use feature_probe_server.Scenarios.{local_url}
use feature_probe_server.Scenarios.Startup.{SetDefault, main_defaults, set_defaults, test_main}

module _ (crates : Crates) where
  open crates use {Url, url_parse}

  -- What the settings of the test read as where the environment sets no url: the defaults, that of
  -- `refresh_seconds` as a number.
  pub record ReadsDefaults (config : Config) : Type 0 where
    pub toggles : config.get_string "toggles_url" ≡ some (local_url 9009 "/api/server-sdk/toggles")
    pub events : config.get_string "events_url" ≡ some (local_url 9009 "/api/events")
    pub client : config.get_string "client_sdk_key" ≡ some "client-sdk-key1"
    pub server : config.get_string "server_sdk_key" ≡ some "server-sdk-key1"
    pub no_keys_url : config.get_string "keys_url" ≡ none
    pub no_analysis_url : config.get_string "analysis_url" ≡ none
    pub refresh : config.get_int "refresh_seconds" ≡ some (pos 1)

  parsed :
      (config : Config) (toggles events : Url)
      → ReadsDefaults config
      → url_parse (local_url 9009 "/api/server-sdk/toggles") ≡ ok toggles
      → url_parse (local_url 9009 "/api/events") ≡ ok events
      → (cfg : ServerConfig Url) × (try_parse crates config ≡ ok cfg) × (cfg.keys_url ≡ none)
  unfolding try_parse required_url optional_url keys_url_of refresh_interval_of parse_url
  parsed config toggles events reads is_toggles is_events =
      rw
        (
          reads.toggles, reads.events, reads.client, reads.server, reads.no_keys_url,
          reads.no_analysis_url, reads.refresh,
        )
        (rw (is_toggles, required_url, parse_url)
          (rw (is_events, required_url, parse_url) (_, refl, refl)))

  initialised :
      {builder : crates.ConfigBuilder} (config : Config) {cfg : ServerConfig Url}
      → crates.build (crates.add_environment "FP" builder) ≡ ok config
      → try_parse crates config ≡ ok cfg
      → init_server_config crates (some builder) ≡ ok cfg
  unfolding init_server_config
  initialised config built parses = rw (built, init_server_config) (rw parses refl)

  -- What `test_main` asserts holds: if its defaults can be set and built with the environment, read as
  -- the settings of a configuration, and its two urls parse, then the configuration parses and the server
  -- starts.
  pub test_main-holds :
      (set_default : SetDefault crates) {builder : crates.ConfigBuilder} (config : Config)
      (toggles events : Url)
      → set_defaults crates set_default crates.builder main_defaults ≡ some builder
      → crates.build (crates.add_environment "FP" builder) ≡ ok config
      → ReadsDefaults config
      → url_parse (local_url 9009 "/api/server-sdk/toggles") ≡ ok toggles
      → url_parse (local_url 9009 "/api/events") ≡ ok events
      → test_main crates set_default ≡ some true
  unfolding test_main
  test_main-holds set_default {builder} config toggles events set built reads is_toggles is_events =
      let (cfg, parses, unkeyed) = parsed config toggles events reads is_toggles is_events in
      elim (start-Begins crates config cfg parses) [
        | inl (keyed, zero, panics) ↦ absurd (ground arith)
        | inr (ticks, begun) ↦
            let (running, started, begins) = begun in
            rw set (rw (initialised config built parses) (rw started refl))
      ]
