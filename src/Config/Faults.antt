-- ===== src/Config/Faults.antt =====
-- Which configurations `try_parse` accepts, and which error it reports for the others.
use Prim.Native.String
use mathlib.Core.List.{head?}
use feature_probe_server.Prelude.{
  String, ◌≡◌, Option, none, some, List, [], ◌∷◌, ◌++◌, map, Result, ok, err, arith,
}
use feature_probe_server.Prelude.Int.{ℤ}
use feature_probe_server.Error.{config_error}
use feature_probe_server.Crates.{Config, Crates}
use feature_probe_server.Config.{
  refresh_interval_of, parse_url, keys_url_of, required_url, optional_url, try_parse,
}

-- The error of a result.
abbrev pub failure {ℓ} : {A E : Type ℓ} → Result A E → Option E
failure (ok a) = none
failure (err e) = some e

abbrev pub missing : Option String → String → List String
missing none message = message ∷ []
missing (some s) message = []

abbrev pub missing_int : Option ℤ → String → List String
missing_int none message = message ∷ []
missing_int (some s) message = []

module _ (crates : Crates) where
  open crates use {Url, url_parse}

  -- What is wrong with a url that is set.
  abbrev pub invalid_url : Option String → String → List String
  invalid_url none prefix = []
  invalid_url (some url) prefix = elim (url_parse url) [
    | ok u ↦ []
    | err e ↦ String.◌++◌ prefix e ∷ []
  ]

  abbrev pub keys_faults : Option String → Config → List String
  keys_faults none config =
      missing (config.get_string "client_sdk_key") "NOT SET FP_CLIENT_SDK_KEY"
      ++ missing (config.get_string "server_sdk_key") "NOT SET FP_SERVER_SDK_KEY"
  keys_faults (some url) config = invalid_url (some url) "INVALID FP_KEYS_URL: "

  -- All that is wrong with a configuration, setting by setting.
  abbrev pub faults : Config → List String
  faults config =
      missing (config.get_string "toggles_url") "NOT SET FP_TOGGLES_URL"
      ++ (invalid_url (config.get_string "toggles_url") "INVALID FP_TOGGLES_URL: "
          ++ (missing (config.get_string "events_url") "NOT SET FP_EVENTS_URL"
              ++ (invalid_url (config.get_string "events_url") "INVALID FP_EVENTS_URL: "
                  ++ (keys_faults (config.get_string "keys_url") config
                      ++ (invalid_url (config.get_string "analysis_url") "INVALID FP_ANALYSIS_URL: "
                          ++ missing_int (config.get_int "refresh_seconds")
                              "NOT SET FP_REFRESH_SECONDS")))))

  -- `try_parse` fails exactly when something is wrong with the configuration, and reports the
  -- first of the faults as a `ConfigError`.
  pub try_parse-faults :
      (config : Config)
      → failure (try_parse crates config) ≡ head? (map config_error (faults config))
  unfolding try_parse required_url optional_url keys_url_of parse_url refresh_interval_of
  try_parse-faults config = ground arith
