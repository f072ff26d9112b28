-- ===== src/Tests/Config.antt =====
-- Runs of `ServerConfig::try_parse`.
use mathlib.Core.List.{head?}
use feature_probe_server.Crates.{from_secs}
use feature_probe_server.Prelude.{
  ℕ, String, ◌≡◌, refl, ◌↔◌, ◌+◌, ◌<◌, ◌≤◌, ◌^◌, none, some, List, [], ◌∷◌, map, ok, err, arith,
  ◌==◌, if◌then◌else◌,
}
use feature_probe_server.Prelude.Int.{ℤ, pos, negsuc, as_unsigned}
use feature_probe_server.Error.{config_error}
use feature_probe_server.HashMap.{get}
use feature_probe_server.Crates.{Config}
use feature_probe_server.Config.{
  ServerConfig, port_or, string_or, refresh_interval_of, parse_url, required_url, optional_url,
  keys_url_of, try_parse,
}
use feature_probe_server.Config.Faults.{failure, faults, try_parse-faults}
use feature_probe_server.Config.Ports.{
  with_refresh, try_parse-server_port_iff, try_parse-refresh_negative,
}
use feature_probe_server.Tests.Sample.{crates}

abbrev texts : List (String × String)
texts =
    ("toggles_url", "http://api/toggles")
    ∷ ("events_url", "http://api/events")
    ∷ ("client_sdk_key", "client-1")
    ∷ ("server_sdk_key", "server-1")
    ∷ []

abbrev pub settings : ℤ → ℤ → Config
settings port seconds = record {
  get_string = get texts;
  get_int = λ k.
      if k == "server_port"
      then some port
      else if k == "refresh_seconds"
      then some seconds
      else none;
}

abbrev pub parsed : ℕ → ℕ → ServerConfig String
parsed port seconds = record {
  toggles_url = "http://api/toggles";
  events_url = "http://api/events";
  keys_url = none;
  analysis_url = none;
  refresh_interval = from_secs seconds;
  server_sdk_key = some "server-1";
  client_sdk_key = some "client-1";
  server_port = port;
  realtime_port = 9100;
  realtime_path = "/server/realtime";
}

program : Unit {0}
unfolding try_parse port_or string_or refresh_interval_of parse_url required_url optional_url
    keys_url_of as_unsigned get
program = tt

pub runs : try_parse crates (settings (pos 4007) (pos 3)) ≡ ok (parsed 4007 3)
unfolding program
runs = refl

-- 70000 is cut down to 4464.
runs_wrapped :
    try_parse crates (settings (pos 70000) (negsuc 0)) ≡ ok (parsed 4464 18446744073709551615)
unfolding program
runs_wrapped = refl

-- Of two faults the first setting's is reported.
first_fault :
    try_parse crates (record {
      get_string = λ k. if k == "toggles_url" then some "bad" else none;
      get_int = λ k. none;
    })
    ≡ err (config_error "INVALID FP_TOGGLES_URL: relative URL without a base")
unfolding program
first_fault = refl

try_parse-faults_example :
    failure (try_parse crates (settings (pos 80) (pos 1)))
    ≡ head? (map config_error (faults crates (settings (pos 80) (pos 1))))
try_parse-faults_example = try_parse-faults crates (settings (pos 80) (pos 1))

try_parse-server_port_iff_example :
    (◌≡◌ {A = ℤ} (pos 4464) (pos 70000))
    ↔ ((n : ℕ) × (◌≡◌ {A = ℤ} (pos 70000) (pos n)) × (n < 65536))
unfolding get
try_parse-server_port_iff_example =
    try_parse-server_port_iff crates (settings (pos 70000) (negsuc 0))
      (parsed 4464 18446744073709551615) (pos 70000) runs_wrapped refl

try_parse-refresh_negative_example :
    (seconds : ℕ) × (seconds + (0 + 1) ≡ 2 ^ 64)
    × (2 ^ 63 ≤ seconds)
    × (try_parse crates (with_refresh (settings (pos 4007) (pos 3)) (negsuc 0))
        ≡ ok (record (parsed 4007 3) { refresh_interval = from_secs seconds }))
try_parse-refresh_negative_example =
    try_parse-refresh_negative crates (settings (pos 4007) (pos 3)) (parsed 4007 3) 0 (omega arith)
      runs
