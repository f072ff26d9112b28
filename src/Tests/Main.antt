-- ===== src/Tests/Main.antt =====
-- A run of src/main.rs.
use feature_probe_server.Prelude.{◌≡◌, ◌≢◌, ◌⊎◌, true, none, some, is_some, ok}
use feature_probe_server.Prelude.Int.{pos}
use feature_probe_server.Crates.{from_secs}
use feature_probe_server.Main.{Running, start}
use feature_probe_server.Main.Start.{Begins, start-Begins}
use feature_probe_server.Tests.Config.{settings, parsed, runs}
use feature_probe_server.Tests.Sample.{crates}

start-Begins_example :
    let cfg = parsed 4007 3 in
    ((is_some cfg.keys_url ≡ true)
      × (cfg.refresh_interval ≡ from_secs 0)
      × (start crates cfg ≡ none))
    ⊎ (((cfg.keys_url ≡ none) ⊎ (cfg.refresh_interval ≢ from_secs 0))
        × ((r : Running crates) × (start crates cfg ≡ some (ok r)) × Begins crates cfg r))
start-Begins_example = start-Begins crates (settings (pos 4007) (pos 3)) (parsed 4007 3) runs
