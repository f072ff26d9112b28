-- ===== src/Example/Begins.antt =====
-- What the example begins with.
use feature_probe_server.Crates.{Crates}
use feature_probe_server.Realtime.{RealtimeSocket}
use feature_probe_server.Secrets
use feature_probe_server.Repo
use feature_probe_server.Repo.{Inner}

abbrev socket : RealtimeSocket
socket = record { port = 9100; path = "/server/realtime" }
