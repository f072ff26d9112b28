-- ===== src/Tests/Example.antt =====
-- The example, with the stand-ins for the other crates.
use feature_probe_server.Secrets
