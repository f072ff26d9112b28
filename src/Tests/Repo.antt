-- ===== src/Tests/Repo.antt =====
-- Runs of src/repo.rs.
use feature_probe_server.Crates.{from_secs}
use feature_probe_server.Prelude.{
  String, ◌≡◌, refl, ◌↔◌, true, false, none, some, [], ◌∷◌, ok, ltb, if◌then◌else◌,
}
use feature_probe_server.HashMap.{get, insert, remove, contains}
use feature_probe_server.Config.{ServerConfig}
use feature_probe_server.Secrets
use feature_probe_server.Secrets.{SecretMapping, fill_reverse}
use feature_probe_server.Secrets.Invariant.{
  IsConsistent, default-IsConsistent, update_mapping-IsConsistent,
}
use feature_probe_server.Repo.{
  Inner, sync_client, remove_client, sync_all, remove_unlisted, update_clients,
}
use feature_probe_server.Repo.Read.{server_sdk_repo_string}
use feature_probe_server.Repo.Access.{IsServed, HasRepo, server_sdk_repo_string-ok_iff}
use feature_probe_server.Repo.Clients.{kept_or_fresh, get-update_clients}
use feature_probe_server.Tests.Sample.{Client, crates}

abbrev pub config : ServerConfig String
config = record {
  toggles_url = "http://api/toggles";
  events_url = "http://api/events";
  keys_url = some "http://api/keys";
  analysis_url = some "http://analysis";
  refresh_interval = from_secs 1;
  server_sdk_key = none;
  client_sdk_key = none;
  server_port = 4007;
  realtime_port = 9100;
  realtime_path = "/server/realtime";
}

abbrev pub received : SecretMapping
received =
    Secrets.update_mapping Secrets.default (Secrets.deserialize 2 (("client-1", "server-1") ∷ []))

abbrev pub synchronised : Client
synchronised = record {
  key = "server-1";
  ready = true;
  toggles = ("hidden", false) ∷ ("shown", true) ∷ [];
  callback = none;
  syncs = 0;
}

-- A mapping of version 2 with one pair, whose SDK client has synchronised, beside the client of a
-- key that was taken out of the mapping.
abbrev pub serving : Inner crates
serving = record {
  server_config = config;
  http_client = tt;
  realtime_socket = record { port = 9100; path = "/server/realtime" };
  sdk_clients = ("server-1", synchronised) ∷ ("server-0", synchronised) ∷ [];
  secret_mapping = received;
}

pub received-IsConsistent : IsConsistent received
unfolding Secrets.deserialize get
received-IsConsistent =
    update_mapping-IsConsistent Secrets.default
      (Secrets.deserialize 2 (("client-1", "server-1") ∷ [])) (refl, tt) default-IsConsistent

-- `update_clients` drops the client of the key that is gone.
dropped : (update_clients crates serving).sdk_clients ≡ ("server-1", synchronised) ∷ []
unfolding update_clients sync_all sync_client remove_unlisted remove_client remove contains get
    insert Secrets.server_sdk_keys Secrets.update_mapping Secrets.default Secrets.deserialize
    fill_reverse
dropped = refl

get-update_clients_example : get (update_clients crates serving).sdk_clients "server-0" ≡ (
    if ltb 0 received.version
    then (if Secrets.contains_server_sdk_key received "server-0"
        then some (kept_or_fresh crates serving "server-0")
        else none)
    else get serving.sdk_clients "server-0")
get-update_clients_example = get-update_clients crates serving "server-0"

server_sdk_repo_string-ok_iff_example :
    (server_sdk_repo_string crates serving "server-1" ≡ ok "hidden") ↔ (
      IsServed serving "server-1"
      × ((r : HasRepo serving "server-1") × (crates.repository_to_json (crates.client_repo r.client)
            ≡ ok "hidden")))
server_sdk_repo_string-ok_iff_example =
    server_sdk_repo_string-ok_iff crates serving "server-1" "hidden" received-IsConsistent
