-- ===== src/Tests/Scenarios/Runs.antt =====
-- Runs of the tests of the program.
use feature_probe_server.Prelude.{
  String, ◌≡◌, ◌≢◌, arith, eq_iff, refl, true, false, none, List, some, [], ◌∷◌,
}
use feature_probe_server.Prelude.Decimal.{decimal}
use feature_probe_server.HashMap.{get, insert, contains, remove}
use feature_probe_server.Secrets
use feature_probe_server.Repo
use feature_probe_server.Repo.{
  Inner, Fetched, body, sync_client, setup_notify, client_config, sync_all, remove_unlisted,
  remove_client, sync_secret_keys_round,
}
use feature_probe_server.Main.{Task, sync_secret_keys, update_clients, sync_with}
use feature_probe_server.Crates.{from_millis, is_zero_duration}
use mathlib.Core.List.{Memᴰ}
use feature_probe_server.Example.{unwrap_url}
use feature_probe_server.Scenarios.{
  secret_keys_text, setup_repository, setup_repository2, paired_repository, paired_config,
  new_repository, add_u16, local_url,
}
use feature_probe_server.Scenarios.Sleep.{FedBy, Slept, at_once, read_again, fed, followed}
use feature_probe_server.Scenarios.RepoSync.{repo_sync_asserts, test_repo_sync2}
use feature_probe_server.Scenarios.RepoSync.Reading.{Prints, HasRead}
use feature_probe_server.Scenarios.RepoSync.Holds.{repo_sync_asserts-hold, test_repo_sync2-holds}
use feature_probe_server.Tests.Sample.{Client}
use feature_probe_server.Tests.Scenarios.{crates, relied, kit, Serves}

program : Unit {0}
unfolding setup_repository paired_repository paired_config new_repository add_u16 local_url decimal
    unwrap_url Repo.new Repo.sync sync_client insert get Secrets.insert Secrets.default setup_notify
    client_config Secrets.client_sdk_key setup_repository2 sync_with is_zero_duration
program = tt

abbrev set_up : Inner crates
set_up =
    Repo.sync crates
      (new_repository crates (
        paired_config crates "http://127.0.0.1:9590/api/server-sdk/toggles"
          "http://127.0.0.1:9590/api/events" "client-sdk-key" "server-sdk-key" 9590 9690))
      "client-sdk-key" "server-sdk-key" 1

is_set_up : setup_repository crates 9590 "client-sdk-key" "server-sdk-key" ≡ some set_up
unfolding program
is_set_up = refl

abbrev pub first : Client
first = record {
  key = "server-sdk-key";
  ready = false;
  toggles = [];
  callback = some (record { sdk_key = "server-sdk-key"; client_sdk_key = none });
  syncs = 0;
}

-- The client once it has read its toggles.
abbrev pub read_client : Client
read_client = record first { ready = true; toggles = ("bool_toggle", true) ∷ [] }

abbrev slept_repository : Inner crates
slept_repository = record set_up {
  sdk_clients = insert set_up.sdk_clients "server-sdk-key" read_client;
}

slept : Slept crates relied Serves [] set_up slept_repository
unfolding program
slept = read_again "server-sdk-key" first read_client at_once refl refl refl

pub prints : Prints kit (("bool_toggle", true) ∷ [])
prints = record { text = "bool_toggle"; printed = refl; parsed = refl; reflexive = refl }

has_read : HasRead kit slept_repository "server-sdk-key"
unfolding program
has_read = record {
  has = record { client = read_client; there = refl; synchronised = refl };
  is_file = record { of_file = refl; prints = prints };
}

differ : ◌≢◌ {A = String} "server-sdk-key2" "server-sdk-key"
differ = λ same. ground (arith, (eq_iff "server-sdk-key2" "server-sdk-key").1 same)

repo_sync_asserts-hold_example :
    repo_sync_asserts crates kit slept_repository "client-sdk-key" "server-sdk-key"
      "client-sdk-key2" "server-sdk-key2"
    ≡ true
repo_sync_asserts-hold_example =
    repo_sync_asserts-hold crates relied kit Serves 9590 "client-sdk-key" "server-sdk-key"
      "client-sdk-key2" "server-sdk-key2" differ is_set_up slept has_read

abbrev keys_url : String
keys_url = "http://127.0.0.1:9591/api/secret-keys"

abbrev tasks : List (Task String)
tasks = sync_secret_keys keys_url ∷ update_clients ∷ []

abbrev unfed : Inner crates
unfed = new_repository crates (record {
  toggles_url = "http://127.0.0.1:9591/api/server-sdk/toggles";
  events_url = "http://127.0.0.1:9591/api/events";
  keys_url = some keys_url;
  analysis_url = none;
  refresh_interval = from_millis 100;
  client_sdk_key = none;
  server_sdk_key = none;
  server_port = 9591;
  realtime_port = 9691;
  realtime_path = "/server/realtime";
})

is_unfed : setup_repository2 crates 9591 ≡ some (keys_url, unfed, tasks)
unfolding program
is_unfed = refl

abbrev fed_once : Inner crates
fed_once = Repo.update_clients crates (sync_secret_keys_round crates unfed (body secret_keys_text))

-- The client that `update_clients` makes.
abbrev made : Client
made = record first {
  callback = some (record { sdk_key = "server-sdk-key"; client_sdk_key = some "client-sdk-key" });
}

abbrev made_read : Client
made_read = record made { ready = true; toggles = ("bool_toggle", true) ∷ [] }

abbrev fed_repository : Inner crates
fed_repository = record fed_once {
  sdk_clients = insert fed_once.sdk_clients "server-sdk-key" made_read;
}

rounds : Unit {0}
unfolding program Repo.update_clients sync_all remove_unlisted remove_client contains remove
    sync_secret_keys_round Repo.update_mapping Secrets.server_sdk_keys Secrets.update_mapping
    Secrets.deserialize Secrets.fill_reverse Secrets.new
rounds = tt

sleep_fed : Slept crates relied Serves tasks unfed fed_repository
unfolding rounds
sleep_fed =
    read_again "server-sdk-key" made made_read
      (followed (fed keys_url (body secret_keys_text) at_once (Memᴰ.head refl) refl)
        (Memᴰ.tail (Memᴰ.head refl)))
      refl refl refl

fed_read : HasRead kit fed_repository "server-sdk-key"
unfolding rounds
fed_read = record {
  has = record { client = made_read; there = refl; synchronised = refl };
  is_file = record { of_file = refl; prints = prints };
}

feeds : (u : String) (f : Fetched) → Serves u f → FedBy secret_keys_text f
feeds u f same = rw same refl

test_repo_sync2-holds_example : test_repo_sync2 crates kit fed_repository ≡ true
test_repo_sync2-holds_example =
    test_repo_sync2-holds crates relied kit Serves 9591 keys_url tasks "[]" is_unfed refl feeds
      sleep_fed fed_read refl
