-- ===== src/Tests/Scenarios/Server.antt =====
-- Runs of the tests of src/http/mod.rs and src/main.rs.
use feature_probe_server.Prelude.{
  Bool-cases, inl, inr, String, ◌≡◌, refl, true, false, Option, some, none, [], ◌∷◌, ok, ◌==◌,
  if◌then◌else◌,
}
use mathlib.Core.Option.{map}
use feature_probe_server.Prelude.Decimal.{decimal}
use feature_probe_server.Prelude.Int.{ℤ, pos}
use feature_probe_server.Crates.{Config, from_secs}
use feature_probe_server.HashMap.{get, insert, collect}
use feature_probe_server.Secrets
use feature_probe_server.Repo
use feature_probe_server.Repo.{Inner, sync_client, setup_notify, client_config}
use feature_probe_server.Repo.Access.{HasRepo}
use feature_probe_server.Repo.Read.{eval_toggles}
use feature_probe_server.Http.Handler.{FpHttpHandler}
use feature_probe_server.Http.LocalFile.{local_all_secrets}
use feature_probe_server.Example.{unwrap_url}
use feature_probe_server.Scenarios.{
  setup_fp_server, paired_repository, paired_config, new_repository, add_u16, local_url,
}
use feature_probe_server.Scenarios.Sleep.{Slept, at_once, read_again}
use feature_probe_server.Scenarios.Browser.{http_get}
use feature_probe_server.Scenarios.RepoSync.Reading.{Prints}
use feature_probe_server.Scenarios.Requests.{
  mock, test_fp_server_connect_fp_api, test_client_sdk_toggles,
}
use feature_probe_server.Scenarios.Requests.Mocked.{ReadFromMock, mock_toggles}
use feature_probe_server.Scenarios.Requests.Holds.{test_fp_server_connect_fp_api-holds}
use feature_probe_server.Scenarios.Requests.Evaluated.{
  sent, ReadsUser, HasBoolToggle, test_client_sdk_toggles-holds,
}
use feature_probe_server.Config.{
  try_parse, required_url, optional_url, keys_url_of, parse_url, refresh_interval_of,
}
use feature_probe_server.Main.{init_server_config, start, init_handler}
use feature_probe_server.Scenarios.Startup.{set_defaults, test_main}
use feature_probe_server.Tests.Sample.{Client}
use feature_probe_server.Tests.Scenarios.{
  crates, relied, kit, files, axum, browser, details, read_repository, Serves,
}

program : Unit {0}
unfolding setup_fp_server paired_repository paired_config new_repository add_u16 local_url decimal
    unwrap_url Repo.new Repo.sync sync_client insert get Secrets.insert Secrets.default setup_notify
    client_config Secrets.client_sdk_key
program = tt

abbrev pub repository : Inner crates
repository =
    Repo.sync crates
      (new_repository crates (
        paired_config crates "http://127.0.0.1:9002/api/server-sdk/toggles"
          "http://127.0.0.1:9002/api/events" "client-sdk-key1" "server-sdk-key1" 9003 9103))
      "client-sdk-key1" "server-sdk-key1" 1

abbrev server : FpHttpHandler crates
server = record {
  repo = repository;
  http_client = tt;
  events_url = "http://127.0.0.1:9002/api/events";
  analysis_url = none;
  events_timeout = from_secs 10;
}

is_server : setup_fp_server crates 9002 9003 "client-sdk-key1" "server-sdk-key1" ≡ some server
unfolding program
is_server = refl

abbrev first : Client
first = record {
  key = "server-sdk-key1";
  ready = false;
  toggles = [];
  callback = some (record { sdk_key = "server-sdk-key1"; client_sdk_key = none });
  syncs = 0;
}

abbrev read_client : Client
read_client = record first { ready = true; toggles = ("bool_toggle", true) ∷ [] }

abbrev slept_repository : Inner crates
slept_repository = record repository {
  sdk_clients = insert repository.sdk_clients "server-sdk-key1" read_client;
}

slept : Slept crates relied Serves [] repository slept_repository
unfolding program
slept = read_again "server-sdk-key1" first read_client at_once refl refl refl

has_repo : HasRepo slept_repository "server-sdk-key1"
unfolding program
has_repo = record { client = read_client; there = refl; synchronised = refl }

abbrev prints : Prints kit (("bool_toggle", true) ∷ [])
prints = record { text = "bool_toggle"; printed = refl; parsed = refl; reflexive = refl }

read_from_mock : ReadFromMock crates axum kit browser slept_repository "server-sdk-key1"
unfolding program
read_from_mock =
    let (served, answered, is_file) = mock_toggles crates axum kit browser "server-sdk-key1" in
    record {
      has = record { client = read_client; there = refl; synchronised = refl };
      served = served;
      answered = answered;
      read = rw is_file refl;
      prints = prints;
    }

no_keys : local_all_secrets crates files ≡ some (ok [])
unfolding local_all_secrets get
no_keys = refl

test_fp_server_connect_fp_api-holds_example :
    test_fp_server_connect_fp_api crates axum kit browser
      (record server { repo = slept_repository })
      mock
    ≡ some true
test_fp_server_connect_fp_api-holds_example =
    test_fp_server_connect_fp_api-holds crates axum kit browser relied Serves 9002 9003 [] is_server
      slept read_from_mock refl refl no_keys

reads_user : ReadsUser crates axum kit browser details "user"
unfolding http_get get
reads_user = record { bytes = []; extracted = refl; decoded = refl; is_text = refl; read = refl }

has_bool_toggle :
    HasBoolToggle crates axum kit browser details (λ d. d) "user" (("bool_toggle", true) ∷ [])
unfolding get
has_bool_toggle = record {
  toggle = true;
  distinct = (refl, tt);
  there = refl;
  for_client = refl;
  by_first_rule = refl;
  is_true = refl;
}

received_as :
    (k : String)
    → get (read_repository "bool_toggle") k
      ≡ map (λ d. d) (get (sent crates axum kit browser details "user" read_client.toggles) k)
unfolding get eval_toggles collect insert
received_as k = elim (Bool-cases ("bool_toggle" == k)) [
  | inl same ↦ rw same refl
  | inr other ↦ rw other refl
]

test_client_sdk_toggles-holds_example :
    test_client_sdk_toggles crates axum kit browser details
      (record server { repo = slept_repository })
      mock
    ≡ some true
unfolding program eval_toggles collect has_repo
test_client_sdk_toggles-holds_example =
    test_client_sdk_toggles-holds crates axum kit browser details relied Serves 9002 9003 [] "user"
      "bool_toggle" (λ d. d) (read_repository "bool_toggle") is_server slept has_repo
      has_bool_toggle reads_user refl refl received_as no_keys

-- A default is kept as a text, and read as a number if it is 1.
abbrev pub one : String → Option ℤ
one value = if value == "1" then some (pos 1) else none

abbrev set_default : Config → String → String → Option Config
set_default c key value = some (record {
  get_string = λ k. if key == k then some value else c.get_string k;
  get_int = λ k. if key == k then one value else c.get_int k;
})

abbrev pub not_set : Config
not_set = record { get_string = λ k. none; get_int = λ k. none }

-- With nothing set in the environment, the settings parse and the server starts.
started : test_main crates set_default ≡ some true
unfolding test_main set_defaults init_server_config try_parse required_url optional_url keys_url_of
    parse_url refresh_interval_of local_url decimal start init_handler
started = refl
