-- ===== src/Scenarios/RepoSync.antt =====
-- The tests of src/repo.rs: each as the conjunction of what it asserts, over the repository that it sets
-- up, once it has slept.
pub mod Reading
pub mod Holds
use feature_probe_server.Prelude.{
  ℕ, String, Bool, true, false, not, ◌&&◌, Option, none, some, List, [], ◌∷◌, Result, ok, err, ◌==◌,
  ◌+◌, same_number,
}
use feature_probe_server.HashMap
use feature_probe_server.HashMap.{HashMap, contains_key}
use feature_probe_server.Error.{FpServerError, not_found, not_ready}
use feature_probe_server.Crates.{Crates, polling}
use feature_probe_server.Secrets
use feature_probe_server.Repo.{Inner, secret_keys, update_mapping, update_clients, client_sync_now}
use feature_probe_server.Repo.Read.{server_sdk_repo_string, client_sdk_events_string}
use feature_probe_server.Scenarios.{Kit}

-- `HashMap::len`
abbrev pub len : HashMap String → ℕ
len [] = 0
len (e ∷ m) = 1 + len m

-- `== Some(key)`
abbrev pub is_key : Option String → String → Bool
is_key none key = false
is_key (some k) key = k == key

abbrev pub is_ok : {A : Type 0} → Result A FpServerError → Bool
is_ok (ok a) = true
is_ok (err e) = false

-- `== Some(NotFound(key))` and `== Some(NotReady(key))` of the error
abbrev pub is_not_found : Result String FpServerError → String → Bool
is_not_found (err (not_found k)) key = k == key
is_not_found r key = false

abbrev pub is_not_ready : Result String FpServerError → String → Bool
is_not_ready (err (not_ready k)) key = k == key
is_not_ready r key = false

module _ (crates : Crates) (kit : Kit crates) where
  open kit use {files, same_repository}

  -- `repo_from_test_file`
  abbrev pub repo_from_test_file : Option crates.Repository
  repo_from_test_file = files.repository_from_json files.repo_file

  abbrev pub same_as_file : Option crates.Repository → Option crates.Repository → Bool
  same_as_file (some r) (some q) = same_repository r q
  same_as_file a b = false

  -- The text is there, and reads as the repository of the file.
  unfoldable pub reads_file : Result String FpServerError → Bool
  reads_file (ok text) = same_as_file (files.repository_from_json text) repo_from_test_file
  reads_file (err e) = false

  -- What `test_repo_sync` asserts, with its four keys.
  unfoldable pub repo_sync_asserts : Inner crates → String → String → String → String → Bool
  repo_sync_asserts repository client_sdk_key server_sdk_key client_sdk_key2 server_sdk_key2 =
      let keys = secret_keys crates repository in
      let new = Secrets.new 2 (HashMap.insert [] client_sdk_key2 server_sdk_key2) in
      let mapped = update_mapping crates repository new in
      let followed = update_clients crates mapped in
      reads_file (server_sdk_repo_string crates repository server_sdk_key)
      && same_number (len keys) 1
      && is_key (HashMap.get keys client_sdk_key) server_sdk_key
      && contains_key repository.sdk_clients server_sdk_key
      && same_number mapped.secret_mapping.version 2
      && is_key (Secrets.server_sdk_key mapped.secret_mapping client_sdk_key2) server_sdk_key2
      && not (contains_key followed.sdk_clients server_sdk_key)
      && contains_key followed.sdk_clients server_sdk_key2
      && is_ok (client_sync_now crates followed server_sdk_key2 polling).1

  unfoldable pub test_repo_sync : Inner crates → Bool
  test_repo_sync repository =
      repo_sync_asserts repository "client-sdk-key" "server-sdk-key" "client-sdk-key2"
        "server-sdk-key2"

  unfoldable pub test_repo_sync2 : Inner crates → Bool
  test_repo_sync2 repository =
      let keys = secret_keys crates repository in
      is_not_found (server_sdk_repo_string crates repository "non-exist-sdk-key")
        "non-exist-sdk-key"
      && is_ok (client_sdk_events_string crates repository "client-sdk-key")
      && reads_file (server_sdk_repo_string crates repository "server-sdk-key")
      && same_number repository.secret_mapping.version 1
      && same_number (len keys) 1
      && is_key (HashMap.get keys "client-sdk-key") "server-sdk-key"

  unfoldable pub test_not_ready_repo_sync : Inner crates → Bool
  test_not_ready_repo_sync repository =
      is_not_ready (server_sdk_repo_string crates repository "server-sdk-key") "server-sdk-key"
