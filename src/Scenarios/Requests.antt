-- ===== src/Scenarios/Requests.antt =====
-- The tests of src/http/mod.rs that send requests: each as what it asserts of the responses, over the
-- server that it sets up, once it has slept. `none` is a handler that panics.
pub mod Mocked
pub mod Holds
pub mod Evaluated
use feature_probe_server.Prelude.{
  String, Bool, true, false, ◌&&◌, Option, none, some, [], ◌∷◌, ok, ◌==◌, same_number, ℕ,
}
use feature_probe_server.Prelude.Options.{◌>>=◌}
use feature_probe_server.HashMap.{HashMap, get}
use feature_probe_server.Crates.{Crates}
use feature_probe_server.Repo.Read.{server_sdk_repo_string}
use feature_probe_server.Http.Response.{Response}
use feature_probe_server.Http.Handler.{FpHttpHandler}
use feature_probe_server.Http.LocalFile.{LocalFileHttpHandlerForTest}
use feature_probe_server.Http.Router.{Axum, Served}
use feature_probe_server.Http.Router.Answered.{fp_serve}
use feature_probe_server.Http.Router.Local.{local_serve}
use feature_probe_server.Scenarios.{Kit}
use feature_probe_server.Scenarios.Browser.{Browser, http_get, http_post}
use feature_probe_server.Scenarios.RepoSync.{is_ok, repo_from_test_file, same_as_file, reads_file}

-- What `setup_mock_api` spawns.
abbrev pub mock : LocalFileHttpHandlerForTest
mock = record { version_update = false; body = none }

-- What `test_client_sdk_toggles` takes from the SDK and from serde: `FPDetail<Value>` is a type of the
-- client SDK, which the test reads from the text of the server's details.
pub record Details : Type 1 where
  pub FpDetail : Type 0
  pub user_json : String
  pub base64_encode : String → String
  pub details_from_json : String → Option (HashMap FpDetail)
  pub rule_index : FpDetail → Option ℕ
  pub value_as_bool : FpDetail → Option Bool

module _ (crates : Crates) (axum : Axum crates) (kit : Kit crates) (browser : Browser axum) where
  open kit use {files, same_repository}

  abbrev reads_default : Response → Bool
  reads_default response =
      same_as_file crates kit (files.repository_from_json response.body)
        (some crates.repository_default)

  abbrev pub get_toggles : String → axum.Request
  get_toggles key = http_get browser "/api/server-sdk/toggles" [] (some key)

  abbrev pub get_secrets : axum.Request
  get_secrets = http_get browser "/internal/all_secrets" [] none

  unfoldable pub test_fp_server_connect_fp_api :
      FpHttpHandler crates → LocalFileHttpHandlerForTest → Option Bool
  test_fp_server_connect_fp_api fp api = do
    own ← fp_serve crates axum fp (get_toggles "server-sdk-key1")
    unknown ← fp_serve crates axum own.handler (get_toggles "no_exist_server_key")
    secrets ← fp_serve crates axum unknown.handler get_secrets
    api_secrets ← local_serve crates axum files api get_secrets
    some (
        is_ok (server_sdk_repo_string crates fp.repo "server-sdk-key1")
        && reads_file crates kit (ok own.response.body)
        && reads_default unknown.response)

  unfoldable pub test_server_sdk_toggles : Option Bool
  test_server_sdk_toggles = do
    answer ← local_serve crates axum files mock (get_toggles "sdk-key")
    some (reads_file crates kit (ok answer.response.body))

  unfoldable pub test_events : FpHttpHandler crates → LocalFileHttpHandlerForTest → Option Bool
  test_events fp api = do
    answer ← fp_serve crates axum fp (http_post browser "/api/events" (some "client-sdk-key1") "[]")
    api_answer ←
        local_serve crates axum files api
          (http_post browser "/api/events" (some "client-sdk-key1") "[]")
    some true

  module _ (details : Details) where
    open details use {
      FpDetail, user_json, base64_encode, details_from_json, rule_index, value_as_bool,
    }

    abbrev pub get_evaluated : axum.Request
    get_evaluated =
        http_get browser "/api/client-sdk/toggles" (("user", base64_encode user_json) ∷ [])
          (some "client-sdk-key1")

    abbrev is_detail : Option FpDetail → Bool
    is_detail none = false
    is_detail (some t) =
        elim (rule_index t) [ none ↦ false | some n ↦ same_number n 0 ]
        && elim (value_as_bool t) [ none ↦ false | some b ↦ b ]

    abbrev has_toggle : Option (HashMap FpDetail) → Bool
    has_toggle none = false
    has_toggle (some toggles) = is_detail (get toggles "bool_toggle")

    unfoldable pub test_client_sdk_toggles :
        FpHttpHandler crates → LocalFileHttpHandlerForTest → Option Bool
    test_client_sdk_toggles fp api = do
      answer ← fp_serve crates axum fp get_evaluated
      api_answer ← local_serve crates axum files api get_evaluated
      some (has_toggle (details_from_json answer.response.body))
