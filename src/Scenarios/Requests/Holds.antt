-- ===== src/Scenarios/Requests/Holds.antt =====
-- What the tests of src/http/mod.rs assert of the responses holds, whatever happens while they sleep, once the
-- SDK client has read what the mock answers.
use feature_probe_server.Prelude.{ℕ, String, ◌≡◌, refl, ◌<◌, true, false, some, [], ok, arith}
use feature_probe_server.HashMap.{HashMap, get}
use feature_probe_server.Crates.{Crates}
use feature_probe_server.Secrets
use feature_probe_server.Repo.{Inner, Fetched}
use feature_probe_server.Repo.Steps.{Relied}
use feature_probe_server.Repo.Read.{server_sdk_repo_string}
use feature_probe_server.Http.Handler.{FpHttpHandler}
use feature_probe_server.Http.LocalFile.{local_all_secrets}
use feature_probe_server.Http.Router.{Axum}
use feature_probe_server.Http.Router.Effects.{serve_http-effects}
use feature_probe_server.Http.Router.Local.{local_serve-answered}
use feature_probe_server.Scenarios.{Kit, setup_fp_server}
use feature_probe_server.Scenarios.Sleep.{Slept}
use feature_probe_server.Scenarios.Browser.{Browser, http_post}
use feature_probe_server.Scenarios.RepoSync.{is_ok, repo_from_test_file, reads_file}
use feature_probe_server.Scenarios.RepoSync.Reading.{repo_string_of_HasRead}
use feature_probe_server.Scenarios.Requests.{
  mock, get_secrets, test_fp_server_connect_fp_api, test_server_sdk_toggles, test_events,
}
use feature_probe_server.Scenarios.Requests.Mocked.{
  mock_toggles, ReadFromMock, has_read, fp_toggles, pair_after_sleep, unknown_response,
  known_response,
}

module _ (crates : Crates) (axum : Axum crates) (kit : Kit crates) (browser : Browser axum)
    (relied : Relied crates) (serves : crates.Url → Fetched → Type 0) where
  open kit use {files, same_repository}

  -- What `test_server_sdk_toggles` asserts holds if the file holds a repository that is the same as
  -- itself.
  pub test_server_sdk_toggles-holds :
      (r : crates.Repository)
      → repo_from_test_file crates kit ≡ some r
      → same_repository r r ≡ true
      → test_server_sdk_toggles crates axum kit browser ≡ some true
  unfolding test_server_sdk_toggles reads_file
  test_server_sdk_toggles-holds r holds same =
      let (served, answered, is_file) = mock_toggles crates axum kit browser "sdk-key" in
      rw answered (rw (is_file, holds, same) refl)

  -- What `test_events` asserts holds for any server: both requests are answered, if the mock's file of
  -- keys is as it should be.
  pub test_events-holds :
      (fp : FpHttpHandler crates) (keys : HashMap String)
      → local_all_secrets crates files ≡ some (ok keys)
      → test_events crates axum kit browser fp mock ≡ some true
  unfolding test_events
  test_events-holds fp keys parses =
      let r = http_post browser "/api/events" (some "client-sdk-key1") "[]" in
      let (served, answered, still, changes, posts) = serve_http-effects crates axum fp r in
      let (api_served, api_answered, fixed) =
        local_serve-answered crates axum files keys parses mock refl r in
      rw (answered, api_answered) refl

  -- All that `test_fp_server_connect_fp_api` asserts holds for the server that it sets up, whatever
  -- happens while it sleeps, if by then the SDK client of the server key has read what the mock
  -- answers to a request with its key. It takes for granted that the repository of that client prints,
  -- to a text that reads as it again, and is the same as itself (`Prints`), that the text of the
  -- default repository reads as it again, and that the mock's file of keys is as it should be.
  pub test_fp_server_connect_fp_api-holds :
      (target listen : ℕ) (keys : HashMap String) {fp : FpHttpHandler crates} {j : Inner crates}
      → setup_fp_server crates target listen "client-sdk-key1" "server-sdk-key1" ≡ some fp
      → Slept crates relied serves [] fp.repo j
      → ReadFromMock crates axum kit browser j "server-sdk-key1"
      → files.repository_from_json crates.default_json ≡ some crates.repository_default
      → same_repository crates.repository_default crates.repository_default ≡ true
      → local_all_secrets crates files ≡ some (ok keys)
      → test_fp_server_connect_fp_api crates axum kit browser (record fp { repo = j }) mock
        ≡ some true
  unfolding test_fp_server_connect_fp_api get Secrets.contains_server_sdk_key
  test_fp_server_connect_fp_api-holds target listen keys {fp} {j} made slept read default_read
        default_same parses =
      let after : FpHttpHandler crates = record fp { repo = j } in
      let held =
        pair_after_sleep crates axum kit browser relied serves target listen "client-sdk-key1"
          "server-sdk-key1" made slept in
      let h = has_read crates axum kit browser j "server-sdk-key1" read in
      let versioned : 0 < j.secret_mapping.version = rw held (omega arith) in
      let known : Secrets.contains_server_sdk_key j.secret_mapping "server-sdk-key1" ≡ true =
        rw held refl in
      let unknown : Secrets.contains_server_sdk_key j.secret_mapping "no_exist_server_key" ≡ false =
        rw held refl in
      let text = repo_string_of_HasRead crates kit j "server-sdk-key1" versioned known h in
      let own = known_response crates axum kit browser after "server-sdk-key1" versioned known h in
      let other =
        unknown_response crates axum kit browser after "no_exist_server_key" versioned unknown in
      let (secrets, answered, still, changes, posts) =
        serve_http-effects crates axum after (get_secrets crates axum kit browser) in
      let (api_secrets, api_answered, fixed) =
        local_serve-answered crates axum files keys parses mock refl
          (get_secrets crates axum kit browser) in
      let shown : is_ok (server_sdk_repo_string crates j "server-sdk-key1") ≡ true = rw text refl in
      rw (fp_toggles crates axum kit browser after "server-sdk-key1") (
        rw (fp_toggles crates axum kit browser after "no_exist_server_key")
          (rw (answered, api_answered, shown, own, other, default_read, default_same) refl))
