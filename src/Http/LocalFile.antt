-- ===== src/Http/LocalFile.antt =====
-- `LocalFileHttpHandlerForTest` of src/http/handler.rs, which answers from files in place of the
-- console. `none` is a panic of an `unwrap`.
pub mod Versions
use mathlib.Core.Option.{get_or}
use feature_probe_server.Prelude.{
  ℕ, zero, suc, String, ◌≡◌, ◌+◌, Bool, Option, none, some, [], ◌∷◌, List, Result, ok, err,
  if◌then◌else◌, ltb,
}
use feature_probe_server.HashMap.{HashMap, get}
use feature_probe_server.Error.{FpServerError}
use feature_probe_server.Crates.{Crates, Duration}
use feature_probe_server.Http.Response.{Response, ok_status, cors_headers, json_content}

pub record LocalFileHttpHandlerForTest : Type 0 where
  pub version_update : Bool
  pub body : Option String

-- The texts of the two files, and what the handler takes from the SDK's `Repository` and its
-- parser beside `Crates`. A version is a number up to `max_version`, and `after_max` is what one more
-- than the greatest is: none if the addition panics, the wrapped number if it does not.
pub record Files (crates : Crates) : Type 0 where
  pub repo_file : String
  pub secrets_file : String
  pub repository_from_json : String → Option crates.Repository
  pub maps_from_json : String → Option (HashMap (HashMap String))
  pub version : crates.Repository → Option ℕ
  pub with_version : crates.Repository → ℕ → crates.Repository
  pub max_version : ℕ
  pub after_max : Option ℕ

abbrev pub json_response : String → Response
json_response body = record { status = ok_status; headers = json_content; body = body }

module _ (crates : Crates) (files : Files crates) where
  open crates use {Repository, repository_to_json}
  open files use {repo_file, repository_from_json, version, with_version, max_version, after_max}

  -- The text that is kept, read from the file the first time.
  unfoldable pub kept_body : Option String → String
  kept_body none = repo_file
  kept_body (some body) = body

  -- `version + 1`
  unfoldable pub bumped : ℕ → Option ℕ
  bumped n = if ltb n max_version then some (n + 1) else after_max

  -- The text of the same repository at the next version.
  unfoldable pub next_version : String → Option String
  next_version body = elim (repository_from_json body) [
    | none ↦ none
    | some repo ↦ elim (bumped (get_or (version repo) 0)) [
      | none ↦ none
      | some n ↦ elim (repository_to_json (with_version repo n)) [
        | ok text ↦ some text
        | err e ↦ none
      ]
    ]
  ]

  -- `server_sdk_toggles`
  unfoldable pub local_server_sdk_toggles :
      LocalFileHttpHandlerForTest
      → Option (LocalFileHttpHandlerForTest × Result Response FpServerError)
  local_server_sdk_toggles self =
      let body = kept_body self.body in
      if self.version_update
      then elim (next_version body) [
        | none ↦ none
        | some text ↦ some (record self { body = some text }, ok (json_response body))
      ]
      else some (record self { body = some body }, ok (json_response body))

  -- `client_sdk_toggles`, `client_sdk_events` and `update_toggles`, which are alike.
  unfoldable pub local_fixed_answer : Result Response FpServerError
  local_fixed_answer = ok (json_response "{}")

  -- `all_secrets`
  unfoldable pub local_all_secrets : Option (Result (HashMap String) FpServerError)
  local_all_secrets = elim (files.maps_from_json files.secrets_file) [
    | none ↦ none
    | some maps ↦ elim (get maps "mapping") [ none ↦ none | some keys ↦ some (ok keys) ]
  ]

  -- `handle_events`
  unfoldable pub local_handle_events : Response
  local_handle_events = record { status = ok_status; headers = cors_headers; body = "" }
