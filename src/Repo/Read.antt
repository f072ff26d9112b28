-- ===== src/Repo/Read.antt =====
-- The reads of src/repo.rs: the strings that the two kinds of SDK are served.
use feature_probe_server.Prelude.{
  String, not, none, some, List, [], ◌∷◌, Result, ok, err, ◌>>=◌, map_err, is_zero, if◌then◌else◌,
}
use feature_probe_server.HashMap
use feature_probe_server.HashMap.{HashMap}
use feature_probe_server.Error.{FpServerError, not_found, not_ready, json_error}
use feature_probe_server.Crates.{Crates}
use feature_probe_server.Secrets
use feature_probe_server.Repo.{Inner}

module _ (crates : Crates) where
  open crates use {FpClient, FpUser, Toggle, Segments, EvalDetail}

  -- The client of a key, if it has a repository to read.
  unfoldable pub ready_client : Inner crates → String → Result FpClient FpServerError
  ready_client inner sdk_key = elim (HashMap.get inner.sdk_clients sdk_key) [
    | none ↦ err (not_ready sdk_key)
    | some client ↦ if not (crates.initialized client) then err (not_ready sdk_key) else ok client
  ]

  unfoldable pub repo_string : Inner crates → String → Result String FpServerError
  repo_string inner sdk_key = do
    client ← ready_client inner sdk_key
    map_err (crates.repository_to_json (crates.client_repo client)) json_error

  -- `.filter(…).map(…)` over the toggles of a repository.
  unfoldable pub eval_toggles : FpUser → Segments → HashMap Toggle → List (String × EvalDetail)
  eval_toggles user segments [] = []
  eval_toggles user segments ((key, toggle) ∷ toggles) =
      let rest = eval_toggles user segments toggles in
      if crates.is_for_client toggle
      then (key, crates.eval_detail toggle user segments) ∷ rest
      else rest

  unfoldable pub all_evaluated_string : Inner crates → String → FpUser → Result String FpServerError
  all_evaluated_string inner sdk_key user = do
    client ← ready_client inner sdk_key
    let repo = crates.client_repo client
    let details = eval_toggles user (crates.segments repo) (crates.toggles repo)
    map_err (crates.details_to_json (HashMap.collect details)) json_error

  unfoldable pub all_event_string : Inner crates → String → Result String FpServerError
  all_event_string inner sdk_key = do
    client ← ready_client inner sdk_key
    map_err (crates.events_to_json (crates.events (crates.client_repo client))) json_error

  unfoldable pub server_sdk_repo_string : Inner crates → String → Result String FpServerError
  server_sdk_repo_string inner server_sdk_key =
      if is_zero inner.secret_mapping.version
      then err (not_ready server_sdk_key)
      else if not (Secrets.contains_server_sdk_key inner.secret_mapping server_sdk_key)
      then err (not_found server_sdk_key)
      else repo_string inner server_sdk_key

  -- The server key of a client key, or the error that the two client reads begin with.
  unfoldable pub server_key_of : Inner crates → String → Result String FpServerError
  server_key_of inner client_sdk_key =
      if is_zero inner.secret_mapping.version
      then err (not_ready client_sdk_key)
      else elim (Secrets.server_sdk_key inner.secret_mapping client_sdk_key) [
        | none ↦ err (not_found client_sdk_key)
        | some sdk_key ↦ ok sdk_key
      ]

  unfoldable pub client_sdk_eval_string :
      Inner crates → String → FpUser → Result String FpServerError
  client_sdk_eval_string inner client_sdk_key user = do
    server_sdk_key ← server_key_of inner client_sdk_key
    all_evaluated_string inner server_sdk_key user

  unfoldable pub client_sdk_events_string : Inner crates → String → Result String FpServerError
  client_sdk_events_string inner client_sdk_key = do
    server_sdk_key ← server_key_of inner client_sdk_key
    all_event_string inner server_sdk_key
