-- ===== src/Http/Handler.antt =====
-- `FpHttpHandler` of src/http/handler.rs: the handlers of the SDKs' requests. The repository is
-- shared behind an `Arc`; a handler that writes to it returns the new one.
pub mod Answers
pub mod ClientAnswers
pub mod Keys
pub mod ClientLaws
pub mod Laws
use feature_probe_server.Prelude.{String, Option, none, some, [], ◌∷◌, Result, ok, err, ◌>>=◌}
use feature_probe_server.HashMap.{HashMap}
use feature_probe_server.Error.{
  FpServerError, not_found, user_decode_error, config_error, not_ready, json_error,
}
use feature_probe_server.Crates.{Crates, Duration, SyncType, realtime}
use feature_probe_server.Repo.{Inner, secret_keys, client_sync_now}
use feature_probe_server.Repo.Read.{
  server_sdk_repo_string, client_sdk_eval_string, client_sdk_events_string,
}
use feature_probe_server.Http.Response.{
  Response, ok_status, bad_request, service_unavailable, cors_headers, json_content,
}

pub record FpHttpHandler (crates : Crates) : Type 0 where
  pub repo : Inner crates
  pub http_client : crates.HttpClient
  pub events_url : crates.Url
  pub analysis_url : Option crates.Url
  pub events_timeout : Duration

-- The answer to a client SDK from the string that it reads.
unfoldable pub client_answer : Result String FpServerError → Result Response FpServerError
client_answer (ok body) = ok (record { status = ok_status; headers = cors_headers; body = body })
client_answer (err (not_ready s)) =
    ok (record { status = service_unavailable; headers = cors_headers; body = "{}" })
client_answer (err (not_found s)) =
    ok (record { status = ok_status; headers = cors_headers; body = "{}" })
client_answer (err e) = err e

module _ (crates : Crates) where
  open crates use {FpUser, base64_decode, from_utf8, user_from_json, default_json}

  server_answer : Result String FpServerError → Result Response FpServerError
  server_answer (ok body) = ok (record { status = ok_status; headers = json_content; body = body })
  server_answer (err (not_ready s)) =
      ok (record { status = service_unavailable; headers = json_content; body = "{}" })
  server_answer (err (not_found s)) =
      ok (record { status = ok_status; headers = json_content; body = default_json })
  server_answer (err e) = err e

  unfoldable pub server_sdk_toggles : FpHttpHandler crates → String → Result Response FpServerError
  unfolding server_answer
  server_sdk_toggles self sdk_key = server_answer (server_sdk_repo_string crates self.repo sdk_key)

  unfoldable pub decode_user : String → Result FpUser FpServerError
  decode_user user = elim (base64_decode user) [
    | none ↦ err user_decode_error
    | some bytes ↦ elim (from_utf8 bytes) [
      | none ↦ err user_decode_error
      | some text ↦ elim (user_from_json text) [
        | none ↦ err user_decode_error
        | some decoded ↦ ok decoded
      ]
    ]
  ]

  unfoldable pub client_sdk_toggles :
      FpHttpHandler crates → String → String → Result Response FpServerError
  client_sdk_toggles self params_user sdk_key = do
    user ← decode_user params_user
    client_answer (client_sdk_eval_string crates self.repo sdk_key user)

  unfoldable pub client_sdk_events : FpHttpHandler crates → String → Result Response FpServerError
  client_sdk_events self sdk_key = client_answer (client_sdk_events_string crates self.repo sdk_key)

  update_answer : Result String FpServerError → Result Response FpServerError
  update_answer (ok sdk_key) =
      ok (record { status = ok_status; headers = cors_headers; body = "{}" })
  update_answer (err (not_found s)) =
      ok (record { status = bad_request; headers = json_content; body = "{}" })
  update_answer (err e) = err e

  -- The toggles and the version that the request holds are not read.
  unfoldable pub update_toggles :
      FpHttpHandler crates → String → FpHttpHandler crates × Result Response FpServerError
  unfolding update_answer
  update_toggles self sdk_key =
      let (repo, synced) = client_sync_now crates self.repo sdk_key realtime in
      (record self { repo = repo }, update_answer synced)

  unfoldable pub all_secrets : FpHttpHandler crates → Result (HashMap String) FpServerError
  all_secrets self = ok (secret_keys crates self.repo)
