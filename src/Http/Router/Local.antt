-- ===== src/Http/Router/Local.antt =====
-- Requests to the handler of the tests, `LocalFileHttpHandlerForTest` of src/http/handler.rs.
use feature_probe_server.Prelude.{
  String, ◌≡◌, refl, false, Option, some, [], Result, ok, Result-cases, inl, inr,
}
use feature_probe_server.Error.{FpServerError}
use feature_probe_server.HashMap.{HashMap}
use feature_probe_server.Crates.{Crates}
use feature_probe_server.Http.Response.{Response, respond}
use feature_probe_server.Http.LocalFile.{
  LocalFileHttpHandlerForTest, Files, json_response, kept_body, local_server_sdk_toggles,
  local_fixed_answer, local_all_secrets,
}
use feature_probe_server.Http.Traits.{local_file_http_handler, local_file_event_handler}
use feature_probe_server.Http.Router.{
  Axum, Served, Endpoint, Destination, client_toggles, client_events, server_toggles, events,
  secrets, toggles_updated, to, routes, serve_http, serve_destination, serve_endpoint,
  serve_server_toggles, serve_client_toggles, serve_client_events, serve_update_toggles,
  serve_events, serve_all_secrets, authorized,
}

module _ (crates : Crates) (axum : Axum crates) (files : Files crates) where
  open axum use {Request, destination, authorization}

  abbrev pub local_serve :
      LocalFileHttpHandlerForTest → Request → Option (Served crates LocalFileHttpHandlerForTest)
  local_serve =
      serve_http crates axum (local_file_http_handler crates files)
        (local_file_event_handler crates files)

  -- A request for toggles is answered with the text that is kept.
  pub local_toggles_lem :
      (self : LocalFileHttpHandlerForTest) (r : Request) (key : String)
      → self.version_update ≡ false
      → destination routes r ≡ to server_toggles
      → authorization r ≡ ok key
      → local_serve self r
        ≡ some (record {
          handler = record self { body = some (kept_body crates files self.body) };
          response = json_response (kept_body crates files self.body);
          posts = [];
        })
  unfolding serve_http serve_destination serve_endpoint serve_server_toggles authorized
      local_server_sdk_toggles respond
  local_toggles_lem self r key fixed there is_key =
      rw (there, serve_destination)
        (rw (is_key, serve_endpoint, serve_server_toggles, authorized) (rw fixed refl))

  abbrev Answers : Option (Served crates LocalFileHttpHandlerForTest) → Type 0
  Answers answered =
      (served : Served crates LocalFileHttpHandlerForTest) × (answered ≡ some served)
      × (served.handler.version_update ≡ false)

  abbrev endpoint :
      LocalFileHttpHandlerForTest
      → Request
      → Endpoint
      → Option (Served crates LocalFileHttpHandlerForTest)
  endpoint =
      serve_endpoint crates axum (local_file_http_handler crates files)
        (local_file_event_handler crates files)

  module _ (keys : HashMap String) (parses : local_all_secrets crates files ≡ some (ok keys))
      (self : LocalFileHttpHandlerForTest) (fixed : self.version_update ≡ false) (r : Request) where
    authorized-Answers :
        (method : String → Option (LocalFileHttpHandlerForTest × Result Response FpServerError))
        → ((key : String)
            → (after : LocalFileHttpHandlerForTest) × (result : Result Response FpServerError)
              × (method key ≡ some (after, result))
              × (after.version_update ≡ false))
        → Answers (
            authorized crates axum
              (local_file_http_handler crates files)
              (local_file_event_handler crates files)
              self
              r
              method)
    unfolding authorized
    authorized-Answers method answers = elim (Result-cases (authorization r)) [
      | inl (rejection, e) ↦ rw (e, authorized) (_, refl, fixed)
      | inr (key, e) ↦
          let (after, result, done, still) = answers key in
          rw (e, authorized) (rw done (_, refl, still))
    ]

    server_toggles-Answers : Answers (endpoint self r server_toggles)
    unfolding serve_endpoint serve_server_toggles local_server_sdk_toggles
    server_toggles-Answers = authorized-Answers _ (λ key. (
      record self { body = some (kept_body crates files self.body) },
      ok (json_response (kept_body crates files self.body)),
      rw fixed refl,
      fixed,
    ))

    client_toggles-Answers : Answers (endpoint self r client_toggles)
    unfolding serve_endpoint serve_client_toggles
    client_toggles-Answers = elim (Result-cases (axum.client_params r)) [
      | inl (rejection, e) ↦ rw (e, serve_endpoint, serve_client_toggles) (_, refl, fixed)
      | inr (params, e) ↦
          rw (e, serve_endpoint, serve_client_toggles)
            (authorized-Answers _ (λ key. (self, local_fixed_answer crates files, refl, fixed)))
    ]

    update_toggles-Answers : Answers (endpoint self r toggles_updated)
    unfolding serve_endpoint serve_update_toggles
    update_toggles-Answers = elim (Result-cases (axum.toggle_update_params r)) [
      | inl (rejection, e) ↦ rw (e, serve_endpoint, serve_update_toggles) (_, refl, fixed)
      | inr (params, e) ↦ rw (e, serve_endpoint, serve_update_toggles) (_, refl, fixed)
    ]

    events-Answers : Answers (endpoint self r events)
    unfolding serve_endpoint serve_events
    events-Answers = elim (Result-cases (axum.event_params r)) [
      | inl (rejection, e) ↦ rw (e, serve_endpoint, serve_events) (_, refl, fixed)
      | inr (params, e) ↦ rw (e, serve_endpoint, serve_events) (_, refl, fixed)
    ]

    destination-Answers :
        (d : Destination)
        → Answers (
            serve_destination crates axum
              (local_file_http_handler crates files)
              (local_file_event_handler crates files)
              self
              r
              d)
    unfolding serve_destination serve_endpoint serve_all_secrets serve_client_events
    destination-Answers (to server_toggles) = server_toggles-Answers
    destination-Answers (to client_toggles) = client_toggles-Answers
    destination-Answers (to client_events) =
        authorized-Answers _ (λ key. (self, local_fixed_answer crates files, refl, fixed))
    destination-Answers (to toggles_updated) = update_toggles-Answers
    destination-Answers (to events) = events-Answers
    destination-Answers (to secrets) =
        rw (parses, serve_destination, serve_endpoint, serve_all_secrets) (_, refl, fixed)
    destination-Answers (to e) = (_, refl, fixed)
    destination-Answers d = (_, refl, fixed)

    -- A handler of the tests that does not update versions answers every request, if its file of keys is
    -- as it should be.
    pub local_serve-answered :
        (served : Served crates LocalFileHttpHandlerForTest) × (local_serve self r ≡ some served)
        × (served.handler.version_update ≡ false)
    unfolding serve_http
    local_serve-answered = destination-Answers (destination routes r)
