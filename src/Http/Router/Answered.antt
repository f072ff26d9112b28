-- ===== src/Http/Router/Answered.antt =====
-- What a request for toggles comes to once it is led to its function and taken apart.
use feature_probe_server.Prelude.{String, ◌≡◌, refl, Option, some, [], Result, ok}
use feature_probe_server.Error.{FpServerError}
use feature_probe_server.Crates.{Crates}
use feature_probe_server.Http.Response.{Response, respond}
use feature_probe_server.Http.Handler.{FpHttpHandler, server_sdk_toggles, client_sdk_toggles}
use feature_probe_server.Http.Traits.{ClientParams, fp_http_handler, fp_event_handler}
use feature_probe_server.Http.Router.{
  Axum, Served, to, server_toggles, client_toggles, routes, serve_http, serve_destination,
  serve_endpoint, serve_server_toggles, serve_client_toggles, authorized,
}

module _ (crates : Crates) (axum : Axum crates) where
  open axum use {Request, destination, authorization, client_params}

  abbrev pub fp_serve :
      FpHttpHandler crates → Request → Option (Served crates (FpHttpHandler crates))
  fp_serve = serve_http crates axum (fp_http_handler crates) (fp_event_handler crates)

  -- A handler's answer, with nothing changed and nothing sent on.
  abbrev pub plain :
      FpHttpHandler crates → Result Response FpServerError → Served crates (FpHttpHandler crates)
  plain self result = record { handler = self; response = respond crates result; posts = [] }

  pub serve_server_toggles_lem :
      (self : FpHttpHandler crates) (r : Request) (key : String)
      → destination routes r ≡ to server_toggles
      → authorization r ≡ ok key
      → fp_serve self r ≡ some (plain self (server_sdk_toggles crates self key))
  unfolding serve_http serve_destination serve_endpoint serve_server_toggles authorized
  serve_server_toggles_lem self r key there is_key =
      rw (there, serve_destination)
        (rw (is_key, serve_endpoint, serve_server_toggles, authorized) refl)

  pub serve_client_toggles_lem :
      (self : FpHttpHandler crates) (r : Request) (params : ClientParams) (key : String)
      → destination routes r ≡ to client_toggles
      → client_params r ≡ ok params
      → authorization r ≡ ok key
      → fp_serve self r ≡ some (plain self (client_sdk_toggles crates self params.user key))
  unfolding serve_http serve_destination serve_endpoint serve_client_toggles authorized
  serve_client_toggles_lem self r params key there is_user is_key =
      rw (there, serve_destination)
        (rw (is_user, serve_endpoint, serve_client_toggles) (rw (is_key, authorized) refl))
