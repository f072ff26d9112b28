-- ===== src/Http/Response.antt =====
-- Responses: `cors_headers` and `FPServerError::into_response` of src/http/mod.rs.
use feature_probe_server.Prelude.{ℕ, String, List, [], ◌∷◌, Result, ok, err}
use feature_probe_server.Error.{
  FpServerError, not_found, user_decode_error, config_error, not_ready, json_error, to_string,
}
use feature_probe_server.Crates.{Crates}

-- What a handler sets of a response; the headers that axum adds are not listed.
pub record Response : Type 0 where
  pub status : ℕ
  pub headers : List (String × String)
  pub body : String

abbrev pub ok_status : ℕ
ok_status = 200

abbrev pub bad_request : ℕ
bad_request = 400

abbrev pub unauthorized : ℕ
unauthorized = 401

abbrev pub status_not_found : ℕ
status_not_found = 404

abbrev pub internal_server_error : ℕ
internal_server_error = 500

abbrev pub service_unavailable : ℕ
service_unavailable = 503

unfoldable pub cors_headers : List (String × String)
cors_headers =
    ("content-type", "application/json")
    ∷ ("access-control-allow-headers", "*")
    ∷ ("access-control-allow-origin", "*")
    ∷ ("access-control-allow-methods", "GET, POST, PUT, DELETE, OPTIONS")
    ∷ []

abbrev pub json_content : List (String × String)
json_content = ("content-type", "application/json") ∷ []

unfoldable pub error_status : FpServerError → ℕ
error_status (not_found s) = status_not_found
error_status user_decode_error = bad_request
error_status (config_error s) = internal_server_error
error_status (not_ready s) = internal_server_error
error_status (json_error s) = internal_server_error

-- `client_cors`
unfoldable pub client_cors : Response
client_cors = record { status = ok_status; headers = cors_headers; body = "" }

-- `handler_404`
unfoldable pub handler_404 : Response
handler_404 = record { status = status_not_found; headers = []; body = "" }

-- `root_handler`, with the header of `Html`.
unfoldable pub root_handler : Response
root_handler = record {
  status = ok_status;
  headers = ("content-type", "text/html; charset=utf-8") ∷ [];
  body = "<h1>Feature Probe Server</h1>";
}

module _ (crates : Crates) where
  unfoldable pub into_response : FpServerError → Response
  into_response e = record {
    status = error_status e;
    headers = cors_headers;
    body = crates.error_body (to_string e);
  }

  -- What axum sends for a handler's `Result<Response, FPServerError>`.
  unfoldable pub respond : Result Response FpServerError → Response
  respond (ok response) = response
  respond (err e) = into_response e
