-- ===== src/Tests/Router.antt =====
-- Runs of the route table of src/http/mod.rs.
use feature_probe_server.Prelude.{
  String, ◌≡◌, refl, ◌↔◌, ◌⊎◌, Option, none, some, ◌==◌, if◌then◌else◌, List, [], ok,
}
use feature_probe_server.HashMap.{get}
use feature_probe_server.Http.Response.{handler_404, root_handler}
use feature_probe_server.Http.Handler.{FpHttpHandler}
use feature_probe_server.Http.Traits.{fp_http_handler, fp_event_handler}
use feature_probe_server.Http.Router.{
  Served, Method, head_method, post_method, Endpoint, secrets, events, Destination, to, fallback,
  on_method, routes, Axum, serve_http,
}
use feature_probe_server.Http.Router.Table.{Gets, destination_iff}
use feature_probe_server.Http.Router.Effects.{Updates, serve_http-effects}
use feature_probe_server.Tests.Sample.{crates}
use feature_probe_server.Tests.Http.{handler}

abbrev pub arrival : Method → Option (List (Method × Endpoint)) → Destination
arrival m none = fallback
arrival m (some methods) = on_method m methods

-- A request is its method and its path; every extractor finds what it looks for.
abbrev pub axum : Axum crates
axum = record {
  Request = Method × String;
  method = λ r. r.0;
  path = λ r. r.1;
  destination = λ table r. arrival r.0 (get table r.1);
  destination_listed = λ table r methods listed. rw listed refl;
  destination_unlisted = λ table r unlisted. rw unlisted refl;
  authorization = λ r. ok (if r.1 == "/api/server-sdk/toggles" then "server-1" else "client-1");
  client_params = λ r. ok (record { user = "dXNlcg==" });
  toggle_update_params = λ r. ok (record { sdk_key = "server-1"; toggles = []; version = none });
  event_params = λ r. ok ("server-1", "agent", [], []);
  secrets_response = λ keys. root_handler;
  not_allowed = handler_404;
}

destination_iff_example :
    (axum.destination routes (head_method, "/internal/all_secrets") ≡ to secrets)
    ↔ (Gets head_method × (◌≡◌ {A = String} "/internal/all_secrets" "/internal/all_secrets"))
destination_iff_example = destination_iff crates axum (head_method, "/internal/all_secrets") secrets

serve_http-effects_example :
    let r : Method × String = (post_method, "/internal/update_toggles") in
    (served : Served crates (FpHttpHandler crates)) × (serve_http crates axum
        (fp_http_handler crates)
        (fp_event_handler crates)
        handler
        r
      ≡ some served)
    × (served.handler.repo.secret_mapping ≡ handler.repo.secret_mapping)
    × ((served.handler ≡ handler) ⊎ Updates crates axum handler r served.handler)
    × ((served.posts ≡ []) ⊎ (axum.destination routes r ≡ to events))
serve_http-effects_example =
    serve_http-effects crates axum handler (post_method, "/internal/update_toggles")
