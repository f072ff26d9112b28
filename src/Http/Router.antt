-- ===== src/Http/Router.antt =====
-- `serve_http` of src/http/mod.rs: the route table, and the functions that take a request apart and
-- call the handler. How axum walks a route table and reads a request is a parameter.
pub mod Answered
pub mod Effects
pub mod Local
pub mod Table
use feature_probe_server.Prelude.{
  ℕ, String, ◌≡◌, ◌≢◌, Option, none, some, List, [], ◌∷◌, Result, ok, err, Bool, true, false,
}
use feature_probe_server.HashMap.{HashMap, get}
use feature_probe_server.Crates.{Crates}
use feature_probe_server.Http.Response.{
  Response, respond, client_cors, handler_404, root_handler, ok_status,
}
use feature_probe_server.Error.{FpServerError}
use feature_probe_server.Http.Traits.{ClientParams, ToggleUpdateParams, HttpHandler, EventHandler}
use feature_probe_server.Http.Events.{HeaderMap, Post}

pub data Method : Type 0 where
  get_method head_method post_method options_method other_method : Method

-- The functions that the table leads to.
pub data Endpoint : Type 0 where
  root client_toggles client_events server_toggles events secrets toggles_updated cors : Endpoint

pub data Destination : Type 0 where
  to : Endpoint → Destination
  method_not_allowed fallback : Destination

-- The entry of a method among those of a path: axum calls that of GET for a HEAD request too. The
-- tables have no entry of HEAD.
unfoldable pub on_method : Method → List (Method × Endpoint) → Destination
on_method method [] = method_not_allowed
on_method get_method ((get_method, e) ∷ methods) = to e
on_method head_method ((get_method, e) ∷ methods) = to e
on_method post_method ((post_method, e) ∷ methods) = to e
on_method options_method ((options_method, e) ∷ methods) = to e
on_method method ((m, e) ∷ methods) = on_method method methods

unfoldable pub routes : HashMap (List (Method × Endpoint))
routes =
    ("/", (get_method, root) ∷ [])
    ∷ ("/api/client-sdk/toggles", (get_method, client_toggles) ∷ (options_method, cors) ∷ [])
    ∷ ("/api/client-sdk/events", (get_method, client_events) ∷ (options_method, cors) ∷ [])
    ∷ ("/api/server-sdk/toggles", (get_method, server_toggles) ∷ [])
    ∷ ("/api/events", (post_method, events) ∷ (options_method, cors) ∷ [])
    ∷ ("/internal/all_secrets", (get_method, secrets) ∷ [])
    ∷ ("/internal/update_toggles", (post_method, toggles_updated) ∷ [])
    ∷ []

-- What `serve_http` takes from axum and the event collector: how a request is led through a
-- table of literal paths, and what the extractors read from it or answer in its place.
pub record Axum (crates : Crates) : Type 1 where
  pub Request : Type 0
  pub method : Request → Method
  pub path : Request → String
  pub destination : HashMap (List (Method × Endpoint)) → Request → Destination
  pub destination_listed :
      (table : HashMap (List (Method × Endpoint))) (r : Request)
      (methods : List (Method × Endpoint))
      → get table (path r) ≡ some methods
      → destination table r ≡ on_method (method r) methods
  pub destination_unlisted :
      (table : HashMap (List (Method × Endpoint))) (r : Request)
      → get table (path r) ≡ none
      → destination table r ≡ fallback
  -- `TypedHeader<SdkAuthorization>`, `Query<ClientParams>`, `Json<ToggleUpdateParams>`
  pub authorization : Request → Result String Response
  pub client_params : Request → Result ClientParams Response
  pub toggle_update_params : Request → Result (ToggleUpdateParams crates) Response
  -- What `post_events` hands to `handle_events`: key, user agent, headers and events.
  pub event_params : Request → Result (String × String × HeaderMap × List crates.Value) Response
  pub secrets_response : HashMap String → Response
  pub not_allowed : Response

-- The handler afterwards, the response, and the requests that are sent on. To a HEAD request axum
-- sends the response without its body.
pub record Served (crates : Crates) (Self : Type 0) : Type 0 where
  pub handler : Self
  pub response : Response
  pub posts : List (Post crates.Url crates.Value)

module _ (crates : Crates) (axum : Axum crates) {Self : Type 0} (http : HttpHandler crates Self)
    (events_of : EventHandler crates Self) where
  open axum use {
    Request, destination, authorization, client_params, toggle_update_params, event_params,
    secrets_response, not_allowed,
  }

  abbrev answer : Self → Response → Served crates Self
  answer self response = record { handler = self; response = response; posts = [] }

  -- The response to what a handler's method returns; without one if it panics.
  abbrev answered : Option (Self × Result Response FpServerError) → Option (Served crates Self)
  answered none = none
  answered (some (self, result)) = some (answer self (respond crates result))

  -- The handler's method is called with the key that the request brings.
  authorized :
      Self
      → Request
      → (String → Option (Self × Result Response FpServerError))
      → Option (Served crates Self)
  authorized self r method = elim (authorization r) [
    | err rejection ↦ some (answer self rejection)
    | ok key ↦ answered (method key)
  ]

  serve_client_toggles : Self → Request → Option (Served crates Self)
  serve_client_toggles self r = elim (client_params r) [
    | err rejection ↦ some (answer self rejection)
    | ok params ↦ authorized self r (http.client_sdk_toggles self params)
  ]

  serve_client_events : Self → Request → Option (Served crates Self)
  serve_client_events self r = authorized self r (http.client_sdk_events self)

  serve_server_toggles : Self → Request → Option (Served crates Self)
  serve_server_toggles self r = authorized self r (http.server_sdk_toggles self)

  serve_all_secrets : Self → Option (Served crates Self)
  serve_all_secrets self = elim (http.all_secrets self) [
    | none ↦ none
    | some result ↦ elim result [
      | ok keys ↦ some (answer self (secrets_response keys))
      | err e ↦ some (answer self (respond crates (err e)))
    ]
  ]

  serve_update_toggles : Self → Request → Option (Served crates Self)
  serve_update_toggles self r = elim (toggle_update_params r) [
    | err rejection ↦ some (answer self rejection)
    | ok params ↦ answered (http.update_toggles self params)
  ]

  serve_events : Self → Request → Option (Served crates Self)
  serve_events self r = elim (event_params r) [
    | err rejection ↦ some (answer self rejection)
    | ok (key, user_agent, headers, batch) ↦
        let (posts, response) = events_of.handle_events self key user_agent headers batch in
        some (record { handler = self; response = response; posts = posts })
  ]

  serve_endpoint : Self → Request → Endpoint → Option (Served crates Self)
  serve_endpoint self r root = some (answer self root_handler)
  serve_endpoint self r client_toggles = serve_client_toggles self r
  serve_endpoint self r client_events = serve_client_events self r
  serve_endpoint self r server_toggles = serve_server_toggles self r
  serve_endpoint self r events = serve_events self r
  serve_endpoint self r secrets = serve_all_secrets self
  serve_endpoint self r toggles_updated = serve_update_toggles self r
  serve_endpoint self r cors = some (answer self client_cors)

  serve_destination : Self → Request → Destination → Option (Served crates Self)
  serve_destination self r (to e) = serve_endpoint self r e
  serve_destination self r method_not_allowed = some (answer self not_allowed)
  serve_destination self r fallback = some (answer self handler_404)

  unfoldable pub serve_http : Self → Request → Option (Served crates Self)
  unfolding serve_destination serve_endpoint serve_update_toggles serve_events serve_all_secrets
      serve_server_toggles serve_client_events serve_client_toggles authorized
  serve_http self r = serve_destination self r (destination routes r)
