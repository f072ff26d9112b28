-- ===== src/Scenarios/Browser.antt =====
-- The requests that the tests of src/http/mod.rs send. What reqwest makes of the parts of a request, and
-- axum reads from it, is a parameter.
use feature_probe_server.Prelude.{String, ◌≡◌, Option, none, some, List, [], ◌∷◌, ok, refl}
use feature_probe_server.HashMap.{get}
use feature_probe_server.Crates.{Crates}
use feature_probe_server.Http.Router.{Axum, Method, get_method, post_method}

-- A request with these parts arrives with its method, its path and its key.
pub record Browser {crates : Crates} (axum : Axum crates) : Type 0 where
  pub request :
      Method → String → List (String × String) → List (String × String) → String → axum.Request
  pub method-request :
      (m : Method) (path : String) (query headers : List (String × String)) (body : String)
      → axum.method (request m path query headers body) ≡ m
  pub path-request :
      (m : Method) (path : String) (query headers : List (String × String)) (body : String)
      → axum.path (request m path query headers body) ≡ path
  pub authorization-request :
      (m : Method) (path : String) (query headers : List (String × String)) (body key : String)
      → get headers "authorization" ≡ some (crates.authorization_encode key)
      → axum.authorization (request m path query headers body) ≡ ok key

module _ {crates : Crates} {axum : Axum crates} (browser : Browser axum) where
  -- `SdkAuthorization(sdk_key).encode()`, if there is a key.
  abbrev pub authorized_by : Option String → List (String × String)
  authorized_by none = []
  authorized_by (some key) = ("authorization", crates.authorization_encode key) ∷ []

  unfoldable pub http_get : String → List (String × String) → Option String → axum.Request
  http_get path query sdk_key = browser.request get_method path query (authorized_by sdk_key) ""

  unfoldable pub http_post : String → Option String → String → axum.Request
  http_post path sdk_key body =
      browser.request post_method path []
        (("content-type", "application/json")
          ∷ ("user-agent", "Rust/0.0.0")
          ∷ ("ua", "Rust/0.0.0")
          ∷ authorized_by sdk_key)
        body

  pub method-http_get :
      (path : String) (query : List (String × String)) (key : Option String)
      → axum.method (http_get path query key) ≡ get_method
  unfolding http_get
  method-http_get path query key =
      browser.method-request get_method path query (authorized_by key) ""

  pub path-http_get :
      (path : String) (query : List (String × String)) (key : Option String)
      → axum.path (http_get path query key) ≡ path
  unfolding http_get
  path-http_get path query key = browser.path-request get_method path query (authorized_by key) ""

  pub authorization-http_get :
      (path : String) (query : List (String × String)) (key : String)
      → axum.authorization (http_get path query (some key)) ≡ ok key
  unfolding http_get get
  authorization-http_get path query key =
      browser.authorization-request get_method path query (authorized_by (some key)) "" key refl
