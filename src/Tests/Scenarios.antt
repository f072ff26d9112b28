-- ===== src/Tests/Scenarios.antt =====
-- Stand-ins for what the tests of the program take from other crates, small enough to run. A
-- repository is written as its first toggle, and a request keeps its parts.
mod Runs
mod Server
use feature_probe_server.Prelude.{
  ℕ, String, ◌≡◌, refl, Bool, true, false, Option, none, some, List, [], ◌∷◌, Result, ok, err, ◌==◌,
  if◌then◌else◌, arith, Bool-cases, inl, inr,
}
use feature_probe_server.HashMap.{HashMap, IsMap, get}
use feature_probe_server.Crates.{Crates}
use feature_probe_server.Repo.{Fetched, body}
use feature_probe_server.Repo.Steps.{Relied}
use feature_probe_server.Http.Response.{Response, handler_404, root_handler}
use feature_probe_server.Http.Traits.{ClientParams}
use feature_probe_server.Http.LocalFile.{Files}
use feature_probe_server.Http.Router.{Method, Axum}
use feature_probe_server.Scenarios.{Kit, secret_keys_text}
use feature_probe_server.Scenarios.Browser.{Browser}
use feature_probe_server.Scenarios.Requests.{Details}
use feature_probe_server.Tests.Sample
use feature_probe_server.Tests.Sample.{Client, toggle_keys}
use feature_probe_server.Tests.Router.{arrival}

abbrev pub pairs : String → Option (ℕ × HashMap String)
pairs text =
    if text == secret_keys_text then some (1, ("client-sdk-key", "server-sdk-key") ∷ []) else none

abbrev pub crates : Crates
crates = record Sample.crates { secrets_from_json = pairs }

pub pairs-IsMap :
    (text : String) (version : ℕ) (mapping : HashMap String)
    → pairs text ≡ some (version, mapping)
    → IsMap mapping
unfolding get
pairs-IsMap text version mapping read = elim (Bool-cases (text == secret_keys_text)) [
  | inl same ↦
      let e : mapping ≡ ("client-sdk-key", "server-sdk-key") ∷ [] = ground arith in rw e (refl, tt)
  | inr other ↦ absurd (ground arith)
]

abbrev pub relied : Relied crates
relied = record {
  callback = λ c. c.callback;
  callback-set_update_callback = λ c f. refl;
  callback-sync_now = λ c t. refl;
  read_key = λ c. c.key;
  read_key-client_new = λ config. refl;
  read_key-set_update_callback = λ c f. refl;
  read_key-sync_now = λ c t. refl;
  secrets_from_json-IsMap = pairs-IsMap;
}

abbrev pub read_repository : String → HashMap Bool
read_repository text = if text == "" then [] else (text, true) ∷ []

abbrev pub files : Files crates
files = record {
  repo_file = "bool_toggle";
  secrets_file = "";
  repository_from_json = λ text. some (read_repository text);
  maps_from_json = λ text. some (("mapping", []) ∷ []);
  version = λ repo. none;
  with_version = λ repo n. repo;
  max_version = 255;
  after_max = none;
}

abbrev pub kit : Kit crates
kit = record { files = files; same_repository = λ r q. toggle_keys r == toggle_keys q }

-- The parts of a request.
pub record Sent : Type 0 where
  pub method : Method
  pub path : String
  pub query : List (String × String)
  pub headers : List (String × String)

abbrev pub key_of : Option String → Result String Response
key_of none = err handler_404
key_of (some key) = ok key

abbrev pub user_of : Option String → Result ClientParams Response
user_of none = err handler_404
user_of (some user) = ok (record { user = user })

abbrev pub axum : Axum crates
axum = record {
  Request = Sent;
  method = λ r. r.method;
  path = λ r. r.path;
  destination = λ table r. arrival r.method (get table r.path);
  destination_listed = λ table r methods listed. rw listed refl;
  destination_unlisted = λ table r unlisted. rw unlisted refl;
  authorization = λ r. key_of (get r.headers "authorization");
  client_params = λ r. user_of (get r.query "user");
  toggle_update_params = λ r. err handler_404;
  event_params = λ r. err handler_404;
  secrets_response = λ keys. root_handler;
  not_allowed = handler_404;
}

abbrev pub browser : Browser axum
browser = record {
  request = λ m path query headers body. record {
    method = m;
    path = path;
    query = query;
    headers = headers;
  };
  method-request = λ m path query headers body. refl;
  path-request = λ m path query headers body. refl;
  authorization-request = λ m path query headers body key there. rw there refl;
}

abbrev pub details : Details
details = record {
  FpDetail = Bool;
  user_json = "user";
  base64_encode = λ text. "dXNlcg==";
  details_from_json = λ text. some (read_repository text);
  rule_index = λ detail. some 0;
  value_as_bool = λ detail. some detail;
}

-- Every request for the keys brings the text of the mock.
abbrev pub Serves : String → Fetched → Type 0
Serves url f = f ≡ body secret_keys_text
