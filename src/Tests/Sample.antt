-- ===== src/Tests/Sample.antt =====
-- Stand-ins for the other crates, small enough to run: a url is its text, a client knows whether
-- it has synchronised, and a toggle whether clients may see it.
use feature_probe_server.Prelude.{
  ℕ, String, ◌≡◌, refl, Bool, true, false, Option, none, some, [], ◌∷◌, Result, ok, err, ◌==◌,
  if◌then◌else◌, arith, Bool-cases, inl, inr,
}
use feature_probe_server.HashMap.{HashMap, IsMap, get}
use feature_probe_server.Crates.{Crates, Config, Callback}
use feature_probe_server.Repo.Steps.{Relied}

pub record Client : Type 0 where
  pub key : String
  pub ready : Bool
  pub toggles : HashMap Bool
  pub callback : Option Callback
  pub syncs : ℕ

-- Every text but "bad" is a url.
abbrev pub parse : String → Result String String
parse url = if url == "bad" then err "relative URL without a base" else ok url

abbrev pub toggle_keys : HashMap Bool → String
toggle_keys [] = ""
toggle_keys ((key, v) ∷ m) = key

abbrev pub crates : Crates
crates = record {
  Url = String;
  url_parse = parse;
  url_to_string = λ url. url;
  nouse_url = "http://nouse.com";
  nouse_url_lem = refl;
  ConfigBuilder = Config;
  builder = record { get_string = λ k. none; get_int = λ k. none };
  add_environment = λ prefix c. c;
  build = λ c. ok c;
  HttpClient = Unit;
  http_client = tt;
  FpClient = Client;
  Repository = HashMap Bool;
  FpUser = String;
  Toggle = Bool;
  Segments = Unit;
  Events = Unit;
  EvalDetail = Bool;
  client_new = λ config. record {
    key = config.server_sdk_key;
    ready = false;
    toggles = [];
    callback = none;
    syncs = 0;
  };
  initialized = λ c. c.ready;
  client_repo = λ c. c.toggles;
  sync_now = λ c t. record c { ready = true };
  set_update_callback = λ c callback. record c { callback = some callback };
  repository_default = [];
  toggles = λ repo. repo;
  segments = λ repo. tt;
  events = λ repo. tt;
  is_for_client = λ toggle. toggle;
  eval_detail = λ toggle user segments. toggle;
  repository_to_json = λ repo. ok (toggle_keys repo);
  default_json = "";
  default_json_lem = refl;
  details_to_json = λ details. ok (toggle_keys details);
  events_to_json = λ events. ok "[]";
  error_body = λ message. message;
  user_from_json = λ text. if text == "" then none else some text;
  secrets_from_json = λ text. if text == "" then none else some (2, ("client-2", "server-2") ∷ []);
  base64_decode = λ text. if text == "" then none else some [];
  from_utf8 = λ bytes. some "user";
  authorization_encode = λ key. key;
  header_value = λ value. some value;
  Payload = String;
  Value = String;
  payload_json = λ payload. some payload;
  value_get = λ value key. some value;
  value_string = λ value. some value;
  empty_text = "";
}

pub one_pair-IsMap :
    (text : String) (version : ℕ) (mapping : HashMap String)
    → crates.secrets_from_json text ≡ some (version, mapping)
    → IsMap mapping
unfolding get
one_pair-IsMap text version mapping read = elim (Bool-cases (text == "")) [
  | inl empty ↦ absurd (ground arith)
  | inr other ↦ let e : mapping ≡ ("client-2", "server-2") ∷ [] = ground arith in rw e (refl, tt)
]

abbrev pub relied : Relied crates
relied = record {
  callback = λ c. c.callback;
  callback-set_update_callback = λ c f. refl;
  callback-sync_now = λ c t. refl;
  read_key = λ c. c.key;
  read_key-client_new = λ config. refl;
  read_key-set_update_callback = λ c f. refl;
  read_key-sync_now = λ c t. refl;
  secrets_from_json-IsMap = one_pair-IsMap;
}
