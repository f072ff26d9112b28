-- ===== src/Repo/View.antt =====
-- What the repository of src/repo.rs promises, without its maps: a view has what each key leads to,
-- and no order of entries. The steps of a view and its reads are an account of src/repo.rs of their
-- own.
pub mod Order
pub mod Reads
pub mod Refines
use feature_probe_server.Prelude.{
  ℕ, String, ◌≡◌, ◌<◌, ◌==◌, Option, none, some, Result, err, map_err, is_zero, if◌then◌else◌,
}
use feature_probe_server.HashMap
use feature_probe_server.Error.{FpServerError, not_found, not_ready, json_error}
use feature_probe_server.Crates.{Crates}
use feature_probe_server.Config.{ServerConfig}
use feature_probe_server.Secrets
use feature_probe_server.Repo.{Inner}
use feature_probe_server.Repo.Steps.{Relied}

-- `leads` takes a client key to its server key, `names` a server key to the client key that is told of
-- its changes.
pub record View (crates : Crates) : Type 0 where
  pub config : ServerConfig crates.Url
  pub http : crates.HttpClient
  pub version : ℕ
  pub leads : String → Option String
  pub names : String → Option String
  pub clients : String → Option crates.FpClient

abbrev pub view : {crates : Crates} → Inner crates → View crates
view inner = record {
  config = inner.server_config;
  http = inner.http_client;
  version = inner.secret_mapping.version;
  leads = Secrets.server_sdk_key inner.secret_mapping;
  names = Secrets.client_sdk_key inner.secret_mapping;
  clients = HashMap.get inner.sdk_clients;
}

-- A server key names a client key that leads to it, and names one if there is any.
pub record Pairs (leads names : String → Option String) : Type 0 where
  pub named_leads : (s c : String) → names s ≡ some c → leads c ≡ some s
  pub led_names : (s c : String) → leads c ≡ some s → (d : String) × (names s ≡ some d)

module _ (crates : Crates) where
  open crates use {FpClient, FpUser, Toggle, Segments, EvalDetail, set_update_callback, client_new}

  -- A new client of a server key.
  abbrev pub made : View crates → String → FpClient
  made v key =
      set_update_callback
        (client_new (record {
          server_sdk_key = key;
          remote_url = crates.nouse_url;
          toggles_url = some v.config.toggles_url;
          refresh_interval = v.config.refresh_interval;
          http_client = some v.http;
        }))
        (record { sdk_key = key; client_sdk_key = v.names key })

  -- The client of a key that stays, or a new one.
  abbrev pub kept_or_made : View crates → String → FpClient
  kept_or_made v key = elim (v.clients key) [ none ↦ made v key | some client ↦ client ]

  -- A client for exactly the server keys that name a client key.
  abbrev pub follow : View crates → View crates
  follow v = record v {
    clients = λ key. elim (v.names key) [ none ↦ none | some c ↦ some (kept_or_made v key) ];
  }

  abbrev pub put : View crates → String → FpClient → View crates
  put v key d = record v { clients = λ j. if key == j then some d else v.clients j }

  -- What a client's repository is read as.
  abbrev read_client :
      View crates → String → (FpClient → Result String String) → Result String FpServerError
  read_client v key json = elim (v.clients key) [
    | none ↦ err (not_ready key)
    | some c ↦ if crates.initialized c then map_err (json c) json_error else err (not_ready key)
  ]

  -- What an SDK with a server key is served.
  abbrev pub read_server :
      View crates → String → (FpClient → Result String String) → Result String FpServerError
  read_server v key json =
      if is_zero v.version
      then err (not_ready key)
      else elim (v.names key) [ none ↦ err (not_found key) | some c ↦ read_client v key json ]

  -- What an SDK with a client key is served.
  abbrev pub read_led :
      View crates → String → (FpClient → Result String String) → Result String FpServerError
  read_led v key json =
      if is_zero v.version
      then err (not_ready key)
      else elim (v.leads key) [ none ↦ err (not_found key) | some s ↦ read_client v s json ]

module _ (crates : Crates) (relied : Relied crates) where
  open relied use {read_key, callback}

  -- Newer pairs arrive, the clients follow, or one of them becomes another value with its key and callback.
  pub data ViewStep : View crates → View crates → Type 0 where
    unchanged : (v : View crates) → ViewStep v v
    received :
        (v : View crates) (version : ℕ) (leads names : String → Option String)
        → v.version < version
        → Pairs leads names
        → ViewStep v (record v { version = version; leads = leads; names = names })
    followed : (v : View crates) → 0 < v.version → ViewStep v (follow crates v)
    moved_on :
        (v : View crates) (key : String) (c d : crates.FpClient)
        → v.clients key ≡ some c
        → read_key d ≡ read_key c
        → callback d ≡ callback c
        → ViewStep v (put crates v key d)

  pub data ViewReach (v : View crates) : View crates → Type 0 where
    here : ViewReach v v
    next : {w x : View crates} → ViewReach v w → ViewStep w x → ViewReach v x
