-- ===== src/Repo.antt =====
-- `SdkRepository` and its `Inner` of src/repo.rs, with the features that are on by default
-- (`realtime`, not `unstable`). A method that writes returns the new state. Each method is one
-- step here; `Repo/Races.antt` takes `update_mapping` apart, which releases a lock in between.
pub mod Access
pub mod Clients
pub mod Hears
pub mod Locks
pub mod Notify
pub mod Passes
pub mod Published
pub mod Races
pub mod Read
pub mod Steps
pub mod Toggles
pub mod View
use feature_probe_server.Prelude.{
  ℕ, String, Bool, not, ◌&&◌, Option, none, some, List, [], ◌∷◌, Result, ok, err, ◌>>=◌, map_err,
  ltb, is_zero, if◌then◌else◌,
}
use feature_probe_server.HashMap
use feature_probe_server.HashMap.{HashMap}
use feature_probe_server.Error.{FpServerError, not_found, not_ready, json_error}
use feature_probe_server.Crates.{Crates, FpConfig, Callback, SyncType}
use feature_probe_server.Config.{ServerConfig}
use feature_probe_server.Realtime.{RealtimeSocket}
use feature_probe_server.Secrets
use feature_probe_server.Secrets.{SecretMapping}

pub record Inner (crates : Crates) : Type 0 where
  pub server_config : ServerConfig crates.Url
  pub http_client : crates.HttpClient
  pub realtime_socket : RealtimeSocket
  pub sdk_clients : HashMap crates.FpClient
  pub secret_mapping : SecretMapping

-- What a request for the secret keys came back with: no response, no text, or a body.
pub data Fetched : Type 0 where
  send_error text_error : Fetched
  body : String → Fetched

module _ (crates : Crates) where
  open crates use {Url, HttpClient, FpClient}

  -- `SdkRepository::new`
  unfoldable pub new : ServerConfig Url → RealtimeSocket → Inner crates
  unfolding Secrets.default
  new server_config realtime_socket = record {
    server_config = server_config;
    http_client = crates.http_client;
    realtime_socket = realtime_socket;
    sdk_clients = [];
    secret_mapping = Secrets.default;
  }

  -- The client is given a callback that notifies the two keys that are known now.
  unfoldable pub setup_notify : Inner crates → String → FpClient → FpClient
  setup_notify inner server_sdk_key client = crates.set_update_callback client (record {
    sdk_key = server_sdk_key;
    client_sdk_key = Secrets.client_sdk_key inner.secret_mapping server_sdk_key;
  })

  unfoldable pub client_config : Inner crates → String → FpConfig Url HttpClient
  client_config inner server_sdk_key = record {
    server_sdk_key = server_sdk_key;
    remote_url = crates.nouse_url;
    toggles_url = some inner.server_config.toggles_url;
    refresh_interval = inner.server_config.refresh_interval;
    http_client = some inner.http_client;
  }

  abbrev pub fresh_client : Inner crates → String → FpClient
  fresh_client inner server_sdk_key =
      setup_notify inner server_sdk_key (crates.client_new (client_config inner server_sdk_key))

  -- `Inner::sync`: a client for the key, if there is none.
  unfoldable pub sync_client : Inner crates → String → Inner crates
  sync_client inner server_sdk_key =
      if HashMap.contains_key inner.sdk_clients server_sdk_key then inner else record inner {
        sdk_clients =
            HashMap.insert inner.sdk_clients server_sdk_key (fresh_client inner server_sdk_key);
      }

  unfoldable pub remove_client : Inner crates → String → Inner crates
  remove_client inner server_sdk_key = record inner {
    sdk_clients = HashMap.remove inner.sdk_clients server_sdk_key;
  }

  -- The first loop of `update_clients`.
  unfoldable pub sync_all : Inner crates → List String → Inner crates
  sync_all inner [] = inner
  sync_all inner (server_sdk_key ∷ rest) = sync_all (sync_client inner server_sdk_key) rest

  -- The second, over the keys of the clients that were there before the first.
  unfoldable pub remove_unlisted : Inner crates → List String → List String → Inner crates
  remove_unlisted inner server_sdk_keys [] = inner
  remove_unlisted inner server_sdk_keys (server_sdk_key ∷ rest) =
      remove_unlisted
        (if not (HashMap.contains server_sdk_keys server_sdk_key)
          then remove_client inner server_sdk_key
          else inner)
        server_sdk_keys rest

  unfoldable pub update_clients : Inner crates → Inner crates
  update_clients inner =
      let server_sdk_keys = Secrets.server_sdk_keys inner.secret_mapping in
      if ltb 0 inner.secret_mapping.version
      then remove_unlisted (sync_all inner server_sdk_keys) server_sdk_keys
          (HashMap.keys inner.sdk_clients)
      else inner

  unfoldable pub update_mapping : Inner crates → SecretMapping → Inner crates
  update_mapping inner new =
      if ltb inner.secret_mapping.version new.version
      then record inner { secret_mapping = Secrets.update_mapping inner.secret_mapping new }
      else inner

  -- One round of the loop of `sync_secret_keys`.
  unfoldable pub sync_secret_keys_round : Inner crates → Fetched → Inner crates
  sync_secret_keys_round inner send_error = inner
  sync_secret_keys_round inner text_error = inner
  sync_secret_keys_round inner (body text) = elim (crates.secrets_from_json text) [
    | none ↦ inner
    | some (version, mapping) ↦ update_mapping inner (Secrets.deserialize version mapping)
  ]

  -- `SdkRepository::sync`
  unfoldable pub sync : Inner crates → String → String → ℕ → Inner crates
  sync inner client_sdk_key server_sdk_key version =
      let inner' = sync_client inner server_sdk_key in
      record inner' {
        secret_mapping = Secrets.insert inner'.secret_mapping client_sdk_key server_sdk_key version;
      }

  unfoldable pub secret_keys : Inner crates → HashMap String
  secret_keys inner = Secrets.mapping_clone inner.secret_mapping

  -- The client that is found is told to synchronise now.
  unfoldable pub client_sync_now :
      Inner crates → String → SyncType → Inner crates × Result String FpServerError
  client_sync_now inner sdk_key t = elim (HashMap.get inner.sdk_clients sdk_key) [
    | none ↦ (inner, err (not_found sdk_key))
    | some client ↦ (
      record inner {
        sdk_clients = HashMap.insert inner.sdk_clients sdk_key (crates.sync_now client t);
      },
      ok sdk_key,
    )
  ]
