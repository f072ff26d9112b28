-- ===== src/Repo/Steps.antt =====
-- The repository of a running server as a state machine: the rounds of its two loops, the
-- console's requests, and the SDK clients, which synchronise by themselves.
pub mod Begin
pub mod Rounds
pub mod Settled
pub mod Sound
use feature_probe_server.Prelude.{
  ℕ, String, ◌≡◌, refl, ◌≤◌, ◌<◌, true, false, Option, none, some, arith, ◌==◌, eq_iff, ltb, ltb→lt,
  Bool-cases, Option-cases, inl, inr, if◌then◌else◌, Bool,
}
use feature_probe_server.HashMap.{HashMap, get, insert, contains_key, IsMap}
use feature_probe_server.HashMap.Laws.{get-insert}
use feature_probe_server.Crates.{Crates, FpConfig, Callback, SyncType}
use feature_probe_server.Secrets
use feature_probe_server.Secrets.{SecretMapping}
use feature_probe_server.Secrets.Invariant.{IsConsistent, update_mapping-IsConsistent}
use feature_probe_server.Repo.{
  Inner, Fetched, send_error, text_error, body, setup_notify, fresh_client, update_clients,
  update_mapping, sync_secret_keys_round, client_sync_now,
}
use feature_probe_server.Repo.Clients.{
  WritesClients, kept_or_fresh, update_clients-WritesClients, get-update_clients,
}

-- What the server relies on in other crates: a client reads the toggles of the server key that it was
-- made with, and calls the callback that was set last, also after it was told to synchronise; and
-- serde builds maps.
pub record Relied (crates : Crates) : Type 0 where
  pub callback : crates.FpClient → Option Callback
  pub callback-set_update_callback :
      (c : crates.FpClient) (f : Callback) → callback (crates.set_update_callback c f) ≡ some f
  pub callback-sync_now :
      (c : crates.FpClient) (t : SyncType) → callback (crates.sync_now c t) ≡ callback c
  pub read_key : crates.FpClient → String
  pub read_key-client_new :
      (config : FpConfig crates.Url crates.HttpClient)
      → read_key (crates.client_new config) ≡ config.server_sdk_key
  pub read_key-set_update_callback :
      (c : crates.FpClient) (f : Callback) → read_key (crates.set_update_callback c f) ≡ read_key c
  pub read_key-sync_now :
      (c : crates.FpClient) (t : SyncType) → read_key (crates.sync_now c t) ≡ read_key c
  pub secrets_from_json-IsMap :
      (text : String) (version : ℕ) (mapping : HashMap String)
      → crates.secrets_from_json text ≡ some (version, mapping)
      → IsMap mapping

module _ (crates : Crates) where
  -- There is a client for exactly the server keys of the mapping.
  abbrev pub IsSettled : Inner crates → Type 0
  IsSettled i =
      (key : String)
      → contains_key i.sdk_clients key ≡ Secrets.contains_server_sdk_key i.secret_mapping key

module _ (crates : Crates) (relied : Relied crates) where
  open relied use {
    read_key, callback, callback-set_update_callback, callback-sync_now, secrets_from_json-IsMap,
  }

  pub data Step : Inner crates → Inner crates → Type 0 where
    fetched : (i : Inner crates) (f : Fetched) → Step i (sync_secret_keys_round crates i f)
    refreshed : (i : Inner crates) → Step i (update_clients crates i)
    requested :
        (i : Inner crates) (key : String) (t : SyncType) → Step i (client_sync_now crates i key t).0
    -- An SDK client has read its toggles again: it is another value with the same key and callback.
    progressed :
        (i : Inner crates) (key : String) (c d : crates.FpClient)
        → get i.sdk_clients key ≡ some c
        → read_key d ≡ read_key c
        → callback d ≡ callback c
        → Step i (record i { sdk_clients = insert i.sdk_clients key d })

  pub data Reach (i : Inner crates) : Inner crates → Type 0 where
    here : Reach i i
    next : {j k : Inner crates} → Reach i j → Step j k → Reach i k

  -- A client reads the toggles of a key, and notifies under it.
  abbrev pub Belongs : String → crates.FpClient → Type 0
  Belongs key c =
      (read_key c ≡ key)
      × ((o : Option String) × (callback c ≡ some (record { sdk_key = key; client_sdk_key = o })))

  -- Every client belongs to the key that it stands at.
  abbrev pub OwnClients : Inner crates → Type 0
  OwnClients i =
      (key : String) (c : crates.FpClient) → get i.sdk_clients key ≡ some c → Belongs key c

  pub record IsSound (i : Inner crates) : Type 0 where
    pub consistent : IsConsistent i.secret_mapping
    pub own : OwnClients i
