-- ===== src/Repo/Clients.antt =====
-- What `update_clients` leaves in the table of SDK clients.
use feature_probe_server.Prelude.{
  String, ◌≡◌, refl, ◌∙◌, not, ◌&&◌, none, some, List, [], ◌∷◌, arith, ◌==◌, eq_iff, ltb,
  Bool-cases, inl, inr, if◌then◌else◌,
}
use feature_probe_server.HashMap.{get, contains, contains_key, keys}
use feature_probe_server.HashMap.Laws.{get-insert, get-remove, contains-keys}
use feature_probe_server.Crates.{Crates}
use feature_probe_server.Secrets
use feature_probe_server.Repo.{
  Inner, setup_notify, client_config, fresh_client, sync_client, remove_client, sync_all,
  remove_unlisted, update_clients,
}

module _ (crates : Crates) where
  open crates use {FpClient}

  -- The client of a key: the one that is there, or a new one.
  abbrev pub kept_or_fresh : Inner crates → String → FpClient
  kept_or_fresh inner key = elim (get inner.sdk_clients key) [
    | none ↦ fresh_client crates inner key
    | some client ↦ client
  ]

  -- A step that writes the table of clients, and nothing else.
  pub record WritesClients (inner after : Inner crates) : Type 0 where
    pub config : after.server_config ≡ inner.server_config
    pub http : after.http_client ≡ inner.http_client
    pub socket : after.realtime_socket ≡ inner.realtime_socket
    pub secrets : after.secret_mapping ≡ inner.secret_mapping

  WritesClients-trans :
      {a b c : Inner crates} → WritesClients a b → WritesClients b c → WritesClients a c
  WritesClients-trans v w = record {
    config = w.config ∙ v.config;
    http = w.http ∙ v.http;
    socket = w.socket ∙ v.socket;
    secrets = w.secrets ∙ v.secrets;
  }

  sync_client-WritesClients :
      (inner : Inner crates) (key : String) → WritesClients inner (sync_client crates inner key)
  unfolding sync_client
  sync_client-WritesClients inner key = elim (Bool-cases (contains_key inner.sdk_clients key)) [
    | inl there ↦ rw there (record { config = refl; http = refl; socket = refl; secrets = refl })
    | inr new ↦ rw new (record { config = refl; http = refl; socket = refl; secrets = refl })
  ]

  fresh_client-WritesClients :
      {inner after : Inner crates} (key : String)
      → WritesClients inner after
      → fresh_client crates after key ≡ fresh_client crates inner key
  unfolding setup_notify client_config
  fresh_client-WritesClients key w = rw (w.config, w.http, w.secrets) refl

  -- `Inner::sync` makes a client for its key if there is none.
  pub get-sync_client :
      (inner : Inner crates) (key j : String)
      → get (sync_client crates inner key).sdk_clients j
        ≡ (if key == j then some (kept_or_fresh inner j) else get inner.sdk_clients j)
  unfolding sync_client
  get-sync_client inner key j =
      ground
        (arith, eq_iff key j, get-insert inner.sdk_clients key j (fresh_client crates inner key))

  pub get-sync_all :
      (inner : Inner crates) (keys : List String) (j : String)
      → get (sync_all crates inner keys).sdk_clients j
        ≡ (if contains keys j then some (kept_or_fresh inner j) else get inner.sdk_clients j)
  unfolding sync_all contains
  get-sync_all inner [] j = refl
  get-sync_all inner (key ∷ keys) j = ground (
    arith,
    eq_iff key j,
    get-sync_client inner key j,
    get-sync_all (sync_client crates inner key) keys j,
    fresh_client-WritesClients j (sync_client-WritesClients inner key),
  )

  sync_all-WritesClients :
      (inner : Inner crates) (keys : List String) → WritesClients inner (sync_all crates inner keys)
  unfolding sync_all
  sync_all-WritesClients inner [] = record {
    config = refl;
    http = refl;
    socket = refl;
    secrets = refl;
  }
  sync_all-WritesClients inner (key ∷ keys) =
      WritesClients-trans (sync_client-WritesClients inner key)
        (sync_all-WritesClients (sync_client crates inner key) keys)

  -- One round of the second loop.
  abbrev pub unless_listed : Inner crates → List String → String → Inner crates
  unless_listed inner listed key =
      if not (contains listed key) then remove_client crates inner key else inner

  pub get-unless_listed :
      (inner : Inner crates) (listed : List String) (key j : String)
      → get (unless_listed inner listed key).sdk_clients j
        ≡ (if key == j && not (contains listed j) then none else get inner.sdk_clients j)
  unfolding remove_client
  get-unless_listed inner listed key j =
      ground (arith, eq_iff key j, get-remove inner.sdk_clients key j)

  unless_listed-WritesClients :
      (inner : Inner crates) (listed : List String) (key : String)
      → WritesClients inner (unless_listed inner listed key)
  unfolding remove_client
  unless_listed-WritesClients inner listed key = elim (Bool-cases (contains listed key)) [
    | inl there ↦ rw there (record { config = refl; http = refl; socket = refl; secrets = refl })
    | inr new ↦ rw new (record { config = refl; http = refl; socket = refl; secrets = refl })
  ]

  pub get-remove_unlisted :
      (inner : Inner crates) (listed snapshot : List String) (j : String)
      → get (remove_unlisted crates inner listed snapshot).sdk_clients j
        ≡ (if contains snapshot j && not (contains listed j) then none else get inner.sdk_clients j)
  unfolding remove_unlisted contains
  get-remove_unlisted inner listed [] j = refl
  get-remove_unlisted inner listed (key ∷ snapshot) j = ground (
    arith,
    eq_iff key j,
    get-unless_listed inner listed key j,
    get-remove_unlisted (unless_listed inner listed key) listed snapshot j,
  )

  remove_unlisted-WritesClients :
      (inner : Inner crates) (listed snapshot : List String)
      → WritesClients inner (remove_unlisted crates inner listed snapshot)
  unfolding remove_unlisted
  remove_unlisted-WritesClients inner listed [] = record {
    config = refl;
    http = refl;
    socket = refl;
    secrets = refl;
  }
  remove_unlisted-WritesClients inner listed (key ∷ snapshot) =
      WritesClients-trans (unless_listed-WritesClients inner listed key)
        (remove_unlisted-WritesClients (unless_listed inner listed key) listed snapshot)

  -- `update_clients` writes nothing but the table of clients.
  pub update_clients-WritesClients :
      (inner : Inner crates) → WritesClients inner (update_clients crates inner)
  unfolding update_clients
  update_clients-WritesClients inner =
      let listed = Secrets.server_sdk_keys inner.secret_mapping in
      elim (Bool-cases (ltb 0 inner.secret_mapping.version)) [
        | inl some_version ↦ rw some_version (
            WritesClients-trans (sync_all-WritesClients inner listed) (
              remove_unlisted-WritesClients (sync_all crates inner listed) listed
                (keys inner.sdk_clients)))
        | inr no_version ↦
            rw no_version (record { config = refl; http = refl; socket = refl; secrets = refl })
      ]

  -- Once a mapping has a version, `update_clients` makes the table of clients agree with it: there
  -- is a client for exactly the server keys of the mapping, a client that was there stays, and the
  -- others are new. Before that nothing changes.
  pub get-update_clients :
      (inner : Inner crates) (j : String)
      → get (update_clients crates inner).sdk_clients j ≡ (
          if ltb 0 inner.secret_mapping.version
          then (if Secrets.contains_server_sdk_key inner.secret_mapping j
              then some (kept_or_fresh inner j)
              else none)
          else get inner.sdk_clients j)
  unfolding update_clients Secrets.server_sdk_keys Secrets.contains_server_sdk_key
  get-update_clients inner j =
      let listed = keys inner.secret_mapping.reverse in
      ground (
        arith,
        contains-keys inner.secret_mapping.reverse j,
        contains-keys inner.sdk_clients j,
        get-sync_all inner listed j,
        get-remove_unlisted (sync_all crates inner listed) listed (keys inner.sdk_clients) j,
      )
