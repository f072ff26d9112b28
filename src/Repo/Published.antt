-- ===== src/Repo/Published.antt =====
-- The way of a published key: a body with a newer mapping arrives, the clients follow, an SDK asks.
use feature_probe_server.Prelude.{
  ℕ, String, ◌≡◌, refl, ap, ◌∙◌, ◌≢◌, ◌<◌, true, false, none, some, Result, err, arith, map_err,
  lt→ltb, Bool-cases, inl, inr, if◌then◌else◌,
}
use feature_probe_server.HashMap.{HashMap, get, IsMap}
use feature_probe_server.Error.{FpServerError, not_found, not_ready, json_error}
use feature_probe_server.Crates.{Crates}
use feature_probe_server.Secrets
use feature_probe_server.Secrets.Invariant.{
  new-IsConsistent, IsConsistent, contains_server_sdk_key_iff,
}
use feature_probe_server.Repo.{Inner, body, update_clients, update_mapping, sync_secret_keys_round}
use feature_probe_server.Repo.Read.{
  ready_client, repo_string, all_evaluated_string, server_sdk_repo_string, server_key_of,
  client_sdk_eval_string,
}
use feature_probe_server.Repo.Access.{evaluated_json}
use feature_probe_server.Repo.Clients.{
  kept_or_fresh, update_clients-WritesClients, get-update_clients,
}

module _ (crates : Crates) where
  open crates use {FpClient, FpUser}

  -- What the SDKs of a key read while `client` is its client.
  abbrev pub read_of : String → FpClient → Result String String → Result String FpServerError
  read_of key client text =
      if crates.initialized client then map_err text json_error else err (not_ready key)

  repo_string_lem :
      (a : Inner crates) (key : String) (client : FpClient)
      → 0 < a.secret_mapping.version
      → Secrets.contains_server_sdk_key a.secret_mapping key ≡ true
      → get a.sdk_clients key ≡ some client
      → server_sdk_repo_string crates a key
        ≡ read_of key client (crates.repository_to_json (crates.client_repo client))
  unfolding server_sdk_repo_string repo_string ready_client
  repo_string_lem a key client versioned known there = ground arith

  eval_string_lem :
      (a : Inner crates) (client_key key : String) (client : FpClient) (user : FpUser)
      → 0 < a.secret_mapping.version
      → Secrets.server_sdk_key a.secret_mapping client_key ≡ some key
      → get a.sdk_clients key ≡ some client
      → client_sdk_eval_string crates a client_key user
        ≡ read_of key client (evaluated_json crates user client)
  unfolding client_sdk_eval_string server_key_of all_evaluated_string ready_client
  eval_string_lem a client_key key client user versioned leads there = ground arith

  -- The repository after a newer mapping.
  abbrev pub taken : Inner crates → ℕ → HashMap String → Inner crates
  taken i version mapping = record i { secret_mapping = Secrets.new version mapping }

  pub round_newer :
      (i : Inner crates) (text : String) (version : ℕ) (mapping : HashMap String)
      → crates.secrets_from_json text ≡ some (version, mapping)
      → i.secret_mapping.version < version
      → sync_secret_keys_round crates i (body text) ≡ taken i version mapping
  unfolding sync_secret_keys_round update_mapping Secrets.deserialize Secrets.update_mapping
      Secrets.new
  round_newer i text version mapping read newer =
      rw (read, sync_secret_keys_round) (rw (lt→ltb i.secret_mapping.version version newer) refl)

  module _ (i : Inner crates) (text : String) (version : ℕ) (mapping : HashMap String)
      (read : crates.secrets_from_json text ≡ some (version, mapping)) (is_map : IsMap mapping)
      (newer : i.secret_mapping.version < version) where
    -- After the body has arrived and the clients have followed.
    abbrev after : Inner crates
    after = update_clients crates (sync_secret_keys_round crates i (body text))

    after-secrets : after.secret_mapping ≡ Secrets.new version mapping
    after-secrets =
        (update_clients-WritesClients crates (sync_secret_keys_round crates i (body text))).secrets
        ∙ ap (λ (j : Inner crates). j.secret_mapping)
            (round_newer i text version mapping read newer)

    after-versioned : 0 < after.secret_mapping.version
    unfolding Secrets.new
    after-versioned = rw after-secrets (omega arith)

    get-after :
        (key : String)
        → get after.sdk_clients key ≡ (
            if Secrets.contains_server_sdk_key (Secrets.new version mapping) key
            then some (kept_or_fresh crates (taken i version mapping) key)
            else none)
    unfolding Secrets.new
    get-after key = rw (round_newer i text version mapping read newer) (
        ground (
          arith,
          lt→ltb 0 version (omega arith),
          get-update_clients crates (taken i version mapping) key,
        ))

    consistent : IsConsistent after.secret_mapping
    consistent = rw after-secrets (new-IsConsistent version mapping is_map)

    -- When a body with a newer mapping, whose client keys are distinct, has arrived and
    -- `update_clients` has run, both SDKs of each pair of the mapping read from one client of the
    -- server key, which is the one that was there or a new one: the server SDK its repository and
    -- the client SDK its evaluated toggles if the client has synchronised, and that they have to
    -- wait if it has not.
    pub published :
        (client_key key : String) (user : FpUser)
        → get mapping client_key ≡ some key
        → let client = kept_or_fresh crates (taken i version mapping) key in
          (server_sdk_repo_string crates after key
            ≡ read_of key client (crates.repository_to_json (crates.client_repo client)))
          × (client_sdk_eval_string crates after client_key user
              ≡ read_of key client (evaluated_json crates user client))
    unfolding Secrets.server_sdk_key Secrets.new
    published client_key key user leads =
        let known = (new-IsConsistent version mapping is_map).complete key client_key leads in
        let leads_after : Secrets.server_sdk_key after.secret_mapping client_key ≡ some key =
          rw after-secrets leads in
        let there : get after.sdk_clients key
            ≡ some (kept_or_fresh crates (taken i version mapping) key) =
          get-after key ∙ rw known refl in
        (
          repo_string_lem after key _ after-versioned
              (consistent.complete key client_key leads_after) there,
          eval_string_lem after client_key key _ user after-versioned leads_after there,
        )

    -- When a body with a newer mapping, whose client keys are distinct, has arrived and
    -- `update_clients` has run, a server key to which the mapping leads no client key has no
    -- client, and its SDK is told that the key is not found.
    withdrawn :
        (key : String)
        → ((client_key : String) → get mapping client_key ≢ some key)
        → (get after.sdk_clients key ≡ none)
          × (server_sdk_repo_string crates after key ≡ err (not_found key))
    unfolding Secrets.server_sdk_key Secrets.new server_sdk_repo_string
    withdrawn key unlisted =
        elim (Bool-cases (Secrets.contains_server_sdk_key (Secrets.new version mapping) key)) [
          | inl known ↦
              let (client_key, leads) =
                (contains_server_sdk_key_iff (new-IsConsistent version mapping is_map) key).0
                  known in
              absurd (unlisted client_key leads)
          | inr unknown ↦
              let unknown_after : Secrets.contains_server_sdk_key after.secret_mapping key ≡ false =
                rw after-secrets unknown in
              (get-after key ∙ rw unknown refl, ground (arith, after-versioned))
        ]
