-- ===== src/Scenarios/RepoSync/Reading.antt =====
-- What an SDK client has once it has read the repository of the file, and what the tests then read of it.
use feature_probe_server.Prelude.{
  ℕ, String, ◌≡◌, refl, ◌<◌, true, some, [], ◌∷◌, ok, arith, inl, inr, Option-cases,
}
use feature_probe_server.HashMap
use feature_probe_server.HashMap.{HashMap, get, contains_key}
use feature_probe_server.Crates.{Crates}
use feature_probe_server.Config.{ServerConfig}
use feature_probe_server.Secrets
use feature_probe_server.Repo
use feature_probe_server.Repo.{
  Inner, Fetched, sync_client, fresh_client, secret_keys, update_mapping, update_clients,
  client_sync_now,
}
use feature_probe_server.Repo.Read.{
  ready_client, repo_string, server_sdk_repo_string, client_sdk_events_string,
}
use feature_probe_server.Repo.Access.{HasRepo}
use feature_probe_server.Repo.Access.ClientSdk.{client_sdk_events_string-ok_iff}
use feature_probe_server.Example.{unwrap_url}
use feature_probe_server.Scenarios.{
  Kit, local_url, add_u16, new_repository, paired_config, paired_repository,
}
use feature_probe_server.Scenarios.RepoSync.{is_ok, repo_from_test_file, reads_file}

-- A repository has a text that reads as it again, and is the same as itself.
pub record Prints {crates : Crates} (kit : Kit crates) (r : crates.Repository) : Type 0 where
  pub text : String
  pub printed : crates.repository_to_json r ≡ ok text
  pub parsed : kit.files.repository_from_json text ≡ some r
  pub reflexive : kit.same_repository r r ≡ true

pub record IsFile {crates : Crates} (kit : Kit crates) (r : crates.Repository) : Type 0 where
  pub of_file : repo_from_test_file crates kit ≡ some r
  pub prints : Prints kit r

-- The SDK client of a key has read the repository of the file.
pub record HasRead {crates : Crates} (kit : Kit crates) (inner : Inner crates) (key : String)
    : Type 0 where
  pub has : HasRepo inner key
  pub is_file : IsFile kit (crates.client_repo has.client)

-- The mapping with one pair.
abbrev pub one_pair : ℕ → String → String → Secrets.SecretMapping
one_pair version client_key key = record {
  version = version;
  mapping = (client_key, key) ∷ [];
  reverse = (key, client_key) ∷ [];
}

module _ (crates : Crates) where
  -- What is set up is a repository that has been given its pair of keys.
  pub paired_repository-sync :
      (target port : ℕ) (client_key key : String) (version : ℕ) {i : Inner crates}
      → paired_repository crates target port client_key key version ≡ some i
      → (config : ServerConfig crates.Url) × (i
          ≡ Repo.sync crates (new_repository crates config) client_key key version)
  unfolding paired_repository
  paired_repository-sync target port client_key key version {i} made =
      elim (Option-cases (unwrap_url crates (local_url target "/api/server-sdk/toggles"))) [
        | inl bad ↦ absurd (ground arith)
        | inr (toggles, t) ↦
            elim (Option-cases (unwrap_url crates (local_url target "/api/events"))) [
              | inl bad ↦ absurd (ground arith)
              | inr (events, e) ↦ elim (Option-cases (add_u16 port 100)) [
                | inl over ↦ absurd (ground arith)
                | inr (realtime, a) ↦
                    (paired_config crates toggles events client_key key port realtime, ground arith)
              ]
            ]
      ]

  pub sync-one_pair :
      (config : ServerConfig crates.Url) (client_key key : String) (version : ℕ)
      → (Repo.sync crates (new_repository crates config) client_key key version).secret_mapping
        ≡ one_pair version client_key key
  unfolding Repo.sync new_repository Repo.new sync_client get HashMap.insert Secrets.insert
      Secrets.default
  sync-one_pair config client_key key version = refl

module _ (crates : Crates) (kit : Kit crates) where
  -- The text that an SDK with the key is served.
  pub repo_string_of_HasRead :
      (j : Inner crates) (key : String)
      → 0 < j.secret_mapping.version
      → Secrets.contains_server_sdk_key j.secret_mapping key ≡ true
      → (h : HasRead kit j key) → server_sdk_repo_string crates j key ≡ ok h.is_file.prints.text
  unfolding server_sdk_repo_string repo_string ready_client
  repo_string_of_HasRead j key versioned known h =
      let has = h.has in ground (arith, has.there, has.synchronised, h.is_file.prints.printed)

  pub reads_file_of_HasRead :
      (j : Inner crates) (key : String)
      → 0 < j.secret_mapping.version
      → Secrets.contains_server_sdk_key j.secret_mapping key ≡ true
      → HasRead kit j key
      → reads_file crates kit (server_sdk_repo_string crates j key) ≡ true
  unfolding reads_file
  reads_file_of_HasRead j key versioned known h =
      let file = h.is_file in
      let prints = file.prints in
      rw (repo_string_of_HasRead j key versioned known h)
        (ground (arith, file.of_file, prints.parsed, prints.reflexive))

  pub events_of_HasRead :
      (j : Inner crates) (client_key key text : String)
      → 0 < j.secret_mapping.version
      → Secrets.server_sdk_key j.secret_mapping client_key ≡ some key
      → (h : HasRead kit j key)
      → crates.events_to_json (crates.events (crates.client_repo h.has.client)) ≡ ok text
      → is_ok (client_sdk_events_string crates j client_key) ≡ true
  events_of_HasRead j client_key key text versioned leads h printed =
      let read =
        (client_sdk_events_string-ok_iff crates j client_key text).1
          (versioned, (key, leads, (h.has, printed))) in
      rw read refl
