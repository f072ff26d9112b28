-- ===== src/Scenarios/RepoSync/Holds.antt =====
-- What the tests of src/repo.rs assert holds, whatever happens while they sleep, once the SDK client has read
-- the repository of the file.
use feature_probe_server.Prelude.{
  ℕ, String, ◌≡◌, ◌≢◌, refl, ap, ◌∙◌, true, some, List, [], ◌∷◌, ok, ◌==◌, eq_iff, eq_refl, arith,
  inl, inr, Option-cases,
}
use feature_probe_server.HashMap
use feature_probe_server.HashMap.{HashMap, get, contains_key}
use feature_probe_server.Crates.{Crates, polling, is_zero_duration}
use feature_probe_server.Secrets
use feature_probe_server.Repo
use feature_probe_server.Repo.{
  Inner, Fetched, sync_client, fresh_client, secret_keys, update_mapping, update_clients,
  client_sync_now,
}
use feature_probe_server.Repo.Clients.{get-update_clients}
use feature_probe_server.Repo.Steps.{Relied}
use feature_probe_server.Repo.Steps.Rounds.{update_mapping-secrets}
use feature_probe_server.Repo.Read.{server_sdk_repo_string}
use feature_probe_server.Main
use feature_probe_server.Main.{Task, sync_with, sync_secret_keys}
use feature_probe_server.Example.{unwrap_url}
use feature_probe_server.Scenarios.{
  Kit, secret_keys_text, local_url, add_u16, new_repository, setup_repository,
  setup_not_ready_repository, setup_repository2,
}
use feature_probe_server.Scenarios.Sleep.{FedBy, Slept, Slept-alone, Slept-fed}
use feature_probe_server.Scenarios.RepoSync.{
  is_ok, is_not_found, reads_file, repo_sync_asserts, test_repo_sync2, test_not_ready_repo_sync,
}
use feature_probe_server.Scenarios.RepoSync.Reading.{
  HasRead, one_pair, paired_repository-sync, sync-one_pair, reads_file_of_HasRead,
  events_of_HasRead,
}

module _ (crates : Crates) (kit : Kit crates) where
  -- The new mapping of `test_repo_sync`.
  abbrev new_pair : String → String → Secrets.SecretMapping
  new_pair client_key key = Secrets.new 2 (HashMap.insert [] client_key key)

  rotated :
      (j : Inner crates) (client_key key client_key2 key2 : String)
      → j.secret_mapping ≡ one_pair 1 client_key key
      → (update_mapping crates j (new_pair client_key2 key2)).secret_mapping
        ≡ one_pair 2 client_key2 key2
  unfolding Secrets.new Secrets.fill_reverse HashMap.insert Secrets.update_mapping
  rotated j client_key key client_key2 key2 same =
      (update_mapping-secrets crates j (new_pair client_key2 key2)).0 ∙ rw same refl

  is_ok-client_sync_now :
      (j : Inner crates) (key : String)
      → contains_key j.sdk_clients key ≡ true
      → is_ok (client_sync_now crates j key polling).1 ≡ true
  unfolding client_sync_now
  is_ok-client_sync_now j key there = ground arith

  -- Which of two keys has a client once the clients follow a mapping with one pair.
  follows :
      (j : Inner crates) (client_key key k : String)
      → j.secret_mapping ≡ one_pair 2 client_key key
      → contains_key (update_clients crates j).sdk_clients k ≡ (key == k)
  unfolding Secrets.contains_server_sdk_key get
  follows j client_key key k same = ground (arith, same, get-update_clients crates j k)

module _ (crates : Crates) (relied : Relied crates) (kit : Kit crates)
    (serves : crates.Url → Fetched → Type 0) where
  -- With its two server keys different, all that `test_repo_sync` asserts holds for the repository that
  -- it sets up, whatever happens while it sleeps, if by then the SDK client of the first server key
  -- has read the repository of the file. It takes for granted that this repository prints, to a text
  -- that reads as it again, and is the same as itself (`Prints`).
  pub repo_sync_asserts-hold :
      (port : ℕ) (client_key key client_key2 key2 : String) {i j : Inner crates}
      → key2 ≢ key
      → setup_repository crates port client_key key ≡ some i
      → Slept crates relied serves [] i j
      → HasRead kit j key
      → repo_sync_asserts crates kit j client_key key client_key2 key2 ≡ true
  unfolding repo_sync_asserts setup_repository secret_keys Secrets.mapping_clone get
      Secrets.server_sdk_key Secrets.contains_server_sdk_key
  repo_sync_asserts-hold port client_key key client_key2 key2 {i} {j} other made slept h =
      let (config, is) = paired_repository-sync crates port port client_key key 1 made in
      let held : j.secret_mapping ≡ one_pair 1 client_key key =
        (Slept-alone crates relied serves [] refl slept).0
        ∙ ap (λ (k : Inner crates). k.secret_mapping) is
        ∙ sync-one_pair crates config client_key key 1 in
      let mapped = update_mapping crates j (new_pair crates kit client_key2 key2) in
      let rotated_to = rotated crates kit j client_key key client_key2 key2 held in
      let read : reads_file crates kit (server_sdk_repo_string crates j key) ≡ true =
        reads_file_of_HasRead crates kit j key (rw held (omega arith))
          (rw held (rw (eq_refl key) refl)) h in
      let there = h.has.there in
      let gone = follows crates kit mapped client_key2 key2 key rotated_to in
      let new = follows crates kit mapped client_key2 key2 key2 rotated_to in
      let synced =
        is_ok-client_sync_now crates kit (update_clients crates mapped) key2 (new ∙ eq_refl key2) in
      ground (
        arith,
        read,
        held,
        rotated_to,
        gone,
        new,
        synced,
        eq_refl key2,
        eq_refl key,
        eq_refl client_key,
        eq_refl client_key2,
        eq_iff key2 key,
      )

  -- What `test_not_ready_repo_sync` asserts holds for the repository that it sets up, whatever happens
  -- while it sleeps.
  pub test_not_ready_repo_sync-holds :
      (port : ℕ) {i j : Inner crates}
      → setup_not_ready_repository crates port "client-sdk-key" "server-sdk-key" ≡ some i
      → Slept crates relied serves [] i j
      → test_not_ready_repo_sync crates kit j ≡ true
  unfolding test_not_ready_repo_sync setup_not_ready_repository server_sdk_repo_string
  test_not_ready_repo_sync-holds port made slept =
      let (config, is) =
        paired_repository-sync crates port port "client-sdk-key" "server-sdk-key" 0 made in
      let held =
        (Slept-alone crates relied serves [] refl slept).0
        ∙ ap (λ (k : Inner crates). k.secret_mapping) is
        ∙ sync-one_pair crates config "client-sdk-key" "server-sdk-key" 0 in
      rw held refl

  -- The repository that `test_repo_sync2` sets up has no mapping and no client.
  setup_repository2-new :
      (port : ℕ) {url : crates.Url} {i : Inner crates} {tasks : List (Task crates.Url)}
      → setup_repository2 crates port ≡ some (url, i, tasks)
      → (i.secret_mapping.version ≡ 0)
        × (i.sdk_clients ≡ [])
        × (tasks ≡ sync_secret_keys url ∷ Main.update_clients ∷ [])
  unfolding setup_repository2 new_repository Repo.new Secrets.default sync_with is_zero_duration
  setup_repository2-new port made =
      elim (Option-cases (unwrap_url crates (local_url port "/api/server-sdk/toggles"))) [
        | inl bad ↦ absurd (ground arith)
        | inr (toggles, t) ↦
            elim (Option-cases (unwrap_url crates (local_url port "/api/events"))) [
              | inl bad ↦ absurd (ground arith)
              | inr (events, e) ↦
                  elim (Option-cases (unwrap_url crates (local_url port "/api/secret-keys"))) [
                    | inl bad ↦ absurd (ground arith)
                    | inr (keys, k) ↦ elim (Option-cases (add_u16 port 100)) [
                      | inl over ↦ absurd (ground arith)
                      | inr (realtime, a) ↦ ground arith
                    ]
                  ]
            ]
      ]

  test_repo_sync2-asserted :
      (j : Inner crates) (text : String)
      → j.secret_mapping ≡ one_pair 1 "client-sdk-key" "server-sdk-key"
      → (h : HasRead kit j "server-sdk-key")
      → crates.events_to_json (crates.events (crates.client_repo h.has.client)) ≡ ok text
      → test_repo_sync2 crates kit j ≡ true
  unfolding test_repo_sync2 secret_keys Secrets.mapping_clone get Secrets.server_sdk_key
      Secrets.contains_server_sdk_key
  test_repo_sync2-asserted j text held h printed =
      let read : reads_file crates kit (server_sdk_repo_string crates j "server-sdk-key") ≡ true =
        reads_file_of_HasRead crates kit j "server-sdk-key" (rw held (omega arith)) (rw held refl)
          h in
      let events =
        events_of_HasRead crates kit j "client-sdk-key" "server-sdk-key" text
          (rw held (omega arith)) (rw held refl) h printed in
      let unknown : is_not_found (server_sdk_repo_string crates j "non-exist-sdk-key")
            "non-exist-sdk-key"
          ≡ true =
        unfold server_sdk_repo_string in rw held refl in
      ground (arith, read, events, unknown, held)

  -- What `test_repo_sync2` asserts holds for the repository that it sets up, in whatever order and number
  -- the rounds of its loops come while it sleeps, if each request for the keys fails or brings the text
  -- of the mock, that text reads as the one pair of version 1, and the SDK client of the server key has
  -- read the repository of the file by then, whose events can be printed. It takes for granted that this
  -- repository prints, to a text that reads as it again, and is the same as itself (`Prints`).
  pub test_repo_sync2-holds :
      (port : ℕ) (url : crates.Url) (tasks : List (Task crates.Url)) (text : String)
      {i j : Inner crates}
      → setup_repository2 crates port ≡ some (url, i, tasks)
      → crates.secrets_from_json secret_keys_text
        ≡ some (1, ("client-sdk-key", "server-sdk-key") ∷ [])
      → ((u : crates.Url) (f : Fetched) → serves u f → FedBy secret_keys_text f)
      → Slept crates relied serves tasks i j
      → (h : HasRead kit j "server-sdk-key")
      → crates.events_to_json (crates.events (crates.client_repo h.has.client)) ≡ ok text
      → test_repo_sync2 crates kit j ≡ true
  unfolding Secrets.new Secrets.fill_reverse HashMap.insert get
  test_repo_sync2-holds port url tasks text {i} made parses feeds slept h printed =
      let (unversioned, unserved, spawned) = setup_repository2-new port made in
      let held =
        Slept-fed crates relied serves tasks i secret_keys_text 1
          (("client-sdk-key", "server-sdk-key") ∷ []) unversioned (λ key. rw unserved refl) parses
          feeds "server-sdk-key" slept h.has.there in
      test_repo_sync2-asserted _ text held h printed
