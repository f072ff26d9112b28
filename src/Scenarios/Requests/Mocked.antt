-- ===== src/Scenarios/Requests/Mocked.antt =====
-- What the mock of the tests of src/http/mod.rs answers, and what the server answers once the SDK client of
-- its key has read that.
use feature_probe_server.Prelude.{
  ℕ, String, ◌≡◌, refl, sym, ap, ◌∙◌, ◌<◌, true, false, some, [], ok, arith, Option-cases, inl, inr,
  some-injective,
}
use feature_probe_server.Crates.{Crates}
use feature_probe_server.Secrets
use feature_probe_server.Repo.{Inner, Fetched}
use feature_probe_server.Repo.Steps.{Relied}
use feature_probe_server.Repo.Read.{server_sdk_repo_string}
use feature_probe_server.Repo.Access.{HasRepo}
use feature_probe_server.Http.Response.{respond}
use feature_probe_server.Http.Handler.{FpHttpHandler, server_sdk_toggles}
use feature_probe_server.Http.LocalFile.{LocalFileHttpHandlerForTest, kept_body}
use feature_probe_server.Http.Router.{Axum, Served, to, server_toggles, routes}
use feature_probe_server.Http.Router.Table.{destination_iff}
use feature_probe_server.Http.Router.Answered.{fp_serve, plain, serve_server_toggles_lem}
use feature_probe_server.Http.Router.Local.{local_serve, local_toggles_lem}
use feature_probe_server.Example.{unwrap_url}
use feature_probe_server.Scenarios.{Kit, local_url, paired_repository, setup_fp_server}
use feature_probe_server.Scenarios.Sleep.{Slept, Slept-alone}
use feature_probe_server.Scenarios.Browser.{
  Browser, method-http_get, path-http_get, authorization-http_get,
}
use feature_probe_server.Scenarios.RepoSync.{reads_file}
use feature_probe_server.Scenarios.RepoSync.Reading.{
  Prints, HasRead, one_pair, paired_repository-sync, sync-one_pair, repo_string_of_HasRead,
  reads_file_of_HasRead,
}
use feature_probe_server.Scenarios.Requests.{mock, get_toggles}

module _ (crates : Crates) (axum : Axum crates) (kit : Kit crates) (browser : Browser axum) where
  open kit use {files}

  led_to_toggles :
      (key : String)
      → axum.destination routes (get_toggles crates axum kit browser key) ≡ to server_toggles
  led_to_toggles key =
      (destination_iff crates axum (get_toggles crates axum kit browser key) server_toggles).1
        (inl (method-http_get browser _ [] (some key)), path-http_get browser _ [] (some key))

  -- The mock answers a request for toggles with the text of the file.
  pub mock_toggles :
      (key : String)
      → (served : Served crates LocalFileHttpHandlerForTest) × (local_serve crates axum files mock
            (get_toggles crates axum kit browser key)
          ≡ some served)
        × (served.response.body ≡ files.repo_file)
  unfolding kept_body
  mock_toggles key = (
    _,
    local_toggles_lem crates axum files mock (get_toggles crates axum kit browser key) key refl
        (led_to_toggles key) (authorization-http_get browser _ [] key),
    refl,
  )

  mock_answer :
      (key : String) {served : Served crates LocalFileHttpHandlerForTest}
      → local_serve crates axum files mock (get_toggles crates axum kit browser key) ≡ some served
      → served.response.body ≡ files.repo_file
  mock_answer key answered =
      let (kept, as_kept, is_file) = mock_toggles key in
      ap (λ (s : Served crates LocalFileHttpHandlerForTest). s.response.body)
        (some-injective (sym answered ∙ as_kept))
      ∙ is_file

  -- The SDK client of a key has read what the mock answers to a request with its key.
  pub record ReadFromMock (inner : Inner crates) (key : String) : Type 0 where
    pub has : HasRepo inner key
    pub served : Served crates LocalFileHttpHandlerForTest
    pub answered :
        local_serve crates axum files mock (get_toggles crates axum kit browser key) ≡ some served
    pub read :
        files.repository_from_json served.response.body ≡ some (crates.client_repo has.client)
    pub prints : Prints kit (crates.client_repo has.client)

  pub has_read :
      (inner : Inner crates) (key : String) → ReadFromMock inner key → HasRead kit inner key
  has_read inner key h = record {
    has = h.has;
    is_file = record {
      of_file = sym (ap files.repository_from_json (mock_answer key h.answered)) ∙ h.read;
      prints = h.prints;
    };
  }

  pub fp_toggles :
      (fp : FpHttpHandler crates) (key : String)
      → fp_serve crates axum fp (get_toggles crates axum kit browser key)
        ≡ some (plain crates axum fp (server_sdk_toggles crates fp key))
  fp_toggles fp key =
      serve_server_toggles_lem crates axum fp (get_toggles crates axum kit browser key) key
        (led_to_toggles key) (authorization-http_get browser _ [] key)

  -- `setup_fp_server` gives its pair of keys to a new repository.
  setup_fp_server-held :
      (target port : ℕ) (client_key key : String) {fp : FpHttpHandler crates}
      → setup_fp_server crates target port client_key key ≡ some fp
      → fp.repo.secret_mapping ≡ one_pair 1 client_key key
  unfolding setup_fp_server
  setup_fp_server-held target port client_key key {fp} made =
      elim (Option-cases (unwrap_url crates (local_url target "/api/events"))) [
        | inl bad ↦ absurd (ground arith)
        | inr (events, e) ↦
            elim (Option-cases (paired_repository crates target port client_key key 1)) [
              | inl bad ↦ absurd (ground arith)
              | inr (repo, p) ↦
                  let (config, is) = paired_repository-sync crates target port client_key key 1 p in
                  let same : fp.repo ≡ repo = ground arith in
                  ap (λ (k : Inner crates). k.secret_mapping) (same ∙ is)
                  ∙ sync-one_pair crates config client_key key 1
            ]
      ]

  -- What happened while a test slept left the server its pair of keys.
  pub pair_after_sleep :
      (relied : Relied crates) (serves : crates.Url → Fetched → Type 0) (target listen : ℕ)
      (client_key key : String) {fp : FpHttpHandler crates} {j : Inner crates}
      → setup_fp_server crates target listen client_key key ≡ some fp
      → Slept crates relied serves [] fp.repo j
      → j.secret_mapping ≡ one_pair 1 client_key key
  pair_after_sleep relied serves target listen client_key key made slept =
      (Slept-alone crates relied serves [] refl slept).0
      ∙ setup_fp_server-held target listen client_key key made

  -- A key that no client key leads to is answered with the repository of a key that is not there.
  pub unknown_response :
      (fp : FpHttpHandler crates) (key : String)
      → 0 < fp.repo.secret_mapping.version
      → Secrets.contains_server_sdk_key fp.repo.secret_mapping key ≡ false
      → (respond crates (server_sdk_toggles crates fp key)).body ≡ crates.default_json
  unfolding server_sdk_toggles server_sdk_repo_string respond
  unknown_response fp key versioned unknown = rw (unknown) (ground arith)

  -- The response to a key whose client has read the repository of the file.
  pub known_response :
      (fp : FpHttpHandler crates) (key : String)
      → 0 < fp.repo.secret_mapping.version
      → Secrets.contains_server_sdk_key fp.repo.secret_mapping key ≡ true
      → HasRead kit fp.repo key
      → reads_file crates kit (ok (respond crates (server_sdk_toggles crates fp key)).body) ≡ true
  unfolding server_sdk_toggles respond
  known_response fp key versioned known h =
      let text = repo_string_of_HasRead crates kit fp.repo key versioned known h in
      let read = reads_file_of_HasRead crates kit fp.repo key versioned known h in
      rw text (rw text at read)
