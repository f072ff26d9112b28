-- ===== src/Http/Handler/Answers.antt =====
-- All the answers that a server SDK can get, with what each says of the repository.
use feature_probe_server.Prelude.{
  ℕ, String, ◌≡◌, refl, ◌∙◌, ap, ◌≢◌, ◌<◌, true, ◌⊎◌, inl, inr, some, ok, err, arith, Result-cases,
  Option-cases, Bool-cases, is_zero,
}
use feature_probe_server.HashMap.{get}
use feature_probe_server.Error.{FpServerError, not_found, not_ready, json_error}
use feature_probe_server.Crates.{Crates}
use feature_probe_server.Secrets
use feature_probe_server.Secrets.Invariant.{IsConsistent, contains_server_sdk_key_iff}
use feature_probe_server.Repo.{Inner}
use feature_probe_server.Repo.Read.{ready_client, repo_string, server_sdk_repo_string}
use feature_probe_server.Repo.Access.{
  IsServed, HasRepo, server_sdk_repo_string-ok_iff, server_sdk_repo_string-not_found_iff,
  server_sdk_repo_string-not_ready_iff,
}
use feature_probe_server.Http.Response.{
  respond, into_response, error_status, ok_status, service_unavailable, internal_server_error,
}
use feature_probe_server.Http.Handler.{FpHttpHandler, server_answer, server_sdk_toggles}

module _ (crates : Crates) where
  open crates use {default_json, repository_to_json, client_repo}

  -- The repository of the key's own client; the default repository, where no client key leads to the
  -- key; the request to wait; and a repository that cannot be printed. All but the third want a
  -- mapping.
  pub data Answer (inner : Inner crates) (key : String) (status : ℕ) (body : String) : Type 0 where
    own_repository :
        status ≡ ok_status
        → IsServed inner key
        → (r : HasRepo inner key) → repository_to_json (client_repo r.client) ≡ ok body
        → Answer inner key status body
    default_repository :
        status ≡ ok_status
        → body ≡ default_json
        → 0 < inner.secret_mapping.version
        → ((c : String) → Secrets.server_sdk_key inner.secret_mapping c ≢ some key)
        → Answer inner key status body
    waiting :
        status ≡ service_unavailable
        → (inner.secret_mapping.version ≡ 0) ⊎ (IsServed inner key × (¬ HasRepo inner key))
        → Answer inner key status body
    unprintable :
        status ≡ internal_server_error
        → IsServed inner key
        → (r : HasRepo inner key) (e : String) → repository_to_json (client_repo r.client) ≡ err e
        → Answer inner key status body

  only_errors :
      (inner : Inner crates) (key : String) (e : FpServerError)
      → server_sdk_repo_string crates inner key ≡ err e
      → (e ≡ not_ready key)
        ⊎ (e ≡ not_found key)
        ⊎ ((0 < inner.secret_mapping.version)
            × (Secrets.contains_server_sdk_key inner.secret_mapping key ≡ true)
            × ((r : HasRepo inner key) × (s : String) × (repository_to_json (client_repo r.client)
                  ≡ err s)
                × (e ≡ json_error s)))
  unfolding server_sdk_repo_string repo_string ready_client
  only_errors inner key e failed = elim (Option-cases (get inner.sdk_clients key)) [
    | inl missing ↦ ground arith
    | inr (c, there) ↦ elim (Bool-cases (crates.initialized c)) [
      | inr waits ↦ ground arith
      | inl ready ↦ elim (Result-cases (repository_to_json (client_repo c))) [
        | inr (text, printed) ↦ ground arith
        | inl (s, failing) ↦
            elim (Bool-cases (Secrets.contains_server_sdk_key inner.secret_mapping key)) [
              | inr unknown ↦ ground arith
              | inl known ↦ elim (Bool-cases (is_zero inner.secret_mapping.version)) [
                | inl none_yet ↦ inl (ground arith)
                | inr versioned ↦ inr (
                    inr (
                      ground arith,
                      known,
                      (
                        record { client = c; there = there; synchronised = ready },
                        s,
                        failing,
                        ground arith,
                      ),
                    ))
              ]
            ]
      ]
    ]
  ]

  -- Over a consistent mapping a server SDK gets one of four answers, each with what it says of the
  -- repository: 503, if no mapping was received, or if a client key leads to the key and the key's
  -- client has not synchronised; and, only once a mapping was received, the repository of the key's
  -- own client, if a client key leads to the key; the default repository, if none does; and 500, if
  -- a client key leads to the key and its repository cannot be printed.
  pub server_sdk_toggles_cases :
      (self : FpHttpHandler crates) (key : String)
      → IsConsistent self.repo.secret_mapping
      → let response = respond crates (server_sdk_toggles crates self key) in
        Answer self.repo key response.status response.body
  unfolding server_sdk_toggles server_answer respond into_response error_status
  server_sdk_toggles_cases self key h =
      elim (Result-cases (server_sdk_repo_string crates self.repo key)) [
        | inr (body, read) ↦
            let (served, (r, printed)) =
              (server_sdk_repo_string-ok_iff crates self.repo key body h).0 read in
            rw (read, server_answer) (own_repository refl served r printed)
        | inl (e, failed) ↦ elim (only_errors self.repo key e failed) [
          | inl waits ↦
              rw (failed ∙ ap err waits, server_answer)
                (waiting refl (
                  (server_sdk_repo_string-not_ready_iff crates self.repo key h).0
                    (key, failed ∙ ap err waits)))
          | inr (inl unknown) ↦
              let (versioned, nobody) =
                (server_sdk_repo_string-not_found_iff crates self.repo key h).0
                  (failed ∙ ap err unknown) in
              rw (failed ∙ ap err unknown, server_answer)
                (default_repository refl refl versioned nobody)
          | inr (inr (versioned, known, (r, s, failing, is))) ↦
              let (c, leads) = (contains_server_sdk_key_iff h key).0 known in
              let served : IsServed self.repo key = record {
                client_key = c;
                leads = leads;
                has_version = versioned;
              } in
              rw (failed ∙ ap err is, server_answer) (unprintable refl served r s failing)
        ]
      ]
