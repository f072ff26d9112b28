-- ===== src/Http/Handler/Laws.antt =====
-- What an SDK or a console receives, on every branch of the handlers.
use feature_probe_server.Prelude.{
  String, ◌≡◌, refl, sym, ap, ◌∙◌, ◌≢◌, ◌↔◌, ◌⊎◌, inl, inr, some, Result, ok, err, arith,
}
use feature_probe_server.Error.{FpServerError, not_found, not_ready}
use feature_probe_server.Crates.{Crates}
use feature_probe_server.Secrets
use feature_probe_server.Secrets.Invariant.{IsConsistent}
use feature_probe_server.Repo.Read.{server_sdk_repo_string}
use feature_probe_server.Repo.Access.{
  IsServed, HasRepo, server_sdk_repo_string-ok_iff, server_sdk_repo_string-not_found_iff,
  server_sdk_repo_string-not_found_key, server_sdk_repo_string-not_ready_iff,
}
use feature_probe_server.Http.Response.{
  respond, into_response, error_status, ok_status, service_unavailable,
}
use feature_probe_server.Http.Handler.{FpHttpHandler, server_answer, server_sdk_toggles}

module _ (crates : Crates) where
  open crates use {default_json}

  server_answer_ok :
      (read : Result String FpServerError) (body : String)
      → (respond crates (server_answer crates read)).status ≡ ok_status
      → (respond crates (server_answer crates read)).body ≡ body
      → (read ≡ ok body) ⊎ ((body ≡ default_json) × ((s : String) × (read ≡ err (not_found s))))
  unfolding server_answer respond into_response error_status
  server_answer_ok (ok a) body st b = inl (ap ok b)
  server_answer_ok (err (not_found s)) body st b = inr (sym b, (s, refl))
  server_answer_ok (err e) body st b = absurd (omega arith)

  server_answer_unavailable :
      (read : Result String FpServerError)
      → ((respond crates (server_answer crates read)).status ≡ service_unavailable)
        ↔ ((s : String) × (read ≡ err (not_ready s)))
  unfolding server_answer respond into_response error_status
  server_answer_unavailable (ok a) = (λ h. absurd (omega arith), λ (s, e). absurd (ground arith))
  server_answer_unavailable (err (not_ready s)) = (λ h. (s, refl), λ e. refl)
  server_answer_unavailable (err e) = (λ h. absurd (omega arith), λ (s, e'). absurd (ground arith))

  -- Over a consistent mapping a response 200 to a server SDK holds the repository of its own key,
  -- which a client key leads to and whose SDK client has synchronised, or the default repository if
  -- no client key leads to the key.
  pub server_sdk_toggles-content :
      (self : FpHttpHandler crates) (key body : String)
      → IsConsistent self.repo.secret_mapping
      → (respond crates (server_sdk_toggles crates self key)).status ≡ ok_status
      → (respond crates (server_sdk_toggles crates self key)).body ≡ body
      → (IsServed self.repo key
          × ((r : HasRepo self.repo key) × (crates.repository_to_json (crates.client_repo r.client)
                ≡ ok body)))
        ⊎ ((body ≡ default_json)
            × ((c : String) → Secrets.server_sdk_key self.repo.secret_mapping c ≢ some key))
  unfolding server_sdk_toggles
  server_sdk_toggles-content self key body h st b =
      elim (server_answer_ok (server_sdk_repo_string crates self.repo key) body st b) [
        | inl read ↦ inl ((server_sdk_repo_string-ok_iff crates self.repo key body h).0 read)
        | inr (default, (s, missing)) ↦
            let same = server_sdk_repo_string-not_found_key crates self.repo key s missing in
            inr (
              default,
              ((server_sdk_repo_string-not_found_iff crates self.repo key h).0
                  (missing ∙ ap (λ k. err (not_found k)) same)).1,
            )
      ]

  -- Over a consistent mapping a server SDK is answered 503 exactly if no mapping was received, or a
  -- client key leads to its key and the key has no SDK client that has synchronised.
  server_sdk_toggles-503_iff :
      (self : FpHttpHandler crates) (key : String)
      → IsConsistent self.repo.secret_mapping
      → ((respond crates (server_sdk_toggles crates self key)).status ≡ service_unavailable) ↔ (
          (self.repo.secret_mapping.version ≡ 0)
          ⊎ (IsServed self.repo key × (¬ HasRepo self.repo key)))
  unfolding server_sdk_toggles
  server_sdk_toggles-503_iff self key h =
      let waits = server_answer_unavailable (server_sdk_repo_string crates self.repo key) in
      let why = server_sdk_repo_string-not_ready_iff crates self.repo key h in
      (λ st. why.0 (waits.0 st), λ w. waits.1 (why.1 w))
