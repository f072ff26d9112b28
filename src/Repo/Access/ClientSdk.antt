-- ===== src/Repo/Access/ClientSdk.antt =====
-- What a client SDK is served: the reads of `SdkRepository` that begin with a client key.
use feature_probe_server.Prelude.{String, ◌≡◌, ◌↔◌, ◌<◌, some, ok, arith, Option-cases, inl, inr}
use feature_probe_server.Crates.{Crates}
use feature_probe_server.Secrets
use feature_probe_server.Repo.{Inner}
use feature_probe_server.Repo.Read.{
  all_evaluated_string, all_event_string, server_key_of, client_sdk_eval_string,
  client_sdk_events_string,
}
use feature_probe_server.Repo.Access.{HasRepo, evaluated_json, ready_client-ok_iff}

module _ (crates : Crates) where
  open crates use {FpClient, FpUser}

  -- A client SDK is sent evaluated toggles exactly if a mapping was received, its key leads to a
  -- server key, and that key's SDK client has synchronised.
  pub client_sdk_eval_string-ok_iff :
      (inner : Inner crates) (key : String) (user : FpUser) (body : String)
      → (client_sdk_eval_string crates inner key user ≡ ok body) ↔ (
          (0 < inner.secret_mapping.version)
          × ((s : String) × (Secrets.server_sdk_key inner.secret_mapping key ≡ some s)
              × ((r : HasRepo inner s) × (evaluated_json crates user r.client ≡ ok body))))
  unfolding client_sdk_eval_string server_key_of all_evaluated_string
  client_sdk_eval_string-ok_iff inner key user body = (
    λ e. elim (Option-cases (Secrets.server_sdk_key inner.secret_mapping key)) [
      | inl missing ↦ absurd (ground arith)
      | inr (s, leads) ↦ (
        ground arith,
        (
          s,
          leads,
          (ready_client-ok_iff crates inner s (evaluated_json crates user) body).0 (ground arith),
        ),
      )
    ],
    λ (versioned, (s, leads, r)).
        let read = (ready_client-ok_iff crates inner s (evaluated_json crates user) body).1 r in
        ground arith,
  )

  -- A client SDK is sent events exactly if a mapping was received, its key leads to a server key, and
  -- that key's SDK client has synchronised; they are those of that client's repository then.
  pub client_sdk_events_string-ok_iff :
      (inner : Inner crates) (key : String) (body : String)
      → (client_sdk_events_string crates inner key ≡ ok body) ↔ (
          (0 < inner.secret_mapping.version)
          × ((s : String) × (Secrets.server_sdk_key inner.secret_mapping key ≡ some s)
              × ((r : HasRepo inner s) × (crates.events_to_json
                      (crates.events (crates.client_repo r.client))
                    ≡ ok body))))
  unfolding client_sdk_events_string server_key_of all_event_string
  client_sdk_events_string-ok_iff inner key body =
      let json = λ (c : FpClient). crates.events_to_json (crates.events (crates.client_repo c)) in
      (
        λ e. elim (Option-cases (Secrets.server_sdk_key inner.secret_mapping key)) [
          | inl missing ↦ absurd (ground arith)
          | inr (s, leads) ↦ (
            ground arith,
            (s, leads, (ready_client-ok_iff crates inner s json body).0 (ground arith)),
          )
        ],
        λ (versioned, (s, leads, r)).
            let read = (ready_client-ok_iff crates inner s json body).1 r in ground arith,
      )
