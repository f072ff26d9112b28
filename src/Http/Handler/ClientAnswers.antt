-- ===== src/Http/Handler/ClientAnswers.antt =====
-- All the answers that a client SDK's request for toggles can get, with what each says of the repository.
use feature_probe_server.Prelude.{
  ℕ, String, ◌≡◌, ◌<◌, refl, ◌⊎◌, inl, inr, some, none, ok, err, arith, Result-cases, Option-cases,
  Bool-cases, is_zero, map_err,
}
use feature_probe_server.HashMap.{get}
use feature_probe_server.Error.{not_ready, json_error, user_decode_error}
use feature_probe_server.Crates.{Crates}
use feature_probe_server.Secrets
use feature_probe_server.Repo.{Inner}
use feature_probe_server.Repo.Read.{
  ready_client, all_evaluated_string, server_key_of, client_sdk_eval_string,
}
use feature_probe_server.Repo.Access.{HasRepo, evaluated_json}
use feature_probe_server.Http.Response.{
  respond, into_response, error_status, ok_status, bad_request, service_unavailable,
  internal_server_error,
}
use feature_probe_server.Http.Handler.{
  FpHttpHandler, client_answer, decode_user, client_sdk_toggles,
}
use feature_probe_server.Http.Handler.ClientLaws.{decode_user_cases}

module _ (crates : Crates) where
  -- The evaluation, for the user, of the toggles of the server key that the key leads to; no toggles,
  -- where it leads nowhere; the request to wait; a user that cannot be decoded; and an evaluation that
  -- cannot be printed.
  pub data ClientAnswer (inner : Inner crates) (user key : String) (status : ℕ) (body : String)
      : Type 0 where
    evaluated :
        status ≡ ok_status
        → 0 < inner.secret_mapping.version
        → (u : crates.FpUser) (s : String) (r : HasRepo inner s) → decode_user crates user ≡ ok u
        → Secrets.server_sdk_key inner.secret_mapping key ≡ some s
        → evaluated_json crates u r.client ≡ ok body
        → ClientAnswer inner user key status body
    led_nowhere :
        status ≡ ok_status
        → 0 < inner.secret_mapping.version
        → body ≡ "{}"
        → Secrets.server_sdk_key inner.secret_mapping key ≡ none
        → ClientAnswer inner user key status body
    waiting :
        status ≡ service_unavailable
        → body ≡ "{}"
        → (inner.secret_mapping.version ≡ 0)
          ⊎ ((0 < inner.secret_mapping.version)
              × ((s : String) × (Secrets.server_sdk_key inner.secret_mapping key ≡ some s)
                  × (¬ HasRepo inner s)))
        → ClientAnswer inner user key status body
    undecoded :
        status ≡ bad_request
        → decode_user crates user ≡ err user_decode_error
        → ClientAnswer inner user key status body
    unprintable :
        status ≡ internal_server_error
        → 0 < inner.secret_mapping.version
        → (u : crates.FpUser) (s : String) (r : HasRepo inner s) (e : String)
        → decode_user crates user ≡ ok u
        → Secrets.server_sdk_key inner.secret_mapping key ≡ some s
        → evaluated_json crates u r.client ≡ err e
        → ClientAnswer inner user key status body

  -- The read of the toggles of a server key that a client key leads to.
  read_led :
      (inner : Inner crates) (u : crates.FpUser) (s : String)
      → ((all_evaluated_string crates inner s u ≡ err (not_ready s)) × (¬ HasRepo inner s))
        ⊎ ((r : HasRepo inner s) × (all_evaluated_string crates inner s u
              ≡ map_err (evaluated_json crates u r.client) json_error))
  unfolding all_evaluated_string ready_client
  read_led inner u s = elim (Option-cases (get inner.sdk_clients s)) [
    | inl missing ↦ inl (ground arith, λ r. let there = r.there in ground arith)
    | inr (c, there) ↦ elim (Bool-cases (crates.initialized c)) [
      | inr waits ↦
          inl (ground arith, λ r. let found = r.there in let ready = r.synchronised in ground arith)
      | inl ready ↦ inr (record { client = c; there = there; synchronised = ready }, ground arith)
    ]
  ]

  answered :
      (self : FpHttpHandler crates) (user key : String) (u : crates.FpUser)
      → decode_user crates user ≡ ok u
      → let response =
          respond crates (client_answer (client_sdk_eval_string crates self.repo key u)) in
        ClientAnswer self.repo user key response.status response.body
  unfolding client_answer respond into_response error_status client_sdk_eval_string server_key_of
  answered self user key u decoded = elim (Bool-cases (is_zero self.repo.secret_mapping.version)) [
    | inl none_yet ↦
        let unset : self.repo.secret_mapping.version ≡ 0 = ground arith in
        rw (none_yet, client_sdk_eval_string, server_key_of) (waiting refl refl (inl unset))
    | inr given ↦
        let versioned : 0 < self.repo.secret_mapping.version = ground arith in
        rw (given, client_sdk_eval_string, server_key_of)
          (elim (Option-cases (Secrets.server_sdk_key self.repo.secret_mapping key)) [
            | inl nowhere ↦ rw nowhere (led_nowhere refl versioned refl nowhere)
            | inr (s, leads) ↦ rw leads (led versioned s leads)
          ])
  ]
    where
      led :
          0 < self.repo.secret_mapping.version
          → (s : String) → Secrets.server_sdk_key self.repo.secret_mapping key ≡ some s
          → let response =
              respond crates (client_answer (all_evaluated_string crates self.repo s u)) in
            ClientAnswer self.repo user key response.status response.body
      led versioned s leads = elim (read_led self.repo u s) [
        | inl (waits, unready) ↦ rw waits (waiting refl refl (inr (versioned, (s, leads, unready))))
        | inr (r, read) ↦ elim (Result-cases (evaluated_json crates u r.client)) [
          | inr (text, printed) ↦
              rw read (rw printed (evaluated refl versioned u s r decoded leads printed))
          | inl (e, failing) ↦
              rw read (rw failing (unprintable refl versioned u s r e decoded leads failing))
        ]
      ]

  -- A client SDK that asks for toggles gets one of five answers, each with what it says of the
  -- repository: 400, if its user cannot be decoded; 503, if no mapping was received, or if its key
  -- leads to a server key whose client has not synchronised; and, only once a mapping was received,
  -- the evaluation, for its user, of the toggles of the server key that its key leads to; no toggles,
  -- if its key leads nowhere; and 500, if that evaluation cannot be printed.
  pub client_sdk_toggles_cases :
      (self : FpHttpHandler crates) (user key : String)
      → let response = respond crates (client_sdk_toggles crates self user key) in
        ClientAnswer self.repo user key response.status response.body
  unfolding client_sdk_toggles respond into_response error_status
  client_sdk_toggles_cases self user key = elim (decode_user_cases crates user) [
    | inl failed ↦ rw failed (undecoded refl failed)
    | inr (u, decoded) ↦ rw decoded (answered self user key u decoded)
  ]
