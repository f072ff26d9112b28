-- ===== src/Http/Handler/ClientLaws.antt =====
-- What a client SDK and the console receive, on every branch of their handlers.
use feature_probe_server.Prelude.{
  String, ◌≡◌, refl, sym, ap, ◌≢◌, ◌↔◌, ◌⊎◌, inl, inr, none, some, Result, ok, err, ◌==◌, arith,
  Option-cases, if◌then◌else◌,
}
use feature_probe_server.HashMap.{get}
use feature_probe_server.HashMap.Laws.{get-insert}
use feature_probe_server.Error.{FpServerError, not_found, user_decode_error}
use feature_probe_server.Crates.{Crates, realtime}
use feature_probe_server.Secrets
use feature_probe_server.Repo.{Inner, client_sync_now}
use feature_probe_server.Repo.Read.{
  client_sdk_eval_string, server_key_of, all_evaluated_string, ready_client,
}
use feature_probe_server.Repo.Access.{HasRepo, evaluated_json}
use feature_probe_server.Repo.Access.ClientSdk.{client_sdk_eval_string-ok_iff}
use feature_probe_server.Http.Response.{
  respond, into_response, error_status, ok_status, bad_request,
}
use feature_probe_server.Http.Handler.{
  FpHttpHandler, client_answer, decode_user, client_sdk_toggles, update_toggles,
}

module _ (crates : Crates) where
  client_answer-ne-400 :
      (read : Result String FpServerError)
      → read ≢ err user_decode_error
      → (respond crates (client_answer read)).status ≢ bad_request
  unfolding client_answer respond into_response error_status
  client_answer-ne-400 (ok a) other st = omega arith
  client_answer-ne-400 (err user_decode_error) other st = other refl
  client_answer-ne-400 (err e) other st = omega arith

  client_answer_ok :
      (read : Result String FpServerError) (body : String)
      → (respond crates (client_answer read)).status ≡ ok_status
      → (respond crates (client_answer read)).body ≡ body
      → (read ≡ ok body) ⊎ ((body ≡ "{}") × ((s : String) × (read ≡ err (not_found s))))
  unfolding client_answer respond into_response error_status
  client_answer_ok (ok a) body st b = inl (ap ok b)
  client_answer_ok (err (not_found s)) body st b = inr (sym b, (s, refl))
  client_answer_ok (err e) body st b = absurd (omega arith)

  -- The read of a client SDK reports no decoding error, and `not found` only for a client key that
  -- leads nowhere.
  client_sdk_eval_string_errors :
      (inner : Inner crates) (key : String) (user : crates.FpUser)
      → (client_sdk_eval_string crates inner key user ≢ err user_decode_error)
        × ((s : String)
            → client_sdk_eval_string crates inner key user ≡ err (not_found s)
            → Secrets.server_sdk_key inner.secret_mapping key ≡ none)
  unfolding client_sdk_eval_string server_key_of all_evaluated_string ready_client
  client_sdk_eval_string_errors inner key user = (λ e. ground arith, λ s e. ground arith)

  pub decode_user_cases :
      (user : String)
      → (decode_user crates user ≡ err user_decode_error)
        ⊎ ((u : crates.FpUser) × (decode_user crates user ≡ ok u))
  unfolding decode_user
  decode_user_cases user = elim (Option-cases (crates.base64_decode user)) [
    | inl e ↦ inl (ground arith)
    | inr (bytes, e) ↦ elim (Option-cases (crates.from_utf8 bytes)) [
      | inl e' ↦ inl (ground arith)
      | inr (text, e') ↦ elim (Option-cases (crates.user_from_json text)) [
        | inl e'' ↦ inl (ground arith)
        | inr (u, e'') ↦ inr (u, ground arith)
      ]
    ]
  ]

  -- A client SDK is answered 400 exactly if its `user` parameter cannot be decoded, whatever the
  -- state of the server.
  client_sdk_toggles-400_iff :
      (self : FpHttpHandler crates) (user key : String)
      → ((respond crates (client_sdk_toggles crates self user key)).status ≡ bad_request)
        ↔ (decode_user crates user ≡ err user_decode_error)
  unfolding client_sdk_toggles respond into_response error_status
  client_sdk_toggles-400_iff self user key = (
    λ st. elim (decode_user_cases user) [
      | inl failed ↦ failed
      | inr (u, decoded) ↦ absurd (
          client_answer-ne-400 (client_sdk_eval_string crates self.repo key u)
            (client_sdk_eval_string_errors self.repo key u).0 (rw decoded at st))
    ],
    λ failed. rw failed refl,
  )

  -- A response 200 to a client SDK holds the evaluation, for its user, of the client toggles of
  -- the server key that its key leads to, or no toggles if its key leads nowhere.
  pub client_sdk_toggles-content :
      (self : FpHttpHandler crates) (user key body : String)
      → (respond crates (client_sdk_toggles crates self user key)).status ≡ ok_status
      → (respond crates (client_sdk_toggles crates self user key)).body ≡ body
      → ((u : crates.FpUser) × (decode_user crates user ≡ ok u)
          × ((s : String) × (Secrets.server_sdk_key self.repo.secret_mapping key ≡ some s)
              × ((r : HasRepo self.repo s) × (evaluated_json crates u r.client ≡ ok body))))
        ⊎ ((body ≡ "{}") × (Secrets.server_sdk_key self.repo.secret_mapping key ≡ none))
  unfolding client_sdk_toggles respond into_response error_status
  client_sdk_toggles-content self user key body st b = elim (decode_user_cases user) [
    | inl failed ↦ let st' : bad_request ≡ ok_status = rw failed at st in absurd (omega arith)
    | inr (u, decoded) ↦
        let read = client_sdk_eval_string crates self.repo key u in
        elim (client_answer_ok read body (rw decoded at st) (rw decoded at b)) [
          | inl served ↦
              let (versioned, (s, leads, r)) =
                (client_sdk_eval_string-ok_iff crates self.repo key u body).0 served in
              inl (u, decoded, (s, leads, r))
          | inr (empty, (s, missing)) ↦
              inr (empty, (client_sdk_eval_string_errors self.repo key u).1 s missing)
        ]
  ]

  -- The console's request to read a key's toggles again is answered 200 exactly if the key has an
  -- SDK client, which is told to synchronise; then that client is replaced by what the call makes
  -- of it, and no other client, nor the mapping, changes. Otherwise it is answered 400, and
  -- nothing changes.
  pub update_toggles_cases :
      (self : FpHttpHandler crates) (key : String)
      → let after = (update_toggles crates self key).0 in
        let status = (respond crates (update_toggles crates self key).1).status in
        ((get self.repo.sdk_clients key ≡ none) × (status ≡ bad_request) × (after ≡ self))
        ⊎ ((c : crates.FpClient) × (get self.repo.sdk_clients key ≡ some c)
            × (status ≡ ok_status)
            × (after.repo.secret_mapping ≡ self.repo.secret_mapping)
            × ((j : String)
                → get after.repo.sdk_clients j ≡ (
                    if key == j
                    then some (crates.sync_now c realtime)
                    else get self.repo.sdk_clients j)))
  unfolding update_toggles client_sync_now respond into_response error_status
  update_toggles_cases self key = elim (Option-cases (get self.repo.sdk_clients key)) [
    | inl missing ↦ inl (missing, rw (missing, client_sync_now), rw (missing, client_sync_now))
    | inr (c, there) ↦ inr (
      c,
      there,
      rw (there, client_sync_now) refl,
      rw (there, client_sync_now) refl,
      λ j.
          rw (there, client_sync_now)
            (get-insert self.repo.sdk_clients key j (crates.sync_now c realtime)),
    )
  ]
