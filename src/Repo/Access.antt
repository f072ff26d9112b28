-- ===== src/Repo/Access.antt =====
-- What a server SDK is served: `server_sdk_repo_string` on every branch.
pub mod ClientSdk
use feature_probe_server.Prelude.{
  String, ◌≡◌, refl, ◌≢◌, ◌↔◌, ◌⊎◌, ◌<◌, true, some, Result, ok, err, ◌>>=◌, map_err, arith,
  is_zero, Bool-cases, Option-cases, inl, inr,
}
use feature_probe_server.HashMap.{get, collect}
use feature_probe_server.Error.{FpServerError, not_found, not_ready, json_error}
use feature_probe_server.Crates.{Crates}
use feature_probe_server.Secrets
use feature_probe_server.Secrets.Invariant.{IsConsistent, contains_server_sdk_key_iff}
use feature_probe_server.Repo.{Inner}
use feature_probe_server.Repo.Read.{
  ready_client, repo_string, all_evaluated_string, all_event_string, eval_toggles,
  server_sdk_repo_string, server_key_of, client_sdk_eval_string, client_sdk_events_string,
}

-- A mapping is there, and some client key leads to the server key.
pub record IsServed {crates : Crates} (inner : Inner crates) (server_key : String) : Type 0 where
  pub client_key : String
  pub leads : Secrets.server_sdk_key inner.secret_mapping client_key ≡ some server_key
  pub has_version : 0 < inner.secret_mapping.version

-- The SDK client of a key has synchronised, and its repository is `repo`.
pub record HasRepo {crates : Crates} (inner : Inner crates) (key : String) : Type 0 where
  pub client : crates.FpClient
  pub there : get inner.sdk_clients key ≡ some client
  pub synchronised : crates.initialized client ≡ true

map_err-ok_iff :
    (r : Result String String) (body : String) → (map_err r json_error ≡ ok body) ↔ (r ≡ ok body)
map_err-ok_iff (ok a) body = ground arith
map_err-ok_iff (err e) body = ground arith

module _ (crates : Crates) where
  open crates use {FpClient, FpUser, Toggle, Segments, EvalDetail}

  ready_client_cases :
      (inner : Inner crates) (key : String) (f : FpClient → Result String FpServerError)
      (body : String)
      → (ready_client crates inner key >>= f) ≡ ok body
      → (r : HasRepo inner key) × (f r.client ≡ ok body)
  unfolding ready_client
  ready_client_cases inner key f body e = elim (Option-cases (get inner.sdk_clients key)) [
    | inl missing ↦ absurd (ground arith)
    | inr (c, there) ↦ elim (Bool-cases (crates.initialized c)) [
      | inl ready ↦ (record { client = c; there = there; synchronised = ready }, ground arith)
      | inr waiting ↦ absurd (ground arith)
    ]
  ]

  ready_client_of_HasRepo :
      (inner : Inner crates) (key : String) (r : HasRepo inner key)
      → ready_client crates inner key ≡ ok r.client
  unfolding ready_client
  ready_client_of_HasRepo inner key r = rw (r.there, ready_client) (rw r.synchronised)

  -- The body of a read that begins with the key's client.
  pub ready_client-ok_iff :
      (inner : Inner crates) (key : String) (f : FpClient → Result String String) (body : String)
      → ((ready_client crates inner key >>= λ c. map_err (f c) json_error) ≡ ok body)
        ↔ ((r : HasRepo inner key) × (f r.client ≡ ok body))
  ready_client-ok_iff inner key f body = (
    λ e.
        let (r, served) = ready_client_cases inner key (λ c. map_err (f c) json_error) body e in
        (r, (map_err-ok_iff (f r.client) body).0 served),
    λ (r, served).
        rw (ready_client_of_HasRepo inner key r) ((map_err-ok_iff (f r.client) body).1 served),
  )

  repo_string-ne-not_found :
      (inner : Inner crates) (key : String) (f : FpClient → Result String String)
      → (ready_client crates inner key >>= λ c. map_err (f c) json_error) ≢ err (not_found key)
  unfolding ready_client
  repo_string-ne-not_found inner key f = ground arith

  -- The evaluated toggles of a client's repository, as JSON.
  abbrev pub evaluated_json : FpUser → FpClient → Result String String
  evaluated_json user client =
      let repo = crates.client_repo client in
      crates.details_to_json
        (collect (eval_toggles crates user (crates.segments repo) (crates.toggles repo)))

  -- Over a consistent mapping a server SDK is sent a repository exactly if a mapping was received,
  -- some client key leads to its key, and the key's SDK client has synchronised; it is that client's
  -- repository then.
  pub server_sdk_repo_string-ok_iff :
      (inner : Inner crates) (key body : String)
      → IsConsistent inner.secret_mapping
      → (server_sdk_repo_string crates inner key ≡ ok body) ↔ (
          IsServed inner key
          × ((r : HasRepo inner key) × (crates.repository_to_json (crates.client_repo r.client)
                ≡ ok body)))
  unfolding server_sdk_repo_string repo_string
  server_sdk_repo_string-ok_iff inner key body h =
      let sm = inner.secret_mapping in
      let read =
        ready_client-ok_iff inner key (λ c. crates.repository_to_json (crates.client_repo c))
          body in
      (
        λ e.
            let known : Secrets.contains_server_sdk_key sm key ≡ true = ground arith in
            let (c, leads) = (contains_server_sdk_key_iff h key).0 known in
            (
              record { client_key = c; leads = leads; has_version = ground arith },
              read.0 (ground arith),
            ),
        λ (served, r).
            let known = (contains_server_sdk_key_iff h key).1 (served.client_key, served.leads) in
            let body_read = read.1 r in ground (arith, served.has_version),
      )

  -- Over a consistent mapping a server SDK is told that its key is not found exactly if a mapping was
  -- received and no client key leads to the key.
  pub server_sdk_repo_string-not_found_iff :
      (inner : Inner crates) (key : String)
      → IsConsistent inner.secret_mapping
      → (server_sdk_repo_string crates inner key ≡ err (not_found key)) ↔ (
          (0 < inner.secret_mapping.version)
          × ((c : String) → Secrets.server_sdk_key inner.secret_mapping c ≢ some key))
  unfolding server_sdk_repo_string repo_string
  server_sdk_repo_string-not_found_iff inner key h =
      let sm = inner.secret_mapping in
      let not_read =
        repo_string-ne-not_found inner key
          (λ c. crates.repository_to_json (crates.client_repo c)) in
      (
        λ e. (
          ground arith,
          λ c leads.
              let known = (contains_server_sdk_key_iff h key).1 (c, leads) in
              not_read (ground arith),
        ),
        λ (versioned, unknown). elim (Bool-cases (Secrets.contains_server_sdk_key sm key)) [
          | inl known ↦
              let (c, leads) = (contains_server_sdk_key_iff h key).0 known in
              absurd (unknown c leads)
          | inr stranger ↦ ground arith
        ],
      )

  -- An error of the read names the key that was asked for.
  pub server_sdk_repo_string-not_found_key :
      (inner : Inner crates) (key s : String)
      → server_sdk_repo_string crates inner key ≡ err (not_found s)
      → s ≡ key
  unfolding server_sdk_repo_string repo_string ready_client
  server_sdk_repo_string-not_found_key inner key s e = ground arith

  ready_client-not_ready_iff :
      (inner : Inner crates) (key : String) (f : FpClient → Result String String)
      → ((s : String) × ((ready_client crates inner key >>= λ c. map_err (f c) json_error)
            ≡ err (not_ready s)))
        ↔ (¬ HasRepo inner key)
  unfolding ready_client
  ready_client-not_ready_iff inner key f = (
    λ (s, e) r. absurd (fails r.client s (rw (ready_client_of_HasRepo inner key r) at e)),
    λ without. (key, unready without),
  )
    where
      fails : (c : FpClient) (s : String) → map_err (f c) json_error ≢ err (not_ready s)
      fails c s = ground arith

      unready :
          (¬ HasRepo inner key)
          → (ready_client crates inner key >>= λ c. map_err (f c) json_error) ≡ err (not_ready key)
      unready without = elim (Option-cases (get inner.sdk_clients key)) [
        | inl missing ↦ rw (missing, ready_client) refl
        | inr (c, there) ↦ elim (Bool-cases (crates.initialized c)) [
          | inl ready ↦
              absurd (without (record { client = c; there = there; synchronised = ready }))
          | inr waiting ↦ rw (there, ready_client) (rw waiting)
        ]
      ]

  -- Over a consistent mapping a server SDK is told to wait exactly if no mapping was received, or some
  -- client key leads to its key and the key has no SDK client that has synchronised.
  pub server_sdk_repo_string-not_ready_iff :
      (inner : Inner crates) (key : String)
      → IsConsistent inner.secret_mapping
      → ((s : String) × (server_sdk_repo_string crates inner key ≡ err (not_ready s)))
        ↔ ((inner.secret_mapping.version ≡ 0) ⊎ (IsServed inner key × (¬ HasRepo inner key)))
  unfolding server_sdk_repo_string repo_string
  server_sdk_repo_string-not_ready_iff inner key h =
      let sm = inner.secret_mapping in
      let json = λ (c : FpClient). crates.repository_to_json (crates.client_repo c) in
      let waits = ready_client-not_ready_iff inner key json in
      (
        λ (s, e). elim (Bool-cases (is_zero sm.version)) [
          | inl none_yet ↦ inl (ground arith)
          | inr versioned ↦
              let known : Secrets.contains_server_sdk_key sm key ≡ true = ground arith in
              let (c, leads) = (contains_server_sdk_key_iff h key).0 known in
              inr (
                record { client_key = c; leads = leads; has_version = ground arith },
                waits.0 (s, ground arith),
              )
        ],
        λ why. elim why [
          | inl none_yet ↦ (key, ground arith)
          | inr (served, without) ↦
              let known = (contains_server_sdk_key_iff h key).1 (served.client_key, served.leads) in
              let (s, e) = waits.1 without in (s, ground (arith, served.has_version))
        ],
      )
