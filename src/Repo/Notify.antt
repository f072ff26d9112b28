-- ===== src/Repo/Notify.antt =====
-- Which SDKs hear that a client's toggles have changed: the callbacks of src/repo.rs with the
-- rooms of src/realtime.rs.
use feature_probe_server.Prelude.{
  ℕ, String, ◌≡◌, refl, ◌≢◌, ◌↔◌, ◌⊎◌, ◌∙◌, ap, ◌<◌, true, false, Option, none, some, List, [], ◌∷◌,
  ◌++◌, arith, ◌==◌, eq_iff, eq_refl, Bool-cases, Option-cases, inl, inr,
}
use feature_probe_server.HashMap.{get, contains, IsMap}
use feature_probe_server.HashMap.Laws.{map_laws}
use feature_probe_server.Crates.{Crates, Callback}
use feature_probe_server.Realtime.{
  RealtimeSocket, SocketAction, join, emit, optional_key, run_callback, register,
}
use feature_probe_server.Secrets
use feature_probe_server.Secrets.{SecretMapping}
use feature_probe_server.Secrets.Invariant.{IsConsistent, new-IsConsistent}
use feature_probe_server.Secrets.Versions.{update_mapping-newer}
use feature_probe_server.Repo.{
  Inner, setup_notify, fresh_client, sync, update_clients, update_mapping,
}
use feature_probe_server.Repo.Clients.{
  get-update_clients, get-sync_client, update_clients-WritesClients,
}
use feature_probe_server.Repo.Steps.{Relied}
use feature_probe_server.Repo.Steps.Rounds.{update_mapping-secrets}

-- The rooms that a list of actions joins.
abbrev pub joined : {Value : Type 0} → List (SocketAction Value) → List String
joined [] = []
joined (join rooms ∷ actions) = rooms ++ joined actions
joined (emit event value ∷ actions) = joined actions

rooms_iff :
    (room s : String) (o : Option String)
    → (contains (s ∷ optional_key o) room ≡ true) ↔ ((room ≡ s) ⊎ (o ≡ some room))
unfolding contains
rooms_iff room s none =
    (λ h. inl (ground (arith, eq_iff s room)), λ why. ground (arith, eq_iff s room))
rooms_iff room s (some c) = elim (Bool-cases (s == room)) [
  | inl same ↦ (λ h. inl (ground (arith, eq_iff s room)), λ why. rw same refl)
  | inr other ↦ (
    λ h. inr (ground (arith, eq_iff c room)),
    λ why. ground (arith, eq_iff s room, eq_iff c room),
  )
]

module _ (crates : Crates) where
  -- A notification reaches a room exactly if the room is the callback's server key or its client
  -- key.
  pub run_callback_rooms :
      (socket : RealtimeSocket) (f : Callback) (room : String)
      → (contains (run_callback crates socket f).rooms room ≡ true)
        ↔ ((room ≡ f.sdk_key) ⊎ (f.client_sdk_key ≡ some room))
  unfolding run_callback contains
  run_callback_rooms socket f room = rooms_iff room f.sdk_key f.client_sdk_key

  -- A socket that registers joins the room of the text that its payload has under "key", if there
  -- is one, and no other room.
  pub joined-register :
      (payload : Option crates.Payload) (room : String)
      → (contains (joined (register crates payload)) room ≡ true) ↔ (
          (p : crates.Payload) × (v : crates.Value) × (k : crates.Value) × (payload ≡ some p)
          × (crates.payload_json p ≡ some v)
          × (crates.value_get v "key" ≡ some k)
          × (crates.value_string k ≡ some room))
  unfolding register contains
  joined-register none room =
      (λ h. absurd (ground arith), λ (p, v, k, e, e1, e2, e3). absurd (ground arith))
  joined-register (some p) room = elim (Option-cases (crates.payload_json p)) [
    | inl no_json ↦ (λ h. absurd (ground arith), λ (q, v, k, e, e1, e2, e3). absurd (ground arith))
    | inr (v, json) ↦ elim (Option-cases (crates.value_get v "key")) [
      | inl no_key ↦ (λ h. absurd (ground arith), λ (q, w, k, e, e1, e2, e3). absurd (ground arith))
      | inr (k, key) ↦ elim (Option-cases (crates.value_string k)) [
        | inl no_text ↦
            (λ h. absurd (ground arith), λ (q, w, l, e, e1, e2, e3). absurd (ground arith))
        | inr (text, is_text) ↦ (
          λ h. (p, v, k, refl, json, key, is_text ∙ ap some (ground (arith, eq_iff text room))),
          λ (q, w, l, e, e1, e2, e3). ground (arith, eq_iff text room),
        )
      ]
    ]
  ]

module _ (crates : Crates) (relied : Relied crates) where
  open relied use {callback, callback-set_update_callback}

  abbrev pub fresh_callback : Inner crates → String → Callback
  fresh_callback i key = record {
    sdk_key = key;
    client_sdk_key = Secrets.client_sdk_key i.secret_mapping key;
  }

  callback-fresh_client :
      (i : Inner crates) (key : String)
      → callback (fresh_client crates i key) ≡ some (fresh_callback i key)
  unfolding setup_notify
  callback-fresh_client i key = callback-set_update_callback _ (fresh_callback i key)

  -- Over a consistent mapping with a version, a client that `update_clients` makes for a server key
  -- without one notifies under that key and under the client key of the reverse index, which leads to it.
  pub update_clients-tells :
      (i : Inner crates) (key : String) (c : crates.FpClient)
      → IsConsistent i.secret_mapping
      → 0 < i.secret_mapping.version
      → get i.sdk_clients key ≡ none
      → get (update_clients crates i).sdk_clients key ≡ some c
      → (client_key : String) × (Secrets.client_sdk_key i.secret_mapping key ≡ some client_key)
        × (Secrets.server_sdk_key i.secret_mapping client_key ≡ some key)
        × (callback c ≡ some (record { sdk_key = key; client_sdk_key = some client_key }))
  unfolding Secrets.contains_server_sdk_key Secrets.client_sdk_key
  update_clients-tells i key c h versioned missing made =
      let table = get-update_clients crates i key in
      elim (Option-cases (get i.secret_mapping.reverse key)) [
        | inl unknown ↦ absurd (ground arith)
        | inr (client_key, known) ↦ (
          client_key,
          known,
          h.sound key client_key known,
          ground (arith, callback-fresh_client i key),
        )
      ]

  -- Where a server key has no client and no client key, the client that `SdkRepository::sync` makes
  -- for it notifies under the server key alone, although afterwards the server key does lead to the
  -- client key.
  pub sync-notifies_server_only :
      (i : Inner crates) (client_key key : String) (version : ℕ) (c : crates.FpClient)
      → get i.sdk_clients key ≡ none
      → Secrets.client_sdk_key i.secret_mapping key ≡ none
      → get (sync crates i client_key key version).sdk_clients key ≡ some c
      → (Secrets.client_sdk_key (sync crates i client_key key version).secret_mapping key
          ≡ some client_key)
        × (callback c ≡ some (record { sdk_key = key; client_sdk_key = none }))
  unfolding sync Secrets.client_sdk_key Secrets.insert
  sync-notifies_server_only i client_key key version c missing unknown made = (
    simp map_laws,
    ground (arith, eq_refl key, get-sync_client crates i key key, callback-fresh_client i key),
  )

  -- What `update_clients` keeps at a key right after a newer mapping was taken over.
  kept_client :
      (i : Inner crates) (other : SecretMapping) (key client_key : String) (c : crates.FpClient)
      → IsMap other.mapping
      → i.secret_mapping.version < other.version
      → get i.sdk_clients key ≡ some c
      → Secrets.server_sdk_key (Secrets.new other.version other.mapping) client_key ≡ some key
      → let after = update_clients crates (update_mapping crates i other) in
        (after.secret_mapping ≡ Secrets.new other.version other.mapping)
        × (get after.sdk_clients key ≡ some c)
  kept_client i other key client_key c is_map newer there leads =
      let j = update_mapping crates i other in
      let (secrets, clients) = update_mapping-secrets crates i other in
      let taken = secrets ∙ update_mapping-newer i.secret_mapping other newer in
      let known =
        (new-IsConsistent other.version other.mapping is_map).complete key client_key leads in
      let there_still : get j.sdk_clients key ≡ some c = rw clients there in
      let known_now : Secrets.contains_server_sdk_key j.secret_mapping key ≡ true =
        rw taken known in
      (
        (update_clients-WritesClients crates j).secrets ∙ taken,
        ground (arith, get-update_clients crates j key, there_still, known_now),
      )

  -- A client that is kept when a newer mapping arrives keeps its callback: a client key that the
  -- mapping leads to its server key from then on, and that is not the one of the callback, hears
  -- nothing.
  pub update_mapping-keeps_callback :
      (i : Inner crates) (other : SecretMapping) (key client_key : String) (c : crates.FpClient)
      (socket : RealtimeSocket) (f : Callback)
      → IsMap other.mapping
      → i.secret_mapping.version < other.version
      → get i.sdk_clients key ≡ some c
      → callback c ≡ some f
      → f.sdk_key ≡ key
      → get other.mapping client_key ≡ some key
      → client_key ≢ key
      → f.client_sdk_key ≢ some client_key
      → let after = update_clients crates (update_mapping crates i other) in
        (Secrets.server_sdk_key after.secret_mapping client_key ≡ some key)
        × ((d : crates.FpClient) × (get after.sdk_clients key ≡ some d)
            × (callback d ≡ some f)
            × (contains (run_callback crates socket f).rooms client_key ≡ false))
  unfolding Secrets.server_sdk_key Secrets.new
  update_mapping-keeps_callback i other key client_key c socket f is_map newer there set own leads
        ne stale =
      let (taken, kept) = kept_client i other key client_key c is_map newer there leads in
      (
        rw taken leads,
        (
          c,
          kept,
          set,
          elim (Bool-cases (contains (run_callback crates socket f).rooms client_key)) [
            | inr deaf ↦ deaf
            | inl heard ↦ elim ((run_callback_rooms crates socket f client_key).0 heard) [
              | inl server ↦ absurd (ne (server ∙ own))
              | inr client ↦ absurd (stale client)
            ]
          ],
        ),
      )
