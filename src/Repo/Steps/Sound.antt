-- ===== src/Repo/Steps/Sound.antt =====
-- What holds of the repository at every point of a run.
use feature_probe_server.Prelude.{
  ℕ, String, ◌≡◌, refl, ◌∙◌, ◌⊎◌, ap, ◌≤◌, ◌<◌, some, arith, ◌==◌, eq_iff, Bool-cases, Option-cases,
  inl, inr,
}
use feature_probe_server.HashMap.{HashMap, get, insert}
use feature_probe_server.HashMap.Laws.{get-insert}
use feature_probe_server.Crates.{Crates, Callback, SyncType}
use feature_probe_server.Secrets
use feature_probe_server.Secrets.Invariant.{new-IsConsistent}
use feature_probe_server.Repo.{
  Inner, Fetched, setup_notify, client_config, fresh_client, update_clients, sync_secret_keys_round,
  client_sync_now,
}
use feature_probe_server.Repo.Clients.{update_clients-WritesClients, get-update_clients}
use feature_probe_server.Repo.Steps.{
  Relied, Step, fetched, refreshed, requested, progressed, Reach, here, next, Belongs, OwnClients,
  IsSound,
}
use feature_probe_server.Repo.Steps.Rounds.{round_cases}

version-new :
    (version : ℕ) (mapping : HashMap String) → (Secrets.new version mapping).version ≡ version
unfolding Secrets.new
version-new version mapping = refl

module _ (crates : Crates) (relied : Relied crates) where
  open relied use {
    callback, callback-set_update_callback, callback-sync_now, secrets_from_json-IsMap, read_key,
    read_key-client_new, read_key-set_update_callback, read_key-sync_now,
  }

  fetched-IsSound :
      (i : Inner crates) (f : Fetched)
      → IsSound crates relied i
      → IsSound crates relied (sync_secret_keys_round crates i f)
  fetched-IsSound i f h = elim (round_cases crates i f) [
    | inl same ↦ rw same h
    | inr (text, version, mapping, is_body, read, newer, after) ↦ rw after (record {
      consistent =
          new-IsConsistent version mapping (secrets_from_json-IsMap text version mapping read);
      own = h.own;
    })
  ]

  pub fresh_client-Belongs :
      (i : Inner crates) (key : String) → Belongs crates relied key (fresh_client crates i key)
  unfolding setup_notify client_config
  fresh_client-Belongs i key =
      let made = crates.client_new (client_config crates i key) in
      let f : Callback = record {
        sdk_key = key;
        client_sdk_key = Secrets.client_sdk_key i.secret_mapping key;
      } in
      (
        read_key-set_update_callback made f ∙ read_key-client_new (client_config crates i key),
        (f.client_sdk_key, callback-set_update_callback made f),
      )

  refreshed-own :
      (i : Inner crates)
      → OwnClients crates relied i
      → OwnClients crates relied (update_clients crates i)
  refreshed-own i own key c there = elim (Option-cases (get i.sdk_clients key)) [
    | inl missing ↦
        let fresh = fresh_client-Belongs i key in
        let e : c ≡ fresh_client crates i key = ground (arith, get-update_clients crates i key) in
        rw e fresh
    | inr (d, old) ↦
        let e : c ≡ d = ground (arith, get-update_clients crates i key) in rw e (own key d old)
  ]

  -- A write at one key, of a client that belongs to it.
  pub written-own :
      (i : Inner crates) (key : String) (d : crates.FpClient)
      → Belongs crates relied key d
      → OwnClients crates relied i
      → OwnClients crates relied (record i { sdk_clients = insert i.sdk_clients key d })
  written-own i key d belongs own j e found = elim (Bool-cases (key == j)) [
    | inl same_key ↦
        let k≡j : key ≡ j = (eq_iff key j).0 same_key in
        let e≡d : e ≡ d = ground (arith, get-insert i.sdk_clients key j d) in
        rw (e≡d, ← k≡j) belongs
    | inr other ↦ own j e (ground (arith, get-insert i.sdk_clients key j d))
  ]

  -- A write at a key that has a client, of a client with the same key and callback.
  pub replaced-own :
      (i : Inner crates) (key : String) (c d : crates.FpClient)
      → get i.sdk_clients key ≡ some c
      → read_key d ≡ read_key c
      → callback d ≡ callback c
      → OwnClients crates relied i
      → OwnClients crates relied (record i { sdk_clients = insert i.sdk_clients key d })
  replaced-own i key c d there reads calls own =
      let (own_key, (o, notifies)) = own key c there in
      written-own i key d (reads ∙ own_key, (o, calls ∙ notifies)) own

  requested-secrets :
      (i : Inner crates) (key : String) (t : SyncType)
      → (client_sync_now crates i key t).0.secret_mapping ≡ i.secret_mapping
  unfolding client_sync_now
  requested-secrets i key t = elim (Option-cases (get i.sdk_clients key)) [
    | inl missing ↦ rw (missing, client_sync_now) refl
    | inr (c, there) ↦ rw (there, client_sync_now) refl
  ]

  requested-IsSound :
      (i : Inner crates) (key : String) (t : SyncType)
      → IsSound crates relied i
      → IsSound crates relied (client_sync_now crates i key t).0
  unfolding client_sync_now
  requested-IsSound i key t h = elim (Option-cases (get i.sdk_clients key)) [
    | inl missing ↦ rw (missing, client_sync_now) h
    | inr (c, there) ↦
        rw (there, client_sync_now)
          (record {
            consistent = h.consistent;
            own =
                replaced-own i key c (crates.sync_now c t) there (read_key-sync_now c t)
                  (callback-sync_now c t) h.own;
          })
  ]

  -- Every step keeps the mapping consistent and each client at its own key.
  pub Step-IsSound :
      {i j : Inner crates}
      → Step crates relied i j
      → IsSound crates relied i
      → IsSound crates relied j
  Step-IsSound (fetched i f) h = fetched-IsSound i f h
  Step-IsSound (refreshed i) h = record {
    consistent = rw (update_clients-WritesClients crates i).secrets h.consistent;
    own = refreshed-own i h.own;
  }
  Step-IsSound (requested i key t) h = requested-IsSound i key t h
  Step-IsSound (progressed i key c d there reads calls) h = record {
    consistent = h.consistent;
    own = replaced-own i key c d there reads calls h.own;
  }

  -- The version of the mapping never goes back, and while it stays the mapping does.
  pub Step-version :
      {i j : Inner crates}
      → Step crates relied i j
      → (i.secret_mapping.version < j.secret_mapping.version)
        ⊎ (j.secret_mapping ≡ i.secret_mapping)
  Step-version (fetched i f) = elim (round_cases crates i f) [
    | inl same ↦ inr (ap (λ (k : Inner crates). k.secret_mapping) same)
    | inr (text, version, mapping, is_body, read, newer, after) ↦
        inl (rw (after, version-new version mapping) newer)
  ]
  Step-version (refreshed i) = inr (update_clients-WritesClients crates i).secrets
  Step-version (requested i key t) = inr (requested-secrets i key t)
  Step-version (progressed i key c d there reads calls) = inr refl

  -- At every point of a run from a sound state the mapping is consistent and each client reads the
  -- toggles of the key that it stands at and notifies under it; and the version has not gone back.
  pub Reach-IsSound :
      {i j : Inner crates}
      → IsSound crates relied i
      → Reach crates relied i j
      → IsSound crates relied j × (i.secret_mapping.version ≤ j.secret_mapping.version)
  Reach-IsSound h here = (h, omega arith)
  Reach-IsSound h (next r s) =
      let (sound, below) = Reach-IsSound h r in
      (
        Step-IsSound s sound,
        elim (Step-version s) [
          | inl newer ↦ omega arith
          | inr same ↦ let e = ap (λ (m : Secrets.SecretMapping). m.version) same in omega arith
        ],
      )
