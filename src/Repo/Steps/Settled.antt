-- ===== src/Repo/Steps/Settled.antt =====
-- When the table of SDK clients agrees with the mapping.
use feature_probe_server.Prelude.{
  ℕ, String, ◌≡◌, ap, ◌<◌, some, arith, eq_iff, ltb, Bool-cases, Option-cases, inl, inr, lt→ltb,
}
use feature_probe_server.HashMap.{HashMap, get, insert}
use feature_probe_server.HashMap.Laws.{get-insert}
use feature_probe_server.Crates.{Crates, SyncType}
use feature_probe_server.Secrets
use feature_probe_server.Repo.{Inner, update_clients, client_sync_now}
use feature_probe_server.Repo.Clients.{update_clients-WritesClients, get-update_clients}
use feature_probe_server.Repo.Steps.{
  Relied, Step, fetched, refreshed, requested, progressed, IsSettled,
}
use feature_probe_server.Repo.Steps.Rounds.{round_cases}

module _ (crates : Crates) where
  -- Over a mapping with a version `update_clients` leaves a client for exactly the server keys of
  -- the mapping.
  pub update_clients-IsSettled :
      (i : Inner crates) → 0 < i.secret_mapping.version → IsSettled crates (update_clients crates i)
  update_clients-IsSettled i versioned key =
      rw (update_clients-WritesClients crates i).secrets (
        ground
          (arith, lt→ltb 0 i.secret_mapping.version versioned, get-update_clients crates i key))

  replaced-IsSettled :
      (i : Inner crates) (key : String) (c d : crates.FpClient)
      → get i.sdk_clients key ≡ some c
      → IsSettled crates i
      → IsSettled crates (record i { sdk_clients = insert i.sdk_clients key d })
  replaced-IsSettled i key c d there h j =
      ground (arith, eq_iff key j, get-insert i.sdk_clients key j d, h j)

  requested-IsSettled :
      (i : Inner crates) (key : String) (t : SyncType)
      → IsSettled crates i
      → IsSettled crates (client_sync_now crates i key t).0
  unfolding client_sync_now
  requested-IsSettled i key t h = elim (Option-cases (get i.sdk_clients key)) [
    | inl missing ↦ rw (missing, client_sync_now) h
    | inr (c, there) ↦
        rw (there, client_sync_now) (replaced-IsSettled i key c (crates.sync_now c t) there h)
  ]

  refreshed-IsSettled :
      (i : Inner crates) → IsSettled crates i → IsSettled crates (update_clients crates i)
  refreshed-IsSettled i h = elim (Bool-cases (ltb 0 i.secret_mapping.version)) [
    | inl versioned ↦ update_clients-IsSettled i (ground arith)
    | inr unversioned ↦ λ key.
        rw (update_clients-WritesClients crates i).secrets
          (ground (arith, get-update_clients crates i key, h key))
  ]

  unmoved :
      (i : Inner crates) {j : Inner crates} (version : ℕ) (mapping : HashMap String)
      → j ≡ record i { secret_mapping = Secrets.new version mapping }
      → j.secret_mapping.version ≡ i.secret_mapping.version
      → i.secret_mapping.version < version
      → ⊥
  unfolding Secrets.new
  unmoved i version mapping after same newer =
      let e = ap (λ (k : Inner crates). k.secret_mapping.version) after in omega arith

  module _ (relied : Relied crates) where
    -- A table of clients that has one for exactly the server keys of the mapping still has after a
    -- step that does not change the mapping's version.
    pub Step-IsSettled :
        {i j : Inner crates}
        → Step crates relied i j
        → j.secret_mapping.version ≡ i.secret_mapping.version
        → IsSettled crates i
        → IsSettled crates j
    Step-IsSettled (fetched i f) same h = elim (round_cases crates i f) [
      | inl unchanged ↦ rw unchanged h
      | inr (text, version, mapping, is_body, read, newer, after) ↦
          absurd (unmoved i version mapping after same newer)
    ]
    Step-IsSettled (refreshed i) same h = refreshed-IsSettled i h
    Step-IsSettled (requested i key t) same h = requested-IsSettled i key t h
    Step-IsSettled (progressed i key c d there reads calls) same h =
        replaced-IsSettled i key c d there h
