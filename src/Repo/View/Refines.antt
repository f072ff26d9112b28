-- ===== src/Repo/View/Refines.antt =====
-- The steps of src/repo.rs are steps of its view.
use mathlib.Core.Path.{fun_ext}
use feature_probe_server.Prelude.{
  String, ◌≡◌, ◌<◌, some, inl, inr, arith, ltb, ltb→lt, Bool-cases, Option-cases,
}
use feature_probe_server.HashMap.{get, insert}
use feature_probe_server.HashMap.Laws.{get-insert}
use feature_probe_server.Crates.{Crates}
use feature_probe_server.Secrets
use feature_probe_server.Secrets.Invariant.{IsConsistent, new-IsConsistent}
use feature_probe_server.Repo.{
  Inner, Fetched, setup_notify, client_config, sync_secret_keys_round, update_clients,
  client_sync_now,
}
use feature_probe_server.Repo.Clients.{update_clients-WritesClients, get-update_clients}
use feature_probe_server.Repo.Read.{
  server_sdk_repo_string, client_sdk_eval_string, client_sdk_events_string,
}
use feature_probe_server.Repo.Access.{evaluated_json}
use feature_probe_server.Repo.Steps
use feature_probe_server.Repo.Steps.{Relied, Step, fetched, refreshed, requested, progressed, Reach}
use feature_probe_server.Repo.Steps.Rounds.{round_cases}
use feature_probe_server.Repo.View.{
  view, Pairs, follow, put, read_server, read_led, ViewStep, unchanged, received, followed,
  moved_on, ViewReach, here, next,
}
use feature_probe_server.Repo.View.Reads.{
  server_sdk_repo_string-view, client_sdk_eval_string-view, client_sdk_events_string-view,
}

-- The two directions of a consistent mapping pair the keys.
pub IsConsistent-Pairs :
    {sm : Secrets.SecretMapping}
    → IsConsistent sm
    → Pairs (Secrets.server_sdk_key sm) (Secrets.client_sdk_key sm)
unfolding Secrets.contains_server_sdk_key Secrets.client_sdk_key
IsConsistent-Pairs {sm} h = record {
  named_leads = h.sound;
  led_names = λ s c e. elim (Option-cases (get sm.reverse s)) [
    | inl missing ↦ let known = h.complete s c e in absurd (ground arith)
    | inr named ↦ named
  ];
}

module _ (crates : Crates) where
  update_clients-follow :
      (i : Inner crates)
      → 0 < i.secret_mapping.version
      → view (update_clients crates i) ≡ follow crates (view i)
  unfolding Secrets.contains_server_sdk_key Secrets.client_sdk_key setup_notify client_config
  update_clients-follow i versioned =
      let w = update_clients-WritesClients crates i in
      let clients : get (update_clients crates i).sdk_clients ≡ (follow crates (view i)).clients =
        fun_ext (λ key. ground (arith, get-update_clients crates i key)) in
      λ n. record {
        config = w.config n;
        http = w.http n;
        version = (w.secrets n).version;
        leads = Secrets.server_sdk_key (w.secrets n);
        names = Secrets.client_sdk_key (w.secrets n);
        clients = clients n;
      }

  insert-put :
      (i : Inner crates) (key : String) (d : crates.FpClient)
      → view (record i { sdk_clients = insert i.sdk_clients key d }) ≡ put crates (view i) key d
  insert-put i key d =
      let clients = fun_ext (λ j. get-insert i.sdk_clients key j d) in
      λ n. record (view i) { clients = clients n }

module _ (crates : Crates) (relied : Relied crates) where
  open relied use {
    read_key, callback, callback-sync_now, read_key-sync_now, secrets_from_json-IsMap,
  }

  fetched-view :
      (i : Inner crates) (f : Fetched)
      → ViewStep crates relied (view i) (view (sync_secret_keys_round crates i f))
  unfolding Secrets.new
  fetched-view i f = elim (round_cases crates i f) [
    | inl same ↦ rw same (unchanged (view i))
    | inr (text, version, mapping, is_body, read, newer, after) ↦
        let h =
          new-IsConsistent version mapping (secrets_from_json-IsMap text version mapping read) in
        rw after (received (view i) version _ _ newer (IsConsistent-Pairs h))
  ]

  refreshed-view :
      (i : Inner crates) → ViewStep crates relied (view i) (view (update_clients crates i))
  unfolding update_clients Secrets.server_sdk_key Secrets.client_sdk_key get
  refreshed-view i = elim (Bool-cases (ltb 0 i.secret_mapping.version)) [
    | inl versioned ↦
        let some_version = ltb→lt 0 i.secret_mapping.version versioned in
        rw (update_clients-follow crates i some_version) (followed (view i) some_version)
    | inr none_yet ↦ rw none_yet (unchanged (view i))
  ]

  moved-view :
      (i : Inner crates) (key : String) (c d : crates.FpClient)
      → get i.sdk_clients key ≡ some c
      → read_key d ≡ read_key c
      → callback d ≡ callback c
      → ViewStep crates relied
          (view i)
          (view (record i { sdk_clients = insert i.sdk_clients key d }))
  moved-view i key c d there reads calls =
      rw (insert-put crates i key d) (moved_on (view i) key c d there reads calls)

  Step-view :
      {i j : Inner crates} → Step crates relied i j → ViewStep crates relied (view i) (view j)
  unfolding client_sync_now
  Step-view (fetched i f) = fetched-view i f
  Step-view (refreshed i) = refreshed-view i
  Step-view (requested i key t) = elim (Option-cases (get i.sdk_clients key)) [
    | inl missing ↦ rw (missing, client_sync_now) (unchanged (view i))
    | inr (c, there) ↦
        rw (there, client_sync_now)
          (moved-view i key c (crates.sync_now c t) there (read_key-sync_now c t)
            (callback-sync_now c t))
  ]
  Step-view (progressed i key c d there reads calls) = moved-view i key c d there reads calls

  -- A run of the repository is a run of its view, which has what each key leads to and no order of
  -- entries; and at the end of the run each SDK is served what the view promises it.
  pub Reach-view :
      {i j : Inner crates}
      → Reach crates relied i j
      → ViewReach crates relied (view i) (view j)
        × ((key : String)
            → server_sdk_repo_string crates j key
              ≡ read_server crates
                  (view j)
                  key
                  (λ c. crates.repository_to_json (crates.client_repo c)))
        × ((key : String) (user : crates.FpUser)
            → client_sdk_eval_string crates j key user
              ≡ read_led crates (view j) key (evaluated_json crates user))
        × ((key : String)
            → client_sdk_events_string crates j key
              ≡ read_led crates
                  (view j)
                  key
                  (λ c. crates.events_to_json (crates.events (crates.client_repo c))))
  Reach-view {i} {j} run = (
    steps_of run,
    server_sdk_repo_string-view crates j,
    client_sdk_eval_string-view crates j,
    client_sdk_events_string-view crates j,
  )
    where
      steps_of :
          {k : Inner crates} → Reach crates relied i k → ViewReach crates relied (view i) (view k)
      steps_of Steps.here = here
      steps_of (Steps.next reach step) = next (steps_of reach) (Step-view step)
