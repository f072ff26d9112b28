-- ===== src/Main/Start.antt =====
-- What a server that starts begins with.
use feature_probe_server.Prelude.{
  String, ◌≡◌, ◌≢◌, refl, sym, ap, ◌∙◌, ok-injective, some-injective, false, Option, Result,
  Bool-cases, ◌⊎◌, inl, inr, true, none, some, List, [], ◌∷◌, ok, arith, is_some, ◌==◌,
  Option-cases,
}
use feature_probe_server.HashMap.{get}
use feature_probe_server.HashMap.Laws.{get-nil, get-insert}
use feature_probe_server.Crates.{Config, Crates, Duration, from_secs, is_zero_duration}
use feature_probe_server.Config.{ServerConfig, try_parse}
use feature_probe_server.Config.Fields.{try_parse-ReadFrom}
use feature_probe_server.Realtime.{serve}
use feature_probe_server.Secrets
use feature_probe_server.Secrets.Invariant.{
  IsConsistent, default-IsConsistent, insert-IsConsistent, server_sdk_key-insert,
}
use feature_probe_server.Repo
use feature_probe_server.Repo.{Inner, sync_client, fresh_client, setup_notify, client_config}
use feature_probe_server.Main.{
  Task, Running, sync_secret_keys, update_clients, init_repo, handler_over, init_handler, sync_with,
  start,
}

version-default : Secrets.default.version ≡ 0
unfolding Secrets.default
version-default = refl

zero_period : (d : Duration) → is_zero_duration d ≡ true → d ≡ from_secs 0
unfolding is_zero_duration
zero_period d stands = ground arith

positive_period : (d : Duration) → is_zero_duration d ≡ false → d ≢ from_secs 0
unfolding is_zero_duration
positive_period d ticks same = ground arith

module _ (crates : Crates) where
  open crates use {Url}

  -- What the repository holds before the first request.
  pub record Begins (cfg : ServerConfig Url) (r : Running crates) : Type 0 where
    pub consistent : IsConsistent r.handler.repo.secret_mapping
    pub port : r.port ≡ cfg.server_port
    pub feeds :
        ((url : Url) × (cfg.keys_url ≡ some url)
          × (r.tasks ≡ sync_secret_keys url ∷ update_clients ∷ [])
          × (r.handler.repo.secret_mapping.version ≡ 0)
          × (r.handler.repo.sdk_clients ≡ []))
        ⊎ ((c : String) × (s : String) × (cfg.client_sdk_key ≡ some c)
            × (cfg.server_sdk_key ≡ some s)
            × (r.tasks ≡ [])
            × (r.handler.repo.secret_mapping.version ≡ 1)
            × (Secrets.server_sdk_key r.handler.repo.secret_mapping c ≡ some s)
            × ((j : String) → is_some (get r.handler.repo.sdk_clients j) ≡ (s == j)))

  abbrev pub empty : ServerConfig Url → Inner crates
  empty cfg = Repo.new crates cfg (serve cfg.realtime_port cfg.realtime_path)

  abbrev pub running : ServerConfig Url → Inner crates → List (Task Url) → Running crates
  running cfg repo tasks = record {
    port = cfg.server_port;
    handler = handler_over crates cfg repo;
    tasks = tasks;
  }

  abbrev loops : Url → List (Task Url)
  loops url = sync_secret_keys url ∷ update_clients ∷ []

  start_remote :
      (cfg : ServerConfig Url) {url : Url}
      → cfg.keys_url ≡ some url
      → is_zero_duration cfg.refresh_interval ≡ false
      → start crates cfg ≡ some (ok (running cfg (empty cfg) (loops url)))
  unfolding start init_handler sync_with Repo.new
  start_remote cfg keyed ticks = rw (keyed, init_repo) (rw ticks refl)

  -- `tokio::time::interval` panics on the period.
  start_panics :
      (cfg : ServerConfig Url) {url : Url}
      → cfg.keys_url ≡ some url
      → is_zero_duration cfg.refresh_interval ≡ true
      → start crates cfg ≡ none
  unfolding start init_handler sync_with Repo.new
  start_panics cfg keyed stands = rw (keyed, init_repo) (rw stands refl)

  start_local :
      (cfg : ServerConfig Url) {c s : String}
      → cfg.keys_url ≡ none
      → cfg.client_sdk_key ≡ some c
      → cfg.server_sdk_key ≡ some s
      → start crates cfg ≡ some (ok (running cfg (Repo.sync crates (empty cfg) c s 1) []))
  unfolding start init_handler
  start_local cfg unkeyed client server = rw (unkeyed, client, server, init_repo) refl

  both_keys :
      (cfg : ServerConfig Url)
      → cfg.keys_url ≡ none
      → (is_some cfg.keys_url ≡ true)
        ⊎ ((is_some cfg.client_sdk_key ≡ true) × (is_some cfg.server_sdk_key ≡ true))
      → (c : String) × (s : String) × (cfg.client_sdk_key ≡ some c) × (cfg.server_sdk_key ≡ some s)
  both_keys cfg unkeyed (inl keyed) = absurd (ground arith)
  both_keys cfg unkeyed (inr (client, server)) = elim (Option-cases cfg.client_sdk_key) [
    | inl missing ↦ absurd (ground arith)
    | inr (c, is_c) ↦ elim (Option-cases cfg.server_sdk_key) [
      | inl missing ↦ absurd (ground arith)
      | inr (s, is_s) ↦ (c, s, is_c, is_s)
    ]
  ]

  remote-Begins :
      (cfg : ServerConfig Url) {url : Url}
      → cfg.keys_url ≡ some url
      → Begins cfg (running cfg (empty cfg) (loops url))
  unfolding handler_over Repo.new
  remote-Begins cfg {url} keyed = record {
    consistent = default-IsConsistent;
    port = refl;
    feeds = inl (url, keyed, refl, version-default, refl);
  }

  local-Begins :
      (cfg : ServerConfig Url) {c s : String}
      → cfg.client_sdk_key ≡ some c
      → cfg.server_sdk_key ≡ some s
      → Begins cfg (running cfg (Repo.sync crates (empty cfg) c s 1) [])
  unfolding handler_over Repo.new Repo.sync sync_client Secrets.insert Secrets.server_sdk_key
      Secrets.default get
  local-Begins cfg {c} {s} client server = record {
    consistent =
        insert-IsConsistent Secrets.default c s 1
          (λ t e. absurd (ground (arith, get-nil {V = String} c))) default-IsConsistent;
    port = refl;
    feeds = inr (
      c,
      s,
      client,
      server,
      refl,
      refl,
      server_sdk_key-insert Secrets.default c s 1,
      λ j. ground (
        arith,
        get-insert [] s j (fresh_client crates (empty cfg) s),
        get-nil {V = crates.FpClient} j,
      ),
    );
  }

  same_running :
      {r q : Running crates}
      → ◌≡◌ {A = Option (Result (Running crates) String)} (some (ok r)) (some (ok q))
      → r ≡ q
  same_running e = ok-injective (some-injective e)

  -- A server that has started has a new repository, or one with the pair of keys that is set.
  pub start_running :
      (config : Config) (cfg : ServerConfig Url) {r : Running crates}
      → try_parse crates config ≡ ok cfg
      → start crates cfg ≡ some (ok r)
      → (tasks : List (Task Url)) × ((r ≡ running cfg (empty cfg) tasks)
          ⊎ ((c : String) × (s : String) × (r
                ≡ running cfg (Repo.sync crates (empty cfg) c s 1) tasks)))
  start_running config cfg {r} e started = elim (Option-cases cfg.keys_url) [
    | inr (url, keyed) ↦ elim (Bool-cases (is_zero_duration cfg.refresh_interval)) [
      | inl stands ↦ absurd (ground (arith, start_panics cfg keyed stands))
      | inr ticks ↦ (loops url, inl (same_running (sym started ∙ start_remote cfg keyed ticks)))
    ]
    | inl none_set ↦
        let (c, s, client, server) =
          both_keys cfg none_set (try_parse-ReadFrom crates config cfg e).key_source in
        ([], inr (c, s, same_running (sym started ∙ start_local cfg none_set client server)))
  ]

  pub start_repo :
      (config : Config) (cfg : ServerConfig Url) {r : Running crates}
      → try_parse crates config ≡ ok cfg
      → start crates cfg ≡ some (ok r)
      → (r.handler.repo ≡ empty cfg)
        ⊎ ((c : String) × (s : String) × (r.handler.repo ≡ Repo.sync crates (empty cfg) c s 1))
  unfolding handler_over
  start_repo config cfg e started =
      let repo = λ (o : Running crates). o.handler.repo in
      let (tasks, which) = start_running config cfg e started in
      elim which [ inl new ↦ inl (ap repo new) | inr (c, s, synced) ↦ inr (c, s, ap repo synced) ]

  -- A configuration that parses starts a server, which never fails for want of keys, unless it has a
  -- `keys_url` and a refresh interval of zero: then the start panics. Otherwise, with a `keys_url`
  -- the server has no mapping and no clients yet, and both loops run; without one it has the one
  -- pair of keys that is set, at version 1, with a client for the server key and no loops.
  pub start-Begins :
      (config : Config) (cfg : ServerConfig Url)
      → try_parse crates config ≡ ok cfg
      → ((is_some cfg.keys_url ≡ true)
          × (cfg.refresh_interval ≡ from_secs 0)
          × (start crates cfg ≡ none))
        ⊎ (((cfg.keys_url ≡ none) ⊎ (cfg.refresh_interval ≢ from_secs 0))
            × ((r : Running crates) × (start crates cfg ≡ some (ok r)) × Begins cfg r))
  start-Begins config cfg e = elim (Option-cases cfg.keys_url) [
    | inr (url, keyed) ↦ elim (Bool-cases (is_zero_duration cfg.refresh_interval)) [
      | inl stands ↦
          inl
            (rw keyed refl, zero_period cfg.refresh_interval stands, start_panics cfg keyed stands)
      | inr ticks ↦ inr (
        inr (positive_period cfg.refresh_interval ticks),
        (
          running cfg (empty cfg) (loops url),
          start_remote cfg keyed ticks,
          remote-Begins cfg keyed,
        ),
      )
    ]
    | inl none_set ↦
        let (c, s, client, server) =
          both_keys cfg none_set (try_parse-ReadFrom crates config cfg e).key_source in
        inr (
          inl none_set,
          (
            running cfg (Repo.sync crates (empty cfg) c s 1) [],
            start_local cfg none_set client server,
            local-Begins cfg client server,
          ),
        )
  ]
