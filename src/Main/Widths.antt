-- ===== src/Main/Widths.antt =====
-- What stays of the configuration while a server runs, and the ranges of the integers that it holds.
use feature_probe_server.Prelude.{
  ℕ, String, ◌≡◌, refl, inl, inr, ap, sym, ◌∙◌, ◌<◌, ◌^◌, some-injective, some, ok, arith,
}
use feature_probe_server.HashMap.{HashMap, get}
use feature_probe_server.Crates.{Crates, Config, realtime, SyncType}
use feature_probe_server.Config.{ServerConfig, try_parse}
use feature_probe_server.Config.Ports.{try_parse_bounds}
use feature_probe_server.Realtime.{serve}
use feature_probe_server.Secrets
use feature_probe_server.Repo
use feature_probe_server.Repo.{Inner, Fetched, client_sync_now, sync_client, sync_secret_keys_round}
use feature_probe_server.Repo.Clients.{update_clients-WritesClients}
use feature_probe_server.Repo.Steps
use feature_probe_server.Repo.Steps.{Relied, Step}
use feature_probe_server.Repo.Steps.Rounds.{round_cases}
use feature_probe_server.Http.Handler.{FpHttpHandler, update_toggles}
use feature_probe_server.Http.Router.Effects.{serve_http-effects}
use feature_probe_server.Http.Router.{Axum, Served}
use feature_probe_server.Main.{Running, start, handler_over}
use feature_probe_server.Main.Start.{start_running}
use feature_probe_server.Main.Run.{Move, requested, looped, Run, started, moved}

module _ (crates : Crates) where
  open crates use {Url}

  -- What a repository has of its configuration, and of the versions that it can receive.
  pub record IsConfigured (cfg : ServerConfig Url) (i : Inner crates) : Type 0 where
    pub config : i.server_config ≡ cfg
    pub socket : i.realtime_socket ≡ serve cfg.realtime_port cfg.realtime_path
    pub version : i.secret_mapping.version < 2 ^ 128

  -- A handler sends events where its configuration says, for as long.
  pub record Sends (cfg : ServerConfig Url) (h : FpHttpHandler crates) : Type 0 where
    pub events : h.events_url ≡ cfg.events_url
    pub analysis : h.analysis_url ≡ cfg.analysis_url
    pub timeout : h.events_timeout ≡ cfg.refresh_interval

module _ (crates : Crates) (relied : Relied crates) (cfg : ServerConfig crates.Url)
    (fits : (text : String) (version : ℕ) (mapping : HashMap String)
      → crates.secrets_from_json text ≡ some (version, mapping)
      → version < 2 ^ 128) where
  round-IsConfigured :
      (i : Inner crates) (f : Fetched)
      → IsConfigured crates cfg i
      → IsConfigured crates cfg (sync_secret_keys_round crates i f)
  unfolding Secrets.new
  round-IsConfigured i f h = elim (round_cases crates i f) [
    | inl same ↦ rw same h
    | inr (text, version, mapping, is_body, read, newer, after) ↦
        rw after (record {
          config = h.config;
          socket = h.socket;
          version = fits text version mapping read;
        })
  ]

  client_sync_now-IsConfigured :
      (i : Inner crates) (key : String) (t : SyncType)
      → IsConfigured crates cfg i
      → IsConfigured crates cfg (client_sync_now crates i key t).0
  unfolding client_sync_now
  client_sync_now-IsConfigured i key t h = record {
    config = ground (arith, h.config);
    socket = ground (arith, h.socket);
    version = ground (arith, h.version);
  }

  Step-IsConfigured :
      {i j : Inner crates}
      → Step crates relied i j
      → IsConfigured crates cfg i
      → IsConfigured crates cfg j
  Step-IsConfigured (Steps.fetched i f) h = round-IsConfigured i f h
  Step-IsConfigured (Steps.refreshed i) h =
      let writes = update_clients-WritesClients crates i in
      record {
        config = writes.config ∙ h.config;
        socket = writes.socket ∙ h.socket;
        version = rw writes.secrets h.version;
      }
  Step-IsConfigured (Steps.requested i key t) h = client_sync_now-IsConfigured i key t h
  Step-IsConfigured (Steps.progressed i key c d there reads calls) h = record {
    config = h.config;
    socket = h.socket;
    version = h.version;
  }

  -- The repository is configured, and the handler that is over it.
  record Keeps (h : FpHttpHandler crates) : Type 0 where
    pub repo : IsConfigured crates cfg h.repo
    pub sends : Sends crates cfg h

  updated_Keeps :
      (h : FpHttpHandler crates) (key : String) → Keeps h → Keeps (update_toggles crates h key).0
  unfolding update_toggles
  updated_Keeps h key k = record {
    repo = client_sync_now-IsConfigured h.repo key realtime k.repo;
    sends = record {
      events = k.sends.events;
      analysis = k.sends.analysis;
      timeout = k.sends.timeout;
    };
  }

  module _ (axum : Axum crates) where
    Move-Keeps : {h k : FpHttpHandler crates} → Move crates axum relied h k → Keeps h → Keeps k
    Move-Keeps (looped self e step) k = record {
      repo = Step-IsConfigured step (rw e at k.repo);
      sends = record {
        events = k.sends.events;
        analysis = k.sends.analysis;
        timeout = k.sends.timeout;
      };
    }
    Move-Keeps (requested self r served answered) k =
        let (other, other_answer, secrets, effect, posts) = serve_http-effects crates axum self r in
        let same : served ≡ other = some-injective (sym answered ∙ other_answer) in
        let handler = ap (λ (s : Served crates (FpHttpHandler crates)). s.handler) same in
        elim effect [
          | inl unchanged ↦ rw (handler ∙ unchanged) k
          | inr (updates, (params, is_params, after)) ↦
              rw (handler ∙ after) (updated_Keeps self params.sdk_key k)
        ]

    start-Keeps :
        (config : Config) {r : Running crates}
        → try_parse crates config ≡ ok cfg
        → start crates cfg ≡ some (ok r)
        → Keeps r.handler
    unfolding handler_over Repo.new Repo.sync sync_client Secrets.insert Secrets.default get
    start-Keeps config parses begun =
        let (tasks, which) = start_running crates config cfg parses begun in
        elim which [
          | inl new ↦ rw new (record {
            repo = record { config = refl; socket = refl; version = omega arith };
            sends = record { events = refl; analysis = refl; timeout = refl };
          })
          | inr (c, s, synced) ↦ rw synced (record {
            repo = record { config = refl; socket = refl; version = omega arith };
            sends = record { events = refl; analysis = refl; timeout = refl };
          })
        ]

    Run-Keeps :
        (config : Config) {h : FpHttpHandler crates}
        → try_parse crates config ≡ ok cfg
        → Run crates axum relied cfg h
        → Keeps h
    Run-Keeps config parses (started s) = start-Keeps config parses s
    Run-Keeps config parses (moved run move) = Move-Keeps move (Run-Keeps config parses run)

    -- At every point of a run of a server whose configuration parses, the repository has that
    -- configuration and the handler sends events where it says; and every integer that they hold is
    -- in the range of its type, if the versions that are read are: ports of 16 bits, seconds of 64,
    -- versions of 128.
    pub Run-fits :
        (config : Config) {h : FpHttpHandler crates}
        → try_parse crates config ≡ ok cfg
        → Run crates axum relied cfg h
        → (h.repo.server_config ≡ cfg)
          × Sends crates cfg h
          × (h.repo.secret_mapping.version < 2 ^ 128)
          × (h.repo.server_config.server_port < 2 ^ 16)
          × (h.repo.server_config.realtime_port < 2 ^ 16)
          × (h.repo.realtime_socket.port < 2 ^ 16)
          × (h.repo.server_config.refresh_interval.secs < 2 ^ 64)
          × (h.events_timeout.secs < 2 ^ 64)
    unfolding serve
    Run-fits config {h} parses run =
        let k = Run-Keeps config parses run in
        let (server, realtime_port, refresh) = try_parse_bounds crates config cfg parses in
        (
          k.repo.config,
          k.sends,
          k.repo.version,
          rw k.repo.config server,
          rw k.repo.config realtime_port,
          rw k.repo.socket realtime_port,
          rw k.repo.config refresh,
          rw k.sends.timeout refresh,
        )
