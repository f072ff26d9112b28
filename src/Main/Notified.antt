-- ===== src/Main/Notified.antt =====
-- Who hears that toggles have changed, at any point of a run.
use feature_probe_server.Prelude.{String, ◌≡◌, inl, true, Option, some, ok, List}
use feature_probe_server.HashMap.{get}
use feature_probe_server.Crates.{Crates, Config, Callback}
use feature_probe_server.Config.{ServerConfig, try_parse}
use feature_probe_server.Realtime.{run_callback}
use feature_probe_server.Repo.Steps.{Relied}
use feature_probe_server.Repo.Hears.{Any, Names, rooms_of, hears, hears-run_callback}
use feature_probe_server.Http.Handler.{FpHttpHandler}
use feature_probe_server.Http.Router.{Axum}
use feature_probe_server.Main.Run.{Run, Run-IsSound}

module _ (crates : Crates) (axum : Axum crates) (relied : Relied crates) where
  -- At every point of a run, an SDK client reads the toggles of the server key that it stands at, and has
  -- a callback that every socket hears which has registered with that key.
  pub run-hears :
      (config : Config) (cfg : ServerConfig crates.Url) {h : FpHttpHandler crates}
      → try_parse crates config ≡ ok cfg
      → Run crates axum relied cfg h
      → (key : String) (c : crates.FpClient) → get h.repo.sdk_clients key ≡ some c
      → (relied.read_key c ≡ key)
        × ((f : Callback) × (relied.callback c ≡ some f)
            × ((payloads : List (Option crates.Payload))
                → Any (λ p. Names crates p key) payloads
                → hears crates
                    (rooms_of crates payloads)
                    (run_callback crates h.repo.realtime_socket f)
                  ≡ true))
  run-hears config cfg {h} parses run key c there =
      let sound = Run-IsSound crates axum relied config cfg parses run in
      let (reads, (o, calls)) = sound.own key c there in
      let f : Callback = record { sdk_key = key; client_sdk_key = o } in
      (
        reads,
        (
          f,
          calls,
          λ payloads named.
              (hears-run_callback crates h.repo.realtime_socket f payloads).1 (inl named),
        ),
      )
