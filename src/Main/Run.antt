-- ===== src/Main/Run.antt =====
-- A running server: requests and the two loops, in any order, over the one repository.
use feature_probe_server.Prelude.{
  String, ◌≡◌, inl, inr, ap, sym, ◌∙◌, some-injective, some, ok, arith,
}
use feature_probe_server.HashMap.{get}
use feature_probe_server.Crates.{Crates, Config, realtime}
use feature_probe_server.Config.{ServerConfig, try_parse}
use feature_probe_server.Secrets
use feature_probe_server.Repo
use feature_probe_server.Repo.{Inner}
use feature_probe_server.Repo.Steps
use feature_probe_server.Repo.Steps.{Relied, Step, IsSound}
use feature_probe_server.Repo.Steps.Sound.{Step-IsSound}
use feature_probe_server.Repo.Steps.Begin.{new-IsSound, sync-IsSound}
use feature_probe_server.Http.Handler.{FpHttpHandler, update_toggles}
use feature_probe_server.Http.Router.Effects.{serve_http-effects}
use feature_probe_server.Http.Traits.{fp_http_handler, fp_event_handler}
use feature_probe_server.Http.Router.{Axum, Served, serve_http}
use feature_probe_server.Main.{Running, start}
use feature_probe_server.Main.Start.{empty, start_repo}

unmapped :
    (crates : Crates) (cfg : ServerConfig crates.Url) (client_key t : String)
    → Secrets.server_sdk_key (empty crates cfg).secret_mapping client_key ≡ some t
    → ⊥
unfolding Repo.new Secrets.default Secrets.server_sdk_key get
unmapped crates cfg client_key t leads = ground arith

module _ (crates : Crates) (axum : Axum crates) (relied : Relied crates) where
  open crates use {Url}

  -- A request is served, or one of the loops or an SDK client does a step.
  pub data Move : FpHttpHandler crates → FpHttpHandler crates → Type 0 where
    requested :
        (self : FpHttpHandler crates) (r : axum.Request)
        (served : Served crates (FpHttpHandler crates))
        → serve_http crates axum (fp_http_handler crates) (fp_event_handler crates) self r
          ≡ some served
        → Move self served.handler
    looped :
        (self : FpHttpHandler crates) {i j : Inner crates}
        → self.repo ≡ i
        → Step crates relied i j
        → Move self (record self { repo = j })

  -- What a server that is started with a configuration comes to.
  pub data Run (cfg : ServerConfig Url) : FpHttpHandler crates → Type 0 where
    started : {r : Running crates} → start crates cfg ≡ some (ok r) → Run cfg r.handler
    moved : {h k : FpHttpHandler crates} → Run cfg h → Move h k → Run cfg k

  Move-IsSound :
      {h k : FpHttpHandler crates}
      → Move h k
      → IsSound crates relied h.repo
      → IsSound crates relied k.repo
  unfolding update_toggles
  Move-IsSound (looped self e step) h = Step-IsSound crates relied step (rw e at h)
  Move-IsSound (requested self r served answered) h =
      let (other, other_answer, secrets, effect, posts) = serve_http-effects crates axum self r in
      let same : served ≡ other = some-injective (sym answered ∙ other_answer) in
      let same_repo = ap (λ (s : Served crates (FpHttpHandler crates)). s.handler.repo) same in
      let repo_of = λ (f : FpHttpHandler crates). f.repo in
      elim effect [
        | inl unchanged ↦ rw (same_repo ∙ ap repo_of unchanged) h
        | inr (updates, (params, is_params, after)) ↦
            rw (same_repo ∙ ap repo_of after)
              (Step-IsSound crates relied (Steps.requested self.repo params.sdk_key realtime) h)
      ]

  start-IsSound :
      (config : Config) (cfg : ServerConfig Url) {r : Running crates}
      → try_parse crates config ≡ ok cfg
      → start crates cfg ≡ some (ok r)
      → IsSound crates relied r.handler.repo
  start-IsSound config cfg e s = elim (start_repo crates config cfg e s) [
    | inl new ↦ rw new (new-IsSound crates relied cfg _)
    | inr (client_key, key, synced) ↦ rw synced (synced_new client_key key)
  ]
    where
      synced_new :
          (client_key key : String)
          → IsSound crates relied (Repo.sync crates (empty crates cfg) client_key key 1)
      synced_new client_key key =
          sync-IsSound crates relied (empty crates cfg) client_key key 1
            (λ t leads. absurd (unmapped crates cfg client_key t leads))
            (new-IsSound crates relied cfg _)

  -- At every point of a run of a server whose configuration parses, the mapping is consistent and
  -- each SDK client reads the toggles of the key that it stands at and notifies under it.
  pub Run-IsSound :
      (config : Config) (cfg : ServerConfig Url) {h : FpHttpHandler crates}
      → try_parse crates config ≡ ok cfg
      → Run cfg h
      → IsSound crates relied h.repo
  Run-IsSound config cfg e (started s) = start-IsSound config cfg e s
  Run-IsSound config cfg e (moved run move) = Move-IsSound move (Run-IsSound config cfg e run)
