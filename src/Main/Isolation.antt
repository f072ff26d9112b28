-- ===== src/Main/Isolation.antt =====
-- Whose toggles an SDK is served, at any point of a run.
use feature_probe_server.Prelude.{
  String, ◌≡◌, sym, ap, ◌∙◌, ◌≢◌, ◌⊎◌, inl, inr, some, none, ok, some-injective,
}
use feature_probe_server.Crates.{Crates, Config}
use feature_probe_server.Config.{ServerConfig, try_parse}
use feature_probe_server.Secrets
use feature_probe_server.Repo.Access.{HasRepo, evaluated_json}
use feature_probe_server.Repo.Steps.{Relied, IsSound}
use feature_probe_server.Http.Response.{ok_status}
use feature_probe_server.Http.Handler.{
  FpHttpHandler, server_sdk_toggles, client_sdk_toggles, decode_user,
}
use feature_probe_server.Http.Handler.Laws.{server_sdk_toggles-content}
use feature_probe_server.Http.Handler.ClientLaws.{client_sdk_toggles-content}
use feature_probe_server.Http.Traits.{ClientParams}
use feature_probe_server.Http.Router.{Axum, Served, to, server_toggles, client_toggles, routes}
use feature_probe_server.Http.Router.Answered.{
  fp_serve, plain, serve_server_toggles_lem, serve_client_toggles_lem,
}
use feature_probe_server.Main.Run.{Run, Run-IsSound}

module _ (crates : Crates) (axum : Axum crates) (relied : Relied crates) (config : Config)
    (cfg : ServerConfig crates.Url) (parses : try_parse crates config ≡ ok cfg)
    {h : FpHttpHandler crates} (run : Run crates axum relied cfg h) where
  open axum use {Request, destination, authorization, client_params}

  sound : IsSound crates relied h.repo
  sound = Run-IsSound crates axum relied config cfg parses run

  -- At every point of a run, a response 200 to a server SDK's request for toggles holds what an SDK
  -- client that reads the toggles of the very key of the request has read, or the default repository
  -- if no client key leads to that key.
  pub served_server_toggles :
      (r : Request) (key : String) (served : Served crates (FpHttpHandler crates))
      → destination routes r ≡ to server_toggles
      → authorization r ≡ ok key
      → fp_serve crates axum h r ≡ some served
      → served.response.status ≡ ok_status
      → ((o : HasRepo h.repo key) × (relied.read_key o.client ≡ key)
          × (crates.repository_to_json (crates.client_repo o.client) ≡ ok served.response.body))
        ⊎ ((served.response.body ≡ crates.default_json)
            × ((c : String) → Secrets.server_sdk_key h.repo.secret_mapping c ≢ some key))
  served_server_toggles r key served there is_key answered status =
      let same : served ≡ plain crates axum h (server_sdk_toggles crates h key) =
        some-injective (sym answered ∙ serve_server_toggles_lem crates axum h r key there is_key) in
      let response = λ (s : Served crates (FpHttpHandler crates)). s.response in
      let ok_there = sym (ap (λ s. (response s).status) same) ∙ status in
      let body_there = sym (ap (λ s. (response s).body) same) in
      elim (server_sdk_toggles-content crates h key served.response.body sound.consistent ok_there
        body_there) [
          | inl (is_served, (o, printed)) ↦ inl (o, (sound.own key o.client o.there).0, printed)
          | inr unknown ↦ inr unknown
        ]

  -- At every point of a run, a response 200 to a client SDK's request for toggles holds the evaluation,
  -- for the user of the request, of what an SDK client has read that reads the toggles of the server key
  -- that the key of the request leads to, or no toggles if it leads nowhere.
  pub served_client_toggles :
      (r : Request) (params : ClientParams) (key : String)
      (served : Served crates (FpHttpHandler crates))
      → destination routes r ≡ to client_toggles
      → client_params r ≡ ok params
      → authorization r ≡ ok key
      → fp_serve crates axum h r ≡ some served
      → served.response.status ≡ ok_status
      → ((u : crates.FpUser) × (decode_user crates params.user ≡ ok u)
          × ((s : String) × (Secrets.server_sdk_key h.repo.secret_mapping key ≡ some s)
              × ((o : HasRepo h.repo s) × (relied.read_key o.client ≡ s)
                  × (evaluated_json crates u o.client ≡ ok served.response.body))))
        ⊎ ((served.response.body ≡ "{}")
            × (Secrets.server_sdk_key h.repo.secret_mapping key ≡ none))
  served_client_toggles r params key served there is_user is_key answered status =
      let same : served ≡ plain crates axum h (client_sdk_toggles crates h params.user key) =
        some-injective (
          sym answered
          ∙ serve_client_toggles_lem crates axum h r params key there is_user is_key) in
      let response = λ (s : Served crates (FpHttpHandler crates)). s.response in
      let ok_there = sym (ap (λ s. (response s).status) same) ∙ status in
      let body_there = sym (ap (λ s. (response s).body) same) in
      elim (client_sdk_toggles-content crates h params.user key served.response.body ok_there
        body_there) [
          | inl (u, decoded, (s, leads, (o, printed))) ↦
              inl (u, decoded, (s, leads, (o, (sound.own s o.client o.there).0, printed)))
          | inr nowhere ↦ inr nowhere
        ]
