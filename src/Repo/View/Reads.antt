-- ===== src/Repo/View/Reads.antt =====
-- The reads of src/repo.rs depend on the view of the repository alone.
use feature_probe_server.Prelude.{String, ◌≡◌, arith}
use feature_probe_server.Crates.{Crates}
use feature_probe_server.Secrets
use feature_probe_server.Repo.{Inner}
use feature_probe_server.Repo.Read.{
  ready_client, repo_string, all_evaluated_string, all_event_string, server_sdk_repo_string,
  server_key_of, client_sdk_eval_string, client_sdk_events_string,
}
use feature_probe_server.Repo.Access.{evaluated_json}
use feature_probe_server.Repo.View.{view, read_server, read_led}

module _ (crates : Crates) where
  pub server_sdk_repo_string-view :
      (inner : Inner crates) (key : String)
      → server_sdk_repo_string crates inner key
        ≡ read_server crates
            (view inner)
            key
            (λ c. crates.repository_to_json (crates.client_repo c))
  unfolding server_sdk_repo_string repo_string ready_client Secrets.contains_server_sdk_key
      Secrets.client_sdk_key
  server_sdk_repo_string-view inner key = ground arith

  pub client_sdk_eval_string-view :
      (inner : Inner crates) (key : String) (user : crates.FpUser)
      → client_sdk_eval_string crates inner key user
        ≡ read_led crates (view inner) key (evaluated_json crates user)
  unfolding client_sdk_eval_string server_key_of all_evaluated_string ready_client
  client_sdk_eval_string-view inner key user = ground arith

  pub client_sdk_events_string-view :
      (inner : Inner crates) (key : String)
      → client_sdk_events_string crates inner key
        ≡ read_led crates
            (view inner)
            key
            (λ c. crates.events_to_json (crates.events (crates.client_repo c)))
  unfolding client_sdk_events_string server_key_of all_event_string ready_client
  client_sdk_events_string-view inner key = ground arith
