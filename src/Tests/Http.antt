-- ===== src/Tests/Http.antt =====
-- Runs of the handlers of src/http/handler.rs.
use feature_probe_server.Crates.{from_secs}
use feature_probe_server.Prelude.{
  String, ◌≡◌, refl, ◌↔◌, ◌⊎◌, true, none, some, [], ◌∷◌, map, ◌==◌, All, if◌then◌else◌,
}
use text.Mathlib.Text.{starts_with}
use feature_probe_server.HashMap.{get, insert, collect}
use feature_probe_server.Secrets
use feature_probe_server.Secrets.{fill_reverse}
use feature_probe_server.Crates.{realtime}
use feature_probe_server.Repo.Read.{
  server_sdk_repo_string, repo_string, ready_client, client_sdk_eval_string, server_key_of,
  all_evaluated_string, eval_toggles,
}
use feature_probe_server.Http.Response.{respond, ok_status, bad_request, unauthorized}
use feature_probe_server.Http.Handler.{
  FpHttpHandler, client_answer, server_sdk_toggles, client_sdk_toggles, decode_user, update_toggles,
}
use feature_probe_server.Http.Handler.ClientLaws.{update_toggles_cases}
use feature_probe_server.Http.Events.{handle_events}
use feature_probe_server.Http.Events.Laws.{handle_events-401_iff, handle_events-posts}
use feature_probe_server.Tests.Sample.{Client, crates}
use feature_probe_server.Tests.Repo.{serving, received}

abbrev pub handler : FpHttpHandler crates
handler = record {
  repo = serving;
  http_client = tt;
  events_url = "http://api/events";
  analysis_url = some "http://analysis";
  events_timeout = from_secs 1;
}

program : Unit {0}
unfolding respond server_sdk_toggles server_sdk_repo_string repo_string ready_client get insert
    Secrets.contains_server_sdk_key Secrets.update_mapping Secrets.default Secrets.deserialize
    fill_reverse
program = tt

client_program : Unit {0}
unfolding program client_sdk_toggles client_answer decode_user client_sdk_eval_string server_key_of
    all_evaluated_string eval_toggles collect Secrets.server_sdk_key
client_program = tt

update_toggles_cases_example :
    let after = (update_toggles crates handler "server-1").0 in
    let status = (respond crates (update_toggles crates handler "server-1").1).status in
    ((get serving.sdk_clients "server-1" ≡ none) × (status ≡ bad_request) × (after ≡ handler))
    ⊎ ((c : Client) × (get serving.sdk_clients "server-1" ≡ some c)
        × (status ≡ ok_status)
        × (after.repo.secret_mapping ≡ received)
        × ((j : String)
            → get after.repo.sdk_clients j ≡ (
                if "server-1" == j
                then some (crates.sync_now c realtime)
                else get serving.sdk_clients j)))
update_toggles_cases_example = update_toggles_cases crates handler "server-1"

handle_events-401_iff_example :
    let (posts, response) = handle_events crates handler "client-0" "agent" [] ("event" ∷ []) in
    ((response.status ≡ unauthorized) ↔ (
      (starts_with "client-0" "client" ≡ true)
      × (Secrets.server_sdk_key received "client-0" ≡ none)))
    × (response.status ≡ unauthorized → posts ≡ [])
handle_events-401_iff_example =
    handle_events-401_iff crates handler "client-0" "agent" [] ("event" ∷ [])

handle_events-posts_example :
    let (posts, response) = handle_events crates handler "client-1" "agent" [] ("event" ∷ []) in
    (response.status ≡ ok_status)
    × (map (λ p. p.url) posts ≡ "http://analysis" ∷ "http://api/events" ∷ [])
    × All (λ p. (p.json ≡ "event" ∷ []) × (get p.headers "authorization" ≡ some "server-1")) posts
unfolding client_program
handle_events-posts_example =
    handle_events-posts crates handler "client-1" "agent" "server-1" [] ("event" ∷ []) refl
