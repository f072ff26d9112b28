-- ===== src/Tests/Run.antt =====
-- A server that is started with a pair of keys, whose SDK client then reads its toggles.
use feature_probe_server.Crates.{from_secs}
use feature_probe_server.Prelude.{
  ℕ, Option, String, ◌≡◌, refl, ◌≢◌, ◌⊎◌, inl, inr, none, some, List, [], ◌∷◌, ok, true, false, ◌<◌,
  ◌^◌, ◌==◌, arith, Bool-cases,
}
use feature_probe_server.Prelude.Int.{pos}
use feature_probe_server.HashMap.{HashMap, get, insert, collect}
use feature_probe_server.Secrets
use feature_probe_server.Repo
use feature_probe_server.Repo.{Inner, sync_client, setup_notify, client_config}
use feature_probe_server.Repo.Steps.{IsSound, progressed}
use feature_probe_server.Repo.Access.{HasRepo, evaluated_json}
use feature_probe_server.Repo.Read.{
  server_sdk_repo_string, repo_string, ready_client, client_sdk_eval_string, server_key_of,
  all_evaluated_string, eval_toggles,
}
use feature_probe_server.Http.Response.{respond, ok_status, json_content, cors_headers}
use feature_probe_server.Http.Handler.{
  FpHttpHandler, server_sdk_toggles, client_sdk_toggles, client_answer, decode_user,
}
use feature_probe_server.Http.Handler.Answers.{Answer, server_sdk_toggles_cases}
use feature_probe_server.Http.Router.{Served, get_method, routes, on_method, serve_http}
use feature_probe_server.Main.Isolation.{served_server_toggles, served_client_toggles}
use feature_probe_server.Main.{Running, start, init_handler}
use feature_probe_server.Crates.{Callback}
use feature_probe_server.Realtime.{run_callback}
use feature_probe_server.Repo.Hears.{Any, Names, rooms_of, hears}
use feature_probe_server.Main.Widths.{Sends, Run-fits}
use feature_probe_server.Main.Notified.{run-hears}
use feature_probe_server.Http.Handler.{client_sdk_toggles}
use feature_probe_server.Http.Handler.ClientAnswers.{ClientAnswer, client_sdk_toggles_cases}
use feature_probe_server.Main.Run.{Run, started, moved, looped, Run-IsSound}
use feature_probe_server.Tests.Config.{settings, parsed, runs}
use feature_probe_server.Tests.Sample.{Client, crates, relied}
use feature_probe_server.Tests.Router.{axum}

program : Unit {0}
unfolding start init_handler Repo.new Repo.sync sync_client setup_notify client_config
    Secrets.default Secrets.insert Secrets.client_sdk_key get insert
program = tt

server_request : Unit {0}
unfolding program routes on_method serve_http respond server_sdk_toggles server_sdk_repo_string
    repo_string ready_client Secrets.contains_server_sdk_key
server_request = tt

client_request : Unit {0}
unfolding program routes on_method serve_http respond client_sdk_toggles client_answer decode_user
    client_sdk_eval_string server_key_of all_evaluated_string eval_toggles collect ready_client
    Secrets.server_sdk_key cors_headers
client_request = tt

-- The client of "server-1", before it has read anything.
abbrev fresh : Client
fresh = record {
  key = "server-1";
  ready = false;
  toggles = [];
  callback = some (record { sdk_key = "server-1"; client_sdk_key = none });
  syncs = 0;
}

abbrev begun : Running crates
begun = record {
  port = 4007;
  handler = record {
    repo = record {
      server_config = parsed 4007 3;
      http_client = tt;
      realtime_socket = record { port = 9100; path = "/server/realtime" };
      sdk_clients = ("server-1", fresh) ∷ [];
      secret_mapping = record {
        version = 1;
        mapping = ("client-1", "server-1") ∷ [];
        reverse = ("server-1", "client-1") ∷ [];
      };
    };
    http_client = tt;
    events_url = "http://api/events";
    analysis_url = none;
    events_timeout = from_secs 3;
  };
  tasks = [];
}

begins : start crates (parsed 4007 3) ≡ some (ok begun)
unfolding program
begins = refl

abbrev ready : Client
ready = record fresh { ready = true; toggles = ("shown", true) ∷ [] }

-- The server once its SDK client has read a toggle.
abbrev later : FpHttpHandler crates
later = record begun.handler {
  repo = record begun.handler.repo { sdk_clients = ("server-1", ready) ∷ [] };
}

run : Run crates axum relied (parsed 4007 3) later
unfolding program
run = moved (started begins) (
    looped begun.handler refl (progressed begun.handler.repo "server-1" fresh ready refl refl refl))

Run-IsSound_example : IsSound crates relied later.repo
Run-IsSound_example =
    Run-IsSound crates axum relied (settings (pos 4007) (pos 3)) (parsed 4007 3) runs run

abbrev answer : List (String × String) → String → Served crates (FpHttpHandler crates)
answer headers body = record {
  handler = later;
  response = record { status = ok_status; headers = headers; body = body };
  posts = [];
}

served_server_toggles_example :
    ((o : HasRepo later.repo "server-1") × (o.client.key ≡ "server-1")
      × (crates.repository_to_json (crates.client_repo o.client) ≡ ok "shown"))
    ⊎ ((◌≡◌ {A = String} "shown" "")
        × ((c : String) → Secrets.server_sdk_key later.repo.secret_mapping c ≢ some "server-1"))
unfolding server_request
served_server_toggles_example =
    served_server_toggles crates axum relied (settings (pos 4007) (pos 3)) (parsed 4007 3) runs run
      (get_method, "/api/server-sdk/toggles") "server-1" (answer json_content "shown") refl refl
      refl refl

served_client_toggles_example :
    ((u : String) × (decode_user crates "dXNlcg==" ≡ ok u)
      × ((s : String) × (Secrets.server_sdk_key later.repo.secret_mapping "client-1" ≡ some s)
          × ((o : HasRepo later.repo s) × (o.client.key ≡ s)
              × (evaluated_json crates u o.client ≡ ok "shown"))))
    ⊎ ((◌≡◌ {A = String} "shown" "{}")
        × (Secrets.server_sdk_key later.repo.secret_mapping "client-1" ≡ none))
unfolding client_request
served_client_toggles_example =
    served_client_toggles crates axum relied (settings (pos 4007) (pos 3)) (parsed 4007 3) runs run
      (get_method, "/api/client-sdk/toggles") (record { user = "dXNlcg==" }) "client-1"
      (answer cors_headers "shown") refl refl refl refl refl

server_sdk_toggles_cases_example :
    let response = respond crates (server_sdk_toggles crates later "server-1") in
    Answer crates later.repo "server-1" response.status response.body
server_sdk_toggles_cases_example =
    server_sdk_toggles_cases crates later "server-1"
      (Run-IsSound crates axum relied (settings (pos 4007) (pos 3)) (parsed 4007 3) runs
        run).consistent

run-hears_example :
    (ready.key ≡ "server-1")
    × ((f : Callback) × (ready.callback ≡ some f)
        × ((payloads : List (Option String))
            → Any (λ p. Names crates p "server-1") payloads
            → hears crates
                (rooms_of crates payloads)
                (run_callback crates later.repo.realtime_socket f)
              ≡ true))
unfolding get
run-hears_example =
    run-hears crates axum relied (settings (pos 4007) (pos 3)) (parsed 4007 3) runs run "server-1"
      ready refl

client_sdk_toggles_cases_example :
    let response = respond crates (client_sdk_toggles crates later "dXNlcg==" "client-1") in
    ClientAnswer crates later.repo "dXNlcg==" "client-1" response.status response.body
client_sdk_toggles_cases_example = client_sdk_toggles_cases crates later "dXNlcg==" "client-1"

version_fits :
    (text : String) (version : ℕ) (mapping : HashMap String)
    → crates.secrets_from_json text ≡ some (version, mapping)
    → version < 2 ^ 128
version_fits text version mapping read = elim (Bool-cases (text == "")) [
  | inl empty ↦ absurd (ground arith)
  | inr other ↦ let e : 2 ≡ version = ground arith in omega (arith, e)
]

Run-fits_example :
    (later.repo.server_config ≡ parsed 4007 3)
    × Sends crates (parsed 4007 3) later
    × (later.repo.secret_mapping.version < 2 ^ 128)
    × (later.repo.server_config.server_port < 2 ^ 16)
    × (later.repo.server_config.realtime_port < 2 ^ 16)
    × (later.repo.realtime_socket.port < 2 ^ 16)
    × (later.repo.server_config.refresh_interval.secs < 2 ^ 64)
    × (later.events_timeout.secs < 2 ^ 64)
Run-fits_example =
    Run-fits crates relied (parsed 4007 3) version_fits axum (settings (pos 4007) (pos 3)) runs run
