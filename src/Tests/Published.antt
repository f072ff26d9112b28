-- ===== src/Tests/Published.antt =====
-- A body with a pair of keys arrives at an empty server.
use feature_probe_server.Prelude.{String, ◌≡◌, refl, [], ◌∷◌, ok}
use feature_probe_server.HashMap.{HashMap, get}
use feature_probe_server.Repo.{Inner, update_clients, sync_secret_keys_round, body}
use feature_probe_server.Repo.Read.{server_sdk_repo_string, client_sdk_eval_string}
use feature_probe_server.Repo.Access.{evaluated_json}
use feature_probe_server.Repo.Clients.{kept_or_fresh}
use feature_probe_server.Repo.Published.{read_of, taken, published}
use feature_probe_server.Secrets
use feature_probe_server.Http.Handler.{FpHttpHandler, all_secrets}
use feature_probe_server.Http.Handler.Keys.{all_secrets-sync_secret_keys_round}
use feature_probe_server.Tests.Http.{handler}
use feature_probe_server.Tests.Sample.{Client, crates}
use feature_probe_server.Tests.Steps.{started, version-started}

abbrev pairs : HashMap String
pairs = ("client-2", "server-2") ∷ []

abbrev after : Inner crates
after = update_clients crates (sync_secret_keys_round crates started (body "keys"))

published_example :
    let client : Client = kept_or_fresh crates (taken crates started 2 pairs) "server-2" in
    (server_sdk_repo_string crates after "server-2"
      ≡ read_of crates "server-2" client (crates.repository_to_json (crates.client_repo client)))
    × (client_sdk_eval_string crates after "client-2" "user"
        ≡ read_of crates "server-2" client (evaluated_json crates "user" client))
unfolding get
published_example =
    published crates started "keys" 2 pairs refl (refl, tt) version-started "client-2" "server-2"
      "user" refl

abbrev empty_handler : FpHttpHandler crates
empty_handler = record handler { repo = started }

all_secrets-sync_secret_keys_round_example :
    let after = sync_secret_keys_round crates started (body "keys") in
    (all_secrets crates (record empty_handler { repo = after }) ≡ ok pairs)
    × ((c : String) → Secrets.server_sdk_key after.secret_mapping c ≡ get pairs c)
    × (sync_secret_keys_round crates after (body "keys") ≡ after)
all_secrets-sync_secret_keys_round_example =
    all_secrets-sync_secret_keys_round crates empty_handler "keys" 2 pairs refl version-started
