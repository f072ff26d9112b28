-- ===== src/Tests/View.antt =====
-- Views of a repository that has received its keys.
use feature_probe_server.Prelude.{
  String, ◌≡◌, ◌≢◌, ◌↔◌, refl, some, [], ◌∷◌, arith, true, false, ◌==◌, eq_iff,
}
use feature_probe_server.HashMap.{HashMap, get, insert, contains, remove}
use feature_probe_server.Crates.{Callback}
use feature_probe_server.Secrets
use feature_probe_server.Secrets.{fill_reverse}
use feature_probe_server.Secrets.Invariant.{IsConsistent, new-IsConsistent}
use feature_probe_server.Repo
use feature_probe_server.Realtime.{run_callback}
use feature_probe_server.Repo.{
  Inner, update_clients, body, sync_secret_keys_round, sync_all, sync_client, remove_unlisted,
  remove_client, setup_notify, client_config,
}
use feature_probe_server.Repo.Read.{
  server_sdk_repo_string, client_sdk_eval_string, client_sdk_events_string,
}
use feature_probe_server.Repo.Access.{evaluated_json}
use feature_probe_server.Repo.Published.{taken}
use feature_probe_server.Repo.Hears.{rooms_of, hears}
use feature_probe_server.Repo.Hears.Shared.{update_clients-Hears_iff}
use feature_probe_server.Repo.Steps.{here, next, fetched, refreshed}
use feature_probe_server.Repo.View.{view, read_server, read_led, ViewReach}
use feature_probe_server.Repo.View.Refines.{Reach-view}
use feature_probe_server.Repo.View.Order.{view-order}
use feature_probe_server.Tests.Sample.{crates, relied}
use feature_probe_server.Tests.Steps.{started}
use feature_probe_server.Tests.Notify.{socket, notifies}

abbrev pub keyed : Inner crates
keyed = sync_secret_keys_round crates started (body "keys")

Reach-view_example :
    let j = update_clients crates keyed in
    ViewReach crates relied (view started) (view j)
    × ((key : String)
        → server_sdk_repo_string crates j key
          ≡ read_server crates (view j) key (λ c. crates.repository_to_json (crates.client_repo c)))
    × ((key user : String)
        → client_sdk_eval_string crates j key user
          ≡ read_led crates (view j) key (evaluated_json crates user))
    × ((key : String)
        → client_sdk_events_string crates j key
          ≡ read_led crates
              (view j)
              key
              (λ c. crates.events_to_json (crates.events (crates.client_repo c))))
Reach-view_example =
    Reach-view crates relied (next (next here (fetched started (body "keys"))) (refreshed keyed))

abbrev listed : HashMap String
listed = ("client-1", "server-1") ∷ ("client-2", "server-2") ∷ []

abbrev turned : HashMap String
turned = ("client-2", "server-2") ∷ ("client-1", "server-1") ∷ []

differ : (k l : String) → (k == l) ≡ false → k ≢ l
differ k l e h = ground (arith, eq_iff k l)

one_to_one : (c d s : String) → get listed c ≡ some s → get listed d ≡ some s → c ≡ d
unfolding get
one_to_one c d s first second = ground (
  arith,
  eq_iff "client-1" c,
  eq_iff "client-2" c,
  eq_iff "client-1" d,
  eq_iff "client-2" d,
  differ "server-1" "server-2" refl,
)

listed_alike : (c : String) → get listed c ≡ get turned c
unfolding get
listed_alike c =
    ground (arith, eq_iff "client-1" c, eq_iff "client-2" c, differ "client-1" "client-2" refl)

view-order_example : view (taken crates started 2 listed) ≡ view (taken crates started 2 turned)
unfolding get
view-order_example =
    view-order crates started 2 listed turned (refl, (refl, tt)) (refl, (refl, tt)) one_to_one
      listed_alike

-- Two client keys lead to one server key; the reverse index has kept the second.
abbrev shared : HashMap String
shared = ("client-1", "server-1") ∷ ("client-2", "server-1") ∷ []

abbrev second_only : Callback
second_only = record { sdk_key = "server-1"; client_sdk_key = some "client-2" }

shared-IsConsistent : IsConsistent (taken crates started 2 shared).secret_mapping
unfolding get
shared-IsConsistent = new-IsConsistent 2 shared (refl, (refl, tt))

update_clients-Hears_iff_example :
    (f : Callback) × (e : String) × (relied.callback (notifies second_only) ≡ some f)
    × (Secrets.client_sdk_key (taken crates started 2 shared).secret_mapping "server-1" ≡ some e)
    × (Secrets.server_sdk_key (taken crates started 2 shared).secret_mapping e ≡ some "server-1")
    × ((hears crates (rooms_of crates (some "client-1" ∷ [])) (run_callback crates socket f) ≡ true)
        ↔ ("client-1" ≡ e))
unfolding Repo.new Secrets.new fill_reverse Secrets.client_sdk_key Secrets.server_sdk_key get insert
    contains remove update_clients sync_all sync_client remove_unlisted remove_client setup_notify
    client_config Secrets.server_sdk_keys
update_clients-Hears_iff_example =
    update_clients-Hears_iff crates relied (taken crates started 2 shared) "server-1" "client-1"
      (notifies second_only) socket (some "client-1") shared-IsConsistent (omega arith) refl refl
      refl (differ _ _ refl) ("client-1", "client-1", "client-1", refl, refl, refl, refl)
