-- ===== src/Tests/Notify.antt =====
-- Runs of the notifications of src/repo.rs and src/realtime.rs.
use mathlib.Core.Option.{get_or}
use feature_probe_server.Prelude.{
  String, ◌≡◌, refl, ◌≢◌, ◌↔◌, ◌⊎◌, true, false, Option, none, some, [], ◌∷◌, arith, ◌==◌, eq_iff,
  ap,
}
use feature_probe_server.HashMap.{get, insert, contains}
use feature_probe_server.Crates.{Callback}
use feature_probe_server.Realtime.{RealtimeSocket, run_callback}
use feature_probe_server.Secrets
use feature_probe_server.Secrets.{SecretMapping, fill_reverse}
use feature_probe_server.Repo
use feature_probe_server.Repo.{
  Inner, sync_client, remove_client, sync_all, remove_unlisted, update_clients, setup_notify,
  client_config, sync,
}
use feature_probe_server.Repo.Hears.{Any, hears, rooms_of, Names, hears-run_callback}
use feature_probe_server.Repo.Notify.{sync-notifies_server_only, update_mapping-keeps_callback}
use feature_probe_server.Tests.Sample.{Client, crates, relied}
use feature_probe_server.Tests.Repo.{serving}
use feature_probe_server.Tests.Steps.{started}

abbrev pub notifies : Callback → Client
notifies f = record { key = f.sdk_key; ready = false; toggles = []; callback = some f; syncs = 0 }

abbrev pub both : Callback
both = record { sdk_key = "server-1"; client_sdk_key = some "client-1" }

abbrev pub socket : RealtimeSocket
socket = record { port = 9100; path = "/server/realtime" }

hears-run_callback_example :
    (hears crates (rooms_of crates (none ∷ some "client-1" ∷ [])) (run_callback crates socket both)
      ≡ true)
    ↔ (Any (λ p. Names crates p "server-1") (none ∷ some "client-1" ∷ [])
        ⊎ ((c : String) × (both.client_sdk_key ≡ some c)
            × Any (λ p. Names crates p c) (none ∷ some "client-1" ∷ [])))
hears-run_callback_example = hears-run_callback crates socket both (none ∷ some "client-1" ∷ [])

-- The mapping is known, and there is no client yet.
abbrev pub unserved : Inner crates
unserved = record serving { sdk_clients = [] }

abbrev server_only : Callback
server_only = record { sdk_key = "server-1"; client_sdk_key = none }

sync-notifies_server_only_example :
    (Secrets.client_sdk_key (sync crates started "client-1" "server-1" 1).secret_mapping "server-1"
      ≡ some "client-1")
    × ((notifies server_only).callback
        ≡ some (record { sdk_key = "server-1"; client_sdk_key = none }))
unfolding Repo.new sync sync_client get insert setup_notify client_config Secrets.default
    Secrets.client_sdk_key Secrets.insert
sync-notifies_server_only_example =
    sync-notifies_server_only crates relied started "client-1" "server-1" 1 (notifies server_only)
      refl refl refl

abbrev notified : Inner crates
notified = record serving { sdk_clients = ("server-1", notifies both) ∷ [] }

-- The server key gets another client key.
abbrev pub rekeyed : SecretMapping
rekeyed = Secrets.deserialize 3 (("client-9", "server-1") ∷ [])

distinct : (a b : String) → (a == b) ≡ false → a ≢ b
distinct a b differ same = ground (arith, eq_iff a b)

update_mapping-keeps_callback_example :
    let after = update_clients crates (Repo.update_mapping crates notified rekeyed) in
    (Secrets.server_sdk_key after.secret_mapping "client-9" ≡ some "server-1")
    × ((d : Client) × (get after.sdk_clients "server-1" ≡ some d)
        × (d.callback ≡ some both)
        × (contains (run_callback crates socket both).rooms "client-9" ≡ false))
unfolding get Secrets.update_mapping Secrets.default Secrets.deserialize
update_mapping-keeps_callback_example =
    update_mapping-keeps_callback crates relied notified rekeyed "server-1" "client-9"
      (notifies both) socket both (refl, tt) (omega arith) refl refl refl refl
      (distinct "client-9" "server-1" refl)
      (λ e. distinct "client-1" "client-9" refl (ap (λ (o : Option String). get_or o "client-1") e))
