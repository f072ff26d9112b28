-- ===== src/Tests/Passes.antt =====
-- `update_clients` makes a client for a key, and the client synchronises before the call has ended.
use feature_probe_server.Prelude.{String, ◌≡◌, refl, [], ltb, if◌then◌else◌}
use feature_probe_server.HashMap.{get, contains_key, insert}
use feature_probe_server.Crates.{realtime}
use feature_probe_server.Secrets
use feature_probe_server.Secrets.{fill_reverse}
use feature_probe_server.Repo
use feature_probe_server.Repo.{
  Inner, sync_client, sync_all, remove_unlisted, fresh_client, sync_secret_keys_round, body,
  setup_notify, client_config,
}
use feature_probe_server.Repo.Passes.{
  Pass, begin_pass, PassReach, here, next, synced, between, passes-follow,
}
use feature_probe_server.Repo.Steps.{OwnClients, fetched}
use feature_probe_server.Repo.Steps.Sound.{Step-IsSound}
use feature_probe_server.Repo.Steps.Begin.{new-IsSound}
use feature_probe_server.Tests.Sample.{Client, crates, relied}
use feature_probe_server.Tests.Repo.{config}
use feature_probe_server.Tests.Steps.{started}
use feature_probe_server.Tests.View.{keyed}

abbrev synced_one : Inner crates
synced_one = sync_client crates keyed "server-2"

abbrev fresh : Client
fresh = fresh_client crates keyed "server-2"

abbrev pass : Pass crates
pass = record {
  inner = record synced_one {
    sdk_clients = insert synced_one.sdk_clients "server-2" (crates.sync_now fresh realtime);
  };
  to_sync = [];
  to_check = [];
}

passed :
    PassReach crates relied (Secrets.server_sdk_keys keyed.secret_mapping) (begin_pass keyed) pass
unfolding sync_secret_keys_round Repo.new Repo.update_mapping Secrets.update_mapping Secrets.default
    Secrets.deserialize Secrets.server_sdk_keys fill_reverse insert sync_client get setup_notify
    client_config
passed =
    next (next here (synced keyed "server-2" [] []))
      (between synced_one [] [] "server-2" fresh (crates.sync_now fresh realtime) refl refl refl)

keyed-own : OwnClients crates relied keyed
keyed-own =
    (Step-IsSound crates relied (fetched started (body "keys"))
      (new-IsSound crates relied config (record { port = 9100; path = "/server/realtime" }))).own

passes-follow_example :
    let listed = Secrets.server_sdk_keys keyed.secret_mapping in
    OwnClients crates relied pass.inner
    × ((key : String)
        → contains_key
            (remove_unlisted crates (sync_all crates pass.inner []) listed []).sdk_clients
            key
          ≡ (if ltb 0 keyed.secret_mapping.version
              then Secrets.contains_server_sdk_key keyed.secret_mapping key
              else contains_key keyed.sdk_clients key))
passes-follow_example = passes-follow crates relied keyed keyed-own passed
