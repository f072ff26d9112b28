-- ===== src/Tests/Steps.antt =====
-- Runs of the loops of src/repo.rs.
use mathlib.Core.List.{foldl}
use feature_probe_server.Prelude.{◌≡◌, ◌<◌, none, some, [], ◌∷◌, arith}
use feature_probe_server.Secrets
use feature_probe_server.Secrets.{SecretMapping, fill_reverse}
use feature_probe_server.Repo
use feature_probe_server.Repo.{
  Inner, sync_client, remove_client, sync_all, remove_unlisted, update_clients, body,
  client_sync_now, sync_secret_keys_round,
}
use feature_probe_server.Repo.Races.{
  Race, idle, write, RaceReach, calls, reads, writes, RaceReach-serial,
}
use feature_probe_server.Repo.Races
use feature_probe_server.Tests.Sample.{crates}
use feature_probe_server.Tests.Repo.{config, received}

abbrev pub started : Inner crates
started = Repo.new crates config (record { port = 9100; path = "/server/realtime" })

-- The keys arrive, and the clients follow.
abbrev keyed : Inner crates
keyed = sync_secret_keys_round crates started (body "keys")

pub version-received : 0 < received.version
unfolding Secrets.update_mapping Secrets.default Secrets.deserialize
version-received = omega arith

abbrev newer : SecretMapping
newer = Secrets.deserialize 3 (("client-1", "server-3") ∷ [])

abbrev newest : SecretMapping
newest = Secrets.deserialize 4 (("client-1", "server-4") ∷ [])

-- Two calls read the same version; the newer argument is written first, the older one second.
abbrev raced : SecretMapping
raced = write (write received received.version newest) received.version newer

RaceReach-serial_example : raced ≡ foldl Secrets.update_mapping received (newest ∷ newer ∷ [])
RaceReach-serial_example = RaceReach-serial received (
    Races.next
      (Races.next
        (Races.next
          (Races.next
            (Races.next (Races.next Races.here (calls received [] [] newer))
              (calls received (record { new = newer; version = none } ∷ []) [] newest))
            (reads received [] (record { new = newer; version = none } ∷ []) [] newest))
          (reads received (record { new = newest; version = some received.version } ∷ []) [] []
            newer))
        (writes received [] (record { new = newer; version = some received.version } ∷ []) [] newest
          received.version))
      (writes (write received received.version newest) [] [] (newest ∷ []) newer received.version))

pub version-started : started.secret_mapping.version < 2
unfolding Repo.new Secrets.default
version-started = omega arith
