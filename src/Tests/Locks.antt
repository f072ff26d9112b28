-- ===== src/Tests/Locks.antt =====
-- A run of the locks of src/repo.rs.
use feature_probe_server.Prelude.{List, refl, ◌≡◌, ◌+◌, ◌≢◌, not, false, [], ◌∷◌, ◌++◌, arith}
use feature_probe_server.HashMap.{get, contains, insert, keys}
use feature_probe_server.Secrets
use feature_probe_server.Secrets.{fill_reverse}
use feature_probe_server.Repo.{Inner}
use feature_probe_server.Repo.Locks.{
  RwLock, Threads, LockReach, LockStep, read, unread, secret_mapping, sdk_clients, unlocked,
  sync_all_locks, remove_unlisted_locks, about_to_run, update_clients_locks, update_mapping_locks,
}
use feature_probe_server.Repo.Locks.Deadlock.{update_clients-deadlock}
use feature_probe_server.Repo.Locks.Crowd.{
  Crowd, CrowdReach, here, next, moves, this, Request, server_sdk_repo_string,
  client_sdk_eval_string, client_sync_now, size, HaveEnded,
}
use feature_probe_server.Repo.Locks.Crowd.Finishes.{steps}
use feature_probe_server.Repo.Locks.Crowd.Requests.{busy, requests_locks, requests-finish}
use feature_probe_server.Tests.Repo.{serving, received}
use feature_probe_server.Tests.Sample.{crates}
use feature_probe_server.Tests.Notify.{unserved, rekeyed}
use feature_probe_server.Tests.Steps.{version-received}

-- A reader enters unless a writer holds the lock or waits for it.
abbrev rw_lock : RwLock
rw_lock = record {
  may_read = λ s. not s.writer;
  open_to_readers = λ n. refl;
  task_fair = λ n. refl;
}

update_clients-deadlock_example :
    (t : Threads) × LockReach rw_lock
      (about_to_run
        (update_clients_locks crates unserved)
        (update_mapping_locks crates unserved rekeyed))
      t
    × (t.first ≢ [])
    × (t.second ≢ [])
    × ((u : Threads) → LockStep rw_lock t u → ⊥)
unfolding get insert contains Secrets.server_sdk_keys Secrets.update_mapping Secrets.default
    Secrets.deserialize fill_reverse
update_clients-deadlock_example =
    update_clients-deadlock rw_lock crates unserved rekeyed "server-1" version-received
      (omega arith) refl refl

-- Two SDKs read, and a console asks for a new read.
abbrev requests : List (Inner crates × Request)
requests =
    (serving, server_sdk_repo_string "server-1")
    ∷ (serving, client_sdk_eval_string "client-1")
    ∷ (serving, client_sync_now "server-1")
    ∷ []

abbrev listed_started : Crowd
listed_started = busy crates serving rekeyed requests

-- `update_clients` holds the mapping for reading.
abbrev begun : Crowd
begun = record {
  mapping_lock = record { readers = 1; writer = false };
  clients_lock = unlocked;
  programs =
      (read sdk_clients
        ∷ unread sdk_clients
        ∷ (sync_all_locks crates serving (Secrets.server_sdk_keys received)
            ++ (remove_unlisted_locks crates (Secrets.server_sdk_keys received)
                  (keys serving.sdk_clients)
                ++ unread secret_mapping ∷ [])))
      ∷ update_mapping_locks crates serving rekeyed
      ∷ requests_locks crates requests;
}

begins : CrowdReach rw_lock listed_started begun
unfolding update_clients_locks Secrets.update_mapping Secrets.default Secrets.deserialize
begins = next here (moves (read secret_mapping) begun.mapping_lock begun.programs this refl)

requests-finish_example :
    (steps rw_lock begins + size begun.programs ≡ size listed_started.programs)
    × ((d : Crowd) × CrowdReach rw_lock begun d × HaveEnded d)
unfolding get insert contains Secrets.server_sdk_keys Secrets.update_mapping Secrets.default
    Secrets.deserialize fill_reverse
requests-finish_example = requests-finish crates rw_lock serving rekeyed requests (refl, tt) begins
