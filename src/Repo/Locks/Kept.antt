-- ===== src/Repo/Locks/Kept.antt =====
-- `update_clients` beside `update_mapping` where every listed key has its client.
use feature_probe_server.Prelude.{
  String, ◌≡◌, ◌≢◌, refl, ◌+◌, true, List, [], ◌∷◌, ◌++◌, arith, ltb, Bool-cases, inl, inr,
}
use feature_probe_server.HashMap
use feature_probe_server.HashMap.{contains, contains_key}
use feature_probe_server.Crates.{Crates}
use feature_probe_server.Secrets
use feature_probe_server.Secrets.{SecretMapping}
use feature_probe_server.Repo.{Inner, sync_client}
use feature_probe_server.Repo.Locks.{
  secret_mapping, unread, Threads, RwLock, LockReach, about_to_run, sync_locks, sync_all_locks,
  remove_unlisted_locks, update_clients_locks, update_mapping_locks,
}
use feature_probe_server.Repo.Locks.Order.{
  Holds, nothing, reading, announced, free, Fits, Fits-append,
}
use feature_probe_server.Repo.Locks.Finishes.{HasEnded, size, steps, steps-size, finishes}

-- The mapping is held for reading.
abbrev looking : Holds
looking = record { mapping = reading; clients = free }

pub calm : reading ≢ announced
calm e = ground arith

pub idle : free ≢ announced
idle e = ground arith

module _ (crates : Crates) where
  -- Every listed key has a client.
  abbrev pub IsKept : Inner crates → List String → Type 0
  IsKept inner [] = Unit
  IsKept inner (key ∷ keys) = (contains_key inner.sdk_clients key ≡ true) × IsKept inner keys

  sync_all_locks-Fits :
      (inner : Inner crates) (keys : List String)
      → IsKept inner keys
      → Fits looking (sync_all_locks crates inner keys) looking
  unfolding sync_all_locks sync_locks sync_client
  sync_all_locks-Fits inner [] kept = refl
  sync_all_locks-Fits inner (key ∷ keys) (there, kept) =
      rw there ((refl, calm), ((refl, calm), sync_all_locks-Fits inner keys kept))

  remove_unlisted_locks-Fits :
      (listed keys : List String) → Fits looking (remove_unlisted_locks crates listed keys) looking
  unfolding remove_unlisted_locks
  remove_unlisted_locks-Fits listed [] = refl
  remove_unlisted_locks-Fits listed (key ∷ keys) = elim (Bool-cases (contains listed key)) [
    | inl there ↦ rw there (remove_unlisted_locks-Fits listed keys)
    | inr gone ↦
        rw gone
          ((refl, calm), ((refl, calm), ((refl, calm), remove_unlisted_locks-Fits listed keys)))
  ]

  pub update_clients_locks-Fits :
      (inner : Inner crates)
      → IsKept inner (Secrets.server_sdk_keys inner.secret_mapping)
      → Fits nothing (update_clients_locks crates inner) nothing
  unfolding update_clients_locks
  update_clients_locks-Fits inner kept =
      let listed = Secrets.server_sdk_keys inner.secret_mapping in
      let there = HashMap.keys inner.sdk_clients in
      elim (Bool-cases (ltb 0 inner.secret_mapping.version)) [
        | inr none_yet ↦
            rw none_yet ((refl, refl), ((refl, calm), ((refl, calm), ((refl, idle), refl))))
        | inl versioned ↦ rw versioned (
          (refl, refl),
          (
            (refl, calm),
            (
              (refl, calm),
              Fits-append looking looking nothing (sync_all_locks crates inner listed)
                  (remove_unlisted_locks crates listed there ++ unread secret_mapping ∷ [])
                  (sync_all_locks-Fits inner listed kept)
                  (Fits-append looking looking nothing (remove_unlisted_locks crates listed there)
                    (unread secret_mapping ∷ []) (remove_unlisted_locks-Fits listed there)
                    ((refl, idle), refl)),
            ),
          ),
        )
      ]

  pub update_mapping_locks-Fits :
      (inner : Inner crates) (new : SecretMapping)
      → Fits nothing (update_mapping_locks crates inner new) nothing
  unfolding update_mapping_locks
  update_mapping_locks-Fits inner new =
      elim (Bool-cases (ltb inner.secret_mapping.version new.version)) [
        | inr old ↦ rw old ((refl, refl), ((refl, idle), refl))
        | inl newer ↦
            rw newer
              ((refl, refl), ((refl, idle), ((refl, refl), ((refl, refl), ((refl, idle), refl)))))
      ]

  -- Where every listed key has a client, let `update_clients` and `update_mapping` begin with no lock
  -- held. From each point that they come to, the operations done and those left add up to the
  -- operations of the two programs, and a run leads on to where both have ended and no lock is held.
  pub update_clients-finishes :
      (rw_lock : RwLock) (inner : Inner crates) (new : SecretMapping) {t : Threads}
      → IsKept inner (Secrets.server_sdk_keys inner.secret_mapping)
      → (reach : LockReach rw_lock
          (about_to_run (update_clients_locks crates inner) (update_mapping_locks crates inner new))
          t)
      → (steps rw_lock reach + size t
          ≡ size (
              about_to_run
                (update_clients_locks crates inner)
                (update_mapping_locks crates inner new)))
        × ((u : Threads) × LockReach rw_lock t u × HasEnded u)
  update_clients-finishes rw_lock inner new kept reach = (
    steps-size rw_lock reach,
    finishes rw_lock
        (record {
          own = nothing;
          other = nothing;
          agrees = record {
            mapping = refl;
            clients = refl;
            mapping_modes = tt;
            clients_modes = tt;
          };
          first_fits = update_clients_locks-Fits inner kept;
          second_fits = update_mapping_locks-Fits inner new;
        })
        reach,
  )
