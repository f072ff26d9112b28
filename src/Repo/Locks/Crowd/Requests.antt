-- ===== src/Repo/Locks/Crowd/Requests.antt =====
-- Requests beside `update_clients` and `update_mapping`, where every listed key has its client.
use feature_probe_server.Prelude.{
  ℕ, String, ◌≡◌, refl, ◌+◌, Bool, Option, List, [], ◌∷◌, All, arith, map, is_zero, true, false,
  not, if◌then◌else◌, none, some,
}
use feature_probe_server.Crates.{Crates}
use feature_probe_server.Secrets
use feature_probe_server.Secrets.{SecretMapping}
use feature_probe_server.Repo.{Inner}
use feature_probe_server.Repo.Locks.{Lock, Op, RwLock, update_clients_locks, update_mapping_locks}
use feature_probe_server.Repo.Locks.Order.{Mode, Holds, nothing, free, Fits, mode_of}
use feature_probe_server.Repo.Locks.Kept.{
  IsKept, calm, idle, update_clients_locks-Fits, update_mapping_locks-Fits,
}
use feature_probe_server.Repo.Locks.Crowd.{
  Crowd, CrowdReach, Request, secret_keys, server_sdk_repo_string, client_sdk_eval_string,
  client_sdk_events_string, client_sync_now, request_locks, reads_mapping, reads_clients, if_found,
  gathered, lock_in, size, HaveEnded,
}
use feature_probe_server.Repo.Locks.Crowd.Ordered.{total, FitAll, IsFair, IsOrdered}
use feature_probe_server.Repo.Locks.Crowd.Counts.{reads, waits, writes}
use feature_probe_server.Repo.Locks.Crowd.Finishes.{steps, steps-size, finishes}

-- A program that keeps to the order, and holds nothing at its ends.
abbrev Keeps : List Op → Type 0
Keeps p = Fits nothing p nothing

idle_threads : List (List Op) → List Holds
idle_threads [] = []
idle_threads (p ∷ ps) = nothing ∷ idle_threads ps

idle_threads-FitAll : (ps : List (List Op)) → All Keeps ps → FitAll (idle_threads ps) ps
unfolding idle_threads FitAll
idle_threads-FitAll [] keep = tt
idle_threads-FitAll (p ∷ ps) (keeps, keep) = (keeps, idle_threads-FitAll ps keep)

total-idle_threads :
    (f : Holds → ℕ) (ps : List (List Op)) → f nothing ≡ 0 → total f (idle_threads ps) ≡ 0
unfolding idle_threads total
total-idle_threads f [] z = refl
total-idle_threads f (p ∷ ps) z = omega (arith, total-idle_threads f ps z)

unlocked-IsFair :
    (l : Lock) (ps : List (List Op)) → IsFair l (lock_in l (gathered ps)) (idle_threads ps)
unlocked-IsFair l ps =
    let idle_count = λ (f : Mode → ℕ) (z : f free ≡ 0).
      total-idle_threads (λ h. f (mode_of h l)) ps (ground (arith, z)) in
    rw (idle_count reads refl, idle_count waits refl, idle_count writes refl) (ground arith)

gathered-IsOrdered : (ps : List (List Op)) → All Keeps ps → IsOrdered (gathered ps)
gathered-IsOrdered ps keep = record {
  holds = idle_threads ps;
  fits = idle_threads-FitAll ps keep;
  fair = λ l. unlocked-IsFair l ps;
}

reads_mapping-Keeps : Keeps reads_mapping
reads_mapping-Keeps = ((refl, refl), ((refl, idle), refl))

reads_clients-Keeps : Keeps reads_clients
reads_clients-Keeps = ((refl, refl), ((refl, calm), ((refl, calm), ((refl, idle), refl))))

if_found-Keeps : (o : Option String) → Keeps (if_found o)
if_found-Keeps none = reads_mapping-Keeps
if_found-Keeps (some key) = reads_clients-Keeps

if-Keeps : (b : Bool) (p q : List Op) → Keeps p → Keeps q → Keeps (if b then p else q)
if-Keeps true p q keeps keeps' = keeps
if-Keeps false p q keeps keeps' = keeps'

module _ (crates : Crates) where
  request_locks-Keeps : (inner : Inner crates) (r : Request) → Keeps (request_locks crates inner r)
  unfolding request_locks
  request_locks-Keeps inner secret_keys = reads_mapping-Keeps
  request_locks-Keeps inner (server_sdk_repo_string key) =
      if-Keeps (is_zero inner.secret_mapping.version) reads_mapping _ reads_mapping-Keeps (
        if-Keeps (not (Secrets.contains_server_sdk_key inner.secret_mapping key)) reads_mapping
          reads_clients reads_mapping-Keeps reads_clients-Keeps)
  request_locks-Keeps inner (client_sdk_eval_string key) =
      if-Keeps (is_zero inner.secret_mapping.version) reads_mapping _ reads_mapping-Keeps
        (if_found-Keeps (Secrets.server_sdk_key inner.secret_mapping key))
  request_locks-Keeps inner (client_sdk_events_string key) =
      if-Keeps (is_zero inner.secret_mapping.version) reads_mapping _ reads_mapping-Keeps
        (if_found-Keeps (Secrets.server_sdk_key inner.secret_mapping key))
  request_locks-Keeps inner (client_sync_now key) =
      ((refl, idle), ((refl, idle), ((refl, idle), refl)))

  -- What requests do to the locks, each in what it finds.
  abbrev pub requests_locks : List (Inner crates × Request) → List (List Op)
  requests_locks = map (λ r. request_locks crates r.0 r.1)

  requests_locks-Keeps :
      (requests : List (Inner crates × Request)) → All Keeps (requests_locks requests)
  requests_locks-Keeps [] = tt
  requests_locks-Keeps ((inner, r) ∷ requests) =
      (request_locks-Keeps inner r, requests_locks-Keeps requests)

  -- The two loops about to do a round, and requests.
  abbrev pub busy : Inner crates → SecretMapping → List (Inner crates × Request) → Crowd
  busy inner new requests = gathered (
      update_clients_locks crates inner
      ∷ update_mapping_locks crates inner new
      ∷ requests_locks requests)

  -- Where every listed key has a client, let `update_clients`, `update_mapping` and any number of
  -- requests, whatever each finds, begin with no lock held. From each point that they come to, the
  -- operations done and those left add up to the operations of all the programs, and a run leads on to
  -- where all have ended and no lock is held.
  pub requests-finish :
      (rw_lock : RwLock) (inner : Inner crates) (new : SecretMapping)
      (requests : List (Inner crates × Request)) {c : Crowd}
      → IsKept crates inner (Secrets.server_sdk_keys inner.secret_mapping)
      → (reach : CrowdReach rw_lock (busy inner new requests) c)
      → (steps rw_lock reach + size c.programs ≡ size (busy inner new requests).programs)
        × ((d : Crowd) × CrowdReach rw_lock c d × HaveEnded d)
  requests-finish rw_lock inner new requests kept reach = (
    steps-size rw_lock reach,
    finishes rw_lock
        (gathered-IsOrdered _ (
          update_clients_locks-Fits crates inner kept,
          (update_mapping_locks-Fits crates inner new, requests_locks-Keeps requests),
        ))
        reach,
  )
