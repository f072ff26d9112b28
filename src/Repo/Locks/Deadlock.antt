-- ===== src/Repo/Locks/Deadlock.antt =====
-- `update_clients` and `update_mapping` at the same time, where the first makes a client.
use feature_probe_server.Prelude.{
  ℕ, String, ◌≡◌, refl, ◌≢◌, Bool, true, false, List, [], ◌∷◌, ◌++◌, arith, ◌<◌, lt→ltb, eq_iff,
  Bool-cases, inl, inr,
}
use feature_probe_server.HashMap
use feature_probe_server.HashMap.{contains, contains_key}
use feature_probe_server.Crates.{Crates}
use feature_probe_server.Secrets
use feature_probe_server.Secrets.{SecretMapping}
use feature_probe_server.Repo.{Inner, sync_client}
use feature_probe_server.Repo.Locks.{
  secret_mapping, sdk_clients, Op, read, unread, announce, enter, unwrite, Threads, RwLock,
  sync_locks, sync_all_locks, remove_unlisted_locks, update_clients_locks, update_mapping_locks,
  LockStep, first_moves, second_moves, LockReach, here, next, about_to_run,
}

-- The threads with what holds or waits for each lock: first the mapping, then the clients.
abbrev threads : ℕ → Bool → ℕ → Bool → List Op → List Op → Threads
threads readers waits looking making first second = record {
  mapping_lock = record { readers = readers; writer = waits };
  clients_lock = record { readers = looking; writer = making };
  first = first;
  second = second;
}

-- The second thread announces itself while the first, which reads the mapping and writes the
-- clients, is about to read the mapping again.
abbrev stuck : List Op → Threads
stuck rest =
    threads 1 true 0 true (read secret_mapping ∷ rest)
      (enter secret_mapping ∷ unwrite secret_mapping ∷ [])

module _ (rw_lock : RwLock) where
  open rw_lock use {open_to_readers, task_fair}

  no_step : (rest : List Op) (u : Threads) → LockStep rw_lock (stuck rest) u → ⊥
  no_step rest u (first_moves op ops v is can) =
      let e : op ≡ read secret_mapping = ground arith in absurd (ground (arith, task_fair 1, e))
  no_step rest u (second_moves op ops v is can) =
      let e : op ≡ enter secret_mapping = ground arith in absurd (ground (arith, e))

  -- A look at the table of clients.
  looked :
      {s : Threads} (rest second : List Op)
      → LockReach rw_lock s
          (threads 1 false 0 false (read sdk_clients ∷ unread sdk_clients ∷ rest) second)
      → LockReach rw_lock s (threads 1 false 0 false rest second)
  looked rest second reach =
      next
        (next reach (
          first_moves (read sdk_clients) (unread sdk_clients ∷ rest)
            (threads 1 false 1 false (read sdk_clients ∷ unread sdk_clients ∷ rest) second) refl
            (rw (open_to_readers 0) refl)))
        (first_moves (unread sdk_clients) rest
          (threads 1 false 0 false (unread sdk_clients ∷ rest) second) refl refl)

  -- The first operation of all.
  began :
      (first second : List Op)
      → LockReach rw_lock
          (about_to_run (read secret_mapping ∷ first) second)
          (threads 1 false 0 false first second)
  began first second = next here (
      first_moves (read secret_mapping) first
        (threads 1 false 0 false (read secret_mapping ∷ first) second) refl
        (rw (open_to_readers 0) refl))

  -- The table of clients is taken for writing.
  taken :
      {s : Threads} (rest second : List Op)
      → LockReach rw_lock s
          (threads 1 false 0 false (announce sdk_clients ∷ enter sdk_clients ∷ rest) second)
      → LockReach rw_lock s (threads 1 false 0 true rest second)
  taken rest second reach =
      next
        (next reach (
          first_moves (announce sdk_clients) (enter sdk_clients ∷ rest)
            (threads 1 false 0 true (announce sdk_clients ∷ enter sdk_clients ∷ rest) second) refl
            refl))
        (first_moves (enter sdk_clients) rest
          (threads 1 false 0 true (enter sdk_clients ∷ rest) second) refl refl)

  -- `update_mapping` reads the version beside the first thread, and announces that it will write.
  announced :
      {s : Threads} (first rest : List Op)
      → LockReach rw_lock s (
          threads 1 false 0 true first
            (read secret_mapping ∷ unread secret_mapping ∷ announce secret_mapping ∷ rest))
      → LockReach rw_lock s (threads 1 true 0 true first rest)
  announced first rest reach =
      next
        (next
          (next reach (
            second_moves (read secret_mapping)
              (unread secret_mapping ∷ announce secret_mapping ∷ rest)
              (threads 2 false 0 true first
                (read secret_mapping ∷ unread secret_mapping ∷ announce secret_mapping ∷ rest))
              refl (rw (open_to_readers 1) refl)))
          (second_moves (unread secret_mapping) (announce secret_mapping ∷ rest)
            (threads 1 false 0 true first (unread secret_mapping ∷ announce secret_mapping ∷ rest))
            refl refl))
        (second_moves (announce secret_mapping) rest
          (threads 1 true 0 true first (announce secret_mapping ∷ rest)) refl refl)

  module _ (crates : Crates) where
    -- The first loop gets to the first listed key that has no client, and begins to make one.
    making :
        {s : Threads} (inner : Inner crates) (key : String) (keys : List String)
        (tail second : List Op)
        → contains keys key ≡ true
        → contains_key inner.sdk_clients key ≡ false
        → LockReach rw_lock s
            (threads 1 false 0 false (sync_all_locks crates inner keys ++ tail) second)
        → (rest : List Op) × LockReach rw_lock s
            (threads 1 false 0 true (read secret_mapping ∷ rest) second)
    unfolding contains sync_all_locks sync_locks sync_client
    making inner key [] tail second listed missing reach = absurd (ground arith)
    making inner key (k ∷ keys) tail second listed missing reach =
        elim (Bool-cases (contains_key inner.sdk_clients k)) [
          | inl there ↦
              making inner key keys tail second (ground (arith, eq_iff k key)) missing
                (looked _ second (rw there at reach))
          | inr new ↦ (_, taken _ second (looked _ second (rw new at reach)))
        ]

    -- The operations of the two methods where both have something to do.
    both_busy :
        (inner : Inner crates) (new : SecretMapping)
        → 0 < inner.secret_mapping.version
        → inner.secret_mapping.version < new.version
        → let listed = Secrets.server_sdk_keys inner.secret_mapping in
          about_to_run (update_clients_locks crates inner) (update_mapping_locks crates inner new)
          ≡ about_to_run
              (read secret_mapping
                  ∷ read sdk_clients
                  ∷ unread sdk_clients
                  ∷ sync_all_locks crates inner listed
                ++ (remove_unlisted_locks crates listed (HashMap.keys inner.sdk_clients)
                    ++ unread secret_mapping ∷ []))
              (read secret_mapping
                ∷ unread secret_mapping
                ∷ announce secret_mapping
                ∷ enter secret_mapping
                ∷ unwrite secret_mapping
                ∷ [])
    unfolding update_clients_locks update_mapping_locks
    both_busy inner new versioned newer =
        rw
          (
            lt→ltb 0 inner.secret_mapping.version versioned,
            lt→ltb inner.secret_mapping.version new.version newer,
          )
          refl

    -- With locks at which a reader waits behind a writer that waits: where a mapping was received,
    -- a listed server key has no client and a newer mapping arrives, `update_clients` and
    -- `update_mapping`, begun with no lock held, can come to a point from which no step leads on,
    -- with both unfinished.
    pub update_clients-deadlock :
        (inner : Inner crates) (new : SecretMapping) (key : String)
        → 0 < inner.secret_mapping.version
        → inner.secret_mapping.version < new.version
        → contains (Secrets.server_sdk_keys inner.secret_mapping) key ≡ true
        → contains_key inner.sdk_clients key ≡ false
        → (t : Threads) × LockReach rw_lock
            (about_to_run
              (update_clients_locks crates inner)
              (update_mapping_locks crates inner new))
            t
          × (t.first ≢ [])
          × (t.second ≢ [])
          × ((u : Threads) → LockStep rw_lock t u → ⊥)
    update_clients-deadlock inner new key versioned newer listed missing =
        let listed_keys = Secrets.server_sdk_keys inner.secret_mapping in
        let tail =
          remove_unlisted_locks crates listed_keys (HashMap.keys inner.sdk_clients)
          ++ unread secret_mapping ∷ [] in
        let first =
          read sdk_clients ∷ unread sdk_clients ∷ sync_all_locks crates inner listed_keys ++ tail in
        let last = enter secret_mapping ∷ unwrite secret_mapping ∷ [] in
        let second = read secret_mapping ∷ unread secret_mapping ∷ announce secret_mapping ∷ last in
        let (rest, reach) =
          making inner key listed_keys tail second listed missing
            (looked _ second (began first second)) in
        rw (both_busy inner new versioned newer) (
          stuck rest,
          announced (read secret_mapping ∷ rest) last reach,
          (λ e. absurd (ground arith)),
          (λ e. absurd (ground arith)),
          no_step rest,
        )
