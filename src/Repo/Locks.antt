-- ===== src/Repo/Locks.antt =====
-- The two read-write locks of `Inner` (src/repo.rs), and the order in which `update_clients` and
-- `update_mapping` take and release them. How the locks of `parking_lot` treat a reader while a
-- writer waits is a parameter.
pub mod Crowd
pub mod Deadlock
pub mod Finishes
pub mod Kept
pub mod Order
use feature_probe_server.Prelude.{
  ℕ, zero, suc, String, ◌≡◌, Bool, true, false, not, Option, none, some, List, [], ◌∷◌, ◌++◌, ltb,
  if◌then◌else◌,
}
use feature_probe_server.HashMap
use feature_probe_server.Crates.{Crates}
use feature_probe_server.Secrets
use feature_probe_server.Secrets.{SecretMapping}
use feature_probe_server.Repo.{Inner, sync_client}

pub data Lock : Type 0 where
  secret_mapping sdk_clients : Lock

-- `write` is two operations: the writer announces itself, and enters once the readers are gone.
pub data Op : Type 0 where
  read unread announce enter unwrite : Lock → Op

-- The readers that hold a lock, and whether a writer holds it or waits for it.
pub record LockState : Type 0 where
  pub readers : ℕ
  pub writer : Bool

-- Two threads, each with the operations that it still has to do.
pub record Threads : Type 0 where
  pub mapping_lock : LockState
  pub clients_lock : LockState
  pub first : List Op
  pub second : List Op

-- `RwLock`: with no writer about a reader enters at once; while a writer waits it does not ("readers
-- trying to acquire the lock will block even if the lock is unlocked when there are writers
-- waiting to acquire the lock").
pub record RwLock : Type 0 where
  pub may_read : LockState → Bool
  pub open_to_readers : (n : ℕ) → may_read (record { readers = n; writer = false }) ≡ true
  pub task_fair : (n : ℕ) → may_read (record { readers = n; writer = true }) ≡ false

abbrev pub write_locks : Lock → List Op → List Op
write_locks l held = announce l ∷ enter l ∷ held ++ unwrite l ∷ []

module _ (crates : Crates) where
  -- `Inner::sync`; `setup_notify` reads the mapping while the table of clients is held.
  unfoldable pub sync_locks : Inner crates → String → List Op
  sync_locks inner key =
      read sdk_clients
      ∷ unread sdk_clients
      ∷ (if HashMap.contains_key inner.sdk_clients key
          then []
          else write_locks sdk_clients (read secret_mapping ∷ unread secret_mapping ∷ []))

  unfoldable pub sync_all_locks : Inner crates → List String → List Op
  sync_all_locks inner [] = []
  sync_all_locks inner (key ∷ keys) =
      sync_locks inner key ++ sync_all_locks (sync_client crates inner key) keys

  unfoldable pub remove_unlisted_locks : List String → List String → List Op
  remove_unlisted_locks listed [] = []
  remove_unlisted_locks listed (key ∷ keys) =
      (if not (HashMap.contains listed key) then write_locks sdk_clients [] else [])
      ++ remove_unlisted_locks listed keys

  -- `update_clients` holds the mapping for reading from its first line to its end.
  unfoldable pub update_clients_locks : Inner crates → List Op
  update_clients_locks inner =
      let listed = Secrets.server_sdk_keys inner.secret_mapping in
      read secret_mapping
      ∷ read sdk_clients
      ∷ unread sdk_clients
      ∷ (if ltb 0 inner.secret_mapping.version
          then sync_all_locks inner listed
            ++ (remove_unlisted_locks listed (HashMap.keys inner.sdk_clients)
                ++ unread secret_mapping ∷ [])
          else unread secret_mapping ∷ [])

  unfoldable pub update_mapping_locks : Inner crates → SecretMapping → List Op
  update_mapping_locks inner new =
      read secret_mapping
      ∷ unread secret_mapping
      ∷ (if ltb inner.secret_mapping.version new.version then write_locks secret_mapping [] else [])

abbrev lock_of : Threads → Lock → LockState
lock_of t secret_mapping = t.mapping_lock
lock_of t sdk_clients = t.clients_lock

abbrev put_lock : Lock → LockState → Threads → Threads
put_lock secret_mapping s t = record t { mapping_lock = s }
put_lock sdk_clients s t = record t { clients_lock = s }

-- The lock after an operation; `none` while the operation has to wait.
abbrev pub apply : RwLock → Op → Threads → Option Threads
apply rw_lock (read l) t =
    let s = lock_of t l in
    if rw_lock.may_read s then some (put_lock l (record s { readers = suc s.readers }) t) else none
apply rw_lock (unread l) t =
    let s = lock_of t l in
    elim s.readers [ zero ↦ none | suc n ↦ some (put_lock l (record s { readers = n }) t) ]
apply rw_lock (announce l) t =
    let s = lock_of t l in
    if s.writer then none else some (put_lock l (record s { writer = true }) t)
apply rw_lock (enter l) t = elim (lock_of t l).readers [ zero ↦ some t | suc n ↦ none ]
apply rw_lock (unwrite l) t =
    let s = lock_of t l in some (put_lock l (record s { writer = false }) t)

-- One of the threads does its next operation.
pub data LockStep (rw_lock : RwLock) (t : Threads) : Threads → Type 0 where
  first_moves :
      (op : Op) (rest : List Op) (u : Threads)
      → t.first ≡ op ∷ rest
      → apply rw_lock op t ≡ some u
      → LockStep rw_lock t (record u { first = rest })
  second_moves :
      (op : Op) (rest : List Op) (u : Threads)
      → t.second ≡ op ∷ rest
      → apply rw_lock op t ≡ some u
      → LockStep rw_lock t (record u { second = rest })

pub data LockReach (rw_lock : RwLock) (t : Threads) : Threads → Type 0 where
  here : LockReach rw_lock t t
  next : {u v : Threads} → LockReach rw_lock t u → LockStep rw_lock u v → LockReach rw_lock t v

abbrev pub unlocked : LockState
unlocked = record { readers = 0; writer = false }

-- Two tasks about to run, no lock held.
abbrev pub about_to_run : List Op → List Op → Threads
about_to_run first second = record {
  mapping_lock = unlocked;
  clients_lock = unlocked;
  first = first;
  second = second;
}
