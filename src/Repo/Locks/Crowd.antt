-- ===== src/Repo/Locks/Crowd.antt =====
-- Any number of threads at the two locks of `Inner` (src/repo.rs): the methods that requests call, which
-- take them too, beside the two loops. The locks inside an SDK client are its own.
pub mod Counts
pub mod Ordered
pub mod Unended
pub mod Progress
pub mod Finishes
pub mod Requests
use feature_probe_server.Prelude.{
  ℕ, zero, suc, String, ◌≡◌, true, false, not, Option, none, some, List, [], ◌∷◌, ◌++◌, is_zero,
  if◌then◌else◌, All, ◌+◌,
}
use feature_probe_server.HashMap.{contains_key}
use feature_probe_server.Crates.{Crates}
use feature_probe_server.Secrets
use feature_probe_server.Repo.{Inner}
use feature_probe_server.Repo.Locks.{
  Lock, secret_mapping, sdk_clients, Op, read, unread, announce, enter, unwrite, LockState, RwLock,
  write_locks, unlocked,
}
use feature_probe_server.Repo.Locks.Finishes.{length}

-- The methods that a request calls.
pub data Request : Type 0 where
  secret_keys : Request
  server_sdk_repo_string client_sdk_eval_string client_sdk_events_string client_sync_now :
      String → Request

-- `repo_string`, `all_evaluated_string` or `all_event_string`, with the mapping held for reading.
abbrev pub reads_clients : List Op
reads_clients =
    read secret_mapping ∷ read sdk_clients ∷ unread sdk_clients ∷ unread secret_mapping ∷ []

abbrev pub reads_mapping : List Op
reads_mapping = read secret_mapping ∷ unread secret_mapping ∷ []

-- Whether the server key of a client key is there.
abbrev pub if_found : Option String → List Op
if_found none = reads_mapping
if_found (some server_sdk_key) = reads_clients

module _ (crates : Crates) where
  -- The two client reads, which look the server key up.
  abbrev pub client_read_locks : Inner crates → String → List Op
  client_read_locks inner key =
      if is_zero inner.secret_mapping.version
      then reads_mapping
      else if_found (Secrets.server_sdk_key inner.secret_mapping key)

  -- What a method does to the locks, if it finds this repository.
  unfoldable pub request_locks : Inner crates → Request → List Op
  request_locks inner secret_keys = reads_mapping
  request_locks inner (server_sdk_repo_string key) =
      if is_zero inner.secret_mapping.version
      then reads_mapping
      else if not (Secrets.contains_server_sdk_key inner.secret_mapping key)
      then reads_mapping
      else reads_clients
  request_locks inner (client_sdk_eval_string key) = client_read_locks inner key
  request_locks inner (client_sdk_events_string key) = client_read_locks inner key
  request_locks inner (client_sync_now key) = write_locks sdk_clients []

-- The two locks, and the operations that each thread still has to do.
pub record Crowd : Type 0 where
  pub mapping_lock : LockState
  pub clients_lock : LockState
  pub programs : List (List Op)

abbrev pub lock_in : Lock → Crowd → LockState
lock_in secret_mapping c = c.mapping_lock
lock_in sdk_clients c = c.clients_lock

abbrev pub with_lock : Lock → LockState → Crowd → Crowd
with_lock secret_mapping s c = record c { mapping_lock = s }
with_lock sdk_clients s c = record c { clients_lock = s }

abbrev pub lock_named : Op → Lock
lock_named (read l) = l
lock_named (unread l) = l
lock_named (announce l) = l
lock_named (enter l) = l
lock_named (unwrite l) = l

-- A lock after an operation on it; `none` while the operation has to wait.
abbrev pub act : RwLock → Op → LockState → Option LockState
act rw_lock (read l) s =
    if rw_lock.may_read s then some (record s { readers = suc s.readers }) else none
act rw_lock (unread l) s = elim s.readers [ zero ↦ none | suc n ↦ some (record s { readers = n }) ]
act rw_lock (announce l) s = if s.writer then none else some (record s { writer = true })
act rw_lock (enter l) s = elim s.readers [ zero ↦ some s | suc n ↦ none ]
act rw_lock (unwrite l) s = some (record s { writer = false })

-- One of the programs does its next operation.
pub data Moves (op : Op) : List (List Op) → List (List Op) → Type 0 where
  this : {rest : List Op} {ps : List (List Op)} → Moves op ((op ∷ rest) ∷ ps) (rest ∷ ps)
  other : {p : List Op} {ps qs : List (List Op)} → Moves op ps qs → Moves op (p ∷ ps) (p ∷ qs)

pub data CrowdStep (rw_lock : RwLock) (c : Crowd) : Crowd → Type 0 where
  moves :
      (op : Op) (s : LockState) (qs : List (List Op))
      → Moves op c.programs qs
      → act rw_lock op (lock_in (lock_named op) c) ≡ some s
      → CrowdStep rw_lock c (record (with_lock (lock_named op) s c) { programs = qs })

pub data CrowdReach (rw_lock : RwLock) (c : Crowd) : Crowd → Type 0 where
  here : CrowdReach rw_lock c c
  next : {d e : Crowd} → CrowdReach rw_lock c d → CrowdStep rw_lock d e → CrowdReach rw_lock c e

-- No lock is held yet.
abbrev pub gathered : List (List Op) → Crowd
gathered programs = record { mapping_lock = unlocked; clients_lock = unlocked; programs = programs }

-- The operations that are still to be done.
unfoldable pub size : List (List Op) → ℕ
size [] = 0
size (p ∷ ps) = length p + size ps

-- All have ended, and neither lock is held.
abbrev pub HaveEnded : Crowd → Type 0
HaveEnded c =
    All (λ p. p ≡ []) c.programs × (c.mapping_lock ≡ unlocked) × (c.clients_lock ≡ unlocked)
