-- ===== src/Repo/Locks/Order.antt =====
-- Two threads that take the lock of the mapping before that of the clients, and none twice, never
-- wait for each other.
use feature_probe_server.Prelude.{
  ℕ, ◌≡◌, ◌≢◌, ◌+◌, ◌⊎◌, inl, inr, Bool, true, false, ◌||◌, none, some, List, [], ◌∷◌, ◌++◌, arith,
  Option-cases,
}
use feature_probe_server.Repo.Locks.{
  Lock, secret_mapping, sdk_clients, Op, read, unread, announce, enter, unwrite, LockState, Threads,
  RwLock, apply,
}

-- What a thread has of a lock.
pub data Mode : Type 0 where
  free reading announced writing : Mode

pub record Holds : Type 0 where
  pub mapping : Mode
  pub clients : Mode

abbrev pub nothing : Holds
nothing = record { mapping = free; clients = free }

abbrev pub mode_of : Holds → Lock → Mode
mode_of h secret_mapping = h.mapping
mode_of h sdk_clients = h.clients

abbrev pub with_mode : Holds → Lock → Mode → Holds
with_mode h secret_mapping m = record h { mapping = m }
with_mode h sdk_clients m = record h { clients = m }

-- A lock is asked for while neither it nor one that comes after it is held; and what is announced is
-- entered next.
abbrev pub Allowed : Op → Holds → Type 0
Allowed (read secret_mapping) h = (h.mapping ≡ free) × (h.clients ≡ free)
Allowed (read sdk_clients) h = (h.clients ≡ free) × (h.mapping ≢ announced)
Allowed (announce secret_mapping) h = (h.mapping ≡ free) × (h.clients ≡ free)
Allowed (announce sdk_clients) h = (h.clients ≡ free) × (h.mapping ≢ announced)
Allowed (unread secret_mapping) h = (h.mapping ≡ reading) × (h.clients ≢ announced)
Allowed (unread sdk_clients) h = (h.clients ≡ reading) × (h.mapping ≢ announced)
Allowed (unwrite secret_mapping) h = (h.mapping ≡ writing) × (h.clients ≢ announced)
Allowed (unwrite sdk_clients) h = (h.clients ≡ writing) × (h.mapping ≢ announced)
Allowed (enter secret_mapping) h = (h.mapping ≡ announced) × (h.clients ≡ free)
Allowed (enter sdk_clients) h = (h.clients ≡ announced) × (h.mapping ≢ announced)

abbrev pub after_op : Op → Holds → Holds
after_op (read l) h = with_mode h l reading
after_op (unread l) h = with_mode h l free
after_op (announce l) h = with_mode h l announced
after_op (enter l) h = with_mode h l writing
after_op (unwrite l) h = with_mode h l free

-- A program that keeps to this, from what is held before it to what is held after it.
abbrev pub Fits : Holds → List Op → Holds → Type 0
Fits h [] k = h ≡ k
Fits h (op ∷ ops) k = Allowed op h × Fits (after_op op h) ops k

pub Fits-append : (h k m : Holds) (p q : List Op) → Fits h p k → Fits k q m → Fits h (p ++ q) m
Fits-append h k m [] q e fq = rw e fq
Fits-append h k m (op ∷ p) q (allowed, fp) fq = (allowed, Fits-append (after_op op h) k m p q fp fq)

abbrev reads : Mode → ℕ
reads reading = 1
reads _ = 0

abbrev writes : Mode → Bool
writes announced = true
writes writing = true
writes _ = false

-- The lock that two threads have in these modes.
abbrev lock_in : Mode → Mode → LockState
lock_in a b = record { readers = reads a + reads b; writer = writes a || writes b }

-- Not two writers, and nobody beside one that has entered.
abbrev Compatible : Mode → Mode → Type 0
Compatible writing b = b ≡ free
Compatible announced b = (b ≡ free) ⊎ (b ≡ reading)
Compatible reading b = b ≢ writing
Compatible free b = Unit

pub record Agrees (own other : Holds) (t : Threads) : Type 0 where
  pub mapping : t.mapping_lock ≡ lock_in own.mapping other.mapping
  pub clients : t.clients_lock ≡ lock_in own.clients other.clients
  pub mapping_modes : Compatible own.mapping other.mapping
  pub clients_modes : Compatible own.clients other.clients

lock_in_comm : (a b : Mode) → lock_in a b ≡ lock_in b a
lock_in_comm a b = ground arith

Compatible-sym : (a b : Mode) → Compatible a b → Compatible b a
Compatible-sym a b h = ground arith

pub Agrees-sym : {own other : Holds} {t : Threads} → Agrees own other t → Agrees other own t
Agrees-sym {own} {other} h = record {
  mapping = ground (arith, h.mapping, lock_in_comm own.mapping other.mapping);
  clients = ground (arith, h.clients, lock_in_comm own.clients other.clients);
  mapping_modes = Compatible-sym own.mapping other.mapping h.mapping_modes;
  clients_modes = Compatible-sym own.clients other.clients h.clients_modes;
}

-- The other thread keeps the operation from being done.
abbrev pub blocked : Op → Holds → Bool
blocked (read l) other = writes (mode_of other l)
blocked (announce l) other = writes (mode_of other l)
blocked (enter l) other = elim (mode_of other l) [ reading ↦ true | _ ↦ false ]
blocked op other = false

-- Of two operations at most one is kept waiting.
pub one_runs :
    (p q : Op) (own other : Holds) {t : Threads}
    → Agrees own other t
    → Allowed p own
    → Allowed q other
    → blocked p other ≡ true
    → blocked q own ≡ false
one_runs p q own other h allowed_p allowed_q waits = ground arith

module _ (rw_lock : RwLock) where
  open rw_lock use {open_to_readers, task_fair}

  apply-ne-none :
      (op : Op) (own other : Holds) (t : Threads)
      → Agrees own other t
      → Allowed op own
      → blocked op other ≡ false
      → apply rw_lock op t ≢ none
  apply-ne-none (read secret_mapping) own other t h allowed runs =
      ground (arith, open_to_readers (reads other.mapping), h.mapping)
  apply-ne-none (read sdk_clients) own other t h allowed runs =
      ground (arith, open_to_readers (reads other.clients), h.clients)
  apply-ne-none (unread secret_mapping) own other t h allowed runs = ground (arith, h.mapping)
  apply-ne-none (unread sdk_clients) own other t h allowed runs = ground (arith, h.clients)
  apply-ne-none (announce secret_mapping) own other t h allowed runs = ground (arith, h.mapping)
  apply-ne-none (announce sdk_clients) own other t h allowed runs = ground (arith, h.clients)
  apply-ne-none (enter secret_mapping) own other t h allowed runs = ground (arith, h.mapping)
  apply-ne-none (enter sdk_clients) own other t h allowed runs = ground (arith, h.clients)
  apply-ne-none (unwrite secret_mapping) own other t h allowed runs = ground arith
  apply-ne-none (unwrite sdk_clients) own other t h allowed runs = ground arith

  -- An operation that is not kept waiting is done.
  pub apply_runs :
      (op : Op) (own other : Holds) (t : Threads)
      → Agrees own other t
      → Allowed op own
      → blocked op other ≡ false
      → (u : Threads) × (apply rw_lock op t ≡ some u)
  apply_runs op own other t h allowed runs = elim (Option-cases (apply rw_lock op t)) [
    | inl waits ↦ absurd (apply-ne-none op own other t h allowed runs waits)
    | inr done ↦ done
  ]

  -- The locks agree with the modes after an operation, and the programs are left as they were.
  pub apply-Agrees :
      (op : Op) (own other : Holds) (t u : Threads)
      → Agrees own other t
      → Allowed op own
      → apply rw_lock op t ≡ some u
      → Agrees (after_op op own) other u
  apply-Agrees (read secret_mapping) own other t u h allowed e =
      ground (arith, h.mapping, h.clients, task_fair (reads other.mapping))
  apply-Agrees (read sdk_clients) own other t u h allowed e =
      ground (arith, h.mapping, h.clients, task_fair (reads other.clients))
  apply-Agrees (unread secret_mapping) own other t u h allowed e =
      ground (arith, h.mapping, h.clients)
  apply-Agrees (unread sdk_clients) own other t u h allowed e = ground (arith, h.mapping, h.clients)
  apply-Agrees (announce secret_mapping) own other t u h allowed e =
      ground (arith, h.mapping, h.clients)
  apply-Agrees (announce sdk_clients) own other t u h allowed e =
      ground (arith, h.mapping, h.clients)
  apply-Agrees (enter secret_mapping) own other t u h allowed e =
      ground (arith, h.mapping, h.clients)
  apply-Agrees (enter sdk_clients) own other t u h allowed e = ground (arith, h.mapping, h.clients)
  apply-Agrees (unwrite secret_mapping) own other t u h allowed e =
      ground (arith, h.mapping, h.clients)
  apply-Agrees (unwrite sdk_clients) own other t u h allowed e =
      ground (arith, h.mapping, h.clients)
