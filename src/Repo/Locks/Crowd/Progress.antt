-- ===== src/Repo/Locks/Crowd/Progress.antt =====
-- Of the threads that keep to the order of the locks, one can always go on.
use feature_probe_server.Prelude.{
  ℕ, ◌≡◌, ◌≢◌, refl, ◌+◌, ◌<◌, ◌⊎◌, inl, inr, none, List, arith, Option-cases,
}
use feature_probe_server.Repo.Locks.{
  Lock, secret_mapping, sdk_clients, Op, read, unread, announce, enter, unwrite, LockState, RwLock,
  unlocked,
}
use feature_probe_server.Repo.Locks.Order.{Mode, free, Holds, mode_of}
use feature_probe_server.Repo.Locks.Crowd.{
  Crowd, lock_in, lock_named, act, CrowdStep, moves, HaveEnded,
}
use feature_probe_server.Repo.Locks.Crowd.Counts.{reads, waits, writes}
use feature_probe_server.Repo.Locks.Crowd.Ordered.{total, IsFair, IsOrdered}
use feature_probe_server.Repo.Locks.Crowd.Unended.{Next, find, some_next}

abbrev count : (Mode → ℕ) → Lock → List Holds → ℕ
count f l hs = total (λ h. f (mode_of h l)) hs

-- Nothing keeps an operation waiting.
abbrev IsClear : Op → List Holds → Type 0
IsClear (read l) hs = count waits l hs + count writes l hs ≡ 0
IsClear (unread l) hs = 0 < count reads l hs
IsClear (announce l) hs = count waits l hs + count writes l hs ≡ 0
IsClear (enter l) hs = count reads l hs ≡ 0
IsClear (unwrite l) hs = Unit

module _ (rw_lock : RwLock) where
  open rw_lock use {open_to_readers}

  act-ne-none :
      (op : Op) (s : LockState) (hs : List Holds)
      → IsFair (lock_named op) s hs
      → IsClear op hs
      → act rw_lock op s ≢ none
  act-ne-none (read l) s hs h clear =
      ground (arith, h.readers, h.writer, clear, open_to_readers (count reads l hs))
  act-ne-none (unread l) s hs h clear = ground (arith, h.readers, clear)
  act-ne-none (announce l) s hs h clear = ground (arith, h.writer, clear)
  act-ne-none (enter l) s hs h clear = ground (arith, h.readers, clear)
  act-ne-none (unwrite l) s hs h clear = ground arith

  next_step :
      (c : Crowd) (h : IsOrdered c) (n : Next h.holds c.programs)
      → IsClear n.op h.holds
      → (d : Crowd) × CrowdStep rw_lock c d
  next_step c h n clear = elim (Option-cases (act rw_lock n.op (lock_in (lock_named n.op) c))) [
    | inl kept ↦ absurd (act-ne-none n.op _ h.holds (h.fair (lock_named n.op)) clear kept)
    | inr (s, can) ↦ (_, moves n.op s n.after n.there can)
  ]

-- A thread that has the clients is not kept waiting, where nobody reads them if it waits to write.
holder_goes :
    (hs : List Holds) {ps : List (List Op)} (n : Next hs ps)
    → ((0 < reads n.own.clients) ⊎ (0 < writes n.own.clients))
      ⊎ ((0 < waits n.own.clients) × (count reads sdk_clients hs ≡ 0))
    → IsClear n.op hs
holder_goes hs n has =
    ground (arith, n.counted (λ h. reads h.mapping), n.counted (λ h. reads h.clients), n.allowed)

-- Nobody has the clients.
abbrev IsQuiet : Lock → List Holds → Type 0
IsQuiet l hs = (count reads l hs ≡ 0) × (count waits l hs ≡ 0) × (count writes l hs ≡ 0)

-- Where nobody has the clients, a thread that has the mapping is not kept waiting, if nobody reads it
-- where it waits to write.
mapper_goes :
    (hs : List Holds) {ps : List (List Op)} (n : Next hs ps)
    → IsQuiet sdk_clients hs
    → ((0 < reads n.own.mapping) ⊎ (0 < writes n.own.mapping))
      ⊎ ((0 < waits n.own.mapping) × (count reads secret_mapping hs ≡ 0))
    → IsClear n.op hs
mapper_goes hs n (no_reader, no_waiter, no_writer) has = ground (
  arith,
  n.counted (λ h. reads h.mapping),
  n.counted (λ h. reads h.clients),
  n.counted (λ h. waits h.clients),
  n.counted (λ h. writes h.clients),
  n.allowed,
)

-- Where nobody has a lock, none is kept waiting.
first_goes :
    (hs : List Holds) {ps : List (List Op)} (n : Next hs ps)
    → IsQuiet sdk_clients hs
    → IsQuiet secret_mapping hs
    → IsClear n.op hs
first_goes hs n (a, b, c) (d, e, g) = ground (
  arith,
  n.counted (λ h. reads h.mapping),
  n.counted (λ h. reads h.clients),
  n.counted (λ h. waits h.clients),
  n.counted (λ h. writes h.clients),
  n.counted (λ h. waits h.mapping),
  n.counted (λ h. writes h.mapping),
  n.allowed,
)

module _ (rw_lock : RwLock) where
  Goes : Crowd → Type 0
  Goes c = (d : Crowd) × CrowdStep rw_lock c d

  -- A kind of mode that some thread has, of a thread that goes on.
  take_turn :
      (c : Crowd) (h : IsOrdered c) (f : Mode → ℕ) (l : Lock)
      → f free ≡ 0
      → 0 < count f l h.holds
      → ((n : Next h.holds c.programs) → 0 < f (mode_of n.own l) → IsClear n.op h.holds)
      → Goes c
  unfolding Goes
  take_turn c h f l z some_count clear =
      let (n, counts) =
        find (λ k. f (mode_of k l)) h.holds c.programs (ground (arith, z)) h.fits some_count in
      next_step rw_lock c h n (clear n counts)

  unused_or_had :
      (c : Crowd) (h : IsOrdered c) (l : Lock)
      → IsQuiet l h.holds
        ⊎ (((0 < count reads l h.holds) ⊎ (0 < count writes l h.holds))
            ⊎ ((0 < count waits l h.holds) × (count reads l h.holds ≡ 0)))
  unused_or_had c h l = ground arith

  some_holder :
      (c : Crowd) (h : IsOrdered c)
      → ((0 < count reads sdk_clients h.holds) ⊎ (0 < count writes sdk_clients h.holds))
        ⊎ ((0 < count waits sdk_clients h.holds) × (count reads sdk_clients h.holds ≡ 0))
      → Goes c
  some_holder c h (inl (inl some_read)) =
      take_turn c h reads sdk_clients refl some_read
        (λ n has. holder_goes h.holds n (inl (inl has)))
  some_holder c h (inl (inr some_write)) =
      take_turn c h writes sdk_clients refl some_write
        (λ n has. holder_goes h.holds n (inl (inr has)))
  some_holder c h (inr (some_wait, no_reader)) =
      take_turn c h waits sdk_clients refl some_wait
        (λ n has. holder_goes h.holds n (inr (has, no_reader)))

  some_mapper :
      (c : Crowd) (h : IsOrdered c)
      → IsQuiet sdk_clients h.holds
      → ((0 < count reads secret_mapping h.holds) ⊎ (0 < count writes secret_mapping h.holds))
        ⊎ ((0 < count waits secret_mapping h.holds) × (count reads secret_mapping h.holds ≡ 0))
      → Goes c
  some_mapper c h quiet (inl (inl some_read)) =
      take_turn c h reads secret_mapping refl some_read
        (λ n has. mapper_goes h.holds n quiet (inl (inl has)))
  some_mapper c h quiet (inl (inr some_write)) =
      take_turn c h writes secret_mapping refl some_write
        (λ n has. mapper_goes h.holds n quiet (inl (inr has)))
  some_mapper c h quiet (inr (some_wait, no_reader)) =
      take_turn c h waits secret_mapping refl some_wait
        (λ n has. mapper_goes h.holds n quiet (inr (has, no_reader)))

  unused_unlocked :
      (s : LockState) (l : Lock) (hs : List Holds) → IsFair l s hs → IsQuiet l hs → s ≡ unlocked
  unused_unlocked s l hs h (no_reader, no_waiter, no_writer) = ground (arith, h.readers, h.writer)

  -- All have ended and no lock is held, or one goes on.
  pub progress : (c : Crowd) → IsOrdered c → HaveEnded c ⊎ ((d : Crowd) × CrowdStep rw_lock c d)
  unfolding Goes
  progress c h = elim (unused_or_had c h sdk_clients) [
    | inr had ↦ inr (some_holder c h had)
    | inl quiet ↦ elim (unused_or_had c h secret_mapping) [
      | inr had ↦ inr (some_mapper c h quiet had)
      | inl quiet' ↦ elim (some_next h.holds c.programs h.fits) [
        | inr n ↦ inr (next_step rw_lock c h n (first_goes h.holds n quiet quiet'))
        | inl ended ↦ inl (
          ended,
          unused_unlocked c.mapping_lock secret_mapping h.holds (h.fair secret_mapping) quiet',
          unused_unlocked c.clients_lock sdk_clients h.holds (h.fair sdk_clients) quiet,
        )
      ]
    ]
  ]
