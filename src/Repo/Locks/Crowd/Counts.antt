-- ===== src/Repo/Locks/Crowd/Counts.antt =====
-- How many threads read, wait for and write a lock, and what an operation makes of these numbers.
use feature_probe_server.Prelude.{ℕ, ◌≡◌, ◌+◌, ◌≤◌, ◌⊎◌, some, ltb, arith}
use feature_probe_server.Repo.Locks.{Op, read, unread, announce, enter, unwrite, LockState, RwLock}
use feature_probe_server.Repo.Locks.Order.{Mode, free, reading, announced, writing}
use feature_probe_server.Repo.Locks.Crowd.{act}

abbrev pub reads : Mode → ℕ
reads reading = 1
reads _ = 0

abbrev pub waits : Mode → ℕ
waits announced = 1
waits _ = 0

abbrev pub writes : Mode → ℕ
writes writing = 1
writes _ = 0

-- A lock with this many threads that read, wait to write and write.
pub record Fair (s : LockState) (r a w : ℕ) : Type 0 where
  pub readers : s.readers ≡ r
  pub writer : s.writer ≡ ltb 0 (a + w)
  pub one : a + w ≤ 1
  pub alone : (w ≡ 0) ⊎ (r ≡ 0)

-- The mode of a lock that an operation starts from, and the one that it leads to.
abbrev pub mode_before : Op → Mode
mode_before (read l) = free
mode_before (unread l) = reading
mode_before (announce l) = free
mode_before (enter l) = announced
mode_before (unwrite l) = writing

abbrev pub mode_after : Op → Mode
mode_after (read l) = reading
mode_after (unread l) = free
mode_after (announce l) = announced
mode_after (enter l) = writing
mode_after (unwrite l) = free

-- One thread's mode is replaced.
abbrev pub Replaced : (Mode → ℕ) → Op → ℕ → ℕ → Type 0
Replaced f op n m = n + f (mode_after op) ≡ m + f (mode_before op)

module _ (rw_lock : RwLock) where
  open rw_lock use {task_fair}

  pub act-Fair :
      (op : Op) {s s' : LockState} {r a w r' a' w' : ℕ}
      → Fair s r a w
      → act rw_lock op s ≡ some s'
      → Replaced reads op r r'
      → Replaced waits op a a'
      → Replaced writes op w w'
      → Fair s' r' a' w'
  act-Fair (read l) {s} {r = r} h e er ea ew = record {
    readers = ground (arith, h.readers);
    writer = ground (arith, h.writer);
    one = ground (arith, h.one);
    alone = ground (arith, h.readers, h.writer, task_fair r);
  }
  act-Fair (unread l) h e er ea ew = record {
    readers = ground (arith, h.readers);
    writer = ground (arith, h.writer, h.readers);
    one = ground (arith, h.one);
    alone = ground (arith, h.readers, h.alone);
  }
  act-Fair (announce l) h e er ea ew = record {
    readers = ground (arith, h.readers);
    writer = ground (arith, h.writer);
    one = ground (arith, h.writer);
    alone = ground (arith, h.writer);
  }
  act-Fair (enter l) h e er ea ew = record {
    readers = ground (arith, h.readers);
    writer = ground (arith, h.writer, h.readers);
    one = ground (arith, h.one);
    alone = ground (arith, h.readers);
  }
  act-Fair (unwrite l) h e er ea ew = record {
    readers = ground (arith, h.readers);
    writer = ground (arith, h.one);
    one = ground (arith, h.one);
    alone = ground (arith, h.one);
  }
