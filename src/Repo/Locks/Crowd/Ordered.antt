-- ===== src/Repo/Locks/Crowd/Ordered.antt =====
-- Threads that keep to the order of the locks: what they hold stays in agreement with the locks.
use feature_probe_server.Prelude.{
  ℕ, ◌≡◌, ◌≢◌, refl, ap, ◌+◌, ◌≤◌, ◌⊎◌, inl, inr, List, [], ◌∷◌, arith,
}
use feature_probe_server.Repo.Locks.{Lock, secret_mapping, sdk_clients, Op, LockState, RwLock}
use feature_probe_server.Repo.Locks.Order.{Mode, Holds, nothing, mode_of, Allowed, after_op, Fits}
use feature_probe_server.Repo.Locks.Crowd.{
  Crowd, lock_in, with_lock, lock_named, Moves, this, other, CrowdStep, moves, CrowdReach, here,
  next,
}
use feature_probe_server.Repo.Locks.Crowd.Counts.{
  reads, waits, writes, Fair, mode_before, mode_after, Replaced, act-Fair,
}

unfoldable pub total : (Holds → ℕ) → List Holds → ℕ
total f [] = 0
total f (h ∷ hs) = f h + total f hs

-- Each program keeps to the order, from what its thread holds to nothing.
unfoldable pub FitAll : List Holds → List (List Op) → Type 0
FitAll [] [] = Unit
FitAll (h ∷ hs) (p ∷ ps) = Fits h p nothing × FitAll hs ps
FitAll hs ps = ⊥

-- A thread with an operation that it may do, and what the threads hold after it.
pub record Moved (op : Op) (hs : List Holds) (qs : List (List Op)) : Type 0 where
  pub own : Holds
  pub after : List Holds
  pub allowed : Allowed op own
  pub fits : FitAll after qs
  pub replaced : (f : Holds → ℕ) → total f hs + f (after_op op own) ≡ total f after + f own
  pub counted : (f : Holds → ℕ) → f own ≤ total f hs

pub moved :
    (op : Op) (hs : List Holds) {ps qs : List (List Op)}
    → Moves op ps qs
    → FitAll hs ps
    → Moved op hs qs
unfolding FitAll total
moved op [] this fits = absurd fits
moved op [] (other there) fits = absurd fits
moved op (h ∷ hs) this ((allowed, fits), rest) = record {
  own = h;
  after = after_op op h ∷ hs;
  allowed = allowed;
  fits = (fits, rest);
  replaced = λ f. omega arith;
  counted = λ f. omega arith;
}
moved op (h ∷ hs) (other there) (fits, rest) =
    let m = moved op hs there rest in
    record {
      own = m.own;
      after = h ∷ m.after;
      allowed = m.allowed;
      fits = (fits, m.fits);
      replaced = λ f. omega (arith, m.replaced f);
      counted = λ f. omega (arith, m.counted f);
    }

-- The locks have as many readers and writers as the threads say.
abbrev pub IsFair : Lock → LockState → List Holds → Type 0
IsFair l s hs =
    Fair s (total (λ h. reads (mode_of h l)) hs) (total (λ h. waits (mode_of h l)) hs)
      (total (λ h. writes (mode_of h l)) hs)

pub record IsOrdered (c : Crowd) : Type 0 where
  pub holds : List Holds
  pub fits : FitAll holds c.programs
  pub fair : (l : Lock) → IsFair l (lock_in l c) holds

-- The mode of the lock of an operation, before and after it.
before_lem : (op : Op) (h : Holds) → Allowed op h → mode_of h (lock_named op) ≡ mode_before op
before_lem op h allowed = ground arith

after_lem : (op : Op) (h : Holds) → mode_of (after_op op h) (lock_named op) ≡ mode_after op
after_lem op h = ground arith

elsewhere :
    (op : Op) (h : Holds) (k : Lock) → k ≢ lock_named op → mode_of (after_op op h) k ≡ mode_of h k
elsewhere op h k apart = ground arith

lock_cases : (k l : Lock) → (k ≡ l) ⊎ (k ≢ l)
lock_cases secret_mapping secret_mapping = inl refl
lock_cases secret_mapping sdk_clients = inr (λ e. ground arith)
lock_cases sdk_clients secret_mapping = inr (λ e. ground arith)
lock_cases sdk_clients sdk_clients = inl refl

put_there :
    (l : Lock) (s : LockState) (qs : List (List Op)) (c : Crowd)
    → lock_in l (record (with_lock l s c) { programs = qs }) ≡ s
put_there l s qs c = ground arith

put_elsewhere :
    (k l : Lock) (s : LockState) (qs : List (List Op)) (c : Crowd)
    → k ≢ l
    → lock_in k (record (with_lock l s c) { programs = qs }) ≡ lock_in k c
put_elsewhere k l s qs c apart = ground arith

-- A number of the threads whose mode of the lock of an operation counts, before and after it.
swapped_there :
    (f : Mode → ℕ) (op : Op) {hs : List Holds} {qs : List (List Op)} (m : Moved op hs qs)
    → Replaced f op
        (total (λ h. f (mode_of h (lock_named op))) hs)
        (total (λ h. f (mode_of h (lock_named op))) m.after)
swapped_there f op m = ground (
  arith,
  before_lem op m.own m.allowed,
  after_lem op m.own,
  m.replaced (λ h. f (mode_of h (lock_named op))),
)

kept_elsewhere :
    (f : Mode → ℕ) (op : Op) (k : Lock) {hs : List Holds} {qs : List (List Op)} (m : Moved op hs qs)
    → k ≢ lock_named op
    → total (λ h. f (mode_of h k)) m.after ≡ total (λ h. f (mode_of h k)) hs
kept_elsewhere f op k m apart =
    omega (arith, ap f (elsewhere op m.own k apart), m.replaced (λ h. f (mode_of h k)))

module _ (rw_lock : RwLock) where
  pub step-IsOrdered : {c d : Crowd} → CrowdStep rw_lock c d → IsOrdered c → IsOrdered d
  step-IsOrdered {c} (moves op s qs there can) h =
      let m = moved op h.holds there h.fits in
      record {
        holds = m.after;
        fits = m.fits;
        fair = λ k. elim (lock_cases k (lock_named op)) [
          | inl e ↦
              rw (e, put_there (lock_named op) s qs c)
                (act-Fair rw_lock op (h.fair (lock_named op)) can (swapped_there reads op m)
                  (swapped_there waits op m) (swapped_there writes op m))
          | inr apart ↦
              rw
                (
                  put_elsewhere k (lock_named op) s qs c apart,
                  kept_elsewhere reads op k m apart,
                  kept_elsewhere waits op k m apart,
                  kept_elsewhere writes op k m apart,
                )
                (h.fair k)
        ];
      }

  pub Reach-IsOrdered : {c d : Crowd} → CrowdReach rw_lock c d → IsOrdered c → IsOrdered d
  Reach-IsOrdered here h = h
  Reach-IsOrdered (next reach step) h = step-IsOrdered step (Reach-IsOrdered reach h)
