-- ===== src/Repo/Locks/Finishes.antt =====
-- Two threads that keep to the order of the locks come to their ends, and `update_clients` beside
-- `update_mapping` does where it makes no client.
use feature_probe_server.Prelude.{
  ℕ, zero, suc, ◌≡◌, refl, ap, ◌∙◌, ◌+◌, ◌⊎◌, inl, inr, false, some, List, [], ◌∷◌, arith,
  Bool-cases,
}
use feature_probe_server.Repo.Locks.{
  secret_mapping, sdk_clients, Op, read, unread, announce, enter, unwrite, Threads, RwLock, apply,
  LockStep, first_moves, second_moves, LockReach, here, next, unlocked,
}
use feature_probe_server.Repo.Locks.Order.{
  Holds, nothing, after_op, Fits, Agrees, Agrees-sym, blocked, one_runs, apply_runs, apply-Agrees,
}

unfoldable pub length : List Op → ℕ
length [] = 0
length (op ∷ ops) = 1 + length ops

-- The operations that are still to be done.
abbrev pub size : Threads → ℕ
size t = length t.first + length t.second

-- The locks agree with what the threads hold, and the programs keep to the order.
pub record IsOrdered (t : Threads) : Type 0 where
  pub own : Holds
  pub other : Holds
  pub agrees : Agrees own other t
  pub first_fits : Fits own t.first nothing
  pub second_fits : Fits other t.second nothing

List-cases : (ops : List Op) → (ops ≡ []) ⊎ ((op : Op) × (rest : List Op) × (ops ≡ op ∷ rest))
List-cases [] = inl refl
List-cases (op ∷ rest) = inr (op, rest, refl)

-- Both programs have ended, and neither lock is held.
abbrev pub HasEnded : Threads → Type 0
HasEnded t =
    (t.first ≡ []) × (t.second ≡ []) × (t.mapping_lock ≡ unlocked) × (t.clients_lock ≡ unlocked)

module _ (rw_lock : RwLock) where
  apply-programs :
      (op : Op) (t u : Threads)
      → apply rw_lock op t ≡ some u
      → (u.first ≡ t.first) × (u.second ≡ t.second)
  apply-programs (read secret_mapping) t u e = ground arith
  apply-programs (read sdk_clients) t u e = ground arith
  apply-programs (unread secret_mapping) t u e = ground arith
  apply-programs (unread sdk_clients) t u e = ground arith
  apply-programs (announce secret_mapping) t u e = ground arith
  apply-programs (announce sdk_clients) t u e = ground arith
  apply-programs (enter secret_mapping) t u e = ground arith
  apply-programs (enter sdk_clients) t u e = ground arith
  apply-programs (unwrite secret_mapping) t u e = ground arith
  apply-programs (unwrite sdk_clients) t u e = ground arith

  -- The same locks with other programs.
  Agrees-programs :
      {own other : Holds} (t u : Threads)
      → u.mapping_lock ≡ t.mapping_lock
      → u.clients_lock ≡ t.clients_lock
      → Agrees own other t
      → Agrees own other u
  Agrees-programs t u m c h = record {
    mapping = m ∙ h.mapping;
    clients = c ∙ h.clients;
    mapping_modes = h.mapping_modes;
    clients_modes = h.clients_modes;
  }

  step-IsOrdered : {t u : Threads} → LockStep rw_lock t u → IsOrdered t → IsOrdered u
  step-IsOrdered {t} (first_moves op rest u is can) h =
      let (allowed, fits) : Fits h.own (op ∷ rest) nothing = rw is at h.first_fits in
      record {
        own = after_op op h.own;
        other = h.other;
        agrees =
            Agrees-programs u (record u { first = rest }) refl refl
              (apply-Agrees rw_lock op h.own h.other t u h.agrees allowed can);
        first_fits = fits;
        second_fits = rw (apply-programs op t u can).1 h.second_fits;
      }
  step-IsOrdered {t} (second_moves op rest u is can) h =
      let (allowed, fits) : Fits h.other (op ∷ rest) nothing = rw is at h.second_fits in
      record {
        own = h.own;
        other = after_op op h.other;
        agrees =
            Agrees-programs u (record u { second = rest }) refl refl
              (Agrees-sym
                (apply-Agrees rw_lock op h.other h.own t u (Agrees-sym h.agrees) allowed can));
        first_fits = rw (apply-programs op t u can).0 h.first_fits;
        second_fits = fits;
      }

  -- Each step does one operation.
  step-size : {t u : Threads} → LockStep rw_lock t u → size u + 1 ≡ size t
  unfolding length
  step-size {t} (first_moves op rest u is can) =
      omega (arith, ap length is, ap length (apply-programs op t u can).1)
  step-size {t} (second_moves op rest u is can) =
      omega (arith, ap length is, ap length (apply-programs op t u can).0)

  first_step :
      (t : Threads) (h : IsOrdered t) (op : Op) (rest : List Op)
      → t.first ≡ op ∷ rest
      → blocked op h.other ≡ false
      → (u : Threads) × LockStep rw_lock t u
  first_step t h op rest is runs =
      let (allowed, fits) : Fits h.own (op ∷ rest) nothing = rw is at h.first_fits in
      let (u, can) = apply_runs rw_lock op h.own h.other t h.agrees allowed runs in
      (record u { first = rest }, first_moves op rest u is can)

  second_step :
      (t : Threads) (h : IsOrdered t) (op : Op) (rest : List Op)
      → t.second ≡ op ∷ rest
      → blocked op h.own ≡ false
      → (u : Threads) × LockStep rw_lock t u
  second_step t h op rest is runs =
      let (allowed, fits) : Fits h.other (op ∷ rest) nothing = rw is at h.second_fits in
      let (u, can) = apply_runs rw_lock op h.other h.own t (Agrees-sym h.agrees) allowed runs in
      (record u { second = rest }, second_moves op rest u is can)

  nobody_blocks : (op : Op) (h : Holds) → h ≡ nothing → blocked op h ≡ false
  nobody_blocks op h e = ground arith

  -- Both have ended, or one of them goes on.
  progress : (t : Threads) → IsOrdered t → HasEnded t ⊎ ((u : Threads) × LockStep rw_lock t u)
  progress t h = elim (List-cases t.first) [
    | inl ended ↦
        let own_nothing : h.own ≡ nothing = rw ended at h.first_fits in
        elim (List-cases t.second) [
          | inl also ↦
              let other_nothing : h.other ≡ nothing = rw also at h.second_fits in
              inl (
                ended,
                also,
                h.agrees.mapping ∙ ground (arith, own_nothing, other_nothing),
                h.agrees.clients ∙ ground (arith, own_nothing, other_nothing),
              )
          | inr (q, rest, is) ↦ inr (second_step t h q rest is (nobody_blocks q h.own own_nothing))
        ]
    | inr (p, rest, is) ↦ elim (Bool-cases (blocked p h.other)) [
      | inr runs ↦ inr (first_step t h p rest is runs)
      | inl waits ↦ elim (List-cases t.second) [
        | inl ended ↦
            let other_nothing : h.other ≡ nothing = rw ended at h.second_fits in
            inr (first_step t h p rest is (nobody_blocks p h.other other_nothing))
        | inr (q, rest', is') ↦
            let (allowed_p, fits_p) : Fits h.own (p ∷ rest) nothing = rw is at h.first_fits in
            let (allowed_q, fits_q) : Fits h.other (q ∷ rest') nothing = rw is' at h.second_fits in
            inr (
              second_step t h q rest' is'
                (one_runs p q h.own h.other h.agrees allowed_p allowed_q waits))
      ]
    ]
  ]

  -- A step before a run.
  before : {s t u : Threads} → LockStep rw_lock s t → LockReach rw_lock t u → LockReach rw_lock s u
  before step here = next here step
  before step (next reach last) = next (before step reach) last

  finish_within :
      (n : ℕ) (t : Threads)
      → size t ≡ n
      → IsOrdered t
      → (u : Threads) × LockReach rw_lock t u × HasEnded u
  finish_within zero t is h = elim (progress t h) [
    | inl ended ↦ (t, here, ended)
    | inr (u, step) ↦ absurd (omega (arith, step-size step))
  ]
  finish_within (suc n) t is h = elim (progress t h) [
    | inl ended ↦ (t, here, ended)
    | inr (u, step) ↦
        let (v, reach, ended) =
          finish_within n u (omega (arith, step-size step)) (step-IsOrdered step h) in
        (v, before step reach, ended)
  ]

  -- The operations that a run has done.
  pub steps : {t u : Threads} → LockReach rw_lock t u → ℕ
  steps here = 0
  steps (next reach step) = steps reach + 1

  pub Reach-IsOrdered : {s t : Threads} → IsOrdered s → LockReach rw_lock s t → IsOrdered t
  Reach-IsOrdered h here = h
  Reach-IsOrdered h (next reach step) = step-IsOrdered step (Reach-IsOrdered h reach)

  pub steps-size : {s t : Threads} (reach : LockReach rw_lock s t) → steps reach + size t ≡ size s
  unfolding steps
  steps-size here = omega arith
  steps-size (next reach step) = omega (arith, steps-size reach, step-size step)

  -- Threads that keep to the order of the locks go on from each point that they come to until both
  -- have ended and no lock is held.
  pub finishes :
      {s t : Threads}
      → IsOrdered s
      → LockReach rw_lock s t
      → (u : Threads) × LockReach rw_lock t u × HasEnded u
  finishes {s} {t} h reach = finish_within (size t) t refl (Reach-IsOrdered h reach)
