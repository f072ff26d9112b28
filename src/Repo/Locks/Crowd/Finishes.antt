-- ===== src/Repo/Locks/Crowd/Finishes.antt =====
-- Threads that keep to the order of the locks come to their ends, however many they are.
use feature_probe_server.Prelude.{ℕ, zero, suc, ◌≡◌, refl, ◌+◌, inl, inr, List, arith}
use feature_probe_server.Repo.Locks.{Op, RwLock}
use feature_probe_server.Repo.Locks.Finishes.{length}
use feature_probe_server.Repo.Locks.Crowd.{
  Crowd, Moves, this, other, CrowdStep, moves, CrowdReach, here, next, size, HaveEnded,
}
use feature_probe_server.Repo.Locks.Crowd.Ordered.{IsOrdered, step-IsOrdered, Reach-IsOrdered}
use feature_probe_server.Repo.Locks.Crowd.Progress.{progress}

Moves-size : {op : Op} {ps qs : List (List Op)} → Moves op ps qs → size qs + 1 ≡ size ps
unfolding size length
Moves-size this = omega arith
Moves-size (other there) = omega (arith, Moves-size there)

module _ (rw_lock : RwLock) where
  step-size : {c d : Crowd} → CrowdStep rw_lock c d → size d.programs + 1 ≡ size c.programs
  step-size (moves op s qs there can) = Moves-size there

  -- A step before a run.
  before : {c d e : Crowd} → CrowdStep rw_lock c d → CrowdReach rw_lock d e → CrowdReach rw_lock c e
  before step here = next here step
  before step (next reach last) = next (before step reach) last

  finish_within :
      (n : ℕ) (c : Crowd)
      → size c.programs ≡ n
      → IsOrdered c
      → (d : Crowd) × CrowdReach rw_lock c d × HaveEnded d
  finish_within zero c is h = elim (progress rw_lock c h) [
    | inl ended ↦ (c, here, ended)
    | inr (d, step) ↦ absurd (omega (arith, step-size step))
  ]
  finish_within (suc n) c is h = elim (progress rw_lock c h) [
    | inl ended ↦ (c, here, ended)
    | inr (d, step) ↦
        let (e, reach, ended) =
          finish_within n d (omega (arith, step-size step)) (step-IsOrdered rw_lock step h) in
        (e, before step reach, ended)
  ]

  -- The operations that a run has done.
  pub steps : {c d : Crowd} → CrowdReach rw_lock c d → ℕ
  steps here = 0
  steps (next reach step) = steps reach + 1

  pub steps-size :
      {c d : Crowd} (reach : CrowdReach rw_lock c d)
      → steps reach + size d.programs ≡ size c.programs
  unfolding steps
  steps-size here = omega arith
  steps-size (next reach step) = omega (arith, steps-size reach, step-size step)

  pub finishes :
      {c d : Crowd}
      → IsOrdered c
      → CrowdReach rw_lock c d
      → (e : Crowd) × CrowdReach rw_lock d e × HaveEnded e
  finishes {d = d} h reach =
      finish_within (size d.programs) d refl (Reach-IsOrdered rw_lock reach h)
