-- ===== src/Repo/Locks/Crowd/Unended.antt =====
-- The threads that have not ended, and which of them to look at.
use feature_probe_server.Prelude.{
  ℕ, ◌≡◌, refl, ap, ◌≤◌, ◌<◌, ◌⊎◌, inl, inr, List, [], ◌∷◌, arith, All, ltb, Bool-cases,
}
use feature_probe_server.Repo.Locks.{Op}
use feature_probe_server.Repo.Locks.Order.{Holds, nothing, Allowed}
use feature_probe_server.Repo.Locks.Crowd.{Moves, this, other}
use feature_probe_server.Repo.Locks.Crowd.Ordered.{total, FitAll}

-- A thread that has not ended, with its next operation and what it holds.
pub record Next (hs : List Holds) (ps : List (List Op)) : Type 0 where
  pub op : Op
  pub after : List (List Op)
  pub there : Moves op ps after
  pub own : Holds
  pub allowed : Allowed op own
  pub counted : (f : Holds → ℕ) → f own ≤ total f hs

later :
    {h : Holds} {hs : List Holds} {p : List Op} {ps : List (List Op)}
    → Next hs ps
    → Next (h ∷ hs) (p ∷ ps)
unfolding total
later {h} n = record {
  op = n.op;
  after = _;
  there = other n.there;
  own = n.own;
  allowed = n.allowed;
  counted = λ f. omega (arith, n.counted f);
}

head_next :
    {h : Holds} {hs : List Holds} {op : Op} {rest : List Op} {ps : List (List Op)}
    → Allowed op h
    → Next (h ∷ hs) ((op ∷ rest) ∷ ps)
unfolding total
head_next {h} {op = op} allowed = record {
  op = op;
  after = _;
  there = this;
  own = h;
  allowed = allowed;
  counted = λ f. omega arith;
}

-- A thread that counts has not ended, if one that holds nothing does not count.
pub find :
    (f : Holds → ℕ) (hs : List Holds) (ps : List (List Op))
    → f nothing ≡ 0
    → FitAll hs ps
    → 0 < total f hs
    → (n : Next hs ps) × (0 < f n.own)
unfolding FitAll total later head_next
find f [] [] z fits some_count = absurd (omega arith)
find f [] (p ∷ ps) z fits some_count = absurd fits
find f (h ∷ hs) [] z fits some_count = absurd fits
find f (h ∷ hs) ([] ∷ ps) z (ended, fits) some_count =
    let (n, counts) = find f hs ps z fits (omega (arith, ap f ended)) in (later n, counts)
find f (h ∷ hs) ((op ∷ rest) ∷ ps) z ((allowed, fits), others) some_count =
    elim (Bool-cases (ltb 0 (f h))) [
      | inl counts ↦ (head_next allowed, ground (arith, counts))
      | inr idle ↦
          let (n, counts) = find f hs ps z others (ground (arith, idle)) in (later n, counts)
    ]

-- All have ended, or one has not.
pub some_next :
    (hs : List Holds) (ps : List (List Op)) → FitAll hs ps → All (λ p. p ≡ []) ps ⊎ Next hs ps
unfolding FitAll
some_next [] [] fits = inl tt
some_next [] (p ∷ ps) fits = absurd fits
some_next (h ∷ hs) [] fits = absurd fits
some_next (h ∷ hs) ((op ∷ rest) ∷ ps) ((allowed, fits), others) = inr (head_next allowed)
some_next (h ∷ hs) ([] ∷ ps) (ended, fits) = elim (some_next hs ps fits) [
  | inl all ↦ inl (refl, all)
  | inr n ↦ inr (later n)
]
