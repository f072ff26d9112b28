-- ===== src/Secrets/Versions.antt =====
-- The order of updates: `update_mapping` keeps the newest mapping that it has seen.
use Prim.Native.Nat.{max}
use mathlib.Core.List.{foldl, Memᴰ}
use feature_probe_server.Prelude.{
  ◌≡◌, refl, ◌∙◌, ◌⊎◌, All, ◌≢◌, ◌≤◌, ◌<◌, lt→ltb, List, [], ◌∷◌, arith, ltb, Bool-cases, inl, inr,
}
use feature_probe_server.Secrets.{SecretMapping, new, update_mapping}

-- The version after an update is the larger of the two: it never goes back.
pub version-update_mapping :
    (sm other : SecretMapping) → (update_mapping sm other).version ≡ max sm.version other.version
unfolding update_mapping
version-update_mapping sm other = ground arith

update_mapping_cases :
    (sm other : SecretMapping)
    → (update_mapping sm other ≡ sm) ⊎ (update_mapping sm other ≡ new other.version other.mapping)
unfolding update_mapping new
update_mapping_cases sm other = elim (Bool-cases (ltb sm.version other.version)) [
  | inl newer ↦ inr (rw newer)
  | inr old ↦ inl (rw old)
]

-- A newer mapping is taken over.
pub update_mapping-newer :
    (sm other : SecretMapping)
    → sm.version < other.version
    → update_mapping sm other ≡ new other.version other.mapping
unfolding update_mapping new
update_mapping-newer sm other h = rw (lt→ltb sm.version other.version h)

-- A mapping that is received again changes nothing.
pub update_mapping_idem :
    (sm other : SecretMapping)
    → update_mapping (update_mapping sm other) other ≡ update_mapping sm other
unfolding update_mapping
update_mapping_idem sm other = ground arith

-- Two mappings of different versions may arrive in either order.
update_mapping_comm :
    (sm a b : SecretMapping)
    → a.version ≢ b.version
    → update_mapping (update_mapping sm a) b ≡ update_mapping (update_mapping sm b) a
unfolding update_mapping
update_mapping_comm sm a b ne = ground arith

-- After any sequence of updates no mapping of the sequence is newer than the one that is held, and
-- that one is the mapping from before or, whole and with its index, one of the sequence.
pub foldl-update_mapping_newest :
    (sm : SecretMapping) (others : List SecretMapping)
    → let held = foldl update_mapping sm others in
      (sm.version ≤ held.version)
      × All (λ a. a.version ≤ held.version) others
      × ((held ≡ sm) ⊎ ((a : SecretMapping) × Memᴰ a others × (held ≡ new a.version a.mapping)))
foldl-update_mapping_newest sm [] = (omega arith, tt, inl refl)
foldl-update_mapping_newest sm (a ∷ others) =
    let (above, all, from) = foldl-update_mapping_newest (update_mapping sm a) others in
    let v = version-update_mapping sm a in
    (
      omega arith,
      (omega arith, all),
      elim from [
        | inr (b, listed, e) ↦ inr (b, Memᴰ.tail listed, e)
        | inl same ↦ elim (update_mapping_cases sm a) [
          | inl kept ↦ inl (same ∙ kept)
          | inr adopted ↦ inr (a, Memᴰ.head refl, same ∙ adopted)
        ]
      ],
    )
