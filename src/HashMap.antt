-- ===== src/HashMap.antt =====
-- `std::collections::HashMap<String, V>`, as the source uses it. The list is the order in which
-- an iteration meets the entries: Rust leaves that order open, and so the theorems speak of every
-- list whose keys are distinct (`IsMap`).
pub mod Laws
use feature_probe_server.Prelude.{
  String, ◌≡◌, Bool, false, ◌||◌, Option, none, some, List, [], ◌∷◌, map, ◌==◌, is_some,
  if◌then◌else◌,
}

abbrev pub HashMap {ℓ} : Type ℓ → Type ℓ
HashMap V = List (String × V)

module _ {ℓ} {V : Type ℓ} where
  unfoldable pub get : HashMap V → String → Option V
  get [] k = none
  get ((j, v) ∷ m) k = if j == k then some v else get m k

  abbrev pub contains_key : HashMap V → String → Bool
  contains_key m k = is_some (get m k)

  -- The value at a key that is there is replaced.
  unfoldable pub insert : HashMap V → String → V → HashMap V
  insert [] k v = (k, v) ∷ []
  insert ((j, w) ∷ m) k v = if j == k then (j, v) ∷ m else (j, w) ∷ insert m k v

  unfoldable pub remove : HashMap V → String → HashMap V
  remove [] k = []
  remove ((j, w) ∷ m) k = let rest = remove m k in if j == k then rest else (j, w) ∷ rest

  insert_all : HashMap V → List (String × V) → HashMap V
  insert_all m [] = m
  insert_all m ((k, v) ∷ entries) = insert_all (insert m k v) entries

  -- `Iterator::collect` into a map.
  unfoldable pub collect : List (String × V) → HashMap V
  unfolding insert_all
  collect entries = insert_all [] entries

  abbrev pub keys : HashMap V → List String
  keys = map (λ e. e.0)

  -- No key has two entries.
  abbrev pub IsMap : HashMap V → Type ℓ
  IsMap [] = Unit
  IsMap ((k, v) ∷ m) = (get m k ≡ none) × IsMap m

-- `Vec<String>::contains`
unfoldable pub contains : List String → String → Bool
contains [] k = false
contains (j ∷ js) k = j == k || contains js k
