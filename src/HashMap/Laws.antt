-- ===== src/HashMap/Laws.antt =====
-- What a `get` reads after each operation of a map.
use feature_probe_server.Prelude.{
  String, ◌≡◌, refl, Option, none, some, List, [], ◌∷◌, arith, ◌==◌, eq_iff, eq_refl, if◌then◌else◌,
}
use feature_probe_server.HashMap.{
  HashMap, get, contains_key, insert, remove, keys, IsMap, contains, insert_all, collect,
}

module _ {ℓ} {V : Type ℓ} where
  pub get-nil : (k : String) → get {V = V} [] k ≡ none
  unfolding get
  get-nil k = refl

  pub get-insert :
      (m : HashMap V) (k j : String) (v : V)
      → get (insert m k v) j ≡ (if k == j then some v else get m j)
  unfolding get insert
  get-insert [] k j v = refl
  get-insert ((i, w) ∷ m) k j v =
      ground (arith, eq_iff k j, eq_iff i k, eq_iff i j, get-insert m k j v)

  pub get-remove :
      (m : HashMap V) (k j : String) → get (remove m k) j ≡ (if k == j then none else get m j)
  unfolding get remove
  get-remove [] k j = ground arith
  get-remove ((i, w) ∷ m) k j = ground (arith, eq_iff k j, eq_iff i k, eq_iff i j, get-remove m k j)

  pub contains-keys : (m : HashMap V) (k : String) → contains (keys m) k ≡ contains_key m k
  unfolding get contains
  contains-keys [] k = refl
  contains-keys ((j, v) ∷ m) k = ground (arith, contains-keys m k)

  pub insert-IsMap : (m : HashMap V) (k : String) (v : V) → IsMap m → IsMap (insert m k v)
  unfolding insert
  insert-IsMap [] k v h = (get-nil k, tt)
  insert-IsMap ((j, w) ∷ m) k v (fresh, h) =
      ground (arith, eq_iff j k, eq_iff k j, get-insert m k j v, insert-IsMap m k v h)

  pub remove-IsMap : (m : HashMap V) (k : String) → IsMap m → IsMap (remove m k)
  unfolding remove
  remove-IsMap [] k h = tt
  remove-IsMap ((j, w) ∷ m) k (fresh, h) = ground (arith, get-remove m k j, remove-IsMap m k h)

pub ruleset map_laws = (get-nil, get-insert, get-remove, eq_refl)

module _ {ℓ} {V : Type ℓ} where
  get-insert_all :
      (m : HashMap V) (entries : List (String × V)) (k : String)
      → IsMap entries
      → get (insert_all m entries) k ≡ (if contains_key entries k then get entries k else get m k)
  unfolding insert_all get
  get-insert_all m [] k h = refl
  get-insert_all m ((j, v) ∷ entries) k (fresh, h) =
      ground (arith, eq_iff j k, get-insert m j k v, get-insert_all (insert m j v) entries k h)

  -- Entries with distinct keys are all collected.
  pub get-collect :
      (entries : List (String × V)) (k : String)
      → IsMap entries
      → get (collect entries) k ≡ get entries k
  unfolding collect
  get-collect entries k h = ground (arith, get-insert_all [] entries k h, get-nil {V = V} k)
