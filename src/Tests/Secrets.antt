-- ===== src/Tests/Secrets.antt =====
-- Runs of src/secrets.rs.
use mathlib.Core.List.{foldl, Memᴰ}
use feature_probe_server.Prelude.{
  String, ◌≡◌, refl, ◌≤◌, ◌⊎◌, ◌↔◌, true, some, [], ◌∷◌, arith, eq_iff, All,
}
use feature_probe_server.HashMap.{get, insert as map_insert}
use feature_probe_server.Secrets.{
  SecretMapping, default, deserialize, fill_reverse, new, update_mapping, client_sdk_key,
  server_sdk_key, insert, contains_server_sdk_key,
}
use feature_probe_server.Secrets.Invariant.{
  IsConsistent, default-IsConsistent, update_mapping-IsConsistent, insert_stale,
  contains_server_sdk_key_iff,
}
use feature_probe_server.Secrets.Versions.{foldl-update_mapping_newest}

abbrev two : SecretMapping
two = deserialize 2 (("client-1", "server-1") ∷ ("client-2", "server-2") ∷ [])

abbrev three : SecretMapping
three = deserialize 3 (("client-1", "server-3") ∷ [])

-- A deserialised mapping knows its server keys once it has been taken over.
taken_over : contains_server_sdk_key (update_mapping default two) "server-2" ≡ true
unfolding default update_mapping deserialize fill_reverse contains_server_sdk_key get map_insert
taken_over = refl

update_mapping-IsConsistent_example : IsConsistent (update_mapping default two)
unfolding deserialize get
update_mapping-IsConsistent_example =
    update_mapping-IsConsistent default two (refl, (refl, tt)) default-IsConsistent

abbrev one : SecretMapping
one = insert default "client-1" "server-1" 1

insert_stale_example :
    (contains_server_sdk_key (insert one "client-1" "server-2" 2) "server-1" ≡ true)
    × (client_sdk_key (insert one "client-1" "server-2" 2) "server-1" ≡ some "client-1")
    × (server_sdk_key (insert one "client-1" "server-2" 2) "client-1" ≡ some "server-2")
    × (¬ IsConsistent (insert one "client-1" "server-2" 2))
unfolding default insert client_sdk_key get map_insert
insert_stale_example =
    insert_stale one "client-1" "server-2" 2 "server-1" refl
      (ground (arith, eq_iff "server-1" "server-2"))

contains_server_sdk_key_iff_example :
    (contains_server_sdk_key default "server-1" ≡ true)
    ↔ ((c : String) × (server_sdk_key default c ≡ some "server-1"))
contains_server_sdk_key_iff_example = contains_server_sdk_key_iff default-IsConsistent "server-1"

newest_example :
    let held = foldl update_mapping default (three ∷ two ∷ []) in
    (default.version ≤ held.version)
    × All (λ a. a.version ≤ held.version) (three ∷ two ∷ [])
    × ((held ≡ default)
        ⊎ ((a : SecretMapping) × Memᴰ a (three ∷ two ∷ []) × (held ≡ new a.version a.mapping)))
newest_example = foldl-update_mapping_newest default (three ∷ two ∷ [])
