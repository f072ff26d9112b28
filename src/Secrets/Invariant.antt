-- ===== src/Secrets/Invariant.antt =====
-- The two directions of a `SecretMapping` agree: what `update_mapping` establishes, and when
-- `insert` keeps it.
use feature_probe_server.Prelude.{
  ℕ, String, ◌≡◌, ◌↔◌, ◌≢◌, ◌⊎◌, inl, inr, true, some, [], ◌∷◌, arith, ◌==◌, eq_iff, ltb,
  Bool-cases, Option-cases,
}
use feature_probe_server.HashMap
use feature_probe_server.HashMap.{HashMap, get, IsMap}
use feature_probe_server.HashMap.Laws.{get-nil, get-insert, insert-IsMap, map_laws}
use feature_probe_server.Secrets.{
  SecretMapping, default, fill_reverse, new, update_mapping, client_sdk_key, server_sdk_key, insert,
  contains_server_sdk_key,
}

-- A server key that is filled in was there before, or an entry leads to it.
fill_reverse_sound :
    (acc entries : HashMap String) (s c : String)
    → IsMap entries
    → get (fill_reverse acc entries) s ≡ some c
    → (get acc s ≡ some c) ⊎ (get entries c ≡ some s)
unfolding fill_reverse get
fill_reverse_sound acc [] s c h e = inl e
fill_reverse_sound acc ((k, v) ∷ entries) s c (fresh, h) e =
    elim (fill_reverse_sound (HashMap.insert acc v k) entries s c h e) [
      | inl old ↦ ground (arith, eq_iff v s, eq_iff k c, get-insert acc v s k)
      | inr later ↦ ground (arith, eq_iff k c)
    ]

fill_reverse_keeps :
    (acc entries : HashMap String) (s c : String)
    → get acc s ≡ some c
    → (d : String) × (get (fill_reverse acc entries) s ≡ some d)
unfolding fill_reverse
fill_reverse_keeps acc [] s c e = (c, e)
fill_reverse_keeps acc ((k, v) ∷ entries) s c e =
    elim (Option-cases (get (HashMap.insert acc v k) s)) [
      | inl missing ↦ absurd (ground (arith, get-insert acc v s k))
      | inr (d, found) ↦ fill_reverse_keeps (HashMap.insert acc v k) entries s d found
    ]

-- Every entry's server key is filled in.
fill_reverse_complete :
    (acc entries : HashMap String) (s c : String)
    → get entries c ≡ some s
    → (d : String) × (get (fill_reverse acc entries) s ≡ some d)
unfolding fill_reverse get
fill_reverse_complete acc [] s c e = absurd (ground arith)
fill_reverse_complete acc ((k, v) ∷ entries) s c e = elim (Bool-cases (k == c)) [
  | inl here ↦
      fill_reverse_keeps (HashMap.insert acc v k) entries s k
        (ground (arith, eq_iff v s, get-insert acc v s k))
  | inr later ↦ fill_reverse_complete (HashMap.insert acc v k) entries s c (ground arith)
]

-- `reverse` holds exactly the server keys that a client key leads to, and each leads back.
pub record IsConsistent (sm : SecretMapping) : Type 0 where
  pub is_map : IsMap sm.mapping
  pub sound : (s c : String) → client_sdk_key sm s ≡ some c → server_sdk_key sm c ≡ some s
  pub complete : (s c : String) → server_sdk_key sm c ≡ some s → contains_server_sdk_key sm s ≡ true

-- The mapping with no pairs is consistent.
pub default-IsConsistent : IsConsistent default
unfolding default client_sdk_key server_sdk_key
default-IsConsistent = record {
  is_map = tt;
  sound = λ s c e. cc (e, get-nil {V = String} s);
  complete = λ s c e. cc (e, get-nil {V = String} c);
}

pub new-IsConsistent :
    (version : ℕ) (mapping : HashMap String) → IsMap mapping → IsConsistent (new version mapping)
unfolding new client_sdk_key server_sdk_key contains_server_sdk_key
new-IsConsistent version mapping m = record {
  is_map = m;
  sound = λ s c e. elim (fill_reverse_sound [] mapping s c m e) [
    | inl old ↦ absurd (ground (arith, get-nil {V = String} s))
    | inr found ↦ found
  ];
  complete = λ s c e. let (d, found) = fill_reverse_complete [] mapping s c e in rw found;
}

-- `update_mapping` keeps the two directions in agreement, whatever the `reverse` of the mapping
-- that it is given (a deserialised one has none), if that mapping's client keys are distinct.
pub update_mapping-IsConsistent :
    (sm other : SecretMapping)
    → IsMap other.mapping
    → IsConsistent sm
    → IsConsistent (update_mapping sm other)
unfolding update_mapping new
update_mapping-IsConsistent sm other m h = elim (Bool-cases (ltb sm.version other.version)) [
  | inl newer ↦ rw newer (new-IsConsistent other.version other.mapping m)
  | inr old ↦ rw old h
]

-- In a consistent mapping a server key is known exactly if some client key leads to it.
pub contains_server_sdk_key_iff :
    {sm : SecretMapping} (h : IsConsistent sm) (s : String)
    → (contains_server_sdk_key sm s ≡ true) ↔ ((c : String) × (server_sdk_key sm c ≡ some s))
unfolding contains_server_sdk_key client_sdk_key
contains_server_sdk_key_iff {sm} h s = (
  λ known. elim (Option-cases (get sm.reverse s)) [
    | inl missing ↦ absurd (ground arith)
    | inr (c, found) ↦ (c, h.sound s c found)
  ],
  λ (c, leads). h.complete s c leads,
)

contains_of_client_sdk_key :
    (sm : SecretMapping) (t c : String)
    → client_sdk_key sm t ≡ some c
    → contains_server_sdk_key sm t ≡ true
unfolding client_sdk_key contains_server_sdk_key
contains_of_client_sdk_key sm t c e = rw e

module _ (sm : SecretMapping) (c s : String) (version : ℕ) where
  -- `insert` keeps the two directions in agreement if the client key is new, or is paired with
  -- the same server key already.
  pub insert-IsConsistent :
      ((t : String) → server_sdk_key sm c ≡ some t → t ≡ s)
      → IsConsistent sm
      → IsConsistent (insert sm c s version)
  unfolding insert client_sdk_key server_sdk_key contains_server_sdk_key
  insert-IsConsistent same h = record {
    is_map = insert-IsMap sm.mapping c s h.is_map;
    sound = λ t d e. ground (
      arith,
      eq_iff s t,
      eq_iff c d,
      get-insert sm.reverse s t c,
      get-insert sm.mapping c d s,
      h.sound t d,
      same t,
    );
    complete = λ t d e. ground (
      arith,
      eq_iff s t,
      eq_iff c d,
      get-insert sm.reverse s t c,
      get-insert sm.mapping c d s,
      h.complete t d,
    );
  }

  pub server_sdk_key-insert : server_sdk_key (insert sm c s version) c ≡ some s
  unfolding insert server_sdk_key
  server_sdk_key-insert = simp map_laws

  client_sdk_key-insert_ne :
      (t : String)
      → t ≢ s
      → client_sdk_key sm t ≡ some c
      → client_sdk_key (insert sm c s version) t ≡ some c
  unfolding insert client_sdk_key
  client_sdk_key-insert_ne t ne e = ground (arith, eq_iff s t, get-insert sm.reverse s t c)

  -- A client key that is moved to another server key leaves the old server key behind: it is
  -- still known, and its entry names a client that no longer leads to it.
  pub insert_stale :
      (t : String)
      → client_sdk_key sm t ≡ some c
      → t ≢ s
      → (contains_server_sdk_key (insert sm c s version) t ≡ true)
        × (client_sdk_key (insert sm c s version) t ≡ some c)
        × (server_sdk_key (insert sm c s version) c ≡ some s)
        × (¬ IsConsistent (insert sm c s version))
  insert_stale t e ne =
      let known = client_sdk_key-insert_ne t ne e in
      (
        contains_of_client_sdk_key (insert sm c s version) t c known,
        known,
        server_sdk_key-insert,
        λ h. ne (ground (arith, h.sound t c known, server_sdk_key-insert)),
      )
