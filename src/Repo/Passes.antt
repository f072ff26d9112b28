-- ===== src/Repo/Passes.antt =====
-- `Inner::update_clients` of src/repo.rs taken apart: it releases the table of clients after each key,
-- and SDK clients go on, by themselves or told by a request, in between. The mapping stays, since its
-- lock is held throughout.
use feature_probe_server.Prelude.{
  String, ◌≡◌, ltb, refl, ◌∙◌, Bool, false, not, ◌||◌, ◌&&◌, some, List, [], ◌∷◌, arith, eq_iff,
  if◌then◌else◌,
}
use feature_probe_server.HashMap.{get, insert, contains, contains_key, keys}
use feature_probe_server.HashMap.Laws.{get-insert, contains-keys}
use feature_probe_server.Crates.{Crates}
use feature_probe_server.Secrets
use feature_probe_server.Repo.{Inner, sync_client, sync_all, remove_unlisted}
use feature_probe_server.Repo.Clients.{
  get-sync_client, get-sync_all, get-remove_unlisted, get-unless_listed, unless_listed,
}
use feature_probe_server.Repo.Steps.{Relied, OwnClients}
use feature_probe_server.Repo.Steps.Sound.{replaced-own}
use feature_probe_server.Repo.Steps.Begin.{sync_client-own}

-- A call of `update_clients` that runs: the keys that it has still to synchronise, and the keys of the
-- clients that it has still to check.
pub record Pass (crates : Crates) : Type 0 where
  pub inner : Inner crates
  pub to_sync : List String
  pub to_check : List String

-- The call has taken its lists; without a version of the mapping it has nothing to do.
abbrev pub begin_pass : {crates : Crates} → Inner crates → Pass crates
begin_pass inner =
    let versioned = ltb 0 inner.secret_mapping.version in
    record {
      inner = inner;
      to_sync = if versioned then Secrets.server_sdk_keys inner.secret_mapping else [];
      to_check = if versioned then keys inner.sdk_clients else [];
    }

module _ (crates : Crates) (relied : Relied crates) where
  open relied use {read_key, callback}

  -- `listed` are the server keys of the mapping.
  pub data PassStep (listed : List String) : Pass crates → Pass crates → Type 0 where
    synced :
        (i : Inner crates) (key : String) (to_sync to_check : List String)
        → PassStep listed
            (record { inner = i; to_sync = key ∷ to_sync; to_check = to_check })
            (record { inner = sync_client crates i key; to_sync = to_sync; to_check = to_check })
    checked :
        (i : Inner crates) (key : String) (to_check : List String)
        → PassStep listed
            (record { inner = i; to_sync = []; to_check = key ∷ to_check })
            (record {
              inner = unless_listed crates i listed key;
              to_sync = [];
              to_check = to_check;
            })
    between :
        (i : Inner crates) (to_sync to_check : List String) (key : String) (c d : crates.FpClient)
        → get i.sdk_clients key ≡ some c
        → read_key d ≡ read_key c
        → callback d ≡ callback c
        → PassStep listed
            (record { inner = i; to_sync = to_sync; to_check = to_check })
            (record {
              inner = record i { sdk_clients = insert i.sdk_clients key d };
              to_sync = to_sync;
              to_check = to_check;
            })

  pub data PassReach (listed : List String) (p : Pass crates) : Pass crates → Type 0 where
    here : PassReach listed p p
    next : {q r : Pass crates} → PassReach listed p q → PassStep listed q r → PassReach listed p r

  -- Whether a key has a client when the rest has been done with nothing in between.
  abbrev will_have : List String → Pass crates → String → Bool
  will_have listed p key =
      if contains p.to_check key && not (contains listed key)
      then false
      else contains p.to_sync key || contains_key p.inner.sdk_clients key

  step-will_have :
      (listed : List String) {p q : Pass crates} (key : String)
      → PassStep listed p q
      → will_have listed q key ≡ will_have listed p key
  unfolding contains
  step-will_have listed k (synced i key to_sync to_check) =
      ground (arith, eq_iff key k, get-sync_client crates i key k)
  step-will_have listed k (checked i key to_check) =
      ground (arith, eq_iff key k, get-unless_listed crates i listed key k)
  step-will_have listed k (between i to_sync to_check key c d there reads calls) =
      ground (arith, eq_iff key k, get-insert i.sdk_clients key k d)

  reach-will_have :
      (listed : List String) {p q : Pass crates} (key : String)
      → PassReach listed p q
      → will_have listed q key ≡ will_have listed p key
  reach-will_have listed key here = refl
  reach-will_have listed key (next reach step) =
      step-will_have listed key step ∙ reach-will_have listed key reach

  -- A client for exactly the listed keys is what the rest of the call leaves.
  finished :
      (listed : List String) (p : Pass crates) (key : String)
      → contains_key
          (remove_unlisted crates (sync_all crates p.inner p.to_sync) listed p.to_check).sdk_clients
          key
        ≡ will_have listed p key
  finished listed p key = ground (
    arith,
    get-remove_unlisted crates (sync_all crates p.inner p.to_sync) listed p.to_check key,
    get-sync_all crates p.inner p.to_sync key,
  )

  will_have-begin_pass :
      (i : Inner crates) (key : String)
      → will_have (Secrets.server_sdk_keys i.secret_mapping) (begin_pass i) key ≡ (
          if ltb 0 i.secret_mapping.version
          then Secrets.contains_server_sdk_key i.secret_mapping key
          else contains_key i.sdk_clients key)
  unfolding Secrets.server_sdk_keys Secrets.contains_server_sdk_key contains
  will_have-begin_pass i key =
      ground (arith, contains-keys i.secret_mapping.reverse key, contains-keys i.sdk_clients key)

  unless_listed-own :
      (i : Inner crates) (listed : List String) (key : String)
      → OwnClients crates relied i
      → OwnClients crates relied (unless_listed crates i listed key)
  unless_listed-own i listed key own j c found =
      own j c (ground (arith, get-unless_listed crates i listed key j))

  reach-own :
      (listed : List String) {p q : Pass crates}
      → PassReach listed p q
      → OwnClients crates relied p.inner
      → OwnClients crates relied q.inner
  reach-own listed here own = own
  reach-own listed (next reach (synced i key to_sync to_check)) own =
      sync_client-own crates relied i key (reach-own listed reach own)
  reach-own listed (next reach (checked i key to_check)) own =
      unless_listed-own i listed key (reach-own listed reach own)
  reach-own listed (next reach (between i to_sync to_check key c d there reads calls)) own =
      replaced-own crates relied i key c d there reads calls (reach-own listed reach own)

  -- While `update_clients` runs, with SDK clients going on between its parts, each client reads the
  -- toggles of the key that it stands at and notifies under it, if they all did at its begin; and from
  -- each point what is left to do leads to a client for exactly the server keys of the mapping, if
  -- the mapping has a version, and else for exactly the keys that had one at its begin.
  pub passes-follow :
      (i : Inner crates) {p : Pass crates}
      → OwnClients crates relied i
      → PassReach (Secrets.server_sdk_keys i.secret_mapping) (begin_pass i) p
      → let listed = Secrets.server_sdk_keys i.secret_mapping in
        OwnClients crates relied p.inner
        × ((key : String)
            → contains_key
                (remove_unlisted crates
                  (sync_all crates p.inner p.to_sync)
                  listed
                  p.to_check).sdk_clients
                key
              ≡ (if ltb 0 i.secret_mapping.version
                  then Secrets.contains_server_sdk_key i.secret_mapping key
                  else contains_key i.sdk_clients key))
  passes-follow i {p} own reach =
      let listed = Secrets.server_sdk_keys i.secret_mapping in
      (
        reach-own listed reach own,
        λ key.
            finished listed p key ∙ reach-will_have listed key reach ∙ will_have-begin_pass i key,
      )
