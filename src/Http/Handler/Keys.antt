-- ===== src/Http/Handler/Keys.antt =====
-- The keys that were received and the keys that are handed out: `sync_secret_keys` of src/repo.rs and
-- `all_secrets` of src/http/handler.rs.
use feature_probe_server.Prelude.{ℕ, String, ◌≡◌, refl, ◌<◌, ◌≤◌, false, some, ok, arith, ltb}
use feature_probe_server.HashMap.{HashMap, get}
use feature_probe_server.Crates.{Crates}
use feature_probe_server.Secrets
use feature_probe_server.Repo.{Inner, body, update_mapping, sync_secret_keys_round, secret_keys}
use feature_probe_server.Repo.Published.{taken, round_newer}
use feature_probe_server.Http.Handler.{FpHttpHandler, all_secrets}

module _ (crates : Crates) where
  -- A body of no newer mapping is not taken over.
  round_stale :
      (i : Inner crates) (text : String) (version : ℕ) (mapping : HashMap String)
      → crates.secrets_from_json text ≡ some (version, mapping)
      → version ≤ i.secret_mapping.version
      → sync_secret_keys_round crates i (body text) ≡ i
  unfolding sync_secret_keys_round update_mapping Secrets.deserialize
  round_stale i text version mapping read stale =
      let same : ltb i.secret_mapping.version version ≡ false = ground arith in
      rw (read, sync_secret_keys_round) (rw same refl)

  -- A body with a newer mapping has been read: all the keys that the server hands out are those of the
  -- mapping, each client key leads to the server key that it has there, and the same body changes
  -- nothing when it comes again.
  pub all_secrets-sync_secret_keys_round :
      (self : FpHttpHandler crates) (text : String) (version : ℕ) (mapping : HashMap String)
      → crates.secrets_from_json text ≡ some (version, mapping)
      → self.repo.secret_mapping.version < version
      → let after = sync_secret_keys_round crates self.repo (body text) in
        (all_secrets crates (record self { repo = after }) ≡ ok mapping)
        × ((c : String) → Secrets.server_sdk_key after.secret_mapping c ≡ get mapping c)
        × (sync_secret_keys_round crates after (body text) ≡ after)
  unfolding all_secrets secret_keys Secrets.mapping_clone Secrets.server_sdk_key Secrets.new
  all_secrets-sync_secret_keys_round self text version mapping read newer =
      let received = round_newer crates self.repo text version mapping read newer in
      rw received (
        refl,
        (λ c. refl),
        round_stale (taken crates self.repo version mapping) text version mapping read
            (omega arith),
      )
