-- ===== src/Repo/Steps/Begin.antt =====
-- A repository before its first step: new, or with the one pair of keys that was set.
use feature_probe_server.Prelude.{ℕ, String, ◌≡◌, some, arith, Bool-cases, inl, inr}
use feature_probe_server.HashMap.{contains_key}
use feature_probe_server.HashMap.Laws.{get-nil}
use feature_probe_server.Crates.{Crates}
use feature_probe_server.Config.{ServerConfig}
use feature_probe_server.Realtime.{RealtimeSocket}
use feature_probe_server.Secrets
use feature_probe_server.Secrets.Invariant.{default-IsConsistent, insert-IsConsistent}
use feature_probe_server.Repo.{Inner, new, fresh_client, sync_client, sync}
use feature_probe_server.Repo.Steps.{Relied, OwnClients, IsSound}
use feature_probe_server.Repo.Steps.Sound.{fresh_client-Belongs, written-own}

sync_client-secrets :
    (crates : Crates) (i : Inner crates) (key : String)
    → (sync_client crates i key).secret_mapping ≡ i.secret_mapping
unfolding sync_client
sync_client-secrets crates i key = ground arith

module _ (crates : Crates) (relied : Relied crates) where
  pub sync_client-own :
      (i : Inner crates) (key : String)
      → OwnClients crates relied i
      → OwnClients crates relied (sync_client crates i key)
  unfolding sync_client
  sync_client-own i key own = elim (Bool-cases (contains_key i.sdk_clients key)) [
    | inl there ↦ rw there own
    | inr missing ↦ rw missing (
        written-own crates relied i key (fresh_client crates i key)
          (fresh_client-Belongs crates relied i key) own)
  ]

  -- `SdkRepository::sync` keeps a repository sound if the client key is new, or is paired with the
  -- server key already.
  pub sync-IsSound :
      (i : Inner crates) (client_key key : String) (version : ℕ)
      → ((s : String) → Secrets.server_sdk_key i.secret_mapping client_key ≡ some s → s ≡ key)
      → IsSound crates relied i
      → IsSound crates relied (sync crates i client_key key version)
  unfolding sync
  sync-IsSound i client_key key version same h = record {
    consistent =
        rw (sync_client-secrets crates i key)
          (insert-IsConsistent i.secret_mapping client_key key version same h.consistent);
    own = sync_client-own i key h.own;
  }

  -- A new repository is sound.
  pub new-IsSound :
      (cfg : ServerConfig crates.Url) (socket : RealtimeSocket)
      → IsSound crates relied (new crates cfg socket)
  unfolding new
  new-IsSound cfg socket = record {
    consistent = default-IsConsistent;
    own = λ key c found. absurd (ground (arith, get-nil {V = crates.FpClient} key));
  }
