-- ===== src/Repo/Steps/Rounds.antt =====
-- What one round of the loop over the secret keys can do.
use feature_probe_server.Prelude.{
  ℕ, String, ◌≡◌, refl, ◌⊎◌, inl, inr, some, ltb, Bool-cases, Option-cases, ◌<◌, ltb→lt,
}
use feature_probe_server.HashMap.{HashMap}
use feature_probe_server.Crates.{Crates}
use feature_probe_server.Secrets
use feature_probe_server.Secrets.{SecretMapping}
use feature_probe_server.Repo.{
  Inner, Fetched, send_error, text_error, body, update_mapping, sync_secret_keys_round,
}

module _ (crates : Crates) where
  pub update_mapping-secrets :
      (i : Inner crates) (other : SecretMapping)
      → ((update_mapping crates i other).secret_mapping
          ≡ Secrets.update_mapping i.secret_mapping other)
        × ((update_mapping crates i other).sdk_clients ≡ i.sdk_clients)
  unfolding update_mapping Secrets.update_mapping
  update_mapping-secrets i other = elim (Bool-cases (ltb i.secret_mapping.version other.version)) [
    | inl newer ↦ rw newer (refl, refl)
    | inr old ↦ rw old (refl, refl)
  ]

  -- A round changes nothing, or takes a newer mapping over; the clients stay.
  pub round_cases :
      (i : Inner crates) (f : Fetched)
      → (sync_secret_keys_round crates i f ≡ i)
        ⊎ ((text : String) × (version : ℕ) × (mapping : HashMap String) × (f ≡ body text)
            × (crates.secrets_from_json text ≡ some (version, mapping))
            × (i.secret_mapping.version < version)
            × (sync_secret_keys_round crates i f
                ≡ record i { secret_mapping = Secrets.new version mapping }))
  unfolding sync_secret_keys_round update_mapping Secrets.deserialize Secrets.update_mapping
      Secrets.new
  round_cases i send_error = inl refl
  round_cases i text_error = inl refl
  round_cases i (body text) = elim (Option-cases (crates.secrets_from_json text)) [
    | inl unread ↦ inl (rw (unread, sync_secret_keys_round))
    | inr ((version, mapping), read) ↦ elim (Bool-cases (ltb i.secret_mapping.version version)) [
      | inl newer ↦ inr (
        text,
        version,
        mapping,
        refl,
        read,
        ltb→lt _ _ newer,
        rw (read, sync_secret_keys_round) (rw newer refl),
      )
      | inr old ↦ inl (rw (read, sync_secret_keys_round) (rw old refl))
    ]
  ]
