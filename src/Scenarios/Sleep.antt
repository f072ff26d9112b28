-- ===== src/Scenarios/Sleep.antt =====
-- What can happen while a test sleeps: SDK clients read their toggles, and the loops that were spawned do
-- their rounds.
use mathlib.Core.List.{Memᴰ}
use mathlib.Core.List.Memᴰ
use feature_probe_server.Prelude.{
  ℕ, String, ◌≡◌, refl, sym, ap, ◌∙◌, ◌⊎◌, inl, inr, List, [], some, none, arith, eq_iff,
  some-injective,
}
use feature_probe_server.HashMap.{HashMap, get, insert, contains_key}
use feature_probe_server.HashMap.Laws.{get-insert}
use feature_probe_server.Crates.{Crates}
use feature_probe_server.Secrets
use feature_probe_server.Repo.{Inner, Fetched, send_error, text_error, body, sync_secret_keys_round}
use feature_probe_server.Repo
use feature_probe_server.Repo.Clients.{update_clients-WritesClients, get-update_clients}
use feature_probe_server.Repo.Steps.{Relied, Reach, Step}
use feature_probe_server.Repo.Steps
use feature_probe_server.Repo.Steps.Rounds.{round_cases}
use feature_probe_server.Main.{Task, sync_secret_keys, update_clients}

-- A request for the keys fails, or comes back with this text.
abbrev pub FedBy : String → Fetched → Type 0
FedBy text (body t) = t ≡ text
FedBy text f = Unit

module _ (crates : Crates) (relied : Relied crates) (serves : crates.Url → Fetched → Type 0)
    (tasks : List (Task crates.Url)) where
  open relied use {read_key, callback}

  -- What a repository can have become after a sleep; `serves` are the outcomes of a request to a url.
  pub data Slept (i : Inner crates) : Inner crates → Type 0 where
    at_once : Slept i i
    read_again :
        {j : Inner crates} (key : String) (c d : crates.FpClient)
        → Slept i j
        → get j.sdk_clients key ≡ some c
        → read_key d ≡ read_key c
        → callback d ≡ callback c
        → Slept i (record j { sdk_clients = insert j.sdk_clients key d })
    fed :
        {j : Inner crates} (url : crates.Url) (f : Fetched)
        → Slept i j
        → Memᴰ (sync_secret_keys url) tasks
        → serves url f
        → Slept i (sync_secret_keys_round crates j f)
    followed :
        {j : Inner crates}
        → Slept i j
        → Memᴰ update_clients tasks
        → Slept i (Repo.update_clients crates j)

  -- A sleep is a run of the repository.
  pub Slept-Reach : {i j : Inner crates} → Slept i j → Reach crates relied i j
  Slept-Reach at_once = Steps.here
  Slept-Reach (read_again key c d s there reads calls) =
      Steps.next (Slept-Reach s) (Steps.progressed _ key c d there reads calls)
  Slept-Reach (fed url f s spawned served) = Steps.next (Slept-Reach s) (Steps.fetched _ f)
  Slept-Reach (followed s spawned) = Steps.next (Slept-Reach s) (Steps.refreshed _)

  -- With no loop the mapping stays, and the keys that have clients.
  pub Slept-alone :
      {i j : Inner crates}
      → tasks ≡ []
      → Slept i j
      → (j.secret_mapping ≡ i.secret_mapping)
        × ((key : String) → contains_key j.sdk_clients key ≡ contains_key i.sdk_clients key)
  Slept-alone none_spawned at_once = (refl, λ key. refl)
  Slept-alone none_spawned (read_again {j} key c d s there reads calls) =
      let (same, keys) = Slept-alone none_spawned s in
      (same, λ k. ground (arith, eq_iff key k, get-insert j.sdk_clients key k d, keys k))
  Slept-alone none_spawned (fed url f s spawned served) =
      absurd (Memᴰ.not-nil (rw none_spawned at spawned))
  Slept-alone none_spawned (followed s spawned) = absurd (Memᴰ.not-nil (rw none_spawned at spawned))

  -- There is no mapping and no client yet, or the mapping is this one.
  abbrev Held : Inner crates → ℕ → HashMap String → Inner crates → Type 0
  Held i version mapping j =
      ((j.secret_mapping ≡ i.secret_mapping) × ((key : String) → get j.sdk_clients key ≡ none))
      ⊎ (j.secret_mapping ≡ Secrets.new version mapping)

  module _ (i : Inner crates) (text : String) (version : ℕ) (mapping : HashMap String)
      (unversioned : i.secret_mapping.version ≡ 0)
      (unserved : (key : String) → get i.sdk_clients key ≡ none)
      (parses : crates.secrets_from_json text ≡ some (version, mapping))
      (feeds : (url : crates.Url) (f : Fetched) → serves url f → FedBy text f) where
    round-Held :
        (j : Inner crates) (f : Fetched)
        → FedBy text f
        → Held i version mapping j
        → Held i version mapping (sync_secret_keys_round crates j f)
    round-Held j f by h = elim (round_cases crates j f) [
      | inl same ↦ rw same h
      | inr (t, v, m, is_body, read, newer, after) ↦
          let same_text : t ≡ text = rw is_body at by in
          let pair : (v, m) ≡ (version, mapping) =
            some-injective (sym read ∙ ap crates.secrets_from_json same_text ∙ parses) in
          rw after (inr (ap (λ (p : ℕ × HashMap String). Secrets.new p.0 p.1) pair))
    ]

    follow-Held :
        (j : Inner crates)
        → Held i version mapping j
        → Held i version mapping (Repo.update_clients crates j)
    follow-Held j (inl (same, none_there)) = inl (
      (update_clients-WritesClients crates j).secrets ∙ same,
      λ key. ground (
        arith,
        ap (λ (s : Secrets.SecretMapping). s.version) same,
        get-update_clients crates j key,
        none_there key,
      ),
    )
    follow-Held j (inr same) = inr ((update_clients-WritesClients crates j).secrets ∙ same)

    Slept-Held : {j : Inner crates} → Slept i j → Held i version mapping j
    Slept-Held at_once = inl (refl, unserved)
    Slept-Held (read_again {j} key c d s there reads calls) = elim (Slept-Held s) [
      | inl (same, none_there) ↦ absurd (ground (arith, none_there key))
      | inr same ↦ inr same
    ]
    Slept-Held (fed {j} url f s spawned served) = round-Held j f (feeds url f served) (Slept-Held s)
    Slept-Held (followed {j} s spawned) = follow-Held j (Slept-Held s)

    -- A repository with no mapping and no client that is fed by one text has the mapping of the text
    -- once it has a client.
    pub Slept-fed :
        {j : Inner crates} (key : String) {c : crates.FpClient}
        → Slept i j
        → get j.sdk_clients key ≡ some c
        → j.secret_mapping ≡ Secrets.new version mapping
    Slept-fed key s there = elim (Slept-Held s) [
      | inl (same, none_there) ↦ absurd (ground (arith, none_there key))
      | inr same ↦ same
    ]
