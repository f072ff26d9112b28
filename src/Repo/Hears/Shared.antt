-- ===== src/Repo/Hears/Shared.antt =====
-- Several client keys that lead to one server key.
use feature_probe_server.Prelude.{
  String, ◌≡◌, ◌≢◌, sym, ap, ◌∙◌, inl, inr, true, Option, some, none, ◌<◌, ◌↔◌, [], ◌∷◌, arith,
  some-injective,
}
use feature_probe_server.Crates.{Crates, Callback}
use feature_probe_server.HashMap.{get}
use feature_probe_server.Secrets
use feature_probe_server.Secrets.Invariant.{IsConsistent}
use feature_probe_server.Repo.{Inner, update_clients}
use feature_probe_server.Repo.Steps.{Relied}
use feature_probe_server.Repo.Notify.{update_clients-tells}
use feature_probe_server.Realtime.{RealtimeSocket, run_callback}
use feature_probe_server.Repo.Hears.{rooms_of, hears, Names, hears-run_callback}

module _ (crates : Crates) where
  abbrev Hears : RealtimeSocket → Callback → Option crates.Payload → Type 0
  Hears socket f p = hears crates (rooms_of crates (p ∷ [])) (run_callback crates socket f) ≡ true

  Names-injective :
      {payload : Option crates.Payload} {k l : String}
      → Names crates payload k
      → Names crates payload l
      → k ≡ l
  Names-injective (p, v, w, a, b, c, d) (p', v', w', a', b', c', d') = ground arith

  -- A socket that has registered with a client key alone hears exactly by that key.
  heard_iff :
      (socket : RealtimeSocket) (f : Callback) (p : Option crates.Payload) (c : String)
      → Names crates p c
      → c ≢ f.sdk_key
      → Hears socket f p ↔ (f.client_sdk_key ≡ some c)
  heard_iff socket f p c named other = (
    λ heard. elim ((hears-run_callback crates socket f (p ∷ [])).0 heard) [
      | inl server ↦ elim server [
        | inl by_server ↦ absurd (other (Names-injective named by_server))
        | inr never ↦ elim never [ ]
      ]
      | inr (d, told, client) ↦ elim client [
        | inl by_client ↦ told ∙ ap some (Names-injective by_client named)
        | inr never ↦ elim never [ ]
      ]
    ],
    λ told. (hears-run_callback crates socket f (p ∷ [])).1 (inr (c, told, inl named)),
  )

  -- Over a consistent mapping with a version, the client that `update_clients` makes for a server key
  -- without one has a callback that tells one of the client keys that lead to the server key, the one
  -- that the reverse index kept. So of the sockets that have registered once, each with a client key
  -- that leads to the server key and is not that key itself, a socket hears exactly if it has that one
  -- client key.
  pub update_clients-Hears_iff :
      (relied : Relied crates) (i : Inner crates) (s k : String) (c : crates.FpClient)
      (socket : RealtimeSocket) (payload : Option crates.Payload)
      → IsConsistent i.secret_mapping
      → 0 < i.secret_mapping.version
      → get i.sdk_clients s ≡ none
      → get (update_clients crates i).sdk_clients s ≡ some c
      → Secrets.server_sdk_key i.secret_mapping k ≡ some s
      → k ≢ s
      → Names crates payload k
      → (f : Callback) × (e : String) × (relied.callback c ≡ some f)
        × (Secrets.client_sdk_key i.secret_mapping s ≡ some e)
        × (Secrets.server_sdk_key i.secret_mapping e ≡ some s)
        × (Hears socket f payload ↔ (k ≡ e))
  update_clients-Hears_iff relied i s k c socket payload h versioned missing made leads other
        named =
      let (e, kept, leads_back, told) =
        update_clients-tells crates relied i s c h versioned missing made in
      let f : Callback = record { sdk_key = s; client_sdk_key = some e } in
      let iff = heard_iff socket f payload k named other in
      (
        f,
        e,
        told,
        kept,
        leads_back,
        (λ heard. sym (some-injective (iff.0 heard)), λ same. iff.1 (ap some (sym same))),
      )
