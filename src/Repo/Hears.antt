-- ===== src/Repo/Hears.antt =====
-- Which sockets hear a notification: the rooms of src/realtime.rs from the registration of a socket to
-- the call of an SDK client's callback. A socket keeps the rooms that it has joined, and hears what is
-- sent to one of them.
pub mod Shared
use feature_probe_server.Prelude.{
  String, ◌≡◌, refl, ◌↔◌, ◌⊎◌, inl, inr, Bool, true, false, ◌||◌, Option, none, some, List, [], ◌∷◌,
  ◌++◌, arith, Bool-cases, some-injective,
}
use feature_probe_server.HashMap.{contains}
use feature_probe_server.Crates.{Crates, Callback}
use feature_probe_server.Realtime.{
  RealtimeSocket, Emission, optional_key, notify_sdk, register, run_callback,
}
use feature_probe_server.Repo.Notify.{joined, joined-register}

abbrev pub Any : {A : Type 0} → (A → Type 0) → List A → Type 0
Any P [] = ⊥
Any P (x ∷ xs) = P x ⊎ Any P xs

contains-append :
    (xs ys : List String) (k : String) → contains (xs ++ ys) k ≡ (contains xs k || contains ys k)
unfolding contains
contains-append [] ys k = refl
contains-append (x ∷ xs) ys k = ground (arith, contains-append xs ys k)

module _ (crates : Crates) where
  open crates use {Payload, Value}

  -- The rooms of a socket that has sent these payloads to "register".
  abbrev pub rooms_of : List (Option Payload) → List String
  rooms_of [] = []
  rooms_of (p ∷ payloads) = joined (register crates p) ++ rooms_of payloads

  -- One of the rooms that an event is sent to is one of the socket's.
  abbrev hears_one : List String → List String → Bool
  hears_one rooms [] = false
  hears_one rooms (room ∷ sent) = contains rooms room || hears_one rooms sent

  abbrev pub hears : List String → Emission Value → Bool
  hears rooms emission = hears_one rooms emission.rooms

  -- The payload has a text under "key".
  abbrev pub Names : Option Payload → String → Type 0
  Names payload key =
      (p : Payload) × (v : Value) × (k : Value) × (payload ≡ some p)
      × (crates.payload_json p ≡ some v)
      × (crates.value_get v "key" ≡ some k)
      × (crates.value_string k ≡ some key)

  rooms_of_iff :
      (payloads : List (Option Payload)) (room : String)
      → (contains (rooms_of payloads) room ≡ true) ↔ Any (λ p. Names p room) payloads
  unfolding contains
  rooms_of_iff [] room = (λ h. absurd (ground arith), λ h. elim h [ ])
  rooms_of_iff (p ∷ payloads) room =
      let split = contains-append (joined (register crates p)) (rooms_of payloads) room in
      let first = joined-register crates p room in
      let rest = rooms_of_iff payloads room in
      (
        λ h. elim (Bool-cases (contains (joined (register crates p)) room)) [
          | inl here ↦ inl (first.0 here)
          | inr there ↦ inr (rest.0 (ground arith))
        ],
        λ h. elim h [
          | inl named ↦ let here = first.1 named in ground arith
          | inr named ↦ let there = rest.1 named in ground arith
        ],
      )

  -- A socket hears a client's notification exactly if it has registered with the server key of the
  -- client's callback or with its client key.
  pub hears-run_callback :
      (socket : RealtimeSocket) (f : Callback) (payloads : List (Option Payload))
      → (hears (rooms_of payloads) (run_callback crates socket f) ≡ true) ↔ (
          Any (λ p. Names p f.sdk_key) payloads
          ⊎ ((c : String) × (f.client_sdk_key ≡ some c) × Any (λ p. Names p c) payloads))
  unfolding run_callback notify_sdk
  hears-run_callback socket f payloads =
      let rooms = rooms_of payloads in
      let server = rooms_of_iff payloads f.sdk_key in
      elim f.client_sdk_key
        as (λ o. (hears_one rooms (f.sdk_key ∷ optional_key o) ≡ true) ↔ (
          Any (λ p. Names p f.sdk_key) payloads
          ⊎ ((c : String) × (o ≡ some c) × Any (λ p. Names p c) payloads))) [
            | none ↦ (
              λ h. inl (server.0 (ground arith)),
              λ h. elim h [
                | inl named ↦ let here = server.1 named in ground arith
                | inr (c, e, named) ↦ absurd (ground arith)
              ],
            )
            | some c ↦ (
              λ h. elim (Bool-cases (contains rooms f.sdk_key)) [
                | inl here ↦ inl (server.0 here)
                | inr there ↦ inr (c, refl, (rooms_of_iff payloads c).0 (ground arith))
              ],
              λ h. elim h [
                | inl named ↦ let here = server.1 named in ground arith
                | inr (d, e, named) ↦
                    let there = (rooms_of_iff payloads d).1 named in
                    let same : c ≡ d = some-injective e in ground arith
              ],
            )
          ]
