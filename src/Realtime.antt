-- ===== src/Realtime.antt =====
-- src/realtime.rs: the socket that tells the SDKs to read again. What the handlers send through
-- `socketio_rs` is a list of actions.
use feature_probe_server.Prelude.{ℕ, String, Option, none, some, List, [], ◌∷◌, ◌++◌}
use feature_probe_server.Crates.{Crates, Callback}

-- `RealtimeSocket` without the handle of the server that `serve` starts.
pub record RealtimeSocket : Type 0 where
  pub port : ℕ
  pub path : String

-- `RealtimeSocket::serve`
unfoldable pub serve : ℕ → String → RealtimeSocket
serve port path = record { port = port; path = path }

-- `Server::emit_to`: an event for the sockets that are in one of the rooms.
pub record Emission (Value : Type 0) : Type 0 where
  pub path : String
  pub rooms : List String
  pub event : String
  pub payload : Value

-- What `register` does with the socket that called it.
pub data SocketAction (Value : Type 0) : Type 0 where
  join : List String → SocketAction Value
  emit : String → Value → SocketAction Value

abbrev pub optional_key : Option String → List String
optional_key none = []
optional_key (some key) = key ∷ []

module _ (crates : Crates) where
  open crates use {Payload, Value, payload_json, value_get, value_string, empty_text}

  unfoldable pub notify_sdk :
      RealtimeSocket → String → Option String → String → Value → Emission Value
  notify_sdk self server_sdk_key client_sdk_key event payload = record {
    path = self.path;
    rooms = server_sdk_key ∷ optional_key client_sdk_key;
    event = event;
    payload = payload;
  }

  -- What the closure of `setup_notify` (src/repo.rs) does when the SDK calls it.
  unfoldable pub run_callback : RealtimeSocket → Callback → Emission Value
  unfolding notify_sdk
  run_callback socket callback =
      notify_sdk socket callback.sdk_key callback.client_sdk_key "update" empty_text

  join_key : Option Value → List (SocketAction Value)
  join_key none = []
  join_key (some value) = elim (value_get value "key") [
    | none ↦ []
    | some key ↦ elim (value_string key) [ none ↦ [] | some sdk_key ↦ join (sdk_key ∷ []) ∷ [] ]
  ]

  json_of : Option Payload → Option Value
  json_of none = none
  json_of (some payload) = payload_json payload

  unfoldable pub register : Option Payload → List (SocketAction Value)
  unfolding join_key json_of
  register payload = join_key (json_of payload) ++ emit "update" empty_text ∷ []
