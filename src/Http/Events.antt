-- ===== src/Http/Events.antt =====
-- `handle_events` of `FpHttpHandler` (src/http/handler.rs): a batch of events is sent on under the
-- server key. The requests that the spawned tasks make are a list.
pub mod Laws
use feature_probe_server.Prelude.{String, Option, none, some, List, [], ◌∷◌, ◌++◌, if◌then◌else◌}
use text.Mathlib.Text.{starts_with}
use feature_probe_server.HashMap.{get}
use feature_probe_server.Crates.{Crates, Duration}
use feature_probe_server.Repo.{secret_keys}
use feature_probe_server.Http.Response.{Response, ok_status, unauthorized, cors_headers}
use feature_probe_server.Http.Handler.{FpHttpHandler}

-- `HeaderMap`: the values of a name in the order in which they were appended.
abbrev pub HeaderMap : Type 0
HeaderMap = List (String × String)

-- The request that `do_send_events` builds and sends.
pub record Post (Url Value : Type 0) : Type 0 where
  pub url : Url
  pub headers : HeaderMap
  pub timeout : Duration
  pub json : List Value

abbrev pub append_if : String → Option String → HeaderMap → HeaderMap
append_if name none headers = headers
append_if name (some value) headers = headers ++ (name, value) ∷ []

module _ (crates : Crates) where
  open crates use {Url, Value, authorization_encode, header_value}

  unfoldable pub build_header : HeaderMap → String → String → HeaderMap
  build_header headers sdk_key user_agent =
      let ua = get headers "ua" in
      append_if "ua" ua (
        append_if "user-agent" (header_value user_agent)
          (("authorization", authorization_encode sdk_key) ∷ []))

  unfoldable pub do_send_events : HeaderMap → Url → Duration → List Value → Post Url Value
  do_send_events headers url timeout events = record {
    url = url;
    headers = headers;
    timeout = timeout;
    json = events;
  }

  unfoldable pub send_events :
      HeaderMap → Url → Option Url → Duration → List Value → List (Post Url Value)
  unfolding do_send_events
  send_events headers events_url none timeout events =
      do_send_events headers events_url timeout events ∷ []
  send_events headers events_url (some analysis_url) timeout events =
      do_send_events headers analysis_url timeout events
      ∷ do_send_events headers events_url timeout events
      ∷ []

  -- The server key that the events are sent under; `none` is a client key that is not known.
  unfoldable pub events_key : FpHttpHandler crates → String → Option String
  events_key self sdk_key =
      if starts_with sdk_key "client"
      then get (secret_keys crates self.repo) sdk_key
      else some sdk_key

  unfoldable pub handle_events :
      FpHttpHandler crates
      → String
      → String
      → HeaderMap
      → List Value
      → List (Post Url Value) × Response
  handle_events self sdk_key user_agent headers events = elim (events_key self sdk_key) [
    | none ↦ ([], record { status = unauthorized; headers = cors_headers; body = "{}" })
    | some server_sdk_key ↦ (
      send_events (build_header headers server_sdk_key user_agent) self.events_url self.analysis_url
          self.events_timeout events,
      record { status = ok_status; headers = cors_headers; body = "{}" },
    )
  ]
