-- ===== src/Http/Events/Laws.antt =====
-- Which batches of events are sent on, to whom, and under which key.
use feature_probe_server.Prelude.{
  String, ◌≡◌, refl, ◌∙◌, ◌↔◌, inl, inr, true, Option, none, some, List, [], ◌∷◌, ◌++◌, map, ◌==◌,
  eq_iff, arith, Option-cases, All, if◌then◌else◌,
}
use text.Mathlib.Text.{starts_with}
use feature_probe_server.HashMap.{get}
use feature_probe_server.Crates.{Crates, Duration}
use feature_probe_server.Secrets
use feature_probe_server.Repo.{secret_keys}
use feature_probe_server.Http.Response.{ok_status, unauthorized}
use feature_probe_server.Http.Handler.{FpHttpHandler}
use feature_probe_server.Http.Events.{
  HeaderMap, append_if, build_header, send_events, events_key, handle_events,
}

get-append_last :
    (headers : HeaderMap) (j name v : String)
    → get (headers ++ (name, v) ∷ []) j
      ≡ elim (get headers j) [ none ↦ (if name == j then some v else none) | some w ↦ some w ]
unfolding get
get-append_last [] j name v = refl
get-append_last ((k, w) ∷ headers) j name v = ground (arith, get-append_last headers j name v)

get-append_if :
    (name j : String) (value : Option String) (headers : HeaderMap)
    → get headers name ≡ none
    → get (append_if name value headers) j ≡ (if name == j then value else get headers j)
get-append_if name j none headers absent = ground (arith, eq_iff name j)
get-append_if name j (some v) headers absent =
    ground (arith, eq_iff name j, get-append_last headers j name v)

-- The url of the analysis service, if there is one.
abbrev pub optional_url {ℓ} : {Url : Type ℓ} → Option Url → List Url
optional_url none = []
optional_url (some url) = url ∷ []

module _ (crates : Crates) where
  -- The header of a request that sends events on: it authorises with the given key, passes the
  -- `ua` of the batch on, names the user agent if that is a valid value, and holds nothing else.
  get-build_header :
      (headers : HeaderMap) (key user_agent name : String)
      → get (build_header crates headers key user_agent) name ≡ (
          if "ua" == name
          then get headers "ua"
          else if "user-agent" == name
          then crates.header_value user_agent
          else if "authorization" == name
          then some (crates.authorization_encode key)
          else none)
  unfolding build_header get
  get-build_header headers key user_agent name =
      let base : HeaderMap = ("authorization", crates.authorization_encode key) ∷ [] in
      let agent : HeaderMap = append_if "user-agent" (crates.header_value user_agent) base in
      ground (
        arith,
        get-append_if "user-agent" name (crates.header_value user_agent) base refl,
        get-append_if "user-agent" "ua" (crates.header_value user_agent) base refl,
        get-append_if "ua" name (get headers "ua") agent,
      )

  events_key_lem :
      (self : FpHttpHandler crates) (key : String)
      → events_key crates self key ≡ (
          if starts_with key "client"
          then Secrets.server_sdk_key self.repo.secret_mapping key
          else some key)
  unfolding events_key secret_keys Secrets.mapping_clone Secrets.server_sdk_key
  events_key_lem self key = refl

  -- A batch of events is answered 401 exactly if its key begins like a client key and leads to no
  -- server key; a batch that is answered 401 is not sent on.
  pub handle_events-401_iff :
      (self : FpHttpHandler crates) (key user_agent : String) (headers : HeaderMap)
      (events : List crates.Value)
      → let (posts, response) = handle_events crates self key user_agent headers events in
        ((response.status ≡ unauthorized) ↔ (
          (starts_with key "client" ≡ true)
          × (Secrets.server_sdk_key self.repo.secret_mapping key ≡ none)))
        × (response.status ≡ unauthorized → posts ≡ [])
  unfolding handle_events
  handle_events-401_iff self key user_agent headers events =
      let by_key = events_key_lem self key in
      elim (Option-cases (events_key crates self key)) [
        | inl refused ↦ rw (refused, handle_events) ((λ st. ground arith, λ why. refl), λ st. refl)
        | inr (k, sent) ↦
            rw (sent, handle_events)
              (
                (λ st. absurd (omega arith), λ (client, unknown). ground arith),
                λ st. absurd (omega arith),
              )
      ]

  module _ (headers : HeaderMap) (events_url : crates.Url) where
    send_events-urls :
        (analysis_url : Option crates.Url) (timeout : Duration) (events : List crates.Value)
        → map (λ p. p.url) (send_events crates headers events_url analysis_url timeout events)
          ≡ optional_url analysis_url ++ events_url ∷ []
    unfolding send_events
    send_events-urls none timeout events = refl
    send_events-urls (some url) timeout events = refl

    send_events-All :
        (analysis_url : Option crates.Url) (timeout : Duration) (events : List crates.Value)
        {authorization : Option String}
        → get headers "authorization" ≡ authorization
        → All
            (λ p. (p.json ≡ events) × (get p.headers "authorization" ≡ authorization))
            (send_events crates headers events_url analysis_url timeout events)
    unfolding send_events
    send_events-All none timeout events h = ((refl, h), tt)
    send_events-All (some url) timeout events h = ((refl, h), ((refl, h), tt))

  -- A batch of events whose key leads to a server key, or does not begin like a client key, is
  -- answered 200 and sent on whole, once to the analysis service if there is one and once to the
  -- events service: under the server key that a client key leads to, or under its own key.
  pub handle_events-posts :
      (self : FpHttpHandler crates) (key user_agent server_key : String) (headers : HeaderMap)
      (events : List crates.Value)
      → (if starts_with key "client"
          then Secrets.server_sdk_key self.repo.secret_mapping key
          else some key)
        ≡ some server_key
      → let (posts, response) = handle_events crates self key user_agent headers events in
        (response.status ≡ ok_status)
        × (map (λ p. p.url) posts ≡ optional_url self.analysis_url ++ self.events_url ∷ [])
        × All
            (λ p.
              (p.json ≡ events)
              × (get p.headers "authorization" ≡ some (crates.authorization_encode server_key)))
            posts
  unfolding handle_events
  handle_events-posts self key user_agent server_key headers events e =
      rw (events_key_lem self key ∙ e, handle_events)
        (
          refl,
          send_events-urls _ self.events_url self.analysis_url self.events_timeout events,
          send_events-All _ self.events_url self.analysis_url self.events_timeout events
              (get-build_header headers server_key user_agent "authorization"),
        )
