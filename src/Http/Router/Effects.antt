-- ===== src/Http/Router/Effects.antt =====
-- Which requests change the server, and which send something on.
use feature_probe_server.Prelude.{
  String, ◌≡◌, refl, ◌⊎◌, inl, inr, Result, Option, some, [], ok, arith, Result-cases,
}
use feature_probe_server.Crates.{Crates}
use feature_probe_server.Repo.{client_sync_now}
use feature_probe_server.Error.{FpServerError}
use feature_probe_server.Http.Response.{Response}
use feature_probe_server.Http.Handler.{
  FpHttpHandler, update_toggles, client_sdk_toggles, client_sdk_events, server_sdk_toggles,
  all_secrets,
}
use feature_probe_server.Http.Traits.{ToggleUpdateParams, fp_http_handler, fp_event_handler}
use feature_probe_server.Http.Router.{
  Endpoint, client_toggles, client_events, server_toggles, events, toggles_updated, Destination, to,
  routes, Axum, Served, serve_http, serve_events, serve_update_toggles, serve_client_toggles,
  serve_client_events, serve_server_toggles, authorized, serve_all_secrets, serve_destination,
  serve_endpoint,
}

module _ (crates : Crates) (axum : Axum crates) where
  open axum use {Request, destination}

  abbrev Serves : Type 0
  Serves = Option (Served crates (FpHttpHandler crates))

  -- The request is one to update the toggles of a key, and the handler is what that makes of it.
  abbrev pub Updates : FpHttpHandler crates → Request → FpHttpHandler crates → Type 0
  Updates self r after =
      (destination routes r ≡ to toggles_updated)
      × ((params : ToggleUpdateParams crates) × (axum.toggle_update_params r ≡ ok params)
          × (after ≡ (update_toggles crates self params.sdk_key).0))

  -- A request is answered; the mapping of keys stays, the rest changes only where toggles are
  -- updated, and something is sent on only where events arrive.
  abbrev HasEffects : FpHttpHandler crates → Request → Destination → Serves → Type 0
  HasEffects self r d answered =
      (served : Served crates (FpHttpHandler crates)) × (answered ≡ some served)
      × (served.handler.repo.secret_mapping ≡ self.repo.secret_mapping)
      × ((served.handler ≡ self)
          ⊎ ((d ≡ to toggles_updated)
              × ((params : ToggleUpdateParams crates) × (axum.toggle_update_params r ≡ ok params)
                  × (served.handler ≡ (update_toggles crates self params.sdk_key).0))))
      × ((served.posts ≡ []) ⊎ (d ≡ to events))

  abbrev serve : FpHttpHandler crates → Request → Endpoint → Serves
  serve = serve_endpoint crates axum (fp_http_handler crates) (fp_event_handler crates)

  serve_events-effects :
      (self : FpHttpHandler crates) (r : Request)
      → HasEffects self r (to events) (serve self r events)
  unfolding serve_endpoint serve_events
  serve_events-effects self r = elim (Result-cases (axum.event_params r)) [
    | inl (rejection, e) ↦ rw (e, serve_endpoint, serve_events) (_, refl, refl, inl refl, inr refl)
    | inr (params, e) ↦ rw (e, serve_endpoint, serve_events) (_, refl, refl, inl refl, inr refl)
  ]

  update_toggles-secrets :
      (self : FpHttpHandler crates) (key : String)
      → (update_toggles crates self key).0.repo.secret_mapping ≡ self.repo.secret_mapping
  unfolding update_toggles client_sync_now
  update_toggles-secrets self key = ground arith

  serve_update_toggles-effects :
      (self : FpHttpHandler crates) (r : Request)
      → HasEffects self r (to toggles_updated) (serve self r toggles_updated)
  unfolding serve_endpoint serve_update_toggles
  serve_update_toggles-effects self r = elim (Result-cases (axum.toggle_update_params r)) [
    | inl (rejection, e) ↦
        rw (e, serve_endpoint, serve_update_toggles) (_, refl, refl, inl refl, inl refl)
    | inr (params, e) ↦
        rw (e, serve_endpoint, serve_update_toggles)
          (
            _,
            refl,
            update_toggles-secrets self params.sdk_key,
            inr (refl, (params, refl, refl)),
            inl refl,
          )
  ]

  abbrev IsAnswered : FpHttpHandler crates → Serves → Type 0
  IsAnswered self answered =
      (response : Response) × (answered
        ≡ some (record { handler = self; response = response; posts = [] }))

  -- A method that leaves the handler as it is, called with the key of a request.
  authorized-IsAnswered :
      (self : FpHttpHandler crates) (r : Request) (method : String → Result Response FpServerError)
      → IsAnswered self (
          authorized crates axum
            (fp_http_handler crates)
            (fp_event_handler crates)
            self
            r
            (λ key. some (self, method key)))
  unfolding authorized
  authorized-IsAnswered self r method = elim (Result-cases (axum.authorization r)) [
    | inl (rejection, e) ↦ rw (e, authorized) (_, refl)
    | inr (key, e) ↦ rw (e, authorized) (_, refl)
  ]

  client_toggles-IsAnswered :
      (self : FpHttpHandler crates) (r : Request) → IsAnswered self (serve self r client_toggles)
  unfolding serve_endpoint serve_client_toggles
  client_toggles-IsAnswered self r = elim (Result-cases (axum.client_params r)) [
    | inl (rejection, e) ↦ rw (e, serve_endpoint, serve_client_toggles) (_, refl)
    | inr (params, e) ↦
        rw (e, serve_endpoint, serve_client_toggles)
          (authorized-IsAnswered self r (client_sdk_toggles crates self params.user))
  ]

  IsAnswered-effects :
      (self : FpHttpHandler crates) (r : Request) (d : Destination) {answered : Serves}
      → IsAnswered self answered
      → HasEffects self r d answered
  IsAnswered-effects self r d (response, e) = (_, e, refl, inl refl, inl refl)

  serve_destination-effects :
      (self : FpHttpHandler crates) (r : Request) (d : Destination)
      → HasEffects self r d (
          serve_destination crates axum (fp_http_handler crates) (fp_event_handler crates) self r d)
  unfolding serve_destination serve_endpoint serve_all_secrets serve_client_events
      serve_server_toggles all_secrets
  serve_destination-effects self r (to events) = serve_events-effects self r
  serve_destination-effects self r (to toggles_updated) = serve_update_toggles-effects self r
  serve_destination-effects self r (to client_toggles) =
      IsAnswered-effects self r (to client_toggles) (client_toggles-IsAnswered self r)
  serve_destination-effects self r (to client_events) =
      IsAnswered-effects self r (to client_events)
        (authorized-IsAnswered self r (client_sdk_events crates self))
  serve_destination-effects self r (to server_toggles) =
      IsAnswered-effects self r (to server_toggles)
        (authorized-IsAnswered self r (server_sdk_toggles crates self))
  serve_destination-effects self r (to e) = (_, refl, refl, inl refl, inl refl)
  serve_destination-effects self r d = (_, refl, refl, inl refl, inl refl)

  -- Every request is answered. None changes the mapping of keys; a request changes nothing at all, or it
  -- is one to update the toggles of a key and changes what `update_toggles` does; and one that does
  -- not bring events sends nothing on.
  pub serve_http-effects :
      (self : FpHttpHandler crates) (r : Request)
      → (served : Served crates (FpHttpHandler crates)) × (serve_http crates axum
            (fp_http_handler crates)
            (fp_event_handler crates)
            self
            r
          ≡ some served)
        × (served.handler.repo.secret_mapping ≡ self.repo.secret_mapping)
        × ((served.handler ≡ self) ⊎ Updates self r served.handler)
        × ((served.posts ≡ []) ⊎ (destination routes r ≡ to events))
  unfolding serve_http
  serve_http-effects self r = serve_destination-effects self r (destination routes r)
