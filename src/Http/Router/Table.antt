-- ===== src/Http/Router/Table.antt =====
-- Which requests reach which function of the table.
use feature_probe_server.Prelude.{
  String, ◌≡◌, refl, sym, ◌↔◌, ◌⊎◌, inl, inr, some, List, [], ◌∷◌, arith, eq_iff, Option-cases, ◌∙◌,
}
use feature_probe_server.HashMap.{get}
use feature_probe_server.Crates.{Crates}
use feature_probe_server.Http.Router.{
  Method, get_method, head_method, post_method, options_method, Endpoint, root, client_toggles,
  client_events, server_toggles, events, secrets, toggles_updated, cors, to, on_method, routes,
  Axum,
}

-- axum calls the function of GET for HEAD too.
abbrev pub Gets : Method → Type 0
Gets m = (m ≡ get_method) ⊎ (m ≡ head_method)

-- The one path and method of each function, or the paths of `client_cors`.
abbrev pub Address : Endpoint → Method → String → Type 0
Address root m p = Gets m × (p ≡ "/")
Address client_toggles m p = Gets m × (p ≡ "/api/client-sdk/toggles")
Address client_events m p = Gets m × (p ≡ "/api/client-sdk/events")
Address server_toggles m p = Gets m × (p ≡ "/api/server-sdk/toggles")
Address events m p = (m ≡ post_method) × (p ≡ "/api/events")
Address secrets m p = Gets m × (p ≡ "/internal/all_secrets")
Address toggles_updated m p = (m ≡ post_method) × (p ≡ "/internal/update_toggles")
Address cors m p =
    (m ≡ options_method)
    × ((p ≡ "/api/client-sdk/toggles") ⊎ (p ≡ "/api/client-sdk/events") ⊎ (p ≡ "/api/events"))

-- The seven rows of the table.
rows :
    (p : String) (methods : List (Method × Endpoint))
    → get routes p ≡ some methods
    → ((p ≡ "/") × (methods ≡ (get_method, root) ∷ []))
      ⊎ ((p ≡ "/api/client-sdk/toggles")
          × (methods ≡ (get_method, client_toggles) ∷ (options_method, cors) ∷ []))
      ⊎ ((p ≡ "/api/client-sdk/events")
          × (methods ≡ (get_method, client_events) ∷ (options_method, cors) ∷ []))
      ⊎ ((p ≡ "/api/server-sdk/toggles") × (methods ≡ (get_method, server_toggles) ∷ []))
      ⊎ ((p ≡ "/api/events") × (methods ≡ (post_method, events) ∷ (options_method, cors) ∷ []))
      ⊎ ((p ≡ "/internal/all_secrets") × (methods ≡ (get_method, secrets) ∷ []))
      ⊎ ((p ≡ "/internal/update_toggles") × (methods ≡ (post_method, toggles_updated) ∷ []))
unfolding routes get
rows p methods listed = ground (
  arith,
  eq_iff "/" p,
  eq_iff "/api/client-sdk/toggles" p,
  eq_iff "/api/client-sdk/events" p,
  eq_iff "/api/server-sdk/toggles" p,
  eq_iff "/api/events" p,
  eq_iff "/internal/all_secrets" p,
  eq_iff "/internal/update_toggles" p,
)

-- An entry of a row answers a method.
abbrev Accepts : Method → Method → Type 0
Accepts m m' = (m ≡ m') ⊎ ((m ≡ head_method) × (m' ≡ get_method))

-- A row has a function for a method.
abbrev InRow : Method → Endpoint → List (Method × Endpoint) → Type 0
InRow m e [] = ⊥
InRow m e ((m', e') ∷ methods) = (Accepts m m' × (e ≡ e')) ⊎ InRow m e methods

on_method-InRow :
    (m : Method) (e : Endpoint) (methods : List (Method × Endpoint))
    → on_method m methods ≡ to e
    → InRow m e methods
unfolding on_method
on_method-InRow m e [] found = absurd (ground arith)
on_method-InRow get_method e ((get_method, e') ∷ methods) found = inl (inl refl, ground arith)
on_method-InRow head_method e ((get_method, e') ∷ methods) found =
    inl (inr (refl, refl), ground arith)
on_method-InRow post_method e ((post_method, e') ∷ methods) found = inl (inl refl, ground arith)
on_method-InRow options_method e ((options_method, e') ∷ methods) found =
    inl (inl refl, ground arith)
on_method-InRow m e ((m', e') ∷ methods) found = inr (on_method-InRow m e methods found)

by_get : {m : Method} → Accepts m get_method → Gets m
by_get (inl same) = inl same
by_get (inr (heads, own)) = inr heads

by_post : {m : Method} → Accepts m post_method → m ≡ post_method
by_post (inl same) = same
by_post (inr (heads, other)) = absurd (ground arith)

by_options : {m : Method} → Accepts m options_method → m ≡ options_method
by_options (inl same) = same
by_options (inr (heads, other)) = absurd (ground arith)

-- One row with one method, and one with a second that answers the browser's question.
single_row :
    {m : Method} {e : Endpoint} (p : String) (m' : Method) (e' : Endpoint)
    → InRow m e ((m', e') ∷ [])
    → (Accepts m m' → Address e' m p)
    → Address e m p
single_row p m' e' (inl (accepts, found)) h = rw found (h accepts)
single_row p m' e' (inr none_left) h = elim none_left [ ]

double_row :
    {m : Method} {e : Endpoint} (p : String) (m' : Method) (e' : Endpoint)
    → InRow m e ((m', e') ∷ (options_method, cors) ∷ [])
    → (Accepts m m' → Address e' m p)
    → ((p ≡ "/api/client-sdk/toggles") ⊎ (p ≡ "/api/client-sdk/events") ⊎ (p ≡ "/api/events"))
    → Address e m p
double_row p m' e' (inl (accepts, found)) h k = rw found (h accepts)
double_row p m' e' (inr (inl (accepts, found))) h k = rw found (by_options accepts, k)
double_row p m' e' (inr (inr none_left)) h k = elim none_left [ ]

row-Address :
    (p : String) (m : Method) (e : Endpoint) (methods : List (Method × Endpoint))
    → get routes p ≡ some methods
    → InRow m e methods
    → Address e m p
row-Address p m e methods listed row = elim (rows p methods listed) [
  | inl (at, is) ↦ single_row p get_method root (rw is at row) (λ a. (by_get a, at))
  | inr (inl (at, is)) ↦
      double_row p get_method client_toggles (rw is at row) (λ a. (by_get a, at)) (inl at)
  | inr (inr (inl (at, is))) ↦
      double_row p get_method client_events (rw is at row) (λ a. (by_get a, at)) (inr (inl at))
  | inr (inr (inr (inl (at, is)))) ↦
      single_row p get_method server_toggles (rw is at row) (λ a. (by_get a, at))
  | inr (inr (inr (inr (inl (at, is))))) ↦
      double_row p post_method events (rw is at row) (λ a. (by_post a, at)) (inr (inr at))
  | inr (inr (inr (inr (inr (inl (at, is)))))) ↦
      single_row p get_method secrets (rw is at row) (λ a. (by_get a, at))
  | inr (inr (inr (inr (inr (inr (at, is)))))) ↦
      single_row p post_method toggles_updated (rw is at row) (λ a. (by_post a, at))
]

module _ (crates : Crates) (axum : Axum crates) where
  open axum use {Request, method, path, destination, destination_listed, destination_unlisted}

  arrive :
      (r : Request) (e : Endpoint) (m : Method) (p : String) (methods : List (Method × Endpoint))
      → method r ≡ m
      → path r ≡ p
      → get routes p ≡ some methods
      → on_method m methods ≡ to e
      → destination routes r ≡ to e
  arrive r e m p methods same at listed found =
      destination_listed routes r methods (rw at listed) ∙ rw same found

  arrive_get :
      (r : Request) (e : Endpoint) (p : String) (methods : List (Method × Endpoint))
      → Gets (method r)
      → path r ≡ p
      → get routes p ≡ some methods
      → on_method get_method methods ≡ to e
      → on_method head_method methods ≡ to e
      → destination routes r ≡ to e
  arrive_get r e p methods (inl m) at listed found heads = arrive r e _ p methods m at listed found
  arrive_get r e p methods (inr m) at listed found heads = arrive r e _ p methods m at listed heads

  arrive_cors : (r : Request) → Address cors (method r) (path r) → destination routes r ≡ to cors
  unfolding routes get on_method
  arrive_cors r (m, inl p) = arrive r cors _ _ _ m p refl refl
  arrive_cors r (m, inr (inl p)) = arrive r cors _ _ _ m p refl refl
  arrive_cors r (m, inr (inr p)) = arrive r cors _ _ _ m p refl refl

  arrived :
      (r : Request) (e : Endpoint) → Address e (method r) (path r) → destination routes r ≡ to e
  unfolding routes get on_method
  arrived r root (m, p) = arrive_get r root _ _ m p refl refl refl
  arrived r cors h = arrive_cors r h
  arrived r client_toggles (m, p) = arrive_get r client_toggles _ _ m p refl refl refl
  arrived r client_events (m, p) = arrive_get r client_events _ _ m p refl refl refl
  arrived r server_toggles (m, p) = arrive_get r server_toggles _ _ m p refl refl refl
  arrived r events (m, p) = arrive r events _ _ _ m p refl refl
  arrived r secrets (m, p) = arrive_get r secrets _ _ m p refl refl refl
  arrived r toggles_updated (m, p) = arrive r toggles_updated _ _ _ m p refl refl

  -- A function of the table is reached by exactly the requests with its path and its
  -- method, those of GET also by the requests with HEAD.
  pub destination_iff :
      (r : Request) (e : Endpoint) → (destination routes r ≡ to e) ↔ Address e (method r) (path r)
  destination_iff r e = (reached, arrived r e)
    where
      reached : destination routes r ≡ to e → Address e (method r) (path r)
      reached h = elim (Option-cases (get routes (path r))) [
        | inl unlisted ↦ absurd (ground (arith, destination_unlisted routes r unlisted))
        | inr (methods, listed) ↦ row-Address (path r) (method r) e methods listed (
            on_method-InRow (method r) e methods
              (sym (destination_listed routes r methods listed) ∙ h))
      ]
