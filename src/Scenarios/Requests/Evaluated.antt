-- ===== src/Scenarios/Requests/Evaluated.antt =====
-- What `test_client_sdk_toggles` of src/http/mod.rs asserts of the toggles that a client SDK is sent.
use feature_probe_server.Prelude.{ℕ, String, ◌≡◌, refl, true, some, List, [], ok, arith, inl}
use mathlib.Core.Option.{map}
use feature_probe_server.HashMap.{HashMap, get, collect, IsMap}
use feature_probe_server.Crates.{Crates}
use feature_probe_server.Secrets
use feature_probe_server.Repo.{Inner, Fetched}
use feature_probe_server.Repo.Steps.{Relied}
use feature_probe_server.Repo.Read.{eval_toggles, client_sdk_eval_string}
use feature_probe_server.Repo.Access.{HasRepo}
use feature_probe_server.Repo.Access.ClientSdk.{client_sdk_eval_string-ok_iff}
use feature_probe_server.Repo.Toggles.{collect-eval_toggles}
use feature_probe_server.Http.Response.{respond}
use feature_probe_server.Http.Handler.{
  FpHttpHandler, client_sdk_toggles, decode_user, client_answer,
}
use feature_probe_server.Http.LocalFile.{local_all_secrets}
use feature_probe_server.Http.Router.{Axum, to, client_toggles, routes}
use feature_probe_server.Http.Router.Table.{destination_iff}
use feature_probe_server.Http.Router.Answered.{serve_client_toggles_lem}
use feature_probe_server.Http.Router.Local.{local_serve-answered}
use feature_probe_server.Scenarios.{Kit, setup_fp_server}
use feature_probe_server.Scenarios.Sleep.{Slept}
use feature_probe_server.Scenarios.Browser.{
  Browser, method-http_get, path-http_get, authorization-http_get,
}
use feature_probe_server.Scenarios.Requests.{mock, Details, get_evaluated, test_client_sdk_toggles}
use feature_probe_server.Scenarios.Requests.Mocked.{pair_after_sleep}

module _ (crates : Crates) (axum : Axum crates) (kit : Kit crates) (browser : Browser axum)
    (details : Details) where
  open kit use {files}
  open details use {
    FpDetail, user_json, base64_encode, details_from_json, rule_index, value_as_bool,
  }

  -- The user of the test is read from the request again.
  pub record ReadsUser (user : crates.FpUser) : Type 0 where
    pub bytes : List ℕ
    pub extracted :
        axum.client_params (get_evaluated crates axum kit browser details)
        ≡ ok (record { user = base64_encode user_json })
    pub decoded : crates.base64_decode (base64_encode user_json) ≡ some bytes
    pub is_text : crates.from_utf8 bytes ≡ some user_json
    pub read : crates.user_from_json user_json ≡ some user

  -- A repository has a toggle `bool_toggle` for clients whose detail for a user, as the client SDK
  -- reads it, is true by the first rule.
  -- A detail of the server is printed, and read as one of the client SDK.
  pub record HasBoolToggle (read_as : crates.EvalDetail → FpDetail) (user : crates.FpUser)
      (r : crates.Repository) : Type 0 where
    pub toggle : crates.Toggle
    pub distinct : IsMap (crates.toggles r)
    pub there : get (crates.toggles r) "bool_toggle" ≡ some toggle
    pub for_client : crates.is_for_client toggle ≡ true
    pub by_first_rule :
        rule_index (read_as (crates.eval_detail toggle user (crates.segments r))) ≡ some 0
    pub is_true :
        value_as_bool (read_as (crates.eval_detail toggle user (crates.segments r))) ≡ some true

  -- The details that a client SDK is sent.
  abbrev pub sent : crates.FpUser → crates.Repository → HashMap crates.EvalDetail
  sent user r = collect (eval_toggles crates user (crates.segments r) (crates.toggles r))

  bool_toggle_sent :
      (read_as : crates.EvalDetail → FpDetail) (user : crates.FpUser) (r : crates.Repository)
      → (t : HasBoolToggle read_as user r)
      → get (sent user r) "bool_toggle"
        ≡ some (crates.eval_detail t.toggle user (crates.segments r))
  bool_toggle_sent read_as user r t =
      rw
        (collect-eval_toggles crates user (crates.segments r) (crates.toggles r) "bool_toggle"
          t.distinct)
        (rw t.there (rw t.for_client refl))

  decoded_user :
      (user : crates.FpUser)
      → ReadsUser user
      → decode_user crates (base64_encode user_json) ≡ ok user
  unfolding decode_user
  decoded_user user reads = rw (reads.decoded, decode_user) (rw reads.is_text (rw reads.read refl))

  led_to_evaluated :
      axum.destination routes (get_evaluated crates axum kit browser details) ≡ to client_toggles
  led_to_evaluated =
      (destination_iff crates axum (get_evaluated crates axum kit browser details) client_toggles).1
        (
          inl (method-http_get browser _ _ (some "client-sdk-key1")),
          path-http_get browser _ _ (some "client-sdk-key1"),
        )

  -- The body of the answer is the text of the details.
  evaluated_response :
      (fp : FpHttpHandler crates) (user : crates.FpUser) (text : String)
      → ReadsUser user
      → client_sdk_eval_string crates fp.repo "client-sdk-key1" user ≡ ok text
      → (respond crates
          (client_sdk_toggles crates fp (base64_encode user_json) "client-sdk-key1")).body
        ≡ text
  unfolding client_sdk_toggles respond client_answer
  evaluated_response fp user text reads e = rw (decoded_user user reads) (rw e refl)

  module _ (relied : Relied crates) (serves : crates.Url → Fetched → Type 0) where
    -- What `test_client_sdk_toggles` asserts holds for the server that it sets up, whatever happens
    -- while it sleeps, if by then the SDK client of the server key has a repository with a toggle
    -- `bool_toggle` for clients whose detail for the user, as the client SDK reads it, is true by the
    -- first rule. It takes for granted that the user is read from the request again, that the details
    -- print, that their text reads as a map of the SDK's details with the same keys, each detail as
    -- `read_as` has it, and that the mock's file of keys is as it should be.
    pub test_client_sdk_toggles-holds :
        (target listen : ℕ) (keys : HashMap String) (user : crates.FpUser) (text : String)
        (read_as : crates.EvalDetail → FpDetail) (received : HashMap FpDetail)
        {fp : FpHttpHandler crates} {j : Inner crates}
        → setup_fp_server crates target listen "client-sdk-key1" "server-sdk-key1" ≡ some fp
        → Slept crates relied serves [] fp.repo j
        → (h : HasRepo j "server-sdk-key1")
        → HasBoolToggle read_as user (crates.client_repo h.client)
        → ReadsUser user
        → crates.details_to_json (sent user (crates.client_repo h.client)) ≡ ok text
        → details_from_json text ≡ some received
        → ((k : String)
            → get received k ≡ map read_as (get (sent user (crates.client_repo h.client)) k))
        → local_all_secrets crates files ≡ some (ok keys)
        → test_client_sdk_toggles crates axum kit browser details (record fp { repo = j }) mock
          ≡ some true
    unfolding test_client_sdk_toggles get Secrets.server_sdk_key
    test_client_sdk_toggles-holds target listen keys user text read_as received {fp} {j} made slept
          h toggle reads printed parsed received_as parses =
        let after : FpHttpHandler crates = record fp { repo = j } in
        let held =
          pair_after_sleep crates axum kit browser relied serves target listen "client-sdk-key1"
            "server-sdk-key1" made slept in
        let evaluated : client_sdk_eval_string crates j "client-sdk-key1" user ≡ ok text =
          (client_sdk_eval_string-ok_iff crates j "client-sdk-key1" user text).1
            (rw held (omega arith), ("server-sdk-key1", rw held refl, (h, rw printed refl))) in
        let r = get_evaluated crates axum kit browser details in
        let served =
          serve_client_toggles_lem crates axum after r (record { user = base64_encode user_json })
            "client-sdk-key1" led_to_evaluated reads.extracted
            (authorization-http_get browser _ _ "client-sdk-key1") in
        let (api_served, api_answered, fixed) =
          local_serve-answered crates axum files keys parses mock refl r in
        let body = evaluated_response after user text reads evaluated in
        rw (served, api_answered)
          (rw (body, parsed)
            (rw (received_as "bool_toggle", bool_toggle_sent read_as user _ toggle)
              (rw (toggle.by_first_rule, toggle.is_true) refl)))
