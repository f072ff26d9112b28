-- ===== src/Http/LocalFile/Versions.antt =====
-- The versions that a test's handler serves.
use mathlib.Core.Option.{get_or}
use feature_probe_server.Prelude.{
  ℕ, zero, suc, ◌<◌, ◌≤◌, String, ◌≡◌, refl, ◌+◌, true, Option, none, some, ok, arith,
}
use feature_probe_server.Crates.{Crates}
use feature_probe_server.Http.LocalFile.{
  LocalFileHttpHandlerForTest, Files, kept_body, next_version, bumped, json_response,
  local_server_sdk_toggles,
}

-- A repository whose version is set to one in range has that version, has a text, and comes back
-- from it.
pub record Faithful {crates : Crates} (files : Files crates) : Type 0 where
  pub version-with_version :
      (r : crates.Repository) (n : ℕ)
      → n ≤ files.max_version
      → files.version (files.with_version r n) ≡ some n
  pub to_json :
      (r : crates.Repository) (n : ℕ)
      → n ≤ files.max_version
      → (text : String) × (crates.repository_to_json (files.with_version r n) ≡ ok text)
        × (files.repository_from_json text ≡ some (files.with_version r n))

module _ (crates : Crates) (files : Files crates) where
  -- The handler after a number of requests.
  pub after_requests : ℕ → LocalFileHttpHandlerForTest → Option LocalFileHttpHandlerForTest
  after_requests zero s = some s
  after_requests (suc n) s = elim (local_server_sdk_toggles crates files s) [
    | none ↦ none
    | some (t, response) ↦ after_requests n t
  ]

  abbrev pub version_of : crates.Repository → ℕ
  version_of r = get_or (files.version r) 0

  module _ (faithful : Faithful files) where
    open faithful use {version-with_version, to_json}

    -- A request is answered with the text that is kept, and leaves the next version.
    step :
        (s : LocalFileHttpHandlerForTest) (r : crates.Repository)
        → s.version_update ≡ true
        → version_of r < files.max_version
        → files.repository_from_json (kept_body crates files s.body) ≡ some r
        → (text : String) × (local_server_sdk_toggles crates files s
            ≡ some
                (record s { body = some text }, ok (json_response (kept_body crates files s.body))))
          × (files.repository_from_json text ≡ some (files.with_version r (version_of r + 1)))
    unfolding local_server_sdk_toggles next_version bumped
    step s r updates small parsed =
        let (text, printed, back) = to_json r (version_of r + 1) (omega arith) in
        (text, ground (arith), back)

    -- Where a repository whose version is set has a text that reads back as it, a handler that
    -- updates versions and keeps a repository answers the request after any number of requests with
    -- status 200 and a repository whose version is higher by that number, as long as the version
    -- stays below the greatest.
    pub served_versions :
        (n : ℕ) (s : LocalFileHttpHandlerForTest) (r : crates.Repository)
        → s.version_update ≡ true
        → version_of r + n < files.max_version
        → files.repository_from_json (kept_body crates files s.body) ≡ some r
        → (t : LocalFileHttpHandlerForTest) × (u : LocalFileHttpHandlerForTest) × (body : String)
          × (q : crates.Repository) × (after_requests n s ≡ some t)
          × (local_server_sdk_toggles crates files t ≡ some (u, ok (json_response body)))
          × (files.repository_from_json body ≡ some q)
          × (version_of q ≡ version_of r + n)
    unfolding after_requests kept_body
    served_versions zero s r updates small parsed =
        let (text, answered, next) = step s r updates (omega arith) parsed in
        (
          s,
          record s { body = some text },
          kept_body crates files s.body,
          r,
          refl,
          answered,
          parsed,
          omega arith,
        )
    served_versions (suc n) s r updates small parsed =
        let (text, answered, next) = step s r updates (omega arith) parsed in
        let is_next : version_of (files.with_version r (version_of r + 1)) ≡ version_of r + 1 =
          rw (version-with_version r (version_of r + 1) (omega arith)) refl in
        let (t, u, body, q, reached, served, is_repo, higher) =
          served_versions n (record s { body = some text })
            (files.with_version r (version_of r + 1)) updates (omega arith) next in
        (t, u, body, q, rw (answered, after_requests) reached, served, is_repo, ground arith)
