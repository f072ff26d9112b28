-- ===== src/Tests/LocalFile.antt =====
-- A test's handler that updates versions.
use Prim.Native.Char.{nul}
use Prim.Native.String as Text
use text.Mathlib.TextLemmas.{length-cons}
use feature_probe_server.Prelude.{
  ℕ, zero, suc, String, ◌≡◌, refl, ap, ◌∙◌, ◌+◌, Bool, true, none, some, [], ◌∷◌, ok, arith,
}
use feature_probe_server.HashMap.{HashMap}
use feature_probe_server.Http.LocalFile.{
  LocalFileHttpHandlerForTest, Files, kept_body, json_response, local_server_sdk_toggles,
}
use feature_probe_server.Http.LocalFile.Versions.{
  Faithful, after_requests, version_of, served_versions,
}
use feature_probe_server.Tests.Sample.{crates, toggle_keys}

-- A version is a text of that many characters.
text_of : ℕ → String
text_of zero = ""
text_of (suc n) = Text.◌∷◌ nul (text_of n)

count-text_of : (n : ℕ) → Text.count (text_of n) ≡ n
unfolding text_of
count-text_of zero = refl
count-text_of (suc n) = length-cons nul (text_of n) ∙ ap suc (count-text_of n)

abbrev files : Files crates
files = record {
  repo_file = "";
  secrets_file = "";
  repository_from_json = λ text. some ((text, true) ∷ []);
  maps_from_json = λ text. none;
  version = λ repo. some (Text.count (toggle_keys repo));
  with_version = λ repo n. (text_of n, true) ∷ [];
  max_version = 340282366920938463463374607431768211455;
  after_max = none;
}

faithful : Faithful files
faithful = record {
  version-with_version = λ r n h. ap some (count-text_of n);
  to_json = λ r n h. (text_of n, refl, refl);
}

abbrev handler : LocalFileHttpHandlerForTest
handler = record { version_update = true; body = none }

served_versions_example :
    (t : LocalFileHttpHandlerForTest) × (u : LocalFileHttpHandlerForTest) × (body : String)
    × (q : HashMap Bool) × (after_requests crates files 3 handler ≡ some t)
    × (local_server_sdk_toggles crates files t ≡ some (u, ok (json_response body)))
    × (files.repository_from_json body ≡ some q)
    × (version_of crates files q ≡ 0 + 3)
unfolding kept_body
served_versions_example =
    served_versions crates files faithful 3 handler (("", true) ∷ []) refl (omega arith) refl
