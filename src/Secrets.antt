-- ===== src/Secrets.antt =====
-- src/secrets.rs: the pairs of client and server SDK keys, with the reverse index.
pub mod Invariant
pub mod Versions
use feature_probe_server.Prelude.{ℕ, String, Bool, Option, List, [], ◌∷◌, ltb, if◌then◌else◌}
use feature_probe_server.HashMap
use feature_probe_server.HashMap.{HashMap}

-- `version` is a `u128` that the code only copies and compares.
pub record SecretMapping : Type 0 where
  pub version : ℕ
  pub mapping : HashMap String
  pub reverse : HashMap String

-- `SecretMapping::default()`
unfoldable pub default : SecretMapping
default = record { version = 0; mapping = []; reverse = [] }

-- What serde builds from the two fields that it reads: `reverse` is skipped, and so empty.
unfoldable pub deserialize : ℕ → HashMap String → SecretMapping
deserialize version mapping = record { version = version; mapping = mapping; reverse = [] }

-- The loop that both `new` and `update_mapping` fill `reverse` with.
unfoldable pub fill_reverse : HashMap String → HashMap String → HashMap String
fill_reverse reverse [] = reverse
fill_reverse reverse ((k, v) ∷ entries) = fill_reverse (HashMap.insert reverse v k) entries

unfoldable pub new : ℕ → HashMap String → SecretMapping
new version mapping = record {
  version = version;
  mapping = mapping;
  reverse = fill_reverse [] mapping;
}

unfoldable pub update_mapping : SecretMapping → SecretMapping → SecretMapping
update_mapping self other =
    if ltb self.version other.version
    then record {
      version = other.version;
      mapping = other.mapping;
      reverse = fill_reverse [] other.mapping;
    }
    else self

unfoldable pub client_sdk_key : SecretMapping → String → Option String
client_sdk_key self server_sdk_key = HashMap.get self.reverse server_sdk_key

unfoldable pub server_sdk_key : SecretMapping → String → Option String
server_sdk_key self client_sdk_key = HashMap.get self.mapping client_sdk_key

unfoldable pub server_sdk_keys : SecretMapping → List String
server_sdk_keys self = HashMap.keys self.reverse

unfoldable pub mapping_clone : SecretMapping → HashMap String
mapping_clone self = self.mapping

unfoldable pub insert : SecretMapping → String → String → ℕ → SecretMapping
insert self client_sdk_key server_sdk_key version = record {
  version = version;
  mapping = HashMap.insert self.mapping client_sdk_key server_sdk_key;
  reverse = HashMap.insert self.reverse server_sdk_key client_sdk_key;
}

unfoldable pub contains_server_sdk_key : SecretMapping → String → Bool
contains_server_sdk_key self server_sdk_key = HashMap.contains_key self.reverse server_sdk_key

-- `Deref`: a `SecretMapping` reads as its forward map.
unfoldable pub deref : SecretMapping → HashMap String
deref self = self.mapping
