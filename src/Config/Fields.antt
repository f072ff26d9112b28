-- ===== src/Config/Fields.antt =====
-- Where the fields of a configuration that parses come from.
use feature_probe_server.Prelude.{
  String, ◌≡◌, refl, ◌⊎◌, inl, inr, Option, none, some, ok, arith, is_some, true,
}
use feature_probe_server.Crates.{Config, Crates}
use feature_probe_server.Config.{
  ServerConfig, parse_url, keys_url_of, required_url, optional_url, try_parse,
}

module _ (crates : Crates) where
  open crates use {Url, url_parse}

  -- A field is the parsed url of a setting; an optional one is left out with its setting.
  abbrev pub Parsed : Option String → Url → Type 0
  Parsed setting u = (text : String) × (setting ≡ some text) × (url_parse text ≡ ok u)

  abbrev pub ParsedIfSet : Option String → Option Url → Type 0
  ParsedIfSet setting none = setting ≡ none
  ParsedIfSet setting (some u) = Parsed setting u

  pub record ReadFrom (config : Config) (cfg : ServerConfig Url) : Type 0 where
    pub toggles : Parsed (config.get_string "toggles_url") cfg.toggles_url
    pub events : Parsed (config.get_string "events_url") cfg.events_url
    pub keys : ParsedIfSet (config.get_string "keys_url") cfg.keys_url
    pub analysis : ParsedIfSet (config.get_string "analysis_url") cfg.analysis_url
    pub client : cfg.client_sdk_key ≡ config.get_string "client_sdk_key"
    pub server : cfg.server_sdk_key ≡ config.get_string "server_sdk_key"
    pub key_source :
        (is_some cfg.keys_url ≡ true)
        ⊎ ((is_some cfg.client_sdk_key ≡ true) × (is_some cfg.server_sdk_key ≡ true))

  parse_url-Parsed :
      (invalid text : String) {u : Url}
      → parse_url crates invalid text ≡ ok u
      → url_parse text ≡ ok u
  unfolding parse_url
  parse_url-Parsed invalid text e = ground arith

  required_url-Parsed :
      (not_set invalid : String) (setting : Option String) (u : Url)
      → required_url crates not_set invalid setting ≡ ok u
      → Parsed setting u
  unfolding required_url
  required_url-Parsed not_set invalid none u e = absurd (ground arith)
  required_url-Parsed not_set invalid (some text) u e =
      (text, refl, parse_url-Parsed invalid text e)

  optional_url-Parsed :
      (invalid : String) (setting : Option String) (o : Option Url)
      → optional_url crates invalid setting ≡ ok o
      → ParsedIfSet setting o
  unfolding optional_url
  optional_url-Parsed invalid none none e = refl
  optional_url-Parsed invalid none (some u) e = absurd (ground arith)
  optional_url-Parsed invalid (some text) none e = absurd (ground arith)
  optional_url-Parsed invalid (some text) (some u) e =
      (text, refl, parse_url-Parsed invalid text (ground arith))

  keys_url_of-Parsed :
      (setting client server : Option String) (o : Option Url)
      → keys_url_of crates setting client server ≡ ok o
      → ParsedIfSet setting o
        × ((is_some o ≡ true) ⊎ ((is_some client ≡ true) × (is_some server ≡ true)))
  unfolding keys_url_of
  keys_url_of-Parsed (some text) client server none e = absurd (ground arith)
  keys_url_of-Parsed (some text) client server (some u) e =
      ((text, refl, parse_url-Parsed "INVALID FP_KEYS_URL: " text (ground arith)), inl refl)
  keys_url_of-Parsed none none server o e = absurd (ground arith)
  keys_url_of-Parsed none (some c) none o e = absurd (ground arith)
  keys_url_of-Parsed none (some c) (some s) none e = (refl, inr (refl, refl))
  keys_url_of-Parsed none (some c) (some s) (some u) e = absurd (ground arith)

  parts :
      (config : Config) {cfg : ServerConfig Url}
      → try_parse crates config ≡ ok cfg
      → (required_url crates "NOT SET FP_TOGGLES_URL" "INVALID FP_TOGGLES_URL: "
            (config.get_string "toggles_url")
          ≡ ok cfg.toggles_url)
        × (required_url crates "NOT SET FP_EVENTS_URL" "INVALID FP_EVENTS_URL: "
              (config.get_string "events_url")
            ≡ ok cfg.events_url)
        × (keys_url_of crates
              (config.get_string "keys_url")
              (config.get_string "client_sdk_key")
              (config.get_string "server_sdk_key")
            ≡ ok cfg.keys_url)
        × (optional_url crates "INVALID FP_ANALYSIS_URL: " (config.get_string "analysis_url")
            ≡ ok cfg.analysis_url)
        × (cfg.client_sdk_key ≡ config.get_string "client_sdk_key")
        × (cfg.server_sdk_key ≡ config.get_string "server_sdk_key")
  unfolding try_parse
  parts config e = ground arith

  -- A configuration that parses has its urls from their own settings, an optional one exactly if
  -- it is set, and has a `keys_url` or both SDK keys.
  pub try_parse-ReadFrom :
      (config : Config) (cfg : ServerConfig Url)
      → try_parse crates config ≡ ok cfg
      → ReadFrom config cfg
  try_parse-ReadFrom config cfg e =
      let (toggles, events, keys, analysis, client, server) = parts config e in
      let (url, source) = keys_url_of-Parsed _ _ _ _ keys in
      record {
        toggles = required_url-Parsed _ _ _ _ toggles;
        events = required_url-Parsed _ _ _ _ events;
        keys = url;
        analysis = optional_url-Parsed _ _ _ analysis;
        client = client;
        server = server;
        key_source = rw (client, server) source;
      }
