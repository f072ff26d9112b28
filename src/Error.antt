-- ===== src/Error.antt =====
-- `FPServerError` of src/base.rs, with the messages of its `Display`.
use Prim.Native.String
use feature_probe_server.Prelude.{String}

pub data FpServerError : Type 0 where
  not_found : String → FpServerError
  user_decode_error : FpServerError
  config_error : String → FpServerError
  not_ready : String → FpServerError
  json_error : String → FpServerError

unfoldable pub to_string : FpServerError → String
to_string (not_found s) = String.◌++◌ "not found " s
to_string user_decode_error = "user base64 decode error"
to_string (config_error s) = String.◌++◌ "config error: " s
to_string (not_ready s) = String.◌++◌ "not ready error: " s
to_string (json_error s) = String.◌++◌ "json error: " s
