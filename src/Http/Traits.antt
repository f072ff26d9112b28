-- ===== src/Http/Traits.antt =====
-- The traits that `serve_http` asks of a handler: `HttpHandler` of src/http/handler.rs, and
-- `EventHandler` of the event collector. `none` is a handler that panics.
use feature_probe_server.Prelude.{String, Option, some, List, [], Result}
use feature_probe_server.HashMap.{HashMap}
use feature_probe_server.Error.{FpServerError}
use feature_probe_server.Crates.{Crates}
use feature_probe_server.Http.Response.{Response}
use feature_probe_server.Http.Handler
use feature_probe_server.Http.Handler.{FpHttpHandler}
use feature_probe_server.Http.Events
use feature_probe_server.Http.Events.{HeaderMap, Post}
use feature_probe_server.Http.LocalFile.{
  LocalFileHttpHandlerForTest, Files, local_server_sdk_toggles, local_fixed_answer,
  local_all_secrets, local_handle_events,
}

-- What a request brings in its query or its body. The key of a request to update toggles is all that
-- is read of it.
pub record ClientParams : Type 0 where
  pub user : String

pub record ToggleUpdateParams (crates : Crates) : Type 0 where
  pub sdk_key : String
  pub toggles : HashMap crates.Toggle
  pub version : Option String

-- A method that writes to what the handler shares returns the new handler.
pub record HttpHandler (crates : Crates) (Self : Type 0) : Type 0 where
  pub server_sdk_toggles : Self → String → Option (Self × Result Response FpServerError)
  pub client_sdk_toggles :
      Self → ClientParams → String → Option (Self × Result Response FpServerError)
  pub client_sdk_events : Self → String → Option (Self × Result Response FpServerError)
  pub update_toggles :
      Self → ToggleUpdateParams crates → Option (Self × Result Response FpServerError)
  pub all_secrets : Self → Option (Result (HashMap String) FpServerError)

pub record EventHandler (crates : Crates) (Self : Type 0) : Type 0 where
  pub handle_events :
      Self
      → String
      → String
      → HeaderMap
      → List crates.Value
      → List (Post crates.Url crates.Value) × Response

module _ (crates : Crates) where
  abbrev pub fp_http_handler : HttpHandler crates (FpHttpHandler crates)
  fp_http_handler = record {
    server_sdk_toggles = λ self key. some (self, Handler.server_sdk_toggles crates self key);
    client_sdk_toggles =
        λ self params key. some (self, Handler.client_sdk_toggles crates self params.user key);
    client_sdk_events = λ self key. some (self, Handler.client_sdk_events crates self key);
    update_toggles = λ self params. some (Handler.update_toggles crates self params.sdk_key);
    all_secrets = λ self. some (Handler.all_secrets crates self);
  }

  abbrev pub fp_event_handler : EventHandler crates (FpHttpHandler crates)
  fp_event_handler = record { handle_events = Events.handle_events crates }

  abbrev pub local_file_http_handler : Files crates → HttpHandler crates LocalFileHttpHandlerForTest
  local_file_http_handler files = record {
    server_sdk_toggles = λ self key. local_server_sdk_toggles crates files self;
    client_sdk_toggles = λ self params key. some (self, local_fixed_answer crates files);
    client_sdk_events = λ self key. some (self, local_fixed_answer crates files);
    update_toggles = λ self params. some (self, local_fixed_answer crates files);
    all_secrets = λ self. local_all_secrets crates files;
  }

  abbrev pub local_file_event_handler :
      Files crates → EventHandler crates LocalFileHttpHandlerForTest
  local_file_event_handler files = record {
    handle_events = λ self key user_agent headers events. ([], local_handle_events crates files);
  }
