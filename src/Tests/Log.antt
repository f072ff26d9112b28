-- ===== src/Tests/Log.antt =====
-- Log lines of src/base.rs.
use Prim.Native.String as Text
use native.Mathlib.Decide.{ℕ_discrete}
use feature_probe_server.Prelude.{String, ◌≡◌, ◌↔◌, refl, true, false, Option, none, some, is_some}
use feature_probe_server.Prelude.Decimal.{decimal}
use feature_probe_server.Log.{
  Writes, LogFormatter, Event, meta_of, write_time, write_module, write_line, format_event,
}
use feature_probe_server.Log.Lines.{string_writer}
use feature_probe_server.Log.Brackets.{
  depth_after, after_char, IsBalanced, format_event-IsBalanced_iff,
}
use feature_probe_server.Config.Display.{display_config}
use feature_probe_server.Tests.Config.{parsed}
use feature_probe_server.Tests.Sample.{crates}

abbrev timer : LogFormatter String
timer = record { format_time = λ w. (Text.◌++◌ w "12:00", true) }

abbrev broken_timer : LogFormatter String
broken_timer = record { format_time = λ w. (Text.◌++◌ w "12:", false) }

abbrev fields : Writes String
fields w = (Text.◌++◌ w " started", true)

abbrev event : Option String → Event
event m = record {
  normalized_metadata = none;
  metadata = record { level = "INFO"; module_path = m; line = some 42 };
}

program : Unit {0}
unfolding format_event meta_of write_time write_module write_line decimal
program = tt

named :
    format_event string_writer timer fields (event (some "repo")) ""
    ≡ ("[INFO][12:00][repo:42] started\n", true)
unfolding program
named = refl

untimed :
    format_event string_writer broken_timer fields (event (some "repo")) ""
    ≡ ("[INFO][12:<unknown time>][repo:42] started\n", true)
unfolding program
untimed = refl

-- A bracket is closed that was not opened.
unnamed :
    format_event string_writer timer fields (event none) "" ≡ ("[INFO][12:00]:42] started\n", true)
unfolding program
unnamed = refl

shown :
    display_config crates
      (λ s. Text.◌++◌ "\"" (Text.◌++◌ s "\""))
      (λ d. Text.◌++◌ (decimal d.secs) "s")
      (parsed 4007 3)
    ≡ "server_port 4007, toggles_url http://api/toggles, events_url http://api/events, analysis_url None, keys_url None, refresh_interval 3s, client_sdk_key Some(\"client-1\"), server_sdk_key Some(\"server-1\")"
unfolding display_config decimal
shown = refl

format_event-IsBalanced_iff_example :
    (line : String) × (format_event string_writer timer fields (event none) ""
      ≡ (Text.◌++◌ "" line, true))
    × (IsBalanced line ↔ (is_some {A = String} none ≡ true))
unfolding depth_after after_char ℕ_discrete meta_of
format_event-IsBalanced_iff_example =
    format_event-IsBalanced_iff timer fields (event none) "12:00" " started" true "" (λ w. refl)
      (λ w. refl) refl refl refl refl
