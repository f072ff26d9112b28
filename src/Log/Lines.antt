-- ===== src/Log/Lines.antt =====
-- The line that an event is logged as, on a writer that does not fail, and on one that does.
use Prim.Native.String.{◌++◌}
use text.Mathlib.TextLemmas.{append_assoc, append-nil}
use feature_probe_server.Prelude.{
  ℕ, String, ◌≡◌, refl, Bool, true, false, Option, none, some, arith, if◌then◌else◌,
}
use feature_probe_server.Prelude.Decimal.{decimal}
use feature_probe_server.Log.{
  Writes, Write, ◌then_write◌, Metadata, LogFormatter, Event, meta_of, write_time, write_module,
  write_line, format_event,
}

-- A `String` as a writer.
abbrev pub string_writer : Write
string_writer = record { Writer = String; write_str = λ s w. (w ++ s, true) }

abbrev pub module_text : Option String → String
module_text none = ""
module_text (some m) = "[" ++ m

abbrev pub line_text : Option ℕ → String
line_text none = ""
line_text (some l) = ":" ++ decimal l

abbrev pub time_text : String → Bool → String
time_text time timed = if timed then time else time ++ "<unknown time>"

-- The line, from the texts of its time and of its fields.
abbrev pub log_line : Metadata → String → String → String
log_line meta time fields =
    "["
    ++ meta.level
    ++ "]["
    ++ time
    ++ "]"
    ++ module_text meta.module_path
    ++ line_text meta.line
    ++ "]"
    ++ fields
    ++ "\n"

-- The text is written at the end of a `String`, which is what `write_str` does.
abbrev pub Appends : String → Bool → Writes String → Type 0
Appends s fine f = (w : String) → f w ≡ (w ++ s, fine)

then_write-Appends :
    (s t : String) {f g : Writes String} {fine : Bool}
    → Appends s true f
    → Appends t fine g
    → Appends (s ++ t) fine (f then_write g)
then_write-Appends s t hf hg w = ground (arith, hf w, hg (w ++ s), append_assoc w s t)

write_str-Appends : (s : String) → Appends s true (λ w. (w ++ s, true))
write_str-Appends s w = refl

write_time-Appends :
    (self : LogFormatter String) (time : String) (timed : Bool)
    → Appends time timed self.format_time
    → Appends (time_text time timed) true (write_time string_writer self)
unfolding write_time
write_time-Appends self time true h w = ground (arith, h w)
write_time-Appends self time false h w = ground (arith, h w, append_assoc w time "<unknown time>")

write_module-Appends :
    (m : Option String) → Appends (module_text m) true (write_module string_writer m)
unfolding write_module
write_module-Appends none w = rw (append-nil w) refl
write_module-Appends (some m) w =
    then_write-Appends "[" m (write_str-Appends "[") (write_str-Appends m) w

write_line-Appends : (l : Option ℕ) → Appends (line_text l) true (write_line string_writer l)
unfolding write_line
write_line-Appends none w = rw (append-nil w) refl
write_line-Appends (some l) w =
    then_write-Appends ":" (decimal l) (write_str-Appends ":") (write_str-Appends (decimal l)) w

-- An event is logged as one line: its level, the time, or a text in place of a time that could not be
-- written, its module and line if it has them, and its fields.
pub format_event_text :
    (self : LogFormatter String) (format_fields : Writes String) (event : Event)
    (time fields : String) (timed : Bool)
    → Appends time timed self.format_time
    → Appends fields true format_fields
    → (w : String)
    → format_event string_writer self format_fields event w
      ≡ (w ++ log_line (meta_of string_writer event) (time_text time timed) fields, true)
unfolding format_event
format_event_text self format_fields event time fields timed ht hf =
    let meta = meta_of string_writer event in
    then_write-Appends "[" _ (write_str-Appends "[") (
      then_write-Appends meta.level _ (write_str-Appends meta.level) (
        then_write-Appends "][" _ (write_str-Appends "][") (
          then_write-Appends (time_text time timed) _ (write_time-Appends self time timed ht) (
            then_write-Appends "]" _ (write_str-Appends "]") (
              then_write-Appends (module_text meta.module_path) _
                (write_module-Appends meta.module_path)
                (then_write-Appends (line_text meta.line) _ (write_line-Appends meta.line) (
                  then_write-Appends "]" _ (write_str-Appends "]")
                    (then_write-Appends fields _ hf (write_str-Appends "\n")))))))))
