-- ===== src/Log.antt =====
-- The log line of src/base.rs, `LogFormatter`, and `init_log` of src/main.rs, which sets it up. A writer
-- of `std::fmt` may fail at each write, and is written to in pieces.
pub mod Brackets
pub mod Lines
use feature_probe_server.Prelude.{
  ℕ, String, Bool, true, false, Option, none, some, Result, ok, err, if◌then◌else◌,
}
use feature_probe_server.Prelude.Decimal.{decimal}

-- What is written to a writer: the writer afterwards, and whether all went well.
abbrev pub Writes : Type 0 → Type 0
Writes Writer = Writer → Writer × Bool

-- `?`: what follows a write that failed is not done.
infixr 5 ◌then_write◌
abbrev pub ◌then_write◌ : {Writer : Type 0} → Writes Writer → Writes Writer → Writes Writer
(f then_write g) w = let (w', fine) = f w in elim fine [ true ↦ g w' | false ↦ (w', false) ]

-- `std::fmt::Write`
pub record Write : Type 1 where
  pub Writer : Type 0
  pub write_str : String → Writes Writer

-- The parts of `tracing_core::Metadata` that are written.
pub record Metadata : Type 0 where
  pub level : String
  pub module_path : Option String
  pub line : Option ℕ

-- `FormatTime`, as far as `LogFormatter` calls it.
pub record LogFormatter (Writer : Type 0) : Type 0 where
  pub format_time : Writes Writer

-- The metadata of an event; those of a record of the `log` crate are normalised.
pub record Event : Type 0 where
  pub normalized_metadata : Option Metadata
  pub metadata : Metadata

module _ (write : Write) where
  open write use {Writer, write_str}

  abbrev fine : Writes Writer
  fine w = (w, true)

  unfoldable pub meta_of : Event → Metadata
  meta_of event = elim event.normalized_metadata [ none ↦ event.metadata | some meta ↦ meta ]

  -- The time, or a text in its place if it cannot be written.
  unfoldable pub write_time : LogFormatter Writer → Writes Writer
  write_time self w =
      let (w', timed) = self.format_time w in
      elim timed [ true ↦ (w', true) | false ↦ write_str "<unknown time>" w' ]

  unfoldable pub write_module : Option String → Writes Writer
  write_module none = fine
  write_module (some m) = write_str "[" then_write write_str m

  unfoldable pub write_line : Option ℕ → Writes Writer
  write_line none = fine
  write_line (some l) = write_str ":" then_write write_str (decimal l)

  -- `format_fields` is the formatter of the fields that the context has.
  unfoldable pub format_event : LogFormatter Writer → Writes Writer → Event → Writes Writer
  format_event self format_fields event =
      let meta = meta_of event in
      write_str "["
      then_write write_str meta.level
      then_write write_str "]["
      then_write write_time self
      then_write write_str "]"
      then_write write_module meta.module_path
      then_write write_line meta.line
      then_write write_str "]"
      then_write format_fields
      then_write write_str "\n"

-- `init_log`: the time is that of the local offset, or of the system if there is no offset.
unfoldable pub init_log :
    {Writer Offset E : Type 0}
    → (Offset → Writes Writer)
    → Writes Writer
    → Result Offset E
    → LogFormatter Writer
init_log offset_time system_time (ok offset) = record { format_time = offset_time offset }
init_log offset_time system_time (err e) = record { format_time = system_time }
