-- ===== src/Log/Brackets.antt =====
-- The brackets of a log line.
use Prim.Native.Char.{code}
use Prim.Native.String as Text
use Prim.Native.String.{◌++◌}
use feature_probe_server.Prelude.{
  ℕ, zero, suc, String, ◌≡◌, ◌↔◌, refl, ◌<◌, ◌≤◌, ◌%◌, Bool, true, false, Option, none, some, arith,
  ltb, is_some, Bool-cases, Option-cases, inl, inr, if◌then◌else◌, ◌∙◌,
}
use Prim.Native.Nat.{◌/◌}
use feature_probe_server.Prelude.Options.{◌>>=◌}
use text.Mathlib.TextLemmas.{nil-append, cons-append}
use mathlib.Core.Option.{get_or}
use native.Mathlib.Decide.{ℕ_discrete}
use mathlib.Core.Logic.{ite}
use feature_probe_server.Prelude.Decimal.{decimal, decimal_lem, digit}
use feature_probe_server.Log.{Writes, Metadata, LogFormatter, Event, meta_of, format_event}
use feature_probe_server.Log.Lines.{
  string_writer, module_text, line_text, time_text, log_line, Appends, format_event_text,
}

-- The depth of brackets after a character with a code, from that before it: a "]" at depth 0 closes nothing.
unfoldable pub closed : ℕ → Option ℕ
closed zero = none
closed (suc depth) = some depth

unfoldable pub after_char : ℕ → ℕ → Option ℕ
after_char depth k =
    ite (ℕ_discrete k 91) (some (suc depth)) (ite (ℕ_discrete k 93) (closed depth) (some depth))

-- The depth after a text, if no "]" in it closes a bracket that was not opened.
unfoldable pub depth_after : ℕ → String → Option ℕ
depth_after depth Text.[] = some depth
depth_after depth (Text.◌∷◌ c s) = elim (after_char depth (code c)) [
  | none ↦ none
  | some next ↦ depth_after next s
]

-- Every "]" closes a "[" before it, and every "[" is closed.
abbrev pub IsBalanced : String → Type 0
IsBalanced s = depth_after 0 s ≡ some 0

depth_after-append :
    (depth : ℕ) (s t : String)
    → depth_after depth (s ++ t) ≡ (depth_after depth s >>= λ next. depth_after next t)
unfolding depth_after
depth_after-append depth Text.[] t = rw (nil-append t) refl
depth_after-append depth (Text.◌∷◌ c s) t =
    rw (cons-append c s t) (elim (Option-cases (after_char depth (code c))) [
      | inl none_left ↦ rw (none_left, depth_after) refl
      | inr (next, opened) ↦ rw (opened, depth_after) (depth_after-append next s t)
    ])

after_char-deeper :
    (depth k : ℕ) {next : ℕ}
    → after_char depth k ≡ some next
    → after_char (suc depth) k ≡ some (suc next)
unfolding after_char closed
after_char-deeper zero k e = ground arith
after_char-deeper (suc depth) k e = ground arith

-- A text that closes nothing before it does the same one bracket deeper.
depth_after-deeper :
    (depth : ℕ) (s : String) {last : ℕ}
    → depth_after depth s ≡ some last
    → depth_after (suc depth) s ≡ some (suc last)
unfolding depth_after
depth_after-deeper depth Text.[] e = ground arith
depth_after-deeper depth (Text.◌∷◌ c s) {last} e = elim (Option-cases (after_char depth (code c))) [
  | inl none_left ↦ absurd (ground arith)
  | inr (next, opened) ↦
      rw (after_char-deeper depth (code c) opened, depth_after)
        (depth_after-deeper next s (ground arith))
]

IsBalanced-at : (depth : ℕ) (s : String) → IsBalanced s → depth_after depth s ≡ some depth
IsBalanced-at zero s h = h
IsBalanced-at (suc depth) s h = depth_after-deeper depth s (IsBalanced-at depth s h)

-- What follows a text is read from the depth after it.
passes :
    (depth : ℕ) {next : ℕ} (s t : String)
    → depth_after depth s ≡ some next
    → depth_after depth (s ++ t) ≡ depth_after next t
passes depth s t e = rw (depth_after-append depth s t) (rw e refl)

balanced_passes :
    (depth : ℕ) (s t : String) → IsBalanced s → depth_after depth (s ++ t) ≡ depth_after depth t
balanced_passes depth s t h = passes depth s t (IsBalanced-at depth s h)

IsBalanced-append : (s t : String) → IsBalanced s → IsBalanced t → IsBalanced (s ++ t)
IsBalanced-append s t hs ht = passes 0 s t hs ∙ ht

digit-IsBalanced : (d : ℕ) → d < 10 → IsBalanced (digit d)
unfolding depth_after after_char ℕ_discrete
digit-IsBalanced zero h = refl
digit-IsBalanced (suc zero) h = refl
digit-IsBalanced (suc (suc zero)) h = refl
digit-IsBalanced (suc (suc (suc zero))) h = refl
digit-IsBalanced (suc (suc (suc (suc zero)))) h = refl
digit-IsBalanced (suc (suc (suc (suc (suc zero))))) h = refl
digit-IsBalanced (suc (suc (suc (suc (suc (suc zero)))))) h = refl
digit-IsBalanced (suc (suc (suc (suc (suc (suc (suc zero))))))) h = refl
digit-IsBalanced (suc (suc (suc (suc (suc (suc (suc (suc zero)))))))) h = refl
digit-IsBalanced (suc (suc (suc (suc (suc (suc (suc (suc (suc zero))))))))) h = refl
digit-IsBalanced (suc (suc (suc (suc (suc (suc (suc (suc (suc (suc d)))))))))) h =
    absurd (omega arith)

decimal-IsBalanced : (bound n : ℕ) → n < bound → IsBalanced (decimal n)
decimal-IsBalanced zero n h = absurd (omega arith)
decimal-IsBalanced (suc bound) n h = elim (Bool-cases (ltb n 10)) [
  | inl short ↦
      let below : n < 10 = ground arith in rw (decimal_lem n) (rw short (digit-IsBalanced n below))
  | inr long ↦
      let above : 10 ≤ n = ground arith in
      rw (decimal_lem n) (
        rw long (
          IsBalanced-append (decimal (n / 10)) (digit (n % 10))
            (decimal-IsBalanced bound (n / 10) (omega arith))
            (digit-IsBalanced (n % 10) (omega arith))))
]

line_text-IsBalanced : (l : Option ℕ) → IsBalanced (line_text l)
unfolding depth_after after_char ℕ_discrete
line_text-IsBalanced none = refl
line_text-IsBalanced (some l) =
    IsBalanced-append ":" (decimal l) refl (decimal-IsBalanced (suc l) l (omega arith))

time_text-IsBalanced :
    (time : String) (timed : Bool) → IsBalanced time → IsBalanced (time_text time timed)
unfolding depth_after after_char ℕ_discrete
time_text-IsBalanced time true h = h
time_text-IsBalanced time false h = IsBalanced-append time "<unknown time>" h refl

-- What the line has after the bracket that closes the time.
abbrev tail : Option String → Option ℕ → String → String
tail module_path line fields = module_text module_path ++ line_text line ++ "]" ++ fields ++ "\n"

depth-head :
    (meta : Metadata) (time fields : String)
    → IsBalanced time
    → IsBalanced meta.level
    → depth_after 0 (log_line meta time fields)
      ≡ depth_after 0 (tail meta.module_path meta.line fields)
unfolding depth_after after_char closed ℕ_discrete
depth-head meta time fields bt bl =
    let rest = tail meta.module_path meta.line fields in
    passes 0 "[" (meta.level ++ "][" ++ time ++ "]" ++ rest) refl
    ∙ balanced_passes 1 meta.level ("][" ++ time ++ "]" ++ rest) bl
    ∙ passes 1 "][" (time ++ "]" ++ rest) refl
    ∙ balanced_passes 1 time ("]" ++ rest) bt
    ∙ passes 1 "]" rest refl

closes_nothing : (s : String) → depth_after 0 ("]" ++ s) ≡ none
unfolding depth_after after_char closed ℕ_discrete
closes_nothing s = rw (depth_after-append 0 "]" s) refl

module_opens : (m : String) → IsBalanced m → depth_after 0 ("[" ++ m) ≡ some 1
unfolding depth_after after_char ℕ_discrete
module_opens m h = passes 0 "[" m refl ∙ IsBalanced-at 1 m h

-- The part after the time is balanced if it opens a bracket, and else closes one too many.
depth-tail :
    (module_path : Option String) (line : Option ℕ) (fields : String)
    → IsBalanced fields
    → IsBalanced (get_or module_path "")
    → depth_after 0 (tail module_path line fields) ≡ (if is_some module_path then some 0 else none)
unfolding depth_after after_char closed ℕ_discrete
depth-tail none line fields bf bm =
    balanced_passes 0 "" (line_text line ++ "]" ++ fields ++ "\n") refl
    ∙ balanced_passes 0 (line_text line) ("]" ++ fields ++ "\n") (line_text-IsBalanced line)
    ∙ closes_nothing (fields ++ "\n")
depth-tail (some m) line fields bf bm =
    passes 0 ("[" ++ m) (line_text line ++ "]" ++ fields ++ "\n") (module_opens m bm)
    ∙ balanced_passes 1 (line_text line) ("]" ++ fields ++ "\n") (line_text-IsBalanced line)
    ∙ passes 1 "]" (fields ++ "\n") refl
    ∙ balanced_passes 0 fields "\n" bf
    ∙ refl

log_line-IsBalanced_iff :
    (meta : Metadata) (time fields : String)
    → IsBalanced time
    → IsBalanced fields
    → IsBalanced meta.level
    → IsBalanced (get_or meta.module_path "")
    → IsBalanced (log_line meta time fields) ↔ (is_some meta.module_path ≡ true)
log_line-IsBalanced_iff meta time fields bt bf bl bm =
    let depth : depth_after 0 (log_line meta time fields)
        ≡ (if is_some meta.module_path then some 0 else none) =
      depth-head meta time fields bt bl ∙ depth-tail meta.module_path meta.line fields bf bm in
    elim (Bool-cases (is_some meta.module_path)) [
      | inl named ↦ (λ h. named, λ e. ground arith)
      | inr unnamed ↦ (λ h. absurd (ground arith), λ e. absurd (ground arith))
    ]

-- `format_event` closes a bracket that it has not opened where the event has no module path: over
-- texts in which every "]" closes a "[" before it and every "[" is closed, the line that is written is
-- such a text exactly if the event has a module path.
pub format_event-IsBalanced_iff :
    (self : LogFormatter String) (format_fields : Writes String) (event : Event)
    (time fields : String) (timed : Bool) (w : String)
    → Appends time timed self.format_time
    → Appends fields true format_fields
    → IsBalanced time
    → IsBalanced fields
    → IsBalanced (meta_of string_writer event).level
    → IsBalanced (get_or (meta_of string_writer event).module_path "")
    → (line : String) × (format_event string_writer self format_fields event w ≡ (w ++ line, true))
      × (IsBalanced line ↔ (is_some (meta_of string_writer event).module_path ≡ true))
format_event-IsBalanced_iff self format_fields event time fields timed w ht hf bt bf bl bm =
    let meta = meta_of string_writer event in
    (
      log_line meta (time_text time timed) fields,
      format_event_text self format_fields event time fields timed ht hf w,
      log_line-IsBalanced_iff meta (time_text time timed) fields
          (time_text-IsBalanced time timed bt) bf bl bm,
    )
