-- ===== src/Diagnostics.antt =====
-- crates/princess-build/src/diagnostics.rs: `ToolFamily`, and the forms of one diagnostic line.
use princess_ide.Prelude.{
  ℕ, zero, suc, ◌+◌, ◌^◌, Bool, true, false, not, ◌&&◌, ◌||◌, Option, none, some, List, [], ◌∷◌,
  ◌++◌, ◌==◌, leb, ltb, if◌then◌else◌, length, map,
}
use princess_ide.Str.{
  codes, all_chars, same_text, strip_prefix, starts_with, split_once, contains, is_whitespace, trim,
  trim_start_matches, first_word,
}
use princess_ide.Serial.Parse.{is_empty}
use princess_ide.Framing.{parse_usize}
use princess_ide.Monitor.Tables.{below}
use princess_ide.Paths.{file_name}
pub mod Parser
pub mod Located
pub mod Marked
pub mod Distinct
mod Tests

pub data DiagnosticSeverity : Type 0 where
  error warning note : DiagnosticSeverity

pub data DiagnosticSource : Type 0 where
  from_clang from_gcc from_ld from_nasm : DiagnosticSource

pub data ToolFamily : Type 0 where
  gcc clang ld nasm unknown : ToolFamily

pub record RawDiagnostic : Type 0 where
  pub severity : DiagnosticSeverity
  pub file : Option (List ℕ)
  pub line : Option ℕ
  pub col : Option ℕ
  pub message : List ℕ
  pub source : DiagnosticSource

abbrev pub lower_char : ℕ → ℕ
lower_char c = if leb 65 c && leb c 90 then c + 32 else c

-- `to_ascii_lowercase`.
abbrev pub to_ascii_lowercase : List ℕ → List ℕ
to_ascii_lowercase s = map lower_char s

-- `ends_with`.
abbrev ends_with : List ℕ → List ℕ → Bool
ends_with suffix [] = same_text [] suffix
ends_with suffix (c ∷ s) = let rest = ends_with suffix s in same_text (c ∷ s) suffix || rest

abbrev program_name : List ℕ → List ℕ
program_name program = elim (file_name program) [ some name ↦ to_ascii_lowercase name | none ↦ [] ]

unfoldable pub family_of_name : List ℕ → ToolFamily
unfolding contains
family_of_name name =
    if contains (codes "nasm") name || same_text name (codes "yasm")
    then nasm
    else if contains (codes "clang") name
    then clang
    else if contains (codes "gcc") name
        || contains (codes "g++") name
        || contains (codes "cc1") name
    then gcc
    else if same_text name (codes "ld")
        || contains (codes "ld.") name
        || ends_with (codes "-ld") name
        || contains (codes "collect2") name
    then ld
    else unknown

unfoldable pub for_program : List ℕ → ToolFamily
unfolding family_of_name file_name
for_program program = family_of_name (program_name program)

unfoldable pub default_source : ToolFamily → Option DiagnosticSource
default_source gcc = some from_gcc
default_source clang = some from_clang
default_source ld = some from_ld
default_source nasm = some from_nasm
default_source unknown = none

abbrev pub known : ToolFamily → Option ToolFamily
known gcc = some gcc
known clang = some clang
known ld = some ld
known nasm = some nasm
known unknown = none

abbrev pub trim_start : List ℕ → List ℕ
trim_start s = trim_start_matches is_whitespace s

unfoldable pub from_recipe_line : List ℕ → Option ToolFamily
unfolding starts_with for_program is_whitespace
from_recipe_line line = elim (first_word line) [
  | none ↦ none
  | some first ↦
      if not (starts_with first (trim_start line)) then none else known (for_program first)
]

abbrev is_ld : ToolFamily → Bool
is_ld ld = true
is_ld _ = false

abbrev is_nasm : ToolFamily → Bool
is_nasm nasm = true
is_nasm _ = false

abbrev is_clang : ToolFamily → Bool
is_clang clang = true
is_clang _ = false

abbrev is_unknown : ToolFamily → Bool
is_unknown unknown = true
is_unknown _ = false

-- `ld: <file>: <message>`, after the program.
abbrev ld_rest : List ℕ → Option RawDiagnostic
ld_rest rest = elim (split_once (codes ":") rest) [
  | none ↦ none
  | some (file, message) ↦
      if is_empty (trim file) || is_empty (trim message)
      then none
      else some (record {
        severity = error;
        file = some (trim file);
        line = none;
        col = none;
        message = trim message;
        source = from_ld;
      })
]

unfoldable pub parse_ld_form : List ℕ → Option RawDiagnostic
unfolding split_once for_program trim is_whitespace
parse_ld_form line = elim (split_once (codes ":") (trim_start line)) [
  | none ↦ none
  | some (program, rest) ↦
      if not (is_ld (for_program (trim program)))
      then none
      else if is_empty (trim rest)
      then none
      else ld_rest (trim rest)
]

abbrev pub source_or : Option DiagnosticSource → DiagnosticSource → DiagnosticSource
source_or none d = d
source_or (some s) d = s

unfoldable pub parse_make_error : List ℕ → ToolFamily → Option RawDiagnostic
unfolding starts_with contains default_source trim is_whitespace
parse_make_error line family =
    if not (starts_with (codes "make") (trim_start line))
    then none
    else if not (contains (codes "***") line || contains (codes "Error ") line)
    then none
    else some (record {
      severity = error;
      file = none;
      line = none;
      col = none;
      message = trim line;
      source = source_or (default_source family) from_gcc;
    })

unfoldable pub classify_source : List ℕ → List ℕ → ToolFamily → DiagnosticSource
unfolding contains default_source
classify_source message whole_line family =
    let lower = to_ascii_lowercase whole_line in
    if contains (codes "nasm:") lower
      || contains (codes "nasm ") lower
      || is_nasm family
      || contains (codes "parser: instruction expected") whole_line
    then from_nasm
    else if is_clang family
    then from_clang
    else if is_ld family
    then from_ld
    else if is_unknown family
        && (contains (codes "use of undeclared identifier") message
            || contains (codes "expected ';' after") message
            || contains (codes "incompatible integer to pointer") message)
    then from_clang
    else if contains (codes "each undeclared identifier is reported only once") message
        || contains (codes "expected '=' , ',' , ';' , 'asm' or '__attribute__'") message
        || contains (codes "note: expected") message
    then from_gcc
    else if contains (codes "undefined reference to") message
        || contains (codes "cannot find entry symbol") message
        || contains (codes "relocation truncated") message
        || contains (codes "final link failed") message
    then from_ld
    else source_or (default_source family) from_gcc

abbrev pub is_ascii_digit : ℕ → Bool
is_ascii_digit c = leb 48 c && leb c 57

-- The text around the last colon.
unfoldable pub rsplit_colon : List ℕ → Option (List ℕ × List ℕ)
rsplit_colon [] = none
rsplit_colon (c ∷ s) = elim (rsplit_colon s) [
  | some (before, tail) ↦ some (c ∷ before, tail)
  | none ↦ if c == 58 then some ([], s) else none
]

-- The loop over the `:digits` groups from the end, with the groups that it may still take: the text in
-- front of them and their numbers.
unfoldable pub walk_back : ℕ → List ℕ → List ℕ → Option (List ℕ × List ℕ)
unfolding rsplit_colon parse_usize
walk_back zero location numbers = some (location, numbers)
walk_back (suc groups) location numbers = elim (rsplit_colon location) [
  | none ↦ some (location, numbers)
  | some (before, tail) ↦ elim (is_empty tail || not (all_chars is_ascii_digit tail)) [
    | true ↦ some (location, numbers)
    | false ↦ elim (below (2 ^ 32) (parse_usize tail)) [
      | none ↦ none
      | some n ↦ walk_back groups before (numbers ++ (n ∷ []))
    ]
  ]
]

-- The path, with the numbers as the loop found them.
abbrev pub place : List ℕ → List ℕ → Option (List ℕ × Option ℕ × Option ℕ)
place location [] =
    let file = trim location in
    if is_empty file || contains (codes " ") file then none else some (file, none, none)
place location (line ∷ []) =
    if is_empty (trim location) then none else some (trim location, some line, none)
place location (col ∷ line ∷ rest) =
    if is_empty (trim location) then none else some (trim location, some line, some col)

abbrev pub placed : Option (List ℕ × List ℕ) → Option (List ℕ × Option ℕ × Option ℕ)
placed none = none
placed (some (location, numbers)) = place location numbers

unfoldable pub split_location : List ℕ → Option (List ℕ × Option ℕ × Option ℕ)
unfolding walk_back trim contains
split_location location = if is_empty location then none else placed (walk_back 2 location [])

-- A marker found: the text before it, the text after it, and its severity.
abbrev pub Marked : Type 0
Marked = List ℕ × List ℕ × DiagnosticSeverity

unfoldable pub find_marker : List ℕ → List ℕ → DiagnosticSeverity → Option Marked
unfolding split_once
find_marker line needle severity = elim (split_once needle line) [
  | none ↦ none
  | some (before, after) ↦ some (before, after, severity)
]

-- `min_by_key` on the places, of which the first smallest wins.
abbrev pub earlier : Option Marked → Option Marked → Option Marked
earlier none b = b
earlier (some a) none = some a
earlier (some a) (some b) = if ltb (length b.0) (length a.0) then some b else some a

unfoldable pub first_marker : List ℕ → Option Marked
unfolding find_marker
first_marker line = earlier (find_marker line (codes ": fatal error:") error) (
    earlier (find_marker line (codes ": error:") error) (
      earlier (find_marker line (codes ": warning:") warning)
        (find_marker line (codes ": note:") note)))

abbrev pub located :
    DiagnosticSeverity
    → List ℕ
    → DiagnosticSource
    → Option (List ℕ × Option ℕ × Option ℕ)
    → Option RawDiagnostic
located severity message source none = none
located severity message source (some (file, line, col)) = some (record {
  severity = severity;
  file = some file;
  line = line;
  col = col;
  message = message;
  source = source;
})

unfoldable pub parse_colon_form : List ℕ → ToolFamily → Option RawDiagnostic
unfolding first_marker trim split_location classify_source
parse_colon_form line family = elim (first_marker line) [
  | none ↦ none
  | some (location, after, severity) ↦
      let message = trim after in
      if is_empty message
      then none
      else located severity message (classify_source message line family) (split_location location)
]

abbrev pub or_else : Option RawDiagnostic → Option RawDiagnostic → Option RawDiagnostic
or_else none b = b
or_else (some a) b = some a

unfoldable pub parse_line_for : List ℕ → ToolFamily → Option RawDiagnostic
unfolding parse_colon_form parse_make_error parse_ld_form
parse_line_for line family =
    or_else (parse_colon_form line family)
      (or_else (parse_make_error line family) (parse_ld_form line))

unfoldable pub parse_line : List ℕ → Option RawDiagnostic
unfolding parse_line_for
parse_line line = parse_line_for line unknown
