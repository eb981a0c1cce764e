-- ===== src/Diagnostics/Parser.antt =====
-- crates/princess-build/src/diagnostics.rs: `DiagnosticParser` over the lines of a build.
use princess_ide.Prelude.{
  ℕ, Bool, true, false, not, ◌&&◌, ◌||◌, Option, none, some, List, [], ◌∷◌, ◌++◌, ◌==◌, ltb,
  if◌then◌else◌,
}
use princess_ide.Str.{
  codes, all_chars, same_text, starts_with, split_once, contains, trim, trim_end_matches,
}
use princess_ide.Serial.Parse.{is_empty}
use princess_ide.Monitor.Lines.{byte_len, is_line_end}
use princess_ide.Paths.{normalize, join}
use princess_ide.Diagnostics.{
  DiagnosticSeverity, error, warning, note, DiagnosticSource, from_clang, from_gcc, from_ld,
  from_nasm, ToolFamily, unknown, RawDiagnostic, from_recipe_line, parse_line_for, is_ascii_digit,
}

pub record ParsedDiagnostic : Type 0 where
  pub severity : DiagnosticSeverity
  pub file : Option (List ℕ)
  pub line : Option ℕ
  pub col : Option ℕ
  pub message : List ℕ
  pub source : DiagnosticSource

pub record DiagnosticParser : Type 0 where
  pub cwd : List ℕ
  pub family : ToolFamily
  pub last : Option RawDiagnostic

abbrev pub new : List ℕ → DiagnosticParser
new cwd = record { cwd = cwd; family = unknown; last = none }

unfoldable pub with_family : DiagnosticParser → ToolFamily → DiagnosticParser
with_family p family = record p { family = family }

-- The last character is `>`.
abbrev ends_in_angle : List ℕ → Bool
ends_in_angle [] = false
ends_in_angle (c ∷ []) = c == 62
ends_in_angle (c ∷ d ∷ s) = ends_in_angle (d ∷ s)

abbrev resolve_trimmed : List ℕ → List ℕ → List ℕ
resolve_trimmed cwd file =
    if starts_with (codes "<") file && ends_in_angle file then file else normalize (join cwd file)

unfoldable pub resolve : List ℕ → List ℕ → List ℕ
unfolding trim starts_with normalize join
resolve cwd file = resolve_trimmed cwd (trim file)

abbrev resolved : List ℕ → Option (List ℕ) → Option (List ℕ)
resolved cwd none = none
resolved cwd (some file) = some (resolve cwd file)

-- The method `finish`.
unfoldable pub finish_diagnostic : DiagnosticParser → RawDiagnostic → Option ParsedDiagnostic
unfolding trim resolve
finish_diagnostic p raw =
    if is_empty (trim raw.message)
    then none
    else some (record {
      severity = raw.severity;
      file = resolved p.cwd raw.file;
      line = raw.line;
      col = raw.col;
      message = trim raw.message;
      source = raw.source;
    })

-- `splitn(2, '|')` gives a number in front of a bar.
abbrev is_echo : Option (List ℕ × List ℕ) → Bool
is_echo none = false
is_echo (some (left, right)) = not (is_empty left) && all_chars is_ascii_digit (trim left)

unfoldable pub is_continuation : List ℕ → Bool
unfolding starts_with split_once trim
is_continuation trimmed =
    if ltb (byte_len trimmed) 2
    then false
    else starts_with (codes "^") trimmed
      || starts_with (codes "~") trimmed
      || starts_with (codes "|") trimmed
      || starts_with (codes "In file included from") trimmed
      || starts_with (codes "In function") trimmed
      || starts_with (codes "from ") trimmed
      || is_echo (split_once (codes "|") trimmed)

unfoldable pub is_clang_marker : List ℕ → Bool
unfolding contains starts_with
is_clang_marker trimmed =
    contains (codes "~~~^") trimmed
    || contains (codes "[-W") trimmed
    || starts_with (codes "~~~") trimmed

abbrev marked : Bool → RawDiagnostic → RawDiagnostic
marked is_marker last = if is_marker then record last { source = from_clang } else last

abbrev extended : List ℕ → RawDiagnostic → RawDiagnostic
extended fragment last =
    if contains fragment last.message
    then last
    else record last { message = last.message ++ (10 ∷ fragment) }

-- A line that is no diagnostic: a continuation of the last one, or the end of it.
unfoldable pub fold_line : DiagnosticParser → List ℕ → DiagnosticParser
unfolding is_continuation is_clang_marker contains
fold_line p fragment =
    if not (is_continuation fragment) then record p { last = none } else elim p.last [
      | none ↦ p
      | some last ↦ record p {
        last = some (extended fragment (marked (is_clang_marker fragment) last));
      }
    ]

abbrev pub as_list : Option ParsedDiagnostic → List ParsedDiagnostic
as_list none = []
as_list (some d) = d ∷ []

abbrev with_recipe : DiagnosticParser → Option ToolFamily → DiagnosticParser
with_recipe p none = p
with_recipe p (some family) = record p { family = family }

-- The parser with the family that the line names, and what the line is to it.
unfoldable pub feed_kept : DiagnosticParser → List ℕ → List ParsedDiagnostic × DiagnosticParser
unfolding parse_line_for finish_diagnostic trim fold_line
feed_kept p line = elim (parse_line_for line p.family) [
  | some raw ↦ (as_list (finish_diagnostic p raw), record p { last = some raw })
  | none ↦ ([], fold_line p (trim line))
]

unfoldable pub feed : DiagnosticParser → List ℕ → List ParsedDiagnostic × DiagnosticParser
unfolding trim from_recipe_line feed_kept
feed p line =
    let trimmed = trim_end_matches is_line_end line in
    if is_empty (trim trimmed)
    then ([], p)
    else feed_kept (with_recipe p (from_recipe_line trimmed)) trimmed

-- `split('\n')`.
abbrev split_feeds : List ℕ → List ℕ × List (List ℕ)
split_feeds [] = ([], [])
split_feeds (c ∷ s) =
    let (line, more) = split_feeds s in if c == 10 then ([], line ∷ more) else (c ∷ line, more)

unfoldable pub feed_lines :
    DiagnosticParser → List (List ℕ) → List ParsedDiagnostic × DiagnosticParser
unfolding feed
feed_lines p [] = ([], p)
feed_lines p (line ∷ lines) =
    let (out, q) = feed p line in let (more, r) = feed_lines q lines in (out ++ more, r)

unfoldable pub feed_text : DiagnosticParser → List ℕ → List ParsedDiagnostic × DiagnosticParser
unfolding feed_lines
feed_text p text = let (line, more) = split_feeds text in feed_lines p (line ∷ more)

unfoldable pub flush : DiagnosticParser → Option ParsedDiagnostic × DiagnosticParser
unfolding finish_diagnostic
flush p = elim p.last [
  | none ↦ (none, p)
  | some raw ↦ (finish_diagnostic p raw, record p { last = none })
]

abbrev pub same_number : Option ℕ → Option ℕ → Bool
same_number none none = true
same_number (some a) (some b) = a == b
same_number _ _ = false

abbrev pub same_file : Option (List ℕ) → Option (List ℕ) → Bool
same_file none none = true
same_file (some a) (some b) = same_text a b
same_file _ _ = false

abbrev pub severity_code : DiagnosticSeverity → ℕ
severity_code error = 0
severity_code warning = 1
severity_code note = 2

abbrev pub source_code : DiagnosticSource → ℕ
source_code from_clang = 0
source_code from_gcc = 1
source_code from_ld = 2
source_code from_nasm = 3

unfoldable pub same_problem : ParsedDiagnostic → ParsedDiagnostic → Bool
same_problem a b =
    same_file a.file b.file
    && same_number a.line b.line
    && same_number a.col b.col
    && (source_code a.source == source_code b.source)

-- The derived `==`.
unfoldable pub same_diagnostic : ParsedDiagnostic → ParsedDiagnostic → Bool
same_diagnostic a b =
    (severity_code a.severity == severity_code b.severity)
    && same_file a.file b.file
    && same_number a.line b.line
    && same_number a.col b.col
    && same_text a.message b.message
    && (source_code a.source == source_code b.source)

unfoldable pub has : List ParsedDiagnostic → ParsedDiagnostic → Bool
unfolding same_diagnostic
has [] d = false
has (e ∷ es) d = same_diagnostic e d || has es d

-- The loop of `dedup`.
unfoldable pub dedup_from : List ParsedDiagnostic → List ParsedDiagnostic → List ParsedDiagnostic
unfolding has
dedup_from out [] = out
dedup_from out (d ∷ ds) = dedup_from (if has out d then out else out ++ (d ∷ [])) ds

unfoldable pub dedup : List ParsedDiagnostic → List ParsedDiagnostic
unfolding dedup_from
dedup diagnostics = dedup_from [] diagnostics

-- `position` and `remove`: the first one of the same problem goes.
unfoldable pub remove_same : ParsedDiagnostic → List ParsedDiagnostic → List ParsedDiagnostic
unfolding same_problem
remove_same pending [] = []
remove_same pending (d ∷ ds) =
    let rest = remove_same pending ds in if same_problem d pending then ds else d ∷ rest

abbrev with_pending : List ParsedDiagnostic → Option ParsedDiagnostic → List ParsedDiagnostic
with_pending out none = out
with_pending out (some pending) = remove_same pending out ++ (pending ∷ [])

unfoldable pub feed_text_dedup :
    DiagnosticParser → List ℕ → List ParsedDiagnostic × DiagnosticParser
unfolding feed_text flush dedup remove_same
feed_text_dedup p text =
    let (out, q) = feed_text p text in
    let (pending, r) = flush q in (dedup (with_pending out pending), r)

unfoldable pub parse_chunk : List ℕ → List ℕ → ToolFamily → List ParsedDiagnostic
unfolding feed_text_dedup with_family
parse_chunk stderr cwd family = (feed_text_dedup (with_family (new cwd) family) stderr).0
