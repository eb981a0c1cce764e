-- ===== src/Monitor/Lines.antt =====
-- crates/princess-bin/src/monitor.rs: the lines of a monitor reply, and the loop over them that all
-- four text parsers run. A text is a list of code points, an offset counts bytes.
use princess_ide.Prelude.{ℕ, ◌+◌, Bool, ◌||◌, List, [], ◌∷◌, ◌==◌, ltb, if◌then◌else◌}
use princess_ide.Str.{trim_end_matches}

-- The bytes of a character in UTF-8, and of a text.
abbrev pub len_utf8 : ℕ → ℕ
len_utf8 c = if ltb c 128 then 1 else if ltb c 2048 then 2 else if ltb c 65536 then 3 else 4

abbrev pub byte_len : List ℕ → ℕ
byte_len [] = 0
byte_len (c ∷ s) = len_utf8 c + byte_len s

-- The `reason` of an error, with the texts that its message quotes.
pub data Reason : Type 0 where
  non_ascii three_fields no_range : Reason
  bad_bounds : List ℕ → List ℕ → Reason
  bad_size no_permissions : Reason
  bad_permissions : List ℕ → Reason
  no_addresses no_flags trailing : Reason
  no_colon : List ℕ → Reason
  bad_addresses : Reason
  bad_flags : List ℕ → Reason
  no_cpu no_index_end : Reason
  bad_index : List ℕ → Reason
  no_thread : Reason
  bad_thread : List ℕ → Reason
  bad_header : List ℕ → Reason
  bad_gdt bad_idt unknown_shape : Reason
  json_error : List ℕ → Reason

pub record ParseError : Type 0 where
  pub context : List ℕ
  pub line : ℕ
  pub byte_offset : ℕ
  pub text : List ℕ
  pub reason : Reason

-- An item of `lines_with_offsets`.
pub record Line : Type 0 where
  pub line_no : ℕ
  pub byte_offset : ℕ
  pub text : List ℕ

-- `split_inclusive('\n')`: each line feed stays with the piece that it ends.
abbrev pub glue : ℕ → List (List ℕ) → List (List ℕ)
glue c [] = (c ∷ []) ∷ []
glue c (piece ∷ pieces) = (c ∷ piece) ∷ pieces

unfoldable pub split_inclusive : List ℕ → List (List ℕ)
split_inclusive [] = []
split_inclusive (c ∷ s) =
    let pieces = split_inclusive s in if c == 10 then (c ∷ []) ∷ pieces else glue c pieces

abbrev pub is_line_end : ℕ → Bool
is_line_end c = (c == 10) || (c == 13)

unfoldable pub number_lines : ℕ → ℕ → List (List ℕ) → List Line
number_lines index offset [] = []
number_lines index offset (piece ∷ pieces) =
    record { line_no = index + 1; byte_offset = offset; text = trim_end_matches is_line_end piece }
    ∷ number_lines (index + 1) (offset + byte_len piece) pieces

unfoldable pub lines_with_offsets : List ℕ → List Line
unfolding split_inclusive number_lines
lines_with_offsets text = number_lines 0 0 (split_inclusive text)

-- What a line makes of the report so far: the loop goes on, returns at once, refuses the line with the
-- text that the error shows, or panics.
pub data Outcome (S : Type 0) : Type 0 where
  next : S → Outcome S
  finish : S → Outcome S
  refused : List ℕ → Reason → Outcome S
  panicked : Outcome S

pub data Reply (S : Type 0) : Type 0 where
  parsed : S → Reply S
  failed : ParseError → Reply S
  panic : Reply S

-- The loop of the parsers over the lines.
unfoldable pub over_lines :
    {S : Type 0} → (S → List ℕ → Outcome S) → List ℕ → S → List Line → Reply S
over_lines step context s [] = parsed s
over_lines step context s (l ∷ ls) = elim (step s l.text) [
  | next t ↦ over_lines step context t ls
  | finish t ↦ parsed t
  | refused shown why ↦ failed (record {
    context = context;
    line = l.line_no;
    byte_offset = l.byte_offset;
    text = shown;
    reason = why;
  })
  | panicked ↦ panic
]

unfoldable pub over_text : {S : Type 0} → (S → List ℕ → Outcome S) → List ℕ → S → List ℕ → Reply S
unfolding over_lines lines_with_offsets
over_text step context s text = over_lines step context s (lines_with_offsets text)
