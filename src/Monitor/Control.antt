-- ===== src/Monitor/Control.antt =====
-- crates/princess-bin/src/monitor.rs: the control-register lines of `info registers`.
use princess_ide.Prelude.{
  ℕ, ◌+◌, ◌^◌, ◌≡◌, refl, ap, ◌∙◌, Bool, none, some, List, [], ◌∷◌, All, if◌then◌else◌,
}
use princess_ide.Str.{codes, is_whitespace, strip_prefix, starts_with, trim}
use princess_ide.Str.Words.{spaced, trim-spaced}
use princess_ide.Serial.Parse.{is_empty}
use princess_ide.Serial.Hexadecimal.{hex_padded}
use princess_ide.Monitor.Lines.{
  bad_header, refused, Outcome, next, parsed, over_lines, number_lines, over_text, byte_len,
  lines_with_offsets,
}
use princess_ide.Framing.{parse_usize}
use princess_ide.Monitor.Tables.{below}
use princess_ide.Monitor.Registers.{
  RegistersReport, empty_report, registers_line, table_line, body_line, pairs_line,
  parse_segment_line, segment_name, two_letters, split_at_two, insert_all, parse_info_registers,
}
use princess_ide.Monitor.Digits.{is_hex-hex_padded}
use princess_ide.Monitor.Pairs.{
  Field, tight, IsField, field_tokens, field_pairs, fields-IsWord, parse_register_pairs-fields,
}
use princess_ide.Monitor.Printed.{
  printed, ended, IsInner, spaced-IsInner, split_inclusive-printed, over_lines-ended,
}

-- `CR0=%08x CR2=%016x CR3=%016x CR4=%08x`, and `EFER=%016x`.
abbrev field : List ℕ → ℕ → ℕ → Field
field name places n = record { name = name; value = hex_padded places n; padding = tight }

abbrev pub control_fields : (cr0 cr2 cr3 cr4 : ℕ) → List Field
control_fields cr0 cr2 cr3 cr4 =
    field (codes "CR0") 8 cr0
    ∷ field (codes "CR2") 16 cr2
    ∷ field (codes "CR3") 16 cr3
    ∷ field (codes "CR4") 8 cr4
    ∷ []

abbrev pub efer_fields : ℕ → List Field
efer_fields efer = field (codes "EFER") 16 efer ∷ []

abbrev pub fields_line : List Field → List ℕ
fields_line fields = spaced (field_tokens fields)

control-IsField : (cr0 cr2 cr3 cr4 : ℕ) → All IsField (control_fields cr0 cr2 cr3 cr4)
control-IsField cr0 cr2 cr3 cr4 = (
  (refl, is_hex-hex_padded 7 cr0),
  (
    (refl, is_hex-hex_padded 15 cr2),
    ((refl, is_hex-hex_padded 15 cr3), ((refl, is_hex-hex_padded 7 cr4), tt)),
  ),
)

efer-IsField : (efer : ℕ) → All IsField (efer_fields efer)
efer-IsField efer = ((refl, is_hex-hex_padded 15 efer), tt)

-- A trimmed line of fields that is none of the other shapes.
pairs_line-fields :
    (report : RegistersReport) (f : Field) (fields : List Field)
    → All IsField (f ∷ fields)
    → pairs_line report (fields_line (f ∷ fields))
      ≡ next (record report { registers = insert_all report.registers (field_pairs (f ∷ fields)) })
unfolding pairs_line
pairs_line-fields report f fields h =
    rw (pairs_line, parse_register_pairs-fields (f ∷ fields) h) refl

-- The step on a trimmed line, from the tables down.
table_line-control :
    (report : RegistersReport) (cr0 cr2 cr3 cr4 : ℕ)
    → table_line report (fields_line (control_fields cr0 cr2 cr3 cr4))
      ≡ pairs_line report (fields_line (control_fields cr0 cr2 cr3 cr4))
unfolding table_line body_line parse_segment_line segment_name two_letters split_at_two strip_prefix
    starts_with is_whitespace
table_line-control report cr0 cr2 cr3 cr4 = refl

table_line-efer :
    (report : RegistersReport) (efer : ℕ)
    → table_line report (fields_line (efer_fields efer))
      ≡ pairs_line report (fields_line (efer_fields efer))
unfolding table_line body_line parse_segment_line segment_name two_letters split_at_two strip_prefix
    starts_with is_whitespace
table_line-efer report efer = refl

-- The step on a line that is trimmed already.
registers_trimmed : RegistersReport → List ℕ → Outcome RegistersReport
registers_trimmed report line =
    if is_empty line then next report else elim (strip_prefix (codes "CPU#") line) [
      | some rest ↦ elim (below (2 ^ 32) (parse_usize (trim rest))) [
        | none ↦ refused line (bad_header line)
        | some cpu ↦ next (record report { cpu = some cpu })
      ]
      | none ↦ table_line report line
    ]

registers_line-fields :
    (report : RegistersReport) (fields : List Field)
    → All IsField fields
    → registers_line report (fields_line fields) ≡ registers_trimmed report (fields_line fields)
unfolding registers_line registers_trimmed
registers_line-fields report fields h =
    ap (registers_trimmed report) (trim-spaced (field_tokens fields) (fields-IsWord fields h))

-- The report with the registers of a line added.
abbrev pub with_fields : RegistersReport → List Field → RegistersReport
with_fields report fields = record report {
  registers = insert_all report.registers (field_pairs fields);
}

registers_line-control :
    (report : RegistersReport) (cr0 cr2 cr3 cr4 : ℕ)
    → registers_line report (fields_line (control_fields cr0 cr2 cr3 cr4))
      ≡ next (with_fields report (control_fields cr0 cr2 cr3 cr4))
unfolding registers_trimmed strip_prefix
registers_line-control report cr0 cr2 cr3 cr4 =
    let fields = control_fields cr0 cr2 cr3 cr4 in
    let good = control-IsField cr0 cr2 cr3 cr4 in
    registers_line-fields report fields good
    ∙ table_line-control report cr0 cr2 cr3 cr4
    ∙ pairs_line-fields report (field (codes "CR0") 8 cr0)
        (field (codes "CR2") 16 cr2 ∷ field (codes "CR3") 16 cr3 ∷ field (codes "CR4") 8 cr4 ∷ [])
        good

registers_line-efer :
    (report : RegistersReport) (efer : ℕ)
    → registers_line report (fields_line (efer_fields efer))
      ≡ next (with_fields report (efer_fields efer))
unfolding registers_trimmed strip_prefix
registers_line-efer report efer =
    registers_line-fields report (efer_fields efer) (efer-IsField efer)
    ∙ table_line-efer report efer
    ∙ pairs_line-fields report (field (codes "EFER") 16 efer) [] (efer-IsField efer)

-- The registers' part of what QEMU prints: a line of control registers and one of `EFER`.
abbrev pub control_text : Bool → (cr0 cr2 cr3 cr4 efer : ℕ) → List ℕ
control_text cr cr0 cr2 cr3 cr4 efer =
    printed cr (fields_line (control_fields cr0 cr2 cr3 cr4) ∷ fields_line (efer_fields efer) ∷ [])

abbrev pub control_report : (cr0 cr2 cr3 cr4 efer : ℕ) → RegistersReport
control_report cr0 cr2 cr3 cr4 efer =
    with_fields (with_fields empty_report (control_fields cr0 cr2 cr3 cr4)) (efer_fields efer)

fields-IsInner : (fields : List Field) → All IsField fields → IsInner (fields_line fields)
fields-IsInner fields h = spaced-IsInner (field_tokens fields) (fields-IsWord fields h)

pub parse_info_registers-control :
    (cr : Bool) (cr0 cr2 cr3 cr4 efer : ℕ)
    → parse_info_registers (control_text cr cr0 cr2 cr3 cr4 efer)
      ≡ parsed (control_report cr0 cr2 cr3 cr4 efer)
unfolding parse_info_registers over_text lines_with_offsets
parse_info_registers-control cr cr0 cr2 cr3 cr4 efer =
    let first = fields_line (control_fields cr0 cr2 cr3 cr4) in
    let second = fields_line (efer_fields efer) in
    let inner1 =
      fields-IsInner (control_fields cr0 cr2 cr3 cr4) (control-IsField cr0 cr2 cr3 cr4) in
    let inner2 = fields-IsInner (efer_fields efer) (efer-IsField efer) in
    let report = with_fields empty_report (control_fields cr0 cr2 cr3 cr4) in
    let context = codes "info registers" in
    ap (λ pieces. over_lines registers_line context empty_report (number_lines 0 0 pieces))
      (split_inclusive-printed cr (first ∷ second ∷ []) (inner1, (inner2, tt)))
    ∙ over_lines-ended registers_line context cr empty_report report first 0 0
        (ended cr second ∷ []) inner1 (registers_line-control empty_report cr0 cr2 cr3 cr4)
    ∙ over_lines-ended registers_line context cr report (with_fields report (efer_fields efer))
        second 1 (0 + byte_len (ended cr first)) [] inner2 (registers_line-efer report efer)
