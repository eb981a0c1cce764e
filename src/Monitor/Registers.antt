-- ===== src/Monitor/Registers.antt =====
-- crates/princess-bin/src/monitor.rs: `info registers`.
use princess_ide.Prelude.{
  ℕ, zero, suc, ◌+◌, ◌/◌, ◌%◌, ◌^◌, Bool, true, false, not, ◌&&◌, ◌||◌, Option, none, some, List,
  [], ◌∷◌, ◌++◌, ◌==◌, leb, ltb, if◌then◌else◌, Result, ok, err, length, get_elem?, drop,
}
use princess_ide.Str.{
  codes, all_chars, same_text, strip_prefix, starts_with, split_once, contains, is_whitespace, trim,
  trim_start_matches, trim_end_matches, split_whitespace,
}
use princess_ide.Serial.Parse.{is_ascii_hexdigit, is_ascii_uppercase, is_empty, from_hex}
use princess_ide.Framing.{parse_usize}
use princess_ide.Monitor.Lines.{
  bad_header, bad_gdt, bad_idt, unknown_shape, Outcome, next, refused, panicked, Reply, over_text,
  len_utf8,
}
use princess_ide.Monitor.Tables.{
  is_hex, parse_hex_u64, parse_hex_u32, below, strip_suffix, and_then, present,
}

pub record SegmentRegister : Type 0 where
  pub name : List ℕ
  pub selector : ℕ
  pub base : ℕ
  pub limit : ℕ
  pub access : ℕ
  pub dpl : ℕ
  pub type_name : List ℕ
  pub permissions : Option (List ℕ)

-- The `BTreeMap`, of which only the lookups matter here.
abbrev pub Pair : Type 0
Pair = List ℕ × List ℕ

unfoldable pub insert : List ℕ → List ℕ → List Pair → List Pair
insert name value [] = (name, value) ∷ []
insert name value ((n, v) ∷ pairs) =
    let rest = insert name value pairs in
    if same_text n name then (name, value) ∷ pairs else (n, v) ∷ rest

unfoldable pub get : List ℕ → List Pair → Option (List ℕ)
get name [] = none
get name ((n, v) ∷ pairs) = let rest = get name pairs in if same_text n name then some v else rest

pub record RegistersReport : Type 0 where
  pub cpu : Option ℕ
  pub registers : List Pair
  pub rflags : Option (List ℕ)
  pub flags_text : Option (List ℕ)
  pub cpl : Option ℕ
  pub segments : List SegmentRegister
  pub gdt_base : Option ℕ
  pub gdt_limit : Option ℕ
  pub idt_base : Option ℕ
  pub idt_limit : Option ℕ
  pub halted : Option Bool

-- `RegistersReport::default()`.
abbrev pub empty_report : RegistersReport
empty_report = record {
  cpu = none;
  registers = [];
  rflags = none;
  flags_text = none;
  cpl = none;
  segments = [];
  gdt_base = none;
  gdt_limit = none;
  idt_base = none;
  idt_limit = none;
  halted = none;
}

abbrev entries_of : ℕ → Option ℕ → Option ℕ
entries_of width none = none
entries_of width (some limit) = some ((limit + 1) / width)

unfoldable pub gdt_entry_count : RegistersReport → Option ℕ
gdt_entry_count report = entries_of 8 report.gdt_limit

unfoldable pub idt_entry_count : RegistersReport → Option ℕ
idt_entry_count report = entries_of 16 report.idt_limit

unfoldable pub register : RegistersReport → List ℕ → Option (List ℕ)
unfolding get
register report name = get name report.registers

-- `u64::from_str_radix(text, 16)`, which takes a sign `+` in front of the digits.
abbrev pub plain_hex : List ℕ → Option ℕ
plain_hex digits = if all_chars is_ascii_hexdigit digits then from_hex 0 digits else none

unfoldable pub from_str_radix_16 : List ℕ → Option ℕ
unfolding from_hex
from_str_radix_16 [] = none
from_str_radix_16 (c ∷ []) = plain_hex (c ∷ [])
from_str_radix_16 (c ∷ d ∷ s) = plain_hex (if c == 43 then d ∷ s else c ∷ d ∷ s)

-- The text of the `Err`.
pub data RegisterError : Type 0 where
  missing : List ℕ → RegisterError
  garbage : List ℕ → List ℕ → RegisterError

unfoldable pub register_u64 : RegistersReport → List ℕ → Result RegisterError ℕ
unfolding get from_str_radix_16
register_u64 report name = elim (get name report.registers) [
  | none ↦ err (missing name)
  | some text ↦ elim (from_str_radix_16 text) [
    | none ↦ err (garbage name text)
    | some value ↦ ok value
  ]
]

-- The fields of a `GDT=` or an `IDT=` line.
abbrev limit_pair : List (List ℕ) → Option (ℕ × ℕ)
limit_pair (base_text ∷ limit_text ∷ []) = elim (parse_hex_u64 base_text) [
  | none ↦ none
  | some base ↦ elim (parse_hex_u32 limit_text) [ none ↦ none | some limit ↦ some (base, limit) ]
]
limit_pair _ = none

unfoldable pub parse_limit_pair : List ℕ → Option (ℕ × ℕ)
unfolding split_whitespace parse_hex_u64 parse_hex_u32
parse_limit_pair text = limit_pair (split_whitespace text)

-- What looks for a segment's line finds it, does not, or panics.
pub data Attempt (A : Type 0) : Type 0 where
  found : A → Attempt A
  not_found : Attempt A
  broken : Attempt A

-- `line.split_at(2)`, which panics where the text is shorter than two bytes, or where a character
-- stands across the second byte's end.
unfoldable pub split_at_two : List ℕ → Option (List ℕ × List ℕ)
split_at_two [] = none
split_at_two (c ∷ []) = if len_utf8 c == 2 then some (c ∷ [], []) else none
split_at_two (c ∷ d ∷ s) =
    if len_utf8 c == 2
    then some (c ∷ [], d ∷ s)
    else if (len_utf8 c == 1) && (len_utf8 d == 1)
    then some (c ∷ d ∷ [], s)
    else none

abbrev pub trim_start : List ℕ → List ℕ
trim_start s = trim_start_matches is_whitespace s

-- Two letters, spaces, `=`.
unfoldable pub two_letters : List ℕ → Attempt (List ℕ × List ℕ)
unfolding split_at_two is_whitespace strip_prefix
two_letters line = elim (split_at_two line) [
  | none ↦ broken
  | some (name, rest) ↦
      if not (all_chars is_ascii_uppercase name)
      then not_found
      else elim (strip_prefix (codes "=") (trim_start rest)) [
        | none ↦ not_found
        | some after ↦ found (name, after)
      ]
]

unfoldable pub segment_name : List ℕ → Attempt (List ℕ × List ℕ)
unfolding strip_prefix two_letters
segment_name line = elim (strip_prefix (codes "LDT=") line) [
  | some rest ↦ found (codes "LDT", rest)
  | none ↦ elim (strip_prefix (codes "TR ") line) [
    | some rest ↦ found (codes "TR", rest)
    | none ↦ elim (strip_prefix (codes "TR=") line) [
      | some rest ↦ found (codes "TR", rest)
      | none ↦ two_letters line
    ]
  ]
]

abbrev pub is_bracket : ℕ → Bool
is_bracket c = (c == 91) || (c == 93)

-- `starts_with('[') && ends_with(']')`, and what the brackets hold.
abbrev pub is_boxed : List ℕ → Bool
is_boxed field = starts_with (codes "[") field && present (strip_suffix 93 field)

abbrev pub unboxed : List ℕ → List ℕ
unboxed field = trim_end_matches is_bracket (trim_start_matches is_bracket field)

-- The loop over the fields from `DPL=` onwards.
unfoldable pub segment_tail : SegmentRegister → List (List ℕ) → Option SegmentRegister
unfolding strip_prefix parse_usize starts_with strip_suffix contains
segment_tail r [] = some r
segment_tail r (field ∷ fields) = elim (strip_prefix (codes "DPL=") field) [
  | some value ↦
      segment_tail
        (record r { dpl = elim (below 256 (parse_usize value)) [ some n ↦ n | none ↦ 0 ] }) fields
  | none ↦ elim (is_boxed field) [
    | true ↦ segment_tail (record r { permissions = some (unboxed field) }) fields
    | false ↦ elim (contains (codes "=") field) [
      | true ↦ segment_tail r fields
      | false ↦ elim (is_empty r.type_name) [
        | true ↦ segment_tail (record r { type_name = field }) fields
        | false ↦ none
      ]
    ]
  ]
]

-- The four numbers, and the fields after them.
unfoldable pub segment_fields : List ℕ → List (List ℕ) → Option SegmentRegister
unfolding parse_hex_u64 parse_hex_u32 segment_tail
segment_fields name fields =
    if ltb (length fields) 3 then none else elim (and_then (get_elem? fields 0) parse_hex_u32) [
      | none ↦ none
      | some selector ↦ elim (and_then (get_elem? fields 1) parse_hex_u64) [
        | none ↦ none
        | some base ↦ elim (and_then (get_elem? fields 2) parse_hex_u32) [
          | none ↦ none
          | some limit ↦ elim (and_then (get_elem? fields 3) parse_hex_u32) [
            | none ↦ none
            | some access ↦
                segment_tail
                  (record {
                    name = name;
                    selector = selector % 2 ^ 16;
                    base = base;
                    limit = limit;
                    access = access;
                    dpl = 0;
                    type_name = [];
                    permissions = none;
                  })
                  (drop 4 fields)
          ]
        ]
      ]
    ]

-- `strip_prefix('=').unwrap_or(rest)` on the rest without its leading spaces.
abbrev pub drop_equals : List ℕ → List ℕ
drop_equals rest = elim (strip_prefix (codes "=") (trim_start rest)) [
  | some after ↦ after
  | none ↦ rest
]

unfoldable pub parse_segment_line : List ℕ → Attempt SegmentRegister
unfolding segment_name is_whitespace strip_prefix split_whitespace segment_fields
parse_segment_line line = elim (segment_name line) [
  | broken ↦ broken
  | not_found ↦ not_found
  | found (name, rest) ↦ elim (segment_fields name (split_whitespace (drop_equals rest))) [
    | some segment ↦ found segment
    | none ↦ not_found
  ]
]

-- One field of the `RIP=` line.
unfoldable pub rip_field : RegistersReport → List ℕ → RegistersReport
unfolding strip_prefix insert parse_usize starts_with strip_suffix
rip_field report field = elim (strip_prefix (codes "RIP=") field) [
  | some value ↦ record report { registers = insert (codes "RIP") value report.registers }
  | none ↦ elim (strip_prefix (codes "RFL=") field) [
    | some value ↦ record report { rflags = some value }
    | none ↦ elim (strip_prefix (codes "CPL=") field) [
      | some value ↦ record report { cpl = below 256 (parse_usize value) }
      | none ↦ elim (strip_prefix (codes "HLT=") field) [
        | some value ↦ record report { halted = some (same_text value (codes "1")) }
        | none ↦
            if is_boxed field then record report { flags_text = some (unboxed field) } else report
      ]
    ]
  ]
]

unfoldable pub rip_fields : RegistersReport → List (List ℕ) → RegistersReport
unfolding rip_field
rip_fields report [] = report
rip_fields report (field ∷ fields) = rip_fields (rip_field report field) fields

abbrev pub is_ascii_alphanumeric : ℕ → Bool
is_ascii_alphanumeric c =
    (leb 48 c && leb c 57) || (leb 65 c && leb c 90) || (leb 97 c && leb c 122)

abbrev pub is_name : List ℕ → Bool
is_name name = not (is_empty name) && all_chars is_ascii_alphanumeric name

-- `tokens.get(index + 2)?` where the token after the name is `=` alone.
abbrev value_of : List ℕ → Option (List ℕ) → Option (List ℕ × ℕ)
value_of [] none = none
value_of [] (some value) = some (value, 2)
value_of (c ∷ value) later = some (c ∷ value, 1)

-- The value of a name that stands alone, with the tokens after the name that hold it.
unfoldable pub next_value : List (List ℕ) → Option (List ℕ × ℕ)
unfolding strip_prefix
next_value [] = none
next_value (token ∷ tokens) = elim (strip_prefix (codes "=") token) [
  | none ↦ none
  | some value ↦ value_of value (get_elem? tokens 0)
]

abbrev checked : List ℕ → List ℕ → ℕ → Option (Pair × ℕ)
checked name value more = if is_hex value then some ((name, value), more) else none

-- One turn of the loop: the pair at a token, and how many tokens after it belong to the pair.
unfoldable pub pair_at : List ℕ → List (List ℕ) → Option (Pair × ℕ)
unfolding split_once is_hex next_value
pair_at token tokens = elim (split_once (codes "=") token) [
  | some (name, value) ↦ if not (is_name name) then none else checked name value 0
  | none ↦
      if not (is_name token)
      then none
      else elim (next_value tokens) [ none ↦ none | some (value, more) ↦ checked token value more ]
]

-- The loop over the tokens, of which `skip` belong to the last pair still.
unfoldable pub pairs_from : ℕ → List (List ℕ) → Option (List Pair)
unfolding pair_at
pairs_from skip [] = some []
pairs_from (suc skip) (token ∷ tokens) = pairs_from skip tokens
pairs_from zero (token ∷ tokens) = elim (pair_at token tokens) [
  | none ↦ none
  | some (pair, more) ↦ elim (pairs_from more tokens) [
    | none ↦ none
    | some pairs ↦ some (pair ∷ pairs)
  ]
]

unfoldable pub parse_register_pairs : List ℕ → Option (List Pair)
unfolding split_whitespace pairs_from
parse_register_pairs line = pairs_from 0 (split_whitespace line)

unfoldable pub insert_all : List Pair → List Pair → List Pair
unfolding insert
insert_all map [] = map
insert_all map ((name, value) ∷ pairs) = insert_all (insert name value map) pairs

unfoldable pub is_ignorable : List ℕ → Bool
unfolding starts_with
is_ignorable line =
    starts_with (codes "FCW=") line
    || starts_with (codes "FPR") line
    || starts_with (codes "XMM") line
    || starts_with (codes "YMM") line
    || starts_with (codes "ZMM") line
    || starts_with (codes "ST") line
    || starts_with (codes "MM") line

unfoldable pub skip_or_refuse : RegistersReport → List ℕ → Outcome RegistersReport
unfolding is_ignorable
skip_or_refuse report line = if is_ignorable line then next report else refused line unknown_shape

-- A line of register pairs, or one of the shapes left over.
unfoldable pub pairs_line : RegistersReport → List ℕ → Outcome RegistersReport
unfolding parse_register_pairs insert_all skip_or_refuse
pairs_line report line = elim (parse_register_pairs line) [
  | none ↦ skip_or_refuse report line
  | some [] ↦ skip_or_refuse report line
  | some (pair ∷ pairs) ↦
      next (record report { registers = insert_all report.registers (pair ∷ pairs) })
]

-- The lines after the headers and the tables: a segment, `RIP=`, registers.
unfoldable pub body_line : RegistersReport → List ℕ → Outcome RegistersReport
unfolding parse_segment_line starts_with split_whitespace rip_fields pairs_line
body_line report line = elim (parse_segment_line line) [
  | broken ↦ panicked
  | found segment ↦ next (record report { segments = report.segments ++ (segment ∷ []) })
  | not_found ↦
      if starts_with (codes "RIP=") line
      then next (rip_fields report (split_whitespace line))
      else pairs_line report line
]

unfoldable pub table_line : RegistersReport → List ℕ → Outcome RegistersReport
unfolding strip_prefix parse_limit_pair body_line
table_line report line = elim (strip_prefix (codes "GDT=") line) [
  | some rest ↦ elim (parse_limit_pair rest) [
    | none ↦ refused line bad_gdt
    | some (base, limit) ↦ next (record report { gdt_base = some base; gdt_limit = some limit })
  ]
  | none ↦ elim (strip_prefix (codes "IDT=") line) [
    | some rest ↦ elim (parse_limit_pair rest) [
      | none ↦ refused line bad_idt
      | some (base, limit) ↦ next (record report { idt_base = some base; idt_limit = some limit })
    ]
    | none ↦ body_line report line
  ]
]

unfoldable pub registers_line : RegistersReport → List ℕ → Outcome RegistersReport
unfolding trim strip_prefix parse_usize table_line
registers_line report text =
    let line = trim text in
    if is_empty line then next report else elim (strip_prefix (codes "CPU#") line) [
      | some rest ↦ elim (below (2 ^ 32) (parse_usize (trim rest))) [
        | none ↦ refused line (bad_header line)
        | some cpu ↦ next (record report { cpu = some cpu })
      ]
      | none ↦ table_line report line
    ]

unfoldable pub parse_info_registers : List ℕ → Reply RegistersReport
unfolding over_text registers_line
parse_info_registers = over_text registers_line (codes "info registers") empty_report
