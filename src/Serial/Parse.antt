-- ===== src/Serial/Parse.antt =====
-- crates/princess-run/src/serial.rs: what the observer reads off one line of serial text. A text is a
-- list of code points. A `u64` or a `u32` keeps its wrap-around.
use princess_ide.Prelude.{
  ℕ, ◌+◌, ◌*◌, ◌-◌, ◌%◌, ◌^◌, Bool, true, false, not, ◌&&◌, ◌||◌, Option, none, some, List, [], ◌∷◌,
  ◌==◌, leb, ltb, if◌then◌else◌,
}
use princess_ide.Str.{
  codes, all_chars, same_text, strip_prefix, starts_with, split_once, trim, trim_end_matches,
  split_whitespace, first_word,
}

abbrev pub banner_prefix : List ℕ
banner_prefix = codes "PrincessIDE"

abbrev pub exception_prefix : List ℕ
exception_prefix = codes "EXCEPTION: vector="

abbrev pub fault_prefix : List ℕ
fault_prefix = codes "FAULT_RIP="

abbrev pub panic_prefix : List ℕ
panic_prefix = codes "PANIC:"

abbrev pub paging_enabled_marker : List ℕ
paging_enabled_marker = codes "CR0.PG=1"

pub record RawFault : Type 0 where
  pub vector_number : Option ℕ
  pub vector : List ℕ
  pub rip : ℕ
  pub rip_text : List ℕ
  pub error_code : ℕ
  pub cs : Option (List ℕ)
  pub rflags : Option (List ℕ)

unfoldable pub is_page_fault : RawFault → Bool
is_page_fault fault =
    elim fault.vector_number [ some n ↦ n == 14 | none ↦ false ]
    || same_text fault.vector (codes "#PF")

unfoldable pub detect_banner : List ℕ → Option (List ℕ)
unfolding trim starts_with
detect_banner line =
    let trimmed = trim line in
    if not (starts_with banner_prefix trimmed)
    then none
    else if starts_with (codes "[") trimmed
    then none
    else some trimmed

abbrev pub is_ascii_uppercase : ℕ → Bool
is_ascii_uppercase c = leb 65 c && leb c 90

abbrev pub is_ascii_hexdigit : ℕ → Bool
is_ascii_hexdigit c = (leb 48 c && leb c 57) || (leb 97 c && leb c 102) || (leb 65 c && leb c 70)

abbrev pub hex_value : ℕ → ℕ
hex_value c = if leb 97 c then c - 87 else if leb 65 c then c - 55 else c - 48

-- `u64::from_str_radix(digits, 16)` on hexadecimal digits: the value so far times 16, plus a digit,
-- fails when it needs more than 64 bits.
unfoldable pub from_hex : ℕ → List ℕ → Option ℕ
from_hex value [] = some value
from_hex value (c ∷ digits) =
    let next = value * 16 + hex_value c in
    let rest = from_hex next digits in if ltb next (2 ^ 64) then rest else none

-- The digits of a token, without the `0x` or `0X`.
abbrev pub hex_digits : List ℕ → List ℕ
hex_digits trimmed = elim (strip_prefix (codes "0x") trimmed) [
  | some digits ↦ digits
  | none ↦ elim (strip_prefix (codes "0X") trimmed) [ some digits ↦ digits | none ↦ trimmed ]
]

abbrev pub is_empty : List ℕ → Bool
is_empty [] = true
is_empty (c ∷ s) = false

abbrev pub parse_digits : List ℕ → Option ℕ
parse_digits digits =
    if is_empty digits || not (all_chars is_ascii_hexdigit digits) then none else from_hex 0 digits

unfoldable pub parse_hex_u64 : List ℕ → Option ℕ
unfolding trim strip_prefix from_hex
parse_hex_u64 text = parse_digits (hex_digits (trim_end_matches (λ c. c == 44) (trim text)))

unfoldable pub vector_name : ℕ → List ℕ
vector_name number =
    if number == 0
    then codes "#DE"
    else if number == 1
    then codes "#DB"
    else if number == 2
    then codes "NMI"
    else if number == 3
    then codes "#BP"
    else if number == 4
    then codes "#OF"
    else if number == 5
    then codes "#BR"
    else if number == 6
    then codes "#UD"
    else if number == 7
    then codes "#NM"
    else if number == 8
    then codes "#DF"
    else if number == 10
    then codes "#TS"
    else if number == 11
    then codes "#NP"
    else if number == 12
    then codes "#SS"
    else if number == 13
    then codes "#GP"
    else if number == 14
    then codes "#PF"
    else if number == 16
    then codes "#MF"
    else if number == 17
    then codes "#AC"
    else if number == 18
    then codes "#MC"
    else if number == 19
    then codes "#XM"
    else if number == 21
    then codes "#CP"
    else codes "unknown"

-- The name in brackets after a vector's number, or the canonical one.
unfoldable pub vector_text : ℕ → List ℕ → List ℕ
unfolding split_once split_whitespace vector_name starts_with
vector_text number rest = elim (split_once (codes "(") rest) [
  | none ↦ vector_name number
  | some (before, after) ↦
      let candidate : List ℕ = elim (first_word after) [ some word ↦ word | none ↦ [] ] in
      if starts_with (codes "#") candidate || all_chars is_ascii_uppercase candidate
      then candidate
      else vector_name number
]

unfoldable pub parse_vector : List ℕ → Option (ℕ × List ℕ)
unfolding split_whitespace parse_hex_u64 vector_text
parse_vector rest = elim (first_word rest) [
  | none ↦ none
  | some token ↦ elim (parse_hex_u64 token) [
    | none ↦ none
    | some value ↦ let number = value % 2 ^ 32 in some (number, vector_text number rest)
  ]
]

-- One turn of the loop over the fields after the address.
unfoldable pub add_field : RawFault → List ℕ → RawFault
unfolding strip_prefix parse_hex_u64
add_field f field = elim (strip_prefix (codes "cs=") field) [
  | some value ↦ record f { cs = some value }
  | none ↦ elim (strip_prefix (codes "rflags=") field) [
    | some value ↦ record f { rflags = some value }
    | none ↦ elim (strip_prefix (codes "error=") field) [
      | some value ↦ record f { error_code = elim (parse_hex_u64 value) [ some e ↦ e | none ↦ 0 ] }
      | none ↦ f
    ]
  ]
]

unfoldable pub add_fields : RawFault → List (List ℕ) → RawFault
unfolding add_field
add_fields f [] = f
add_fields f (field ∷ fields) = add_fields (add_field f field) fields

-- A fault of which no more than the address is known.
abbrev pub fault_at : ℕ → List ℕ → RawFault
fault_at rip rip_text = record {
  vector_number = none;
  vector = [];
  rip = rip;
  rip_text = rip_text;
  error_code = 0;
  cs = none;
  rflags = none;
}

unfoldable pub parse_fault : List ℕ → Option RawFault
unfolding split_whitespace parse_hex_u64 add_fields
parse_fault rest = elim (split_whitespace rest) [
  | [] ↦ none
  | rip_text ∷ fields ↦ elim (parse_hex_u64 rip_text) [
    | none ↦ none
    | some rip ↦ some (add_fields (fault_at rip rip_text) fields)
  ]
]
