-- ===== src/Serial/Observer.antt =====
-- crates/princess-run/src/serial.rs: `SerialObserver`, which keeps what the lines of a run have said.
use princess_ide.Prelude.{
  ℕ, ◌+◌, ◌%◌, ◌^◌, Bool, true, false, not, ◌&&◌, Option, none, some, List, [], ◌∷◌, ◌++◌,
  if◌then◌else◌,
}
use princess_ide.Str.{codes, split_once, contains, split_whitespace, first_word, lines}
use princess_ide.Serial.Parse.{
  exception_prefix, fault_prefix, panic_prefix, paging_enabled_marker, RawFault, is_page_fault,
  detect_banner, parse_hex_u64, parse_vector, parse_fault,
}

pub data PageFaultGate : Type 0 where
  paging_confirmed paging_unproven paging_disabled not_applicable : PageFaultGate

pub data SerialObservation : Type 0 where
  banner : List ℕ → SerialObservation
  fault : RawFault → SerialObservation
  panic : SerialObservation
  paging_state : (enabled : Bool) → SerialObservation

pub record SerialObserver : Type 0 where
  pub banner : Option (List ℕ)
  pub panic_seen : Bool
  pub paging_enabled : Option Bool
  pub last_vector : Option (ℕ × List ℕ)
  pub fault : Option RawFault
  pub fault_count : ℕ
  pub page_fault_gate : Option PageFaultGate

abbrev pub new_observer : SerialObserver
new_observer = record {
  banner = none;
  panic_seen = false;
  paging_enabled = none;
  last_vector = none;
  fault = none;
  fault_count = 0;
  page_fault_gate = none;
}

unfoldable pub gate_for : SerialObserver → RawFault → PageFaultGate
unfolding is_page_fault
gate_for o f = if not (is_page_fault f) then not_applicable else elim o.paging_enabled [
  | some on ↦ if on then paging_confirmed else paging_disabled
  | none ↦ paging_unproven
]

-- The steps of `feed`, in its order.
unfoldable pub see_banner : SerialObserver → List ℕ → SerialObserver × List SerialObservation
unfolding detect_banner
see_banner o line = elim o.banner [
  | some text ↦ (o, [])
  | none ↦ elim (detect_banner line) [
    | some text ↦ (record o { banner = some text }, banner text ∷ [])
    | none ↦ (o, [])
  ]
]

abbrev pub is_state : Option Bool → Bool → Bool
is_state none b = false
is_state (some a) b = if a then b else not b

unfoldable pub see_paging : SerialObserver → List ℕ → SerialObserver × List SerialObservation
unfolding contains
see_paging o line =
    if contains paging_enabled_marker line && not (is_state o.paging_enabled true)
    then (record o { paging_enabled = some true }, paging_state true ∷ [])
    else if contains (codes "CR0.PG=0") line && not (is_state o.paging_enabled false)
    then (record o { paging_enabled = some false }, paging_state false ∷ [])
    else (o, [])

unfoldable pub see_vector : SerialObserver → List ℕ → SerialObserver
unfolding split_once parse_vector
see_vector o line = elim (split_once exception_prefix line) [
  | none ↦ o
  | some (before, rest) ↦ elim (parse_vector rest) [
    | some vector ↦ record o { last_vector = some vector }
    | none ↦ o
  ]
]

unfoldable pub line_error : List ℕ → Option ℕ
unfolding split_once split_whitespace parse_hex_u64
line_error line = elim (split_once (codes "FAULT_ERROR=") line) [
  | none ↦ none
  | some (before, rest) ↦ elim (first_word rest) [ none ↦ none | some word ↦ parse_hex_u64 word ]
]

-- A fault with the vector that an earlier line, or this one, has given.
unfoldable pub with_vector : SerialObserver → RawFault → RawFault
with_vector o f = elim o.last_vector [
  | some (number, name) ↦ record f { vector_number = some number; vector = name }
  | none ↦ f
]

-- The fault with what else the line says.
unfoldable pub complete : SerialObserver → List ℕ → RawFault → RawFault
unfolding with_vector line_error
complete o line f = elim (line_error line) [
  | some error ↦ record (with_vector o f) { error_code = error }
  | none ↦ with_vector o f
]

unfoldable pub see_fault : SerialObserver → List ℕ → SerialObserver × List SerialObservation
unfolding split_once parse_fault complete gate_for
see_fault o line = elim (split_once fault_prefix line) [
  | none ↦ (o, [])
  | some (before, rest) ↦ elim (parse_fault rest) [
    | none ↦ (o, [])
    | some parsed ↦
        let f = complete o line parsed in
        (
          record o {
            fault_count = (o.fault_count + 1) % 2 ^ 64;
            page_fault_gate = some (gate_for o f);
            fault = some f;
          },
          fault f ∷ [],
        )
  ]
]

unfoldable pub see_panic : SerialObserver → List ℕ → SerialObserver × List SerialObservation
unfolding contains
see_panic o line =
    if contains panic_prefix line && not o.panic_seen
    then (record o { panic_seen = true }, panic ∷ [])
    else (o, [])

unfoldable pub feed : SerialObserver → List ℕ → SerialObserver × List SerialObservation
unfolding see_banner see_paging see_vector see_fault see_panic
feed o line =
    let (o1, banners) = see_banner o line in
    let (o2, pagings) = see_paging o1 line in
    let o3 = see_vector o2 line in
    let (o4, faults) = see_fault o3 line in
    let (o5, panics) = see_panic o4 line in (o5, banners ++ (pagings ++ (faults ++ panics)))

unfoldable pub fault_rip_in_lines : List (List ℕ) → Option ℕ
unfolding split_once split_whitespace parse_hex_u64
fault_rip_in_lines [] = none
fault_rip_in_lines (line ∷ rest) =
    let later = fault_rip_in_lines rest in
    elim (split_once fault_prefix line) [
      | none ↦ later
      | some (before, after) ↦ elim (first_word after) [
        | none ↦ later
        | some word ↦ elim (parse_hex_u64 word) [ some value ↦ some value | none ↦ later ]
      ]
    ]

unfoldable pub fault_rip_in_log : List ℕ → Option ℕ
unfolding lines fault_rip_in_lines
fault_rip_in_log text = fault_rip_in_lines (lines text)

unfoldable pub first_banner : List (List ℕ) → Option (List ℕ)
unfolding detect_banner
first_banner [] = none
first_banner (line ∷ rest) =
    let later = first_banner rest in
    elim (detect_banner line) [ some text ↦ some text | none ↦ later ]

unfoldable pub banner_in_log : List ℕ → Option (List ℕ)
unfolding lines first_banner
banner_in_log text = first_banner (lines text)
