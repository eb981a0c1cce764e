-- ===== src/Monitor/Tables.antt =====
-- crates/princess-bin/src/monitor.rs: `info mem`, `info tlb` and `info cpus`.
use princess_ide.Prelude.{
  ℕ, ◌-◌, ◌^◌, Bool, true, false, not, ◌&&◌, Option, none, some, List, [], ◌∷◌, ◌++◌, ◌==◌, ltb,
  if◌then◌else◌, Result, ok, err, ◌>>=◌, length, get_elem?, get_or,
}
use princess_ide.Str.{
  codes, all_chars, same_text, strip_prefix, starts_with, split_once, trim, trim_start_matches,
  split_whitespace,
}
use princess_ide.Serial.Parse.{is_ascii_hexdigit, is_empty, from_hex}
use princess_ide.Framing.{parse_usize}
use princess_ide.Monitor.Lines.{
  Reason, non_ascii, three_fields, no_range, bad_bounds, bad_size, no_permissions, bad_permissions,
  no_addresses, no_flags, trailing, no_colon, bad_addresses, bad_flags, no_cpu, no_index_end,
  bad_index, no_thread, bad_thread, Outcome, next, finish, refused, Reply, over_text, byte_len,
}

unfoldable pub is_hex : List ℕ → Bool
is_hex text = not (is_empty text) && all_chars is_ascii_hexdigit text

unfoldable pub parse_hex_u64 : List ℕ → Option ℕ
unfolding is_hex from_hex
parse_hex_u64 text = if is_hex text then from_hex 0 text else none

-- A number that a narrower type can hold.
abbrev pub below : ℕ → Option ℕ → Option ℕ
below limit none = none
below limit (some n) = if ltb n limit then some n else none

unfoldable pub parse_hex_u32 : List ℕ → Option ℕ
unfolding parse_hex_u64
parse_hex_u32 text = below (2 ^ 32) (parse_hex_u64 text)

-- `ok_or` and `let … else`.
abbrev pub ok_or : {A : Type 0} → Option A → Reason → Result Reason A
ok_or none why = err why
ok_or (some a) why = ok a

-- `return Err` behind a test.
abbrev pub refuse_if : Bool → Reason → Result Reason (Unit {0})
refuse_if test why = if test then err why else ok tt

abbrev pub present : {A : Type 0} → Option A → Bool
present none = false
present (some a) = true

-- A row, or the refusal of its line.
abbrev pub row_or : {A : Type 0} → List A → List ℕ → Result Reason A → Outcome (List A)
row_or out shown (ok row) = next (out ++ (row ∷ []))
row_or out shown (err why) = refused shown why

pub record InfoMemRange : Type 0 where
  pub start : ℕ
  pub end : ℕ
  pub size : ℕ
  pub user : Bool
  pub readable : Bool
  pub writable : Bool

unfoldable pub size_agrees_with_bounds : InfoMemRange → Bool
size_agrees_with_bounds r = (r.end - r.start) == r.size

abbrev pub is_ascii : ℕ → Bool
is_ascii c = ltb c 128

-- `chars.next() == Some(letter)` at a position.
abbrev pub letter_at : List ℕ → ℕ → ℕ → Bool
letter_at s i letter = elim (get_elem? s i) [ some c ↦ c == letter | none ↦ false ]

abbrev pub and_then : Option (List ℕ) → (List ℕ → Option ℕ) → Option ℕ
and_then none f = none
and_then (some a) f = f a

-- A line that is neither blank nor `PG disabled`, trimmed.
unfoldable pub mem_row : List ℕ → Result Reason InfoMemRange
unfolding split_whitespace split_once parse_hex_u64
mem_row line =
    let fields = split_whitespace line in
    do
      u ← refuse_if (not (all_chars is_ascii line)) non_ascii
      v ← refuse_if (present (get_elem? fields 3)) three_fields
      range ← ok_or (split_once (codes "-") (get_or fields 0 [])) no_range
      start ← ok_or (parse_hex_u64 range.0) (bad_bounds range.0 range.1)
      end ← ok_or (parse_hex_u64 range.1) (bad_bounds range.0 range.1)
      size ← ok_or (and_then (get_elem? fields 1) parse_hex_u64) bad_size
      flags ← ok_or (get_elem? fields 2) no_permissions
      w ← refuse_if (not (byte_len flags == 3)) (bad_permissions flags)
      ok (record {
        start = start;
        end = end;
        size = size;
        user = letter_at flags 0 117;
        readable = letter_at flags 1 114;
        writable = letter_at flags 2 119;
      })

unfoldable pub mem_line : List InfoMemRange → List ℕ → Outcome (List InfoMemRange)
unfolding trim mem_row
mem_line out text =
    let line = trim text in
    if is_empty line
    then next out
    else if same_text line (codes "PG disabled")
    then finish []
    else row_or out line (mem_row line)

unfoldable pub parse_info_mem : List ℕ → Reply (List InfoMemRange)
unfolding over_text mem_line
parse_info_mem = over_text mem_line (codes "info mem") []

pub record TlbFlags : Type 0 where
  pub nx : Bool
  pub global : Bool
  pub ps : Bool
  pub dirty : Bool
  pub accessed : Bool
  pub pcd : Bool
  pub pwt : Bool
  pub user : Bool
  pub writable : Bool

pub record InfoTlbEntry : Type 0 where
  pub virtual_address : ℕ
  pub physical_address : ℕ
  pub flags : TlbFlags

-- `X G P D A C T U W`.
abbrev pub expected : List ℕ
expected = codes "XGPDACTUW"

-- The loop over the characters and their letters, which gives the set bits in order.
unfoldable pub flag_bits : List ℕ → List ℕ → Option (List Bool)
flag_bits (actual ∷ chars) (letter ∷ letters) =
    let rest = flag_bits chars letters in
    if actual == letter
    then elim rest [ some bits ↦ some (true ∷ bits) | none ↦ none ]
    else if actual == 45
    then elim rest [ some bits ↦ some (false ∷ bits) | none ↦ none ]
    else none
flag_bits [] letters = some []
flag_bits (actual ∷ chars) [] = some []

-- `let [nx, …, writable] = set`.
abbrev pub named_flags : List Bool → TlbFlags
named_flags set = record {
  nx = get_or set 0 false;
  global = get_or set 1 false;
  ps = get_or set 2 false;
  dirty = get_or set 3 false;
  accessed = get_or set 4 false;
  pcd = get_or set 5 false;
  pwt = get_or set 6 false;
  user = get_or set 7 false;
  writable = get_or set 8 false;
}

unfoldable pub decode_tlb_flags : List ℕ → Option TlbFlags
unfolding flag_bits
decode_tlb_flags text =
    if not (length text == 9)
    then none
    else elim (flag_bits text expected) [ some set ↦ some (named_flags set) | none ↦ none ]

abbrev pub snoc_front : ℕ → Option (List ℕ) → Option (List ℕ)
snoc_front c none = none
snoc_front c (some s) = some (c ∷ s)

-- `strip_suffix(':')`.
unfoldable pub strip_suffix : ℕ → List ℕ → Option (List ℕ)
strip_suffix mark [] = none
strip_suffix mark (c ∷ []) = if c == mark then some [] else none
strip_suffix mark (c ∷ d ∷ s) = snoc_front c (strip_suffix mark (d ∷ s))

-- The fields of a line of which the first is there.
unfoldable pub tlb_row : List (List ℕ) → List ℕ → Result Reason InfoTlbEntry
unfolding strip_suffix parse_hex_u64 decode_tlb_flags
tlb_row fields address_field = do
  physical_field ← ok_or (get_elem? fields 0) no_addresses
  flags_field ← ok_or (get_elem? fields 1) no_flags
  u ← refuse_if (present (get_elem? fields 2)) trailing
  virtual_text ← ok_or (strip_suffix 58 address_field) (no_colon address_field)
  virtual_address ← ok_or (parse_hex_u64 virtual_text) bad_addresses
  physical_address ← ok_or (parse_hex_u64 physical_field) bad_addresses
  flags ← ok_or (decode_tlb_flags flags_field) (bad_flags flags_field)
  ok (record {
    virtual_address = virtual_address;
    physical_address = physical_address;
    flags = flags;
  })

unfoldable pub tlb_line : List InfoTlbEntry → List ℕ → Outcome (List InfoTlbEntry)
unfolding trim split_whitespace tlb_row
tlb_line out line = if is_empty (trim line) then next out else elim (split_whitespace (trim line)) [
  | [] ↦ next out
  | address_field ∷ fields ↦ row_or out line (tlb_row fields address_field)
]

unfoldable pub parse_info_tlb : List ℕ → Reply (List InfoTlbEntry)
unfolding over_text tlb_line
parse_info_tlb = over_text tlb_line (codes "info tlb") []

pub record CpuInfo : Type 0 where
  pub index : ℕ
  pub thread_id : ℕ
  pub current : Bool

abbrev pub is_star : ℕ → Bool
is_star c = c == 42

unfoldable pub cpu_row : List ℕ → Result Reason CpuInfo
unfolding trim starts_with strip_prefix split_once parse_usize
cpu_row trimmed = do
  rest ← ok_or (strip_prefix (codes "CPU #") (trim (trim_start_matches is_star trimmed))) no_cpu
  parts ← ok_or (split_once (codes ":") rest) no_index_end
  index ← ok_or (below (2 ^ 32) (parse_usize (trim parts.0))) (bad_index parts.0)
  thread_text ← ok_or (strip_prefix (codes "thread_id=") (trim parts.1)) no_thread
  thread_id ← ok_or (parse_usize (trim thread_text)) (bad_thread thread_text)
  ok (record { index = index; thread_id = thread_id; current = starts_with (codes "*") trimmed })

unfoldable pub cpu_line : List CpuInfo → List ℕ → Outcome (List CpuInfo)
unfolding trim cpu_row
cpu_line out line =
    let trimmed = trim line in
    if is_empty trimmed then next out else row_or out trimmed (cpu_row trimmed)

unfoldable pub parse_info_cpus : List ℕ → Reply (List CpuInfo)
unfolding over_text cpu_line
parse_info_cpus = over_text cpu_line (codes "info cpus") []
