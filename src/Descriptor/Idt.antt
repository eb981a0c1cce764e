-- ===== src/Descriptor/Idt.antt =====
-- crates/princess-bin/src/descriptor.rs: `Tss64`, `IdtGate`, `Idt` and `read_tables`.
-- `u16::from_le_bytes` and `u64::from_le_bytes` are the value of the bytes, the lowest first.
use princess_ide.Prelude.{
  ℕ, zero, suc, ◌+◌, ◌*◌, ◌/◌, bit_and, bit_or, Bool, true, not, ◌&&◌, Option, none, some, List, [],
  ◌∷◌, length, get_or, take, drop, find, leb, ltb, ◌==◌, if◌then◌else◌, Result, ok, err, ◌>>=◌,
  map_err,
}
use princess_ide.Bits.{◌<<◌, ◌>>◌, test_bits}
use princess_ide.GuestMem.{GuestMemory, or_bytes}
use princess_ide.GuestMem.Words.{le_value}
use princess_ide.Descriptor.Decode.{SystemDescriptor, as_u16}
use princess_ide.Descriptor.Gdt
use princess_ide.Descriptor.Gdt.{Gdt, DescriptorError, memory, invalid_gate_type, panicked}

abbrev pub gate_size : ℕ
gate_size = 16

pub record Tss64 : Type 0 where
  pub base : ℕ
  pub rsp0 : ℕ
  pub rsp1 : ℕ
  pub rsp2 : ℕ
  pub ist : List ℕ
  pub io_map_base : ℕ
  pub has_io_bitmap : Bool

-- The closure `read_u64` of `Tss64::read`, and the loop that fills `ist` at `index`.
abbrev pub word_at : List ℕ → ℕ → ℕ
word_at raw offset = or_bytes 0 0 (take 8 (drop offset raw))

abbrev pub words_at : ℕ → ℕ → List ℕ → List ℕ
words_at zero index raw = []
words_at (suc left) index raw = word_at raw (0x24 + index * 8) ∷ words_at left (index + 1) raw

abbrev pub le_u16 : List ℕ → ℕ → ℕ
le_u16 raw offset = le_value (take 2 (drop offset raw))

abbrev pub segment_of : ℕ → ℕ → List ℕ → Tss64
segment_of base limit raw = record {
  base = base;
  rsp0 = word_at raw 0x04;
  rsp1 = word_at raw 0x0C;
  rsp2 = word_at raw 0x14;
  ist = words_at 7 0 raw;
  io_map_base = le_u16 raw 0x66;
  has_io_bitmap = leb (le_u16 raw 0x66) limit;
}

-- The bytes are indexed up to 0x67, so fewer than 0x68 of them panic.
unfoldable pub read_tss : GuestMemory → ℕ → ℕ → Result DescriptorError Tss64
read_tss guest base limit = map_err memory (guest.read_bytes base 0x68) >>= λ raw.
    (if ltb (length raw) 0x68 then err panicked else ok (segment_of base limit raw))

pub data GateKind : Type 0 where
  interrupt trap task : GateKind

pub record IdtGate : Type 0 where
  pub vector : ℕ
  pub offset : ℕ
  pub raw : List ℕ
  pub present : Bool
  pub dpl : ℕ
  pub kind : GateKind
  pub selector : ℕ
  pub ist : ℕ
  pub handler : ℕ

-- `raw == [0u8; 16]`, for 16 bytes.
abbrev pub all_zero : List ℕ → Bool
all_zero [] = true
all_zero (b ∷ bs) = (b == 0) && all_zero bs

unfoldable pub is_uninstalled : IdtGate → Bool
is_uninstalled gate = all_zero gate.raw

pub record Idt : Type 0 where
  pub base : ℕ
  pub limit : ℕ
  pub gates : List IdtGate

abbrev pub gates_in : ℕ → ℕ
gates_in limit = (limit + 1) / gate_size

unfoldable pub gate_count : Idt → ℕ
gate_count idt = gates_in idt.limit

-- The `match` on the type of a gate.
unfoldable pub gate_kind : List ℕ → Result DescriptorError GateKind
gate_kind raw =
    let descriptor_type = bit_and (get_or raw 5 0) 0x0F in
    if descriptor_type == 0xE
    then ok interrupt
    else if descriptor_type == 0xF
    then ok trap
    else if descriptor_type == 0x5
    then ok task
    else if all_zero raw
    then ok interrupt
    else err (invalid_gate_type descriptor_type)

abbrev pub low_word : List ℕ → ℕ
low_word raw = le_value (take 8 raw)

abbrev pub high_word : List ℕ → ℕ
high_word raw = le_value (take 8 (drop 8 raw))

unfoldable pub handler_of : List ℕ → ℕ
handler_of raw =
    let offset_low = bit_and (low_word raw) 0xFFFF in
    let offset_mid = bit_and (low_word raw >> 48) 0xFFFF in
    let offset_high = bit_and (high_word raw) 0xFFFF_FFFF in
    bit_or (bit_or offset_low (offset_mid << 16)) (offset_high << 32)

-- `u8::try_from(index).unwrap_or(u8::MAX)`.
abbrev pub saturated_u8 : ℕ → ℕ
saturated_u8 index = if ltb index 256 then index else 255

abbrev pub gate_of : ℕ → List ℕ → GateKind → IdtGate
gate_of index raw kind = record {
  vector = saturated_u8 index;
  offset = as_u16 (index * gate_size);
  raw = raw;
  present = test_bits (get_or raw 5 0) 0x80;
  dpl = bit_and (get_or raw 5 0 >> 5) 0b11;
  kind = kind;
  selector = le_u16 raw 2;
  ist = bit_and (get_or raw 4 0) 0b111;
  handler = handler_of raw;
}

-- The body of the loop. `copy_from_slice` panics unless there are 16 bytes.
unfoldable pub read_gate : GuestMemory → ℕ → ℕ → Result DescriptorError IdtGate
read_gate guest base index =
    map_err memory (guest.read_bytes (base + index * gate_size) gate_size) >>= λ raw.
    (if not (length raw == gate_size)
      then err panicked
      else (gate_kind raw >>= λ kind. ok (gate_of index raw kind)))

-- The loop at `index`, with the gates that are left.
unfoldable pub read_gates : GuestMemory → ℕ → ℕ → ℕ → Result DescriptorError (List IdtGate)
read_gates guest base zero index = ok []
read_gates guest base (suc left) index = read_gate guest base index >>= λ gate.
    read_gates guest base left (index + 1) >>= λ rest. ok (gate ∷ rest)

unfoldable pub read_idt : GuestMemory → ℕ → ℕ → Result DescriptorError Idt
read_idt guest base limit = read_gates guest base (gates_in limit) 0 >>= λ gates.
    ok (record { base = base; limit = limit; gates = gates })

unfoldable pub gate_for : Idt → ℕ → Option IdtGate
gate_for idt vector = find (λ g. g.vector == vector) idt.gates

-- `filter(..).map(|gate| gate.vector)`.
abbrev pub vectors_where : (IdtGate → Bool) → List IdtGate → List ℕ
vectors_where p [] = []
vectors_where p (g ∷ gs) = let rest = vectors_where p gs in if p g then g.vector ∷ rest else rest

unfoldable pub user_accessible_vectors : Idt → List ℕ
user_accessible_vectors idt = vectors_where (λ g. g.present && (g.dpl == 3)) idt.gates

unfoldable pub installed_vectors : Idt → List ℕ
unfolding is_uninstalled
installed_vectors idt = vectors_where (λ g. g.present && not (is_uninstalled g)) idt.gates

-- `.ok()`.
abbrev pub to_option : {E A : Type 0} → Result E A → Option A
to_option (ok a) = some a
to_option (err e) = none

abbrev pub tss_of : GuestMemory → Option SystemDescriptor → Option Tss64
tss_of guest none = none
tss_of guest (some d) = to_option (read_tss guest d.base d.limit)

pub record Tables : Type 0 where
  pub gdt : Gdt
  pub idt : Idt
  pub tss : Option Tss64

unfoldable pub read_tables : GuestMemory → ℕ → ℕ → ℕ → ℕ → Result DescriptorError Tables
read_tables guest gdt_base gdt_limit idt_base idt_limit =
    Gdt.read guest gdt_base gdt_limit >>= λ gdt. read_idt guest idt_base idt_limit >>= λ idt.
    ok (record { gdt = gdt; idt = idt; tss = tss_of guest (Gdt.tss gdt) })
