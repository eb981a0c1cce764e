-- ===== src/Descriptor/Decode.antt =====
-- crates/princess-bin/src/descriptor.rs: one GDT descriptor taken apart, `SegmentDescriptor::decode`
-- and `decode_system`. `u8`, `u16` and `u32` are numbers; each cast and shift cuts to its width.
use Prim.Native.String.{String}
use princess_ide.Prelude.{
  ℕ, ◌*◌, ◌%◌, ◌^◌, bit_and, bit_or, Bool, true, false, not, ◌&&◌, Option, none, some,
  if◌then◌else◌, ◌==◌,
}
use princess_ide.Bits.{◌<<◌, ◌>>◌, test_bits}

abbrev pub bit_s : ℕ
bit_s = 1 << 44

abbrev pub bit_l : ℕ
bit_l = 1 << 53

abbrev pub bit_db : ℕ
bit_db = 1 << 54

abbrev pub bit_g : ℕ
bit_g = 1 << 55

-- `x << k` on a `u32`, and the casts to narrower words.
abbrev pub shl32 : ℕ → ℕ → ℕ
shl32 x k = x * 2 ^ k % 2 ^ 32

abbrev pub as_u8 : ℕ → ℕ
as_u8 x = x % 2 ^ 8

abbrev pub as_u16 : ℕ → ℕ
as_u16 x = x % 2 ^ 16

abbrev pub as_u32 : ℕ → ℕ
as_u32 x = x % 2 ^ 32

pub data CodeDataKind : Type 0 where
  code_segment data_segment : CodeDataKind

pub record SegmentDescriptor : Type 0 where
  pub offset : ℕ
  pub raw : ℕ
  pub base : ℕ
  pub limit : ℕ
  pub accessed : Bool
  pub readable_writable : Bool
  pub direction_or_conforming : Bool
  pub kind : CodeDataKind
  pub dpl : ℕ
  pub present : Bool
  pub available : Bool
  pub long_mode : Bool
  pub default_size_32 : Bool
  pub granularity_4k : Bool

-- The parts that both decoders extract in the same words.
abbrev pub access_byte : ℕ → ℕ
access_byte raw = as_u8 (bit_and (raw >> 40) 0xFF)

abbrev pub limit_field : ℕ → ℕ
limit_field raw = bit_or (shl32 (as_u32 (bit_and (raw >> 48) 0xF)) 16) (as_u32 (bit_and raw 0xFFFF))

abbrev pub scaled_limit : ℕ → ℕ
scaled_limit raw =
    if test_bits raw bit_g then bit_or (shl32 (limit_field raw) 12) 0xFFF else limit_field raw

abbrev pub low_base : ℕ → ℕ
low_base raw =
    bit_or
      (bit_or (shl32 (as_u32 (bit_and (raw >> 56) 0xFF)) 24)
        (shl32 (as_u32 (bit_and (raw >> 32) 0xFF)) 16))
      (as_u32 (bit_and (raw >> 16) 0xFFFF))

unfoldable pub decode_segment : ℕ → ℕ → SegmentDescriptor
decode_segment offset raw = record {
  offset = offset;
  raw = raw;
  base = low_base raw;
  limit = scaled_limit raw;
  accessed = test_bits (access_byte raw) 0x01;
  readable_writable = test_bits (access_byte raw) 0x02;
  direction_or_conforming = test_bits (access_byte raw) 0x04;
  kind = if test_bits (access_byte raw) 0x08 then code_segment else data_segment;
  dpl = bit_and (access_byte raw >> 5) 0b11;
  present = test_bits (access_byte raw) 0x80;
  available = test_bits raw (1 << 52);
  long_mode = test_bits raw bit_l;
  default_size_32 = test_bits raw bit_db;
  granularity_4k = test_bits raw bit_g;
}

abbrev label_of : CodeDataKind → Bool → Bool → String
label_of code_segment true _ = "CODE64"
label_of code_segment false true = "CODE32"
label_of code_segment false false = "CODE16"
label_of data_segment _ true = "DATA32"
label_of data_segment _ false = "DATA16"

unfoldable pub segment_label : SegmentDescriptor → String
segment_label d = label_of d.kind d.long_mode d.default_size_32

unfoldable pub is_null : SegmentDescriptor → Bool
is_null d = d.raw == 0

unfoldable pub long_mode_bit_is_consistent : SegmentDescriptor → Bool
long_mode_bit_is_consistent d = not (d.long_mode && d.default_size_32)

pub data SystemDescriptorType : Type 0 where
  tss16_available ldt tss16_busy call_gate16 task_gate interrupt_gate16 trap_gate16 tss64_available
        tss64_busy call_gate64 interrupt_gate64 trap_gate64 :
      SystemDescriptorType
  reserved : (bits : ℕ) → SystemDescriptorType

-- The `match` on `bits & 0xF`.
abbrev pub type_of : ℕ → SystemDescriptorType
type_of t =
    if t == 0x1
    then tss16_available
    else if t == 0x2
    then ldt
    else if t == 0x3
    then tss16_busy
    else if t == 0x4
    then call_gate16
    else if t == 0x5
    then task_gate
    else if t == 0x6
    then interrupt_gate16
    else if t == 0x7
    then trap_gate16
    else if t == 0x9
    then tss64_available
    else if t == 0xB
    then tss64_busy
    else if t == 0xC
    then call_gate64
    else if t == 0xE
    then interrupt_gate64
    else if t == 0xF
    then trap_gate64
    else reserved t

unfoldable pub from_bits : ℕ → SystemDescriptorType
from_bits bits = type_of (bit_and bits 0xF)

unfoldable pub is_16_bytes : SystemDescriptorType → Bool
is_16_bytes tss64_available = true
is_16_bytes tss64_busy = true
is_16_bytes ldt = true
is_16_bytes call_gate64 = true
is_16_bytes _ = false

unfoldable pub type_label : SystemDescriptorType → String
type_label tss16_available = "TSS16-avl"
type_label ldt = "LDT"
type_label tss16_busy = "TSS16-busy"
type_label call_gate16 = "CALLGATE16"
type_label task_gate = "TASKGATE"
type_label interrupt_gate16 = "INTGATE16"
type_label trap_gate16 = "TRAPGATE16"
type_label tss64_available = "TSS64-avl"
type_label tss64_busy = "TSS64-busy"
type_label call_gate64 = "CALLGATE64"
type_label interrupt_gate64 = "INTGATE64"
type_label trap_gate64 = "TRAPGATE64"
type_label (reserved _) = "RESERVED"

pub record SystemDescriptor : Type 0 where
  pub offset : ℕ
  pub kind : SystemDescriptorType
  pub base : ℕ
  pub limit : ℕ
  pub dpl : ℕ
  pub present : Bool
  pub available : Bool
  pub granularity_4k : Bool
  pub raw_low : ℕ
  pub raw_high : Option ℕ

-- `base |= u64::from(((high >> 32) & 0xFFFF_FFFF) as u32) << 32` where there is a second slot.
abbrev pub system_base : ℕ → Option ℕ → ℕ
system_base raw_low none = low_base raw_low
system_base raw_low (some high) =
    bit_or (low_base raw_low) (as_u32 (bit_and (high >> 32) 0xFFFF_FFFF) << 32)

unfoldable pub decode_system : ℕ → ℕ → Option ℕ → SystemDescriptor
decode_system offset raw_low raw_high = record {
  offset = offset;
  kind = from_bits (bit_and (access_byte raw_low) 0xF);
  base = system_base raw_low raw_high;
  limit = scaled_limit raw_low;
  dpl = bit_and (access_byte raw_low >> 5) 0b11;
  present = test_bits (access_byte raw_low) 0x80;
  available = test_bits raw_low (1 << 52);
  granularity_4k = test_bits raw_low bit_g;
  raw_low = raw_low;
  raw_high = raw_high;
}

-- `matches!(self.kind, Tss16Busy | Tss64Busy)`.
abbrev busy_type : SystemDescriptorType → Bool
busy_type tss16_busy = true
busy_type tss64_busy = true
busy_type _ = false

unfoldable pub is_busy : SystemDescriptor → Bool
is_busy d = busy_type d.kind

unfoldable pub slots_taken : SystemDescriptor → ℕ
slots_taken d = if is_16_bytes d.kind then 2 else 1
