-- ===== src/Descriptor/Gdt.antt =====
-- crates/princess-bin/src/descriptor.rs: `DescriptorError`, `GdtEntry`, `Gdt`. The `while` loop of
-- `Gdt::read` is a recursion on the slots that are left; a round takes one of them, or two. The sum
-- `base + offset` is a plain sum: no table of the machine reaches the last addresses of the `u64`.
use princess_ide.Prelude.{
  ℕ, zero, suc, ◌+◌, ◌*◌, ◌/◌, ◌-◌, bit_and, Bool, true, false, ◌&&◌, Option, none, some, List, [],
  ◌∷◌, ◌++◌, find, ltb, ◌==◌, if◌then◌else◌, Result, ok, ◌>>=◌, map_err,
}
use princess_ide.Bits.{◌>>◌, test_bits}
use princess_ide.GuestMem.{GuestMemory, MemoryError}
use princess_ide.Descriptor.Decode.{
  SegmentDescriptor, decode_segment, SystemDescriptor, SystemDescriptorType, tss16_available,
  tss16_busy, tss64_available, tss64_busy, decode_system, from_bits, is_16_bytes, bit_s, as_u8,
  as_u16,
}

-- `panicked` is an index or a copy out of range.
pub data DescriptorError : Type 0 where
  memory : (source : MemoryError) → DescriptorError
  out_of_range : (index count : ℕ) → DescriptorError
  invalid_tss_type : (descriptor_type : ℕ) → DescriptorError
  invalid_gate_type : (descriptor_type : ℕ) → DescriptorError
  panicked : DescriptorError

pub data GdtEntry : Type 0 where
  null : (offset : ℕ) → GdtEntry
  segment : (descriptor : SegmentDescriptor) → GdtEntry
  system : (descriptor : SystemDescriptor) → GdtEntry
  high_half : (offset raw low_half_offset : ℕ) → GdtEntry

abbrev pub entry_offset : GdtEntry → ℕ
entry_offset (null offset) = offset
entry_offset (segment d) = d.offset
entry_offset (system d) = d.offset
entry_offset (high_half offset raw low) = offset

unfoldable pub selector : GdtEntry → ℕ
selector e = entry_offset e

pub record Gdt : Type 0 where
  pub base : ℕ
  pub limit : ℕ
  pub entries : List GdtEntry

-- `(u64::from(limit) + 1) / 8`.
abbrev pub slots_in : ℕ → ℕ
slots_in limit = (limit + 1) / 8

unfoldable pub slot_count : Gdt → ℕ
slot_count gdt = slots_in gdt.limit

unfoldable pub entry_for_selector : Gdt → ℕ → Option GdtEntry
entry_for_selector gdt sel =
    let offset = bit_and sel (65535 - 0b111) in find (λ e. entry_offset e == offset) gdt.entries

-- What a round makes of the low word, before it looks for a second slot.
abbrev pub descriptor_type : ℕ → SystemDescriptorType
descriptor_type raw = from_bits (as_u8 (bit_and (raw >> 40) 0xF))

abbrev pub first_null : ℕ → ℕ → Bool
first_null index raw = (index == 0) && (raw == 0)

-- What a round pushes: one entry, or a descriptor of 16 bytes and the record of its high half.
pub data Pushed : Type 0 where
  one : GdtEntry → Pushed
  two : GdtEntry → GdtEntry → Pushed

abbrev pub pushed : Pushed → List GdtEntry
pushed (one e) = e ∷ []
pushed (two e h) = e ∷ h ∷ []

abbrev pub wide_pair : ℕ → ℕ → ℕ → Pushed
wide_pair index raw high =
    two (system (decode_system (as_u16 (index * 8)) raw (some high)))
      (high_half (as_u16 (index * 8 + 8)) high (as_u16 (index * 8)))

-- The body of the loop at `index`, of `count` slots.
unfoldable pub round : GuestMemory → ℕ → ℕ → ℕ → Result DescriptorError Pushed
round guest base count index = map_err memory (guest.read_u64 (base + index * 8)) >>= λ raw.
    (if first_null index raw
      then ok (one (null (as_u16 (index * 8))))
      else if test_bits raw bit_s
      then ok (one (segment (decode_segment (as_u16 (index * 8)) raw)))
      else if is_16_bytes (descriptor_type raw) && ltb (index + 1) count
      then (map_err memory (guest.read_u64 (base + index * 8 + 8)) >>= λ high.
          ok (wide_pair index raw high))
      else ok (one (system (decode_system (as_u16 (index * 8)) raw none))))

-- The loop at `index`, with the slots that are left and the entries so far.
unfoldable pub read_from :
    GuestMemory → ℕ → ℕ → ℕ → ℕ → List GdtEntry → Result DescriptorError (List GdtEntry)
read_from guest base count zero index entries = ok entries
read_from guest base count (suc zero) index entries =
    round guest base count index >>= λ r. ok (entries ++ pushed r)
read_from guest base count (suc (suc left)) index entries = round guest base count index >>= λ r.
    elim r [
      | one e ↦ read_from guest base count (suc left) (index + 1) (entries ++ e ∷ [])
      | two e h ↦ read_from guest base count left (index + 2) (entries ++ e ∷ h ∷ [])
    ]

unfoldable pub read : GuestMemory → ℕ → ℕ → Result DescriptorError Gdt
read guest base limit = read_from guest base (slots_in limit) (slots_in limit) 0 [] >>= λ entries.
    ok (record { base = base; limit = limit; entries = entries })

abbrev is_tss : SystemDescriptorType → Bool
is_tss tss64_available = true
is_tss tss64_busy = true
is_tss tss16_available = true
is_tss tss16_busy = true
is_tss _ = false

unfoldable pub first_tss : List GdtEntry → Option SystemDescriptor
first_tss [] = none
first_tss (system d ∷ rest) = if is_tss d.kind then some d else first_tss rest
first_tss (_ ∷ rest) = first_tss rest

unfoldable pub tss : Gdt → Option SystemDescriptor
unfolding first_tss
tss gdt = first_tss gdt.entries
