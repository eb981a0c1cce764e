-- ===== src/Descriptor/Tests.antt =====
-- Runs of the descriptor decoders: a table with a null slot, a code segment and a task state
-- segment of 16 bytes, and an interrupt table of two gates.
use princess_ide.Prelude.{
  ℕ, zero, suc, ◌/◌, ◌%◌, ◌^◌, ◌≡◌, ◌↔◌, refl, arith, false, none, some, List, [], ◌∷◌, length,
  ◌==◌, if◌then◌else◌, ok, err,
}
use princess_ide.GuestMem.{GuestMemory, not_in_ram}
use princess_ide.GuestMem.Words.{IsByte}
use princess_ide.Descriptor.Decode.{
  decode_segment, decode_system, from_bits, is_16_bytes, segment_label,
}
use princess_ide.Descriptor.Gdt.{
  Gdt, null, segment, system, high_half, read, read_from, round, slots_in, slot_count,
}
use princess_ide.Descriptor.Pairs.{Paired}
use princess_ide.Descriptor.Slots.{Slots, read-Slots}
use princess_ide.Descriptor.Total.{Readable, read_total}
use princess_ide.Descriptor.Fields.{
  encode_segment, encode_segment-decode_segment, manual_base, system_base_iff,
}
use princess_ide.Descriptor.Idt.{
  Idt, interrupt, gate_of, gate_kind, read_gate, read_gates, read_idt, handler_of,
}
use princess_ide.GuestMem.{or_bytes}
use princess_ide.Descriptor.Idt.{read_tss, segment_of}
use princess_ide.Prelude.{◌≤◌, ◌+◌, All}

-- A gate at 0x3120 in the kernel's half, type 0xE, reachable from ring 3.
abbrev gate_bytes : List ℕ
gate_bytes =
    0x20 ∷ 0x31 ∷ 0x08 ∷ 0x00 ∷ 0x00 ∷ 0xEE ∷ 0x00 ∷ 0x80 ∷ 0xFF ∷ 0xFF ∷ 0xFF ∷ 0xFF ∷ 0 ∷ 0 ∷ 0
    ∷ 0 ∷ []

abbrev no_bytes : List ℕ
no_bytes = 0 ∷ 0 ∷ 0 ∷ 0 ∷ 0 ∷ 0 ∷ 0 ∷ 0 ∷ 0 ∷ 0 ∷ 0 ∷ 0 ∷ 0 ∷ 0 ∷ 0 ∷ 0 ∷ []

abbrev code64 : ℕ
code64 = 0x00AF9B000000FFFF

abbrev tss_low : ℕ
tss_low = 0x0000890012340067

abbrev guest : GuestMemory
guest = record {
  read_u64 = λ a.
      if a == 0x7000
      then ok 0
      else if a == 0x7008
      then ok code64
      else if a == 0x7010
      then ok tss_low
      else if a == 0x7018
      then ok 0xFFFFFFFF
      else err (not_in_ram a);
  read_bytes = λ a n. if a == 0x8010 then ok gate_bytes else ok no_bytes;
  ram_size = none;
  is_ram = λ a. false;
}

abbrev gdt : Gdt
gdt = record {
  base = 0x7000;
  limit = 31;
  entries =
      null 0
      ∷ segment (decode_segment 8 code64)
      ∷ system (decode_system 16 tss_low (some 0xFFFFFFFF))
      ∷ high_half 24 0xFFFFFFFF 16
      ∷ [];
}

gdt_read : read guest 0x7000 31 ≡ ok gdt
unfolding read read_from round from_bits is_16_bytes
gdt_read = refl

code64_label : segment_label (decode_segment 8 code64) ≡ "CODE64"
unfolding segment_label decode_segment
code64_label = refl

read-Slots_example :
    (length gdt.entries ≡ slot_count gdt)
    × Slots guest 0x7000 0 gdt.entries
    × Paired gdt.entries
    × (gdt.base ≡ 0x7000)
    × (gdt.limit ≡ 31)
read-Slots_example = read-Slots guest 0x7000 31 gdt gdt_read

slots-Readable : Readable guest 0x7000 (slots_in 31)
slots-Readable zero h = (0, refl)
slots-Readable (suc zero) h = (code64, refl)
slots-Readable (suc (suc zero)) h = (tss_low, refl)
slots-Readable (suc (suc (suc zero))) h = (0xFFFFFFFF, refl)
slots-Readable (suc (suc (suc (suc i)))) h = absurd (omega arith)

read_total_example : (g : Gdt) × (read guest 0x7000 31 ≡ ok g)
read_total_example = read_total guest 0x7000 31 slots-Readable

encode_segment-decode_segment_example : encode_segment (decode_segment 8 code64) ≡ code64
encode_segment-decode_segment_example = encode_segment-decode_segment 8 code64 (omega arith) refl

system_base_iff_example :
    ((decode_system 16 tss_low (some 0xFFFFFFFF)).base ≡ manual_base tss_low 0xFFFFFFFF)
    ↔ (0xFFFFFFFF / 2 ^ 32 ≡ 0xFFFFFFFF % 2 ^ 32)
system_base_iff_example = system_base_iff 16 tss_low 0xFFFFFFFF (omega arith)

abbrev idt : Idt
idt = record {
  base = 0x8000;
  limit = 31;
  gates = gate_of 0 no_bytes interrupt ∷ gate_of 1 gate_bytes interrupt ∷ [];
}

idt_read : read_idt guest 0x8000 31 ≡ ok idt
unfolding read_idt read_gates read_gate gate_kind handler_of
idt_read = refl

-- A segment whose bytes count up from 0, which makes every field its own value.
abbrev counting : ℕ → ℕ → List ℕ
counting zero i = []
counting (suc n) i = i ∷ counting n (i + 1)

counting-All : (n i : ℕ) → n + i ≤ 256 → All IsByte (counting n i)
counting-All zero i h = tt
counting-All (suc n) i h = (omega arith, counting-All n (i + 1) (omega arith))

abbrev counting_guest : GuestMemory
counting_guest = record guest { read_bytes = λ a n. ok (counting n 0) }

counting_segment :
    (read_tss counting_guest 0x9000 0x67) ≡ ok (segment_of 0x9000 0x67 (counting 0x68 0))
unfolding read_tss
counting_segment = refl

counting_rsp0 : (segment_of 0x9000 0x67 (counting 0x68 0)).rsp0 ≡ 0x0B0A090807060504
unfolding or_bytes
counting_rsp0 = refl
