-- ===== src/Monitor/Walking.antt =====
-- crates/princess-bin: from the control-register lines of `info registers` (monitor.rs) to the walk that
-- `walk_from_registers` (pagetable.rs) starts.
use princess_ide.Prelude.{
  ℕ, suc, ◌^◌, ◌<◌, ◌≡◌, refl, ap, ◌∙◌, arith, Bool, true, false, none, some, List, [], ◌∷◌, ◌==◌,
  All, if◌then◌else◌, ok,
}
use princess_ide.Str.{codes}
use princess_ide.Serial.Parse.{is_ascii_hexdigit, from_hex, is_empty}
use princess_ide.Serial.Hexadecimal.{
  hex_padded, hex_digit-IsHex, All-hex_padded, All-all_chars, is_empty-hex_padded,
  from_hex-hex_padded_of,
}
use princess_ide.GuestMem.{GuestMemory}
use princess_ide.PageTable.FromRegisters.{walk_from_registers, start_walk}
use princess_ide.Monitor.Control.{control_text, control_report, parse_info_registers-control}
use princess_ide.Monitor.Lines.{parsed}
use princess_ide.Monitor.Registers.{
  RegistersReport, get, insert, from_str_radix_16, plain_hex, register_u64, insert_all,
  parse_info_registers,
}

-- `u64::from_str_radix` on plain digits.
from_str_radix_16-digits :
    (s : List ℕ)
    → is_empty s ≡ false
    → All (λ c. is_ascii_hexdigit c ≡ true) s
    → from_str_radix_16 s ≡ from_hex 0 s
unfolding from_str_radix_16
from_str_radix_16-digits [] e h = absurd (ground arith)
from_str_radix_16-digits (c ∷ []) e h =
    ap (λ b. if b then from_hex 0 (c ∷ []) else none) (All-all_chars (c ∷ []) h)
from_str_radix_16-digits (c ∷ d ∷ s) e (h, hs) =
    let sign : (c == 43) ≡ false = ground arith in
    ap (λ b. plain_hex (if b then d ∷ s else c ∷ d ∷ s)) sign
    ∙ ap (λ b. if b then from_hex 0 (c ∷ d ∷ s) else none) (All-all_chars (c ∷ d ∷ s) (h, hs))

from_str_radix_16-hex_padded :
    (places n : ℕ)
    → n < 16 ^ suc places
    → n < 2 ^ 64
    → from_str_radix_16 (hex_padded (suc places) n) ≡ some n
from_str_radix_16-hex_padded places n small fits =
    from_str_radix_16-digits (hex_padded (suc places) n) (is_empty-hex_padded places n)
      (All-hex_padded (λ c. is_ascii_hexdigit c ≡ true) (suc places) n hex_digit-IsHex)
    ∙ from_hex-hex_padded_of (suc places) n small fits

-- The registers that the report of the two lines holds.
module _ (cr0 cr2 cr3 cr4 efer : ℕ) where
  register_u64-control :
      (name : List ℕ) (places value : ℕ)
      → get name (control_report cr0 cr2 cr3 cr4 efer).registers
        ≡ some (hex_padded (suc places) value)
      → value < 16 ^ suc places
      → value < 2 ^ 64
      → register_u64 (control_report cr0 cr2 cr3 cr4 efer) name ≡ ok value
  unfolding register_u64
  register_u64-control name places value there small fits =
      rw (register_u64, there, from_str_radix_16-hex_padded places value small fits) refl

  walk_from_registers-control :
      (guest : GuestMemory) (address : ℕ)
      → cr0 < 2 ^ 32
      → cr3 < 2 ^ 64
      → cr4 < 2 ^ 32
      → efer < 2 ^ 64
      → walk_from_registers guest (control_report cr0 cr2 cr3 cr4 efer) address
        ≡ start_walk guest cr0 cr3 cr4 efer address
  unfolding walk_from_registers get insert_all insert
  walk_from_registers-control guest address h0 h3 h4 he =
      rw
        (
          walk_from_registers,
          register_u64-control (codes "CR0") 7 cr0 refl (omega arith) (omega arith),
          register_u64-control (codes "CR3") 15 cr3 refl (omega arith) (omega arith),
          register_u64-control (codes "CR4") 7 cr4 refl (omega arith) (omega arith),
          register_u64-control (codes "EFER") 15 efer refl (omega arith) (omega arith),
        )
        refl

-- The two lines of `info registers` that hold the control registers and `EFER`, as QEMU prints them and
-- with either line ending, parse to a report from which the walk starts with the printed values of
-- `CR0`, `CR3`, `CR4` and `EFER`, when `CR0` and `CR4` are 32-bit and the other two 64-bit words.
pub walk_from_registers-printed :
    (guest : GuestMemory) (cr : Bool) (cr0 cr2 cr3 cr4 efer address : ℕ)
    → cr0 < 2 ^ 32
    → cr3 < 2 ^ 64
    → cr4 < 2 ^ 32
    → efer < 2 ^ 64
    → (report : RegistersReport) × (parse_info_registers (control_text cr cr0 cr2 cr3 cr4 efer)
        ≡ parsed report)
      × (walk_from_registers guest report address ≡ start_walk guest cr0 cr3 cr4 efer address)
walk_from_registers-printed guest cr cr0 cr2 cr3 cr4 efer address h0 h3 h4 he = (
  control_report cr0 cr2 cr3 cr4 efer,
  parse_info_registers-control cr cr0 cr2 cr3 cr4 efer,
  walk_from_registers-control cr0 cr2 cr3 cr4 efer guest address h0 h3 h4 he,
)
