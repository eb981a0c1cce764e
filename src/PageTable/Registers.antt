-- ===== src/PageTable/Registers.antt =====
-- crates/princess-bin/src/pagetable.rs: the control registers `Cr0`, `Cr4`, `Efer` and `Cr3`, each
-- the `u64` that the source wraps.
use princess_ide.Prelude.{ℕ, ◌==◌, Bool, not, bit_and}
use princess_ide.Bits.{◌<<◌, test_bits}

-- Bits 51:12, the address field of `CR3` and of an entry.
abbrev pub entry_address_mask : ℕ
entry_address_mask = 0x000F_FFFF_FFFF_F000

abbrev pub Cr0 : Type 0
Cr0 = ℕ

abbrev pub Cr4 : Type 0
Cr4 = ℕ

abbrev pub Efer : Type 0
Efer = ℕ

abbrev pub Cr3 : Type 0
Cr3 = ℕ

unfoldable pub paging_enabled : Cr0 → Bool
paging_enabled cr0 = test_bits cr0 (1 << 31)

unfoldable pub protection_enabled : Cr0 → Bool
protection_enabled cr0 = test_bits cr0 1

unfoldable pub write_protect : Cr0 → Bool
write_protect cr0 = test_bits cr0 (1 << 16)

unfoldable pub pae : Cr4 → Bool
pae cr4 = test_bits cr4 (1 << 5)

unfoldable pub pcide : Cr4 → Bool
pcide cr4 = test_bits cr4 (1 << 17)

unfoldable pub la57 : Cr4 → Bool
la57 cr4 = test_bits cr4 (1 << 12)

unfoldable pub smep : Cr4 → Bool
smep cr4 = test_bits cr4 (1 << 20)

unfoldable pub smap : Cr4 → Bool
smap cr4 = test_bits cr4 (1 << 21)

unfoldable pub pke : Cr4 → Bool
pke cr4 = test_bits cr4 (1 << 22)

unfoldable pub sce : Efer → Bool
sce efer = test_bits efer 1

unfoldable pub lme : Efer → Bool
lme efer = test_bits efer (1 << 8)

unfoldable pub lma : Efer → Bool
lma efer = test_bits efer (1 << 10)

unfoldable pub nxe : Efer → Bool
nxe efer = test_bits efer (1 << 11)

unfoldable pub table_address : Cr3 → ℕ
table_address cr3 = bit_and cr3 entry_address_mask

unfoldable pub pcid : Cr3 → ℕ
pcid cr3 = bit_and cr3 0xFFF

unfoldable pub has_low_bits_set : Cr3 → Bool
has_low_bits_set cr3 = not (pcid cr3 == 0)
