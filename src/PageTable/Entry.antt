-- ===== src/PageTable/Entry.antt =====
-- crates/princess-bin/src/pagetable.rs: `Level`, `PageTableEntry` and `LeafSize`.
use Prim.Native.String.{String}
use princess_ide.Prelude.{
  ℕ, ◌*◌, ◌%◌, bit_and, Bool, true, false, not, Option, none, some, ◌==◌, if◌then◌else◌,
}
use princess_ide.Bits.{◌<<◌, ◌>>◌, test_bits}
use princess_ide.PageTable.Registers.{entry_address_mask}

abbrev pub bit_ps : ℕ
bit_ps = 1 << 7

abbrev pub bit_present : ℕ
bit_present = 1 << 0

abbrev pub bit_nx : ℕ
bit_nx = 1 << 63

pub data Level : Type 0 where
  pml5 pml4 pdpt pd pt : Level

unfoldable pub depth : Level → ℕ
depth pml5 = 0
depth pml4 = 1
depth pdpt = 2
depth pd = 3
depth pt = 4

unfoldable pub level_name : Level → String
level_name pml5 = "PML5"
level_name pml4 = "PML4"
level_name pdpt = "PDPT"
level_name pd = "PD"
level_name pt = "PT"

-- The bits of the address that the level's index is taken from, both ends included.
unfoldable pub index_bits : Level → ℕ × ℕ
index_bits pml5 = (56, 48)
index_bits pml4 = (47, 39)
index_bits pdpt = (38, 30)
index_bits pd = (29, 21)
index_bits pt = (20, 12)

unfoldable pub huge_page_allowed : Level → Bool
huge_page_allowed pdpt = true
huge_page_allowed pd = true
huge_page_allowed _ = false

unfoldable pub huge_page_size : Level → Option ℕ
huge_page_size pdpt = some (1024 * 1024 * 1024)
huge_page_size pd = some (2 * 1024 * 1024)
huge_page_size _ = none

pub record PageTableEntry : Type 0 where
  pub raw : ℕ
  pub present : Bool
  pub writable : Bool
  pub user : Bool
  pub pwt : Bool
  pub pcd : Bool
  pub accessed : Bool
  pub dirty : Bool
  pub page_size : Bool
  pub global : Bool
  pub available : ℕ
  pub address_bits : ℕ
  pub reserved : ℕ
  pub protection_key : ℕ
  pub no_execute : Bool

-- `as u8` and `as u16` keep the low bits.
unfoldable pub decode : ℕ → PageTableEntry
decode raw = record {
  raw = raw;
  present = test_bits raw bit_present;
  writable = test_bits raw (1 << 1);
  user = test_bits raw (1 << 2);
  pwt = test_bits raw (1 << 3);
  pcd = test_bits raw (1 << 4);
  accessed = test_bits raw (1 << 5);
  dirty = test_bits raw (1 << 6);
  page_size = test_bits raw bit_ps;
  global = test_bits raw (1 << 8);
  available = bit_and (raw >> 9) 0b111 % 256;
  address_bits = bit_and raw entry_address_mask;
  reserved = bit_and (raw >> 52) 0x7F % 65536;
  protection_key = bit_and (raw >> 59) 0xF % 256;
  no_execute = test_bits raw bit_nx;
}

unfoldable pub reserved_bits_set : PageTableEntry → Bool
reserved_bits_set e = not (e.reserved == 0)

unfoldable pub table_physical_address : PageTableEntry → ℕ
table_physical_address e = e.address_bits

abbrev leaf_mask : PageTableEntry → Level → ℕ
leaf_mask e pdpt = bit_and e.raw 0x000F_FFFF_C000_0000
leaf_mask e pd = bit_and e.raw 0x000F_FFFF_FFE0_0000
leaf_mask e _ = table_physical_address e

unfoldable pub leaf_physical_address : PageTableEntry → Level → Option ℕ
unfolding table_physical_address
leaf_physical_address e level = if not e.page_size then none else some (leaf_mask e level)

pub data LeafSize : Type 0 where
  page4k huge2m huge1g : LeafSize

unfoldable pub leaf_bytes : LeafSize → ℕ
leaf_bytes page4k = 4096
leaf_bytes huge2m = 2 * 1024 * 1024
leaf_bytes huge1g = 1024 * 1024 * 1024

unfoldable pub offset_bits : LeafSize → ℕ
offset_bits page4k = 12
offset_bits huge2m = 21
offset_bits huge1g = 30

unfoldable pub terminating_level : LeafSize → Level
terminating_level page4k = pt
terminating_level huge2m = pd
terminating_level huge1g = pdpt
