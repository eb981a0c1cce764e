-- ===== src/PageTable/Fields.antt =====
-- The masks and shifts of pagetable.rs as arithmetic on the raw entry and on the address.
use princess_ide.Prelude.{
  ℕ, ◌+◌, ◌-◌, ◌*◌, ◌/◌, ◌%◌, ◌^◌, ◌<◌, ◌≡◌, refl, arith, Bool, ◌==◌, bit_and, if◌then◌else◌,
}
use princess_ide.Bits.{and_field, and_ones, test_bit, test_bits}
use princess_ide.PageTable.Registers.{table_address}
use princess_ide.PageTable.Entry.{Level, pml5, pml4, pdpt, pd, pt, PageTableEntry, decode}
use princess_ide.PageTable.Walk.{table_index}

-- The address field of an entry, bits 51:12, as a multiple of 4096.
abbrev pub frame : ℕ → ℕ
frame raw = raw / 4096 % 2 ^ 40 * 4096

-- The lowest bit of the address that a level's index is taken from.
abbrev pub shift_of : Level → ℕ
shift_of pml5 = 48
shift_of pml4 = 39
shift_of pdpt = 30
shift_of pd = 21
shift_of pt = 12

pub mask_frame : (raw : ℕ) → bit_and raw 0x000F_FFFF_FFFF_F000 ≡ frame raw
mask_frame raw = and_field 12 40 raw

pub decode_address : (raw : ℕ) → (decode raw).address_bits ≡ frame raw
unfolding decode
decode_address raw = mask_frame raw

pub decode_present : (raw : ℕ) → (decode raw).present ≡ (raw % 2 == 1)
unfolding decode
decode_present raw = ground (arith, test_bit 0 raw)

pub decode_page_size : (raw : ℕ) → (decode raw).page_size ≡ (raw / 128 % 2 == 1)
unfolding decode
decode_page_size raw = test_bit 7 raw

pub decode_raw : (raw : ℕ) → (decode raw).raw ≡ raw
unfolding decode
decode_raw raw = refl

pub table_address_frame : (cr3 : ℕ) → table_address cr3 ≡ frame cr3
unfolding table_address
table_address_frame cr3 = mask_frame cr3

pub table_index_lem : (l : Level) (a : ℕ) → table_index l a ≡ a / 2 ^ shift_of l % 512
unfolding table_index
table_index_lem pml5 a = rw (and_ones 9) (omega arith)
table_index_lem pml4 a = rw (and_ones 9) (omega arith)
table_index_lem pdpt a = rw (and_ones 9) (omega arith)
table_index_lem pd a = rw (and_ones 9) (omega arith)
table_index_lem pt a = rw (and_ones 9) (omega arith)

-- The page of a huge leaf, its low `k` bits cleared.
abbrev pub huge_frame : ℕ → ℕ → ℕ
huge_frame raw k = raw / 2 ^ k % 2 ^ (52 - k) * 2 ^ k

pub mask_1g : (raw : ℕ) → bit_and raw 0x000F_FFFF_C000_0000 ≡ huge_frame raw 30
mask_1g raw = and_field 30 22 raw

pub mask_2m : (raw : ℕ) → bit_and raw 0x000F_FFFF_FFE0_0000 ≡ huge_frame raw 21
mask_2m raw = and_field 21 31 raw

abbrev bit : Bool → ℕ
bit b = if b then 1 else 0

-- A decoded entry put back into one word.
abbrev pub encode : PageTableEntry → ℕ
encode e =
    bit e.present
    + bit e.writable * 2 ^ 1
    + bit e.user * 2 ^ 2
    + bit e.pwt * 2 ^ 3
    + bit e.pcd * 2 ^ 4
    + bit e.accessed * 2 ^ 5
    + bit e.dirty * 2 ^ 6
    + bit e.page_size * 2 ^ 7
    + bit e.global * 2 ^ 8
    + e.available * 2 ^ 9
    + e.address_bits
    + e.reserved * 2 ^ 52
    + e.protection_key * 2 ^ 59
    + bit e.no_execute * 2 ^ 63

bit_digit : (d : ℕ) → d < 2 → bit (d == 1) ≡ d
bit_digit d h = ground arith

abbrev digit : ℕ → ℕ → ℕ
digit raw k = raw / 2 ^ k % 2

bit_of_test : (k raw : ℕ) → bit (test_bits raw (2 ^ k)) ≡ digit raw k
bit_of_test k raw = rw test_bit (bit_digit (digit raw k) (omega arith))

-- Decoding a 64-bit entry loses no bit of it: the fields put back together are the raw word.
pub encode-decode : (raw : ℕ) → raw < 2 ^ 64 → encode (decode raw) ≡ raw
unfolding decode
encode-decode raw h = omega (
  arith,
  bit_of_test 0 raw,
  bit_of_test 1 raw,
  bit_of_test 2 raw,
  bit_of_test 3 raw,
  bit_of_test 4 raw,
  bit_of_test 5 raw,
  bit_of_test 6 raw,
  bit_of_test 7 raw,
  bit_of_test 8 raw,
  and_ones 3 (raw / 2 ^ 9),
  mask_frame raw,
  and_ones 7 (raw / 2 ^ 52),
  and_ones 4 (raw / 2 ^ 59),
  bit_of_test 63 raw,
)
