-- ===== src/PageTable/Translation.antt =====
-- The translation that the x86_64 manual describes for 4-level and 5-level paging, with no test of
-- reserved bits or access rights, as arithmetic on raw entries; and the place that a leaf gives an address.
use princess_ide.Prelude.{
  ℕ, ◌+◌, ◌*◌, ◌/◌, ◌%◌, ◌^◌, ◌<◌, ◌≡◌, refl, ◌∙◌, arith, none, some, Option, List, [], ◌∷◌, ◌++◌,
  ok, inl, inr, Option-cases, bit_or,
}
use mathlib.Core.Path.{ap₂}
use princess_ide.Bits.{or_aligned, and_ones}
use princess_ide.GuestMem.{GuestMemory}
use princess_ide.PageTable.Entry.{
  Level, pdpt, pd, pt, table_physical_address, PageTableEntry, leaf_bytes, huge_page_size,
  leaf_physical_address,
}
use princess_ide.PageTable.Walk.{
  WalkLevel, PageTableWalk, Walker, small_leaf, huge_leaf, last_entry, physical_address,
}
use princess_ide.PageTable.Fields.{shift_of, frame, huge_frame, mask_1g, mask_2m}
use princess_ide.PageTable.Path.{IsStep, step_frame}

-- Where the entry for an address stands in a table.
abbrev pub slot : Level → ℕ → ℕ → ℕ
slot l address table = table + address / 2 ^ shift_of l % 512 * 8

abbrev pub IsPresent : ℕ → Type 0
IsPresent raw = raw % 2 ≡ 1

abbrev pub IsHuge : ℕ → Type 0
IsHuge raw = raw / 128 % 2 ≡ 1

-- The levels whose entry may map a page of `2 ^ k` bytes itself.
abbrev pub page_bits : Level → Option ℕ
page_bits pdpt = some 30
page_bits pd = some 21
page_bits _ = none

-- Bit 7 ends the walk in every table but the last, where it selects a memory type (`PAT`).
abbrev pub PointsOn : Level → ℕ → Type 0
PointsOn pt raw = Unit {0}
PointsOn _ raw = ¬ IsHuge raw

-- With the levels that are left, the table (or, with none left, the page) at `table` takes the
-- address to the physical address `p`.
pub data Translates (guest : GuestMemory) (address : ℕ) : List Level → ℕ → ℕ → Type 0 where
  page : {table p : ℕ} → p ≡ table + address % 4096 → Translates guest address [] table p
  huge :
      {l : Level} {rest : List Level} {table p : ℕ} (k raw : ℕ)
      → page_bits l ≡ some k
      → guest.read_u64 (slot l address table) ≡ ok raw
      → IsPresent raw
      → IsHuge raw
      → p ≡ huge_frame raw k + address % 2 ^ k
      → Translates guest address (l ∷ rest) table p
  next :
      {l : Level} {rest : List Level} {table p : ℕ} (raw : ℕ)
      → guest.read_u64 (slot l address table) ≡ ok raw
      → IsPresent raw
      → PointsOn l raw
      → Translates guest address rest (frame raw) p
      → Translates guest address (l ∷ rest) table p

pub last_entry-append :
    (xs : List WalkLevel) (s : WalkLevel) → last_entry (xs ++ s ∷ []) ≡ some s.entry
last_entry-append [] s = refl
last_entry-append (x ∷ []) s = refl
last_entry-append (x ∷ y ∷ xs) s = last_entry-append (y ∷ xs) s

-- The last recorded entry names the table that the walk is at.
abbrev pub LeadsTo : List WalkLevel → ℕ → Type 0
LeadsTo levels table = (e : PageTableEntry) → last_entry levels ≡ some e → e.address_bits ≡ table

-- How a result places the address in its page: base, offset and size fit together, and the
-- physical address that `|` makes of the first two is their sum.
pub record InPage (address k base : ℕ) (r : PageTableWalk) : Type 0 where
  pub size : leaf_bytes r.leaf_size ≡ 2 ^ k
  pub offset : r.page_offset ≡ address % 2 ^ k
  pub at_base : r.physical_base ≡ base
  pub sum : physical_address r ≡ base + address % 2 ^ k

pub or_offset :
    (k base address : ℕ) (r : PageTableWalk)
    → base % 2 ^ k ≡ 0
    → r.physical_base ≡ base
    → r.page_offset ≡ address % 2 ^ k
    → address % 2 ^ k < 2 ^ k
    → physical_address r ≡ base + address % 2 ^ k
unfolding physical_address
or_offset k base address r aligned b o fits =
    ap₂ bit_or b o ∙ or_aligned k base (address % 2 ^ k) aligned fits

pub small_leaf-InPage :
    (w : Walker) (address table : ℕ) (levels : List WalkLevel) (r : PageTableWalk)
    → LeadsTo levels table
    → table % 4096 ≡ 0
    → small_leaf w address levels ≡ ok r
    → InPage address 12 table r
unfolding small_leaf table_physical_address leaf_bytes
small_leaf-InPage w address table levels r leads aligned h =
    elim (Option-cases (last_entry levels)) [
      | inl nothing ↦ absurd (ground arith)
      | inr (e, last) ↦
          let b : r.physical_base ≡ table = ground (arith, leads e last) in
          let o : r.page_offset ≡ address % 4096 = ground (arith, and_ones 12 address) in
          record {
            size = ground arith;
            offset = o;
            at_base = b;
            sum = or_offset 12 table address r aligned b o (omega arith);
          }
    ]

pub huge_leaf-InPage :
    (w : Walker) (address : ℕ) (level : Level) (entry : PageTableEntry) (levels : List WalkLevel)
    (r : PageTableWalk)
    → huge_leaf w address level entry levels ≡ ok r
    → (k : ℕ) × (page_bits level ≡ some k)
      × InPage address k (huge_frame entry.raw k) r
      × (r.leaf ≡ entry)
unfolding huge_leaf huge_page_size leaf_physical_address leaf_bytes
huge_leaf-InPage w address pdpt entry levels r h =
    let b : r.physical_base ≡ huge_frame entry.raw 30 = ground (arith, mask_1g entry.raw) in
    let o : r.page_offset ≡ address % 2 ^ 30 = ground (arith, and_ones 30 address) in
    (
      30,
      refl,
      record {
        size = ground arith;
        offset = o;
        at_base = b;
        sum = or_offset 30 (huge_frame entry.raw 30) address r (omega arith) b o (omega arith);
      },
      ground arith,
    )
huge_leaf-InPage w address pd entry levels r h =
    let b : r.physical_base ≡ huge_frame entry.raw 21 = ground (arith, mask_2m entry.raw) in
    let o : r.page_offset ≡ address % 2 ^ 21 = ground (arith, and_ones 21 address) in
    (
      21,
      refl,
      record {
        size = ground arith;
        offset = o;
        at_base = b;
        sum = or_offset 21 (huge_frame entry.raw 21) address r (omega arith) b o (omega arith);
      },
      ground arith,
    )
huge_leaf-InPage w address _ entry levels r h = absurd (ground arith)

pub LeadsTo-append :
    (levels : List WalkLevel) (step : WalkLevel)
    → LeadsTo (levels ++ step ∷ []) (table_physical_address step.entry)
unfolding table_physical_address
LeadsTo-append levels step e h = cc (last_entry-append levels step)

pub step_frame_aligned :
    {guest : GuestMemory} {address : ℕ} {level : Level} {table : ℕ} (s : WalkLevel)
    → IsStep guest address level table s
    → table_physical_address s.entry % 4096 ≡ 0
step_frame_aligned s good = omega (arith, step_frame good)
