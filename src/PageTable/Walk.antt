-- ===== src/PageTable/Walk.antt =====
-- crates/princess-bin/src/pagetable.rs: `WalkLevel`, `WalkError`, `PageTableWalk`, `Walker::new` and
-- `Walker::walk`. The walk reads through the trait `GuestMemory`; its loop over the levels is a
-- recursion on the levels that are left. `unwrapped_none` is a panic of `expect`.
use princess_ide.Prelude.{
  ℕ, ◌+◌, ◌-◌, ◌*◌, ◌%◌, ◌^◌, bit_and, bit_or, Bool, true, false, not, ◌&&◌, ◌||◌, Option, none,
  some, List, [], ◌∷◌, ◌++◌, leb, contains, if◌then◌else◌, Result, ok, err, ◌>>=◌, map_err, ◌==◌,
}
use princess_ide.Bits.{◌<<◌, ◌>>◌, bit_not}
use princess_ide.GuestMem.{GuestMemory, MemoryError}
use princess_ide.PageTable.Registers.{Cr0, Cr3, Cr4, Efer, paging_enabled, lma, la57, table_address}
use princess_ide.PageTable.Entry.{
  Level, pml5, pml4, pdpt, pd, pt, index_bits, huge_page_allowed, huge_page_size, PageTableEntry,
  decode, table_physical_address, leaf_physical_address, LeafSize, page4k, huge2m, huge1g,
  leaf_bytes,
}
use princess_ide.PageTable.Canonical.{canonical, non_canonical, canonicality}

pub record WalkLevel : Type 0 where
  pub level : Level
  pub index : ℕ
  pub table_address : ℕ
  pub entry_address : ℕ
  pub entry : PageTableEntry

unfoldable pub bits_consumed : WalkLevel → ℕ
bits_consumed step = (index_bits step.level).0 + 1 - 12

pub data WalkError : Type 0 where
  paging_disabled : (cr0 : ℕ) → WalkError
  not_long_mode : (efer : ℕ) → WalkError
  non_canonical_address : (address bits : ℕ) → WalkError
  table_not_in_ram : (level : Level) (address : ℕ) → WalkError
  memory : (level : Level) (source : MemoryError) → WalkError
  not_present : (level : Level) (index raw : ℕ) → WalkError
  cycle : (address : ℕ) (level : Level) → WalkError
  reserved_page_size_bit : (level : Level) (raw : ℕ) → WalkError
  leaf_out_of_range : (address : ℕ) → WalkError
  unwrapped_none : WalkError

pub record PageTableWalk : Type 0 where
  pub address : ℕ
  pub levels : List WalkLevel
  pub leaf_size : LeafSize
  pub physical_base : ℕ
  pub page_offset : ℕ
  pub leaf : PageTableEntry
  pub in_la57 : Bool

-- `levels.iter().all(..)` and `.any(..)`.
abbrev pub every : (WalkLevel → Bool) → List WalkLevel → Bool
every p [] = true
every p (x ∷ xs) = p x && every p xs

abbrev pub any : (WalkLevel → Bool) → List WalkLevel → Bool
any p [] = false
any p (x ∷ xs) = p x || any p xs

unfoldable pub effective_user : PageTableWalk → Bool
effective_user walk = every (λ step. step.entry.user) walk.levels

unfoldable pub effective_writable : PageTableWalk → Bool
effective_writable walk = every (λ step. step.entry.writable) walk.levels

unfoldable pub effective_no_execute : PageTableWalk → Bool
effective_no_execute walk = any (λ step. step.entry.no_execute) walk.levels

unfoldable pub physical_address : PageTableWalk → ℕ
physical_address walk = bit_or walk.physical_base walk.page_offset

-- A frame is below 2 ^ 52, so the sum does not overflow for a walk's result.
unfoldable pub physical_range : PageTableWalk → ℕ × ℕ
unfolding leaf_bytes
physical_range walk = (walk.physical_base, walk.physical_base + leaf_bytes walk.leaf_size)

-- The end wraps at 64 bits, as in a release build.
unfoldable pub virtual_range : PageTableWalk → ℕ × ℕ
unfolding leaf_bytes
virtual_range walk =
    let base = bit_and walk.address (bit_not (leaf_bytes walk.leaf_size - 1)) in
    (base, (base + leaf_bytes walk.leaf_size) % 2 ^ 64)

unfoldable pub writable : PageTableWalk → Bool
unfolding effective_writable
writable walk = effective_writable walk

unfoldable pub executable : PageTableWalk → Bool
unfolding effective_no_execute
executable walk = not (effective_no_execute walk)

pub record Walker : Type 0 where
  pub guest : GuestMemory
  pub cr0 : Cr0
  pub cr4 : Cr4
  pub efer : Efer

unfoldable pub new_walker : GuestMemory → Cr0 → Cr4 → Efer → Result WalkError Walker
new_walker guest cr0 cr4 efer =
    if not (paging_enabled cr0)
    then err (paging_disabled cr0)
    else if not (lma efer)
    then err (not_long_mode efer)
    else ok (record { guest = guest; cr0 = cr0; cr4 = cr4; efer = efer })

-- `levels_to_visit`.
abbrev pub levels_to_visit : Bool → List Level
levels_to_visit true = pml5 ∷ pml4 ∷ pdpt ∷ pd ∷ pt ∷ []
levels_to_visit false = pml4 ∷ pdpt ∷ pd ∷ pt ∷ []

abbrev pub is_some : Option ℕ → Bool
is_some none = false
is_some (some _) = true

-- `ram_size().is_some() && !is_ram(address)`.
unfoldable pub outside_ram : GuestMemory → ℕ → Bool
outside_ram guest address = is_some guest.ram_size && not (guest.is_ram address)

unfoldable pub table_index : Level → ℕ → ℕ
unfolding index_bits
table_index level address =
    let (high, low) = index_bits level in
    bit_and (address >> low) ((1 << (high - low + 1)) - 1) % 65536

abbrev pub walk_level : Level → ℕ → ℕ → ℕ → WalkLevel
walk_level level address table raw = record {
  level = level;
  index = table_index level address;
  table_address = table;
  entry_address = table + table_index level address * 8;
  entry = decode raw;
}

-- The head of the loop's body, the same in `walk` and `partial_path`: the guards on the table,
-- and its entry for the address.
unfoldable pub visit : GuestMemory → ℕ → Level → ℕ → List ℕ → Result WalkError WalkLevel
visit guest address level table visited =
    if outside_ram guest table
    then err (table_not_in_ram level table)
    else if contains visited table
    then err (cycle table level)
    else (do
      raw ← map_err (memory level) (guest.read_u64 (table + table_index level address * 8))
      ok (walk_level level address table raw))

-- The end of both ways to a leaf: `checked_add`, the test that the page is RAM, the result.
unfoldable pub resolve : Walker → PageTableWalk → Result WalkError PageTableWalk
resolve w walk =
    let physical = walk.physical_base + walk.page_offset in
    if leb (2 ^ 64) physical
    then err (leaf_out_of_range walk.physical_base)
    else if outside_ram w.guest physical
    then err (leaf_out_of_range physical)
    else ok walk

abbrev pub expect : {A : Type 0} → Option A → Result WalkError A
expect none = err unwrapped_none
expect (some a) = ok a

abbrev pub huge_leaf_size : ℕ → LeafSize
huge_leaf_size size = if size == 1024 * 1024 * 1024 then huge1g else huge2m

-- The two `PageTableWalk`s that a walk can build.
abbrev pub huge_walk : Walker → ℕ → ℕ → ℕ → PageTableEntry → List WalkLevel → PageTableWalk
huge_walk w address size base entry levels = record {
  address = address;
  levels = levels;
  leaf_size = huge_leaf_size size;
  physical_base = base;
  page_offset = bit_and address (size - 1);
  leaf = entry;
  in_la57 = la57 w.cr4;
}

abbrev pub small_walk : Walker → ℕ → PageTableEntry → List WalkLevel → PageTableWalk
small_walk w address leaf levels = record {
  address = address;
  levels = levels;
  leaf_size = page4k;
  physical_base = table_physical_address leaf;
  page_offset = bit_and address 0xFFF;
  leaf = leaf;
  in_la57 = la57 w.cr4;
}

-- `PS` is set at a level that may carry it.
unfoldable pub huge_leaf :
    Walker → ℕ → Level → PageTableEntry → List WalkLevel → Result WalkError PageTableWalk
unfolding resolve
huge_leaf w address level entry levels = do
  size ← expect (huge_page_size level)
  base ← expect (leaf_physical_address entry level)
  resolve w (huge_walk w address size base entry levels)

abbrev pub last_entry : List WalkLevel → Option PageTableEntry
last_entry [] = none
last_entry (x ∷ []) = some x.entry
last_entry (x ∷ y ∷ rest) = last_entry (y ∷ rest)

-- The loop is over: the last entry is the `PTE`.
unfoldable pub small_leaf : Walker → ℕ → List WalkLevel → Result WalkError PageTableWalk
unfolding resolve
small_leaf w address levels = do
  leaf ← expect (last_entry levels)
  resolve w (small_walk w address leaf levels)

-- The rest of the loop's body, on the entry that was read; `onward` is the next round.
unfoldable pub judge :
    Walker
    → ℕ
    → WalkLevel
    → List WalkLevel
    → Result WalkError PageTableWalk
    → Result WalkError PageTableWalk
judge w address step levels onward =
    if step.entry.page_size && not (huge_page_allowed step.level)
    then err (reserved_page_size_bit step.level step.entry.raw)
    else if step.entry.page_size
    then huge_leaf w address step.level step.entry levels
    else if not step.entry.present
    then err (not_present step.level step.index step.entry.raw)
    else onward

-- The loop of `walk`: the levels left, the current table, `visited` and `levels`.
unfoldable pub walk_from :
    Walker → ℕ → List Level → ℕ → List ℕ → List WalkLevel → Result WalkError PageTableWalk
walk_from w address [] table visited levels = small_leaf w address levels
walk_from w address (level ∷ rest) table visited levels = do
  step ← visit w.guest address level table visited
  let levels' = levels ++ step ∷ []
  judge w address step levels'
      (walk_from w address rest (table_physical_address step.entry) (visited ++ table ∷ []) levels')

abbrev pub canonical_bits : Bool → ℕ
canonical_bits wide = if wide then 57 else 48

unfoldable pub walk : Walker → Cr3 → ℕ → Result WalkError PageTableWalk
walk w cr3 address = elim (canonicality address (canonical_bits (la57 w.cr4))) [
  | non_canonical ↦ err (non_canonical_address address (canonical_bits (la57 w.cr4)))
  | canonical ↦ walk_from w address (levels_to_visit (la57 w.cr4)) (table_address cr3) [] []
]
