-- ===== src/PageTable/Tests.antt =====
-- Runs of the page-table walk on a small guest: four tables, a page of 4 KiB, a page of 2 MiB, a
-- hole, and a huge entry that is not present.
use princess_ide.Prelude.{
  List, ◌*◌, ◌/◌, ◌⊎◌, ◌^◌, ℕ, ◌+◌, ◌-◌, ◌%◌, ◌<◌, ◌≤◌, ◌≡◌, refl, arith, false, none, some, [],
  ◌∷◌, map, ltb, ◌==◌, if◌then◌else◌, ok, err,
}
use princess_ide.GuestMem.{GuestMemory, not_in_ram}
use princess_ide.PageTable.Registers.{la57, table_address}
use princess_ide.PageTable.Entry.{
  pml4, pdpt, pd, pt, decode, index_bits, huge_page_allowed, huge_page_size, leaf_physical_address,
  table_physical_address,
}
use princess_ide.PageTable.Canonical.{canonicality}
use princess_ide.PageTable.Walk.{
  WalkLevel, PageTableWalk, Walker, walk, walk_from, walk_level, small_walk, huge_walk, not_present,
  levels_to_visit, visit, outside_ram, table_index, judge, reserved_page_size_bit, small_leaf,
  huge_leaf, resolve, virtual_range, physical_range, physical_address,
}
use princess_ide.PageTable.Fields.{shift_of, encode, encode-decode, frame, huge_frame}
use princess_ide.PageTable.Path.{AllDistinct, walk_level-IsStep}
use princess_ide.PageTable.Arrival.{Arrives, Descends, arrived, down, walk-Arrives}
use princess_ide.PageTable.Translation.{Translates, page, next}
use princess_ide.PageTable.Reserved.{AllClear, Maps, walk-Maps}
use princess_ide.PageTable.Answers.{Answers}
use princess_ide.PageTable.Complete.{walk_complete}
use princess_ide.PageTable.Explain.{NotPresent, walk_or_explain}
use princess_ide.PageTable.Hole.{walk_or_explain_hole}
use princess_ide.PageTable.Panic.{walk-ne-panic}
use princess_ide.PageTable.Walk.{unwrapped_none}
use princess_ide.PageTable.Place.{walk_ranges}
use princess_ide.PageTable.Absent.{walk_from_absent_huge}
use princess_ide.PageTable.Pat.{walk-pat}

abbrev word : ℕ → ℕ
word a =
    if a == 0x1000
    then 0x2003
    else if a == 0x2000
    then 0x3003
    else if a == 0x3000
    then 0x4003
    else if a == 0x3008
    then 0x200083
    else if a == 0x3010
    then 0x400082
    else if a == 0x4008
    then 0x5003
    else 0

abbrev guest : GuestMemory
guest = record {
  read_u64 = λ a. ok (word a);
  read_bytes = λ a n. err (not_in_ram a);
  ram_size = some 0x1000000;
  is_ram = λ a. ltb a 0x1000000;
}

abbrev four_levels : Walker
four_levels = record { guest = guest; cr0 = 0x80000001; cr4 = 0x20; efer = 0x500 }

abbrev small_page : PageTableWalk
small_page = small_walk four_levels 0x1045 (decode 0x5003) (
    walk_level pml4 0x1045 0x1000 0x2003
    ∷ walk_level pdpt 0x1045 0x2000 0x3003
    ∷ walk_level pd 0x1045 0x3000 0x4003
    ∷ walk_level pt 0x1045 0x4000 0x5003
    ∷ [])

-- The same guest with one more page, whose entry has bit 7 set.
abbrev pat_guest : GuestMemory
pat_guest = record guest { read_u64 = λ a. if a == 0x4018 then ok 0x6083 else ok (word a) }

abbrev pat_walker : Walker
pat_walker = record four_levels { guest = pat_guest }

small_page-walk : walk four_levels 0x1000 0x1045 ≡ ok small_page
unfolding walk walk_from visit outside_ram judge small_leaf resolve la57 canonicality table_address
    decode table_index index_bits table_physical_address
small_page-walk = refl

small_page-AllClear : AllClear small_page.levels
unfolding decode
small_page-AllClear = (
  refl,
  ((refl, λ h. absurd (omega (arith, h))), ((refl, λ h. absurd (omega (arith, h))), (refl, tt))),
)

-- The path of the small page, and its translation.
walk-Arrives_example :
    (small_page.address ≡ 0x1045)
    × Arrives guest 0x1045 (levels_to_visit (la57 0x20)) (frame 0x1000) [] [] small_page
    × AllDistinct (map (λ s. s.table_address) small_page.levels)
walk-Arrives_example = walk-Arrives four_levels 0x1000 0x1045 small_page small_page-walk

walk-Maps_example :
    Maps guest 0x1045 (levels_to_visit (la57 0x20)) (frame 0x1000) (physical_address small_page)
unfolding decode
walk-Maps_example =
    walk-Maps four_levels 0x1000 0x1045 small_page small_page-walk refl small_page-AllClear

small_page_Translates : Translates guest 0x1045 (levels_to_visit (la57 0x20)) (frame 0x1000) 0x5045
unfolding la57
small_page_Translates =
    next 0x2003 refl refl (λ e. omega arith)
      (next 0x3003 refl refl (λ e. omega arith)
        (next 0x4003 refl refl (λ e. omega arith) (next 0x5003 refl refl tt (page refl))))

walk_complete_example : Answers guest 0x5045 (walk four_levels 0x1000 0x1045)
unfolding canonicality la57
walk_complete_example = walk_complete four_levels 0x1000 0x1045 0x5045 refl small_page_Translates

walk_ranges_example :
    ((virtual_range small_page).0 ≤ 0x1045)
    × ((0x1045 < (virtual_range small_page).1)
        ⊎ (((virtual_range small_page).1 ≡ 0)
            × (2 ^ 64 ≤ 0x1045 + ((physical_range small_page).1 - (physical_range small_page).0))))
    × ((virtual_range small_page).1
        ≡ ((virtual_range small_page).0
            + ((physical_range small_page).1 - (physical_range small_page).0))
          % 2 ^ 64)
    × (physical_address small_page
        ≡ (physical_range small_page).0 + (0x1045 - (virtual_range small_page).0))
    × (physical_address small_page < (physical_range small_page).1)
walk_ranges_example = walk_ranges four_levels 0x1000 0x1045 small_page (omega arith) small_page-walk

-- The page at 0x2000 is not mapped.
hole_walk : walk four_levels 0x1000 0x2000 ≡ err (not_present pt 2 0)
unfolding walk walk_from visit outside_ram judge small_leaf resolve la57 canonicality table_address
    decode table_index index_bits table_physical_address
hole_walk = refl

walk_or_explain_hole_example :
    (n : NotPresent) × (walk_or_explain four_levels 0x1000 0x2000 ≡ ok (err n))
    × (n.level ≡ pt)
    × (n.index ≡ 2)
    × (2 ≡ 0x2000 / 2 ^ shift_of pt % 512)
    × (guest.read_u64 n.entry_address ≡ ok 0)
    × (0 % 2 ≡ 0)
    × ((table : ℕ) × Descends guest 0x2000
          (levels_to_visit (la57 0x20))
          (frame 0x1000)
          []
          n.levels
          pt
          table
        × (n.entry_address ≡ table + 2 * 8))
walk_or_explain_hole_example = walk_or_explain_hole four_levels 0x1000 0x2000 pt 2 0 hole_walk

-- A page of 2 MiB, and the offset in it.
huge_page_walk :
    walk four_levels 0x1000 0x234567
    ≡ ok (
        huge_walk four_levels 0x234567 0x200000 0x200000 (decode 0x200083) (
          walk_level pml4 0x234567 0x1000 0x2003
          ∷ walk_level pdpt 0x234567 0x2000 0x3003
          ∷ walk_level pd 0x234567 0x3000 0x200083
          ∷ []))
unfolding walk walk_from visit outside_ram judge huge_leaf resolve la57 canonicality table_address
    decode table_index index_bits table_physical_address huge_page_allowed huge_page_size
    leaf_physical_address
huge_page_walk = refl

encode-decode_example : encode (decode 0x8000000000200083) ≡ 0x8000000000200083
encode-decode_example = encode-decode 0x8000000000200083 (omega arith)

-- The same tables behind a stub that does not know the RAM size.
abbrev sizeless : GuestMemory
sizeless = record guest { ram_size = none; is_ram = λ a. false }

abbrev sizeless_walker : Walker
sizeless_walker = record four_levels { guest = sizeless }

walk_from_absent_huge_example :
    ((r : PageTableWalk) × (walk_from sizeless_walker 0x400123 (pd ∷ pt ∷ []) 0x3000 [] [] ≡ ok r)
      × (r.leaf.present ≡ false)
      × (physical_address r ≡ huge_frame 0x400082 21 + 0x400123 % 2 ^ 21))
    × ¬ Translates sizeless 0x400123 (pd ∷ pt ∷ []) 0x3000 0x400123
walk_from_absent_huge_example =
    walk_from_absent_huge sizeless_walker 0x400123 21 0x400082 0x3000 0x400123 pd (pt ∷ []) [] []
      refl refl refl refl refl (λ e. omega arith)

-- The three tables above the page table at 0x4000.
abbrev pat_path : List WalkLevel
pat_path =
    walk_level pml4 0x3045 0x1000 0x2003
    ∷ walk_level pdpt 0x3045 0x2000 0x3003
    ∷ walk_level pd 0x3045 0x3000 0x4003
    ∷ []

pat_path-Descends :
    Descends pat_guest 0x3045 (levels_to_visit (la57 0x20)) (frame 0x1000) [] pat_path pt 0x4000
unfolding decode outside_ram table_index index_bits la57
pat_path-Descends =
    down _ (walk_level-IsStep pat_guest 0x3045 pml4 0x1000 0x2003 refl refl) refl refl refl (
      down _ (walk_level-IsStep pat_guest 0x3045 pdpt 0x2000 0x3003 refl refl) refl refl refl (
        down _ (walk_level-IsStep pat_guest 0x3045 pd 0x3000 0x4003 refl refl) refl refl refl
          (arrived refl)))

walk-pat_example :
    (walk pat_walker 0x1000 0x3045 ≡ err (reserved_page_size_bit pt 0x6083))
    × Translates pat_guest 0x3045
        (levels_to_visit (la57 0x20))
        (frame 0x1000)
        (frame 0x6083 + 0x3045 % 4096)
unfolding canonicality outside_ram la57
walk-pat_example =
    walk-pat pat_walker 0x1000 0x3045 0x6083 0x4000 pat_path refl pat_path-Descends refl refl refl
      refl

walk-ne-panic_example : ¬ (walk four_levels 0x1000 0x400123 ≡ err unwrapped_none)
walk-ne-panic_example = walk-ne-panic four_levels 0x1000 0x400123
