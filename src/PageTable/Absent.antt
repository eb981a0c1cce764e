-- ===== src/PageTable/Absent.antt =====
-- A huge entry that is not present: `walk` tests `PS` before it tests `P`.
use princess_ide.Prelude.{
  ℕ, ◌+◌, ◌%◌, ◌^◌, ◌<◌, ◌≡◌, refl, ◌∙◌, arith, true, false, none, some, List, [], ◌∷◌, ◌++◌, ok,
  contains,
}
use mathlib.Core.Path.{subst}
use princess_ide.Bits.{and_ones}
use princess_ide.GuestMem.{GuestMemory}
use princess_ide.PageTable.Entry.{Level, pdpt, pd, decode, huge_page_size, huge_page_allowed}
use princess_ide.PageTable.Walk.{
  WalkLevel, PageTableWalk, Walker, walk_from, walk_level, visit, huge_leaf, huge_walk,
  physical_address, outside_ram, resolve, expect,
}
use princess_ide.PageTable.Fields.{huge_frame, decode_present, table_index_lem}
use princess_ide.PageTable.Translation.{Translates, huge, next, slot, page_bits, IsPresent, IsHuge}
use princess_ide.PageTable.Answers.{Answers, huge_leaf-Answers, huge_flag, leaf_1g, leaf_2m}
use princess_ide.PageTable.Complete.{judge_huge, page_bits-huge_page_allowed}

not-Translates :
    (guest : GuestMemory) (address : ℕ) (level : Level) (rest : List Level) (table raw p : ℕ)
    → guest.read_u64 (slot level address table) ≡ ok raw
    → ¬ IsPresent raw
    → ¬ Translates guest address (level ∷ rest) table p
not-Translates guest address level rest table raw p r absent (huge k raw' bits r' there h at) =
    absent (ground (arith, r, r'))
not-Translates guest address level rest table raw p r absent (next raw' r' there h t) =
    absent (ground (arith, r, r'))

visit_open :
    (guest : GuestMemory) (address : ℕ) (level : Level) (table raw : ℕ) (visited : List ℕ)
    → guest.ram_size ≡ none
    → contains visited table ≡ false
    → guest.read_u64 (slot level address table) ≡ ok raw
    → visit guest address level table visited ≡ ok (walk_level level address table raw)
unfolding visit outside_ram
visit_open guest address level table raw visited size fresh r =
    ground (arith, table_index_lem level address)

walk_from-huge :
    (w : Walker) (address raw table : ℕ) (level : Level) (rest : List Level) (visited : List ℕ)
    (levels : List WalkLevel)
    → visit w.guest address level table visited ≡ ok (walk_level level address table raw)
    → IsHuge raw
    → huge_page_allowed level ≡ true
    → walk_from w address (level ∷ rest) table visited levels
      ≡ huge_leaf w address level (decode raw) (levels ++ walk_level level address table raw ∷ [])
unfolding walk_from
walk_from-huge w address raw table level rest visited levels v h allowed =
    rw v (judge_huge w address (walk_level level address table raw) _ _ (huge_flag raw h) allowed)

resolve_open :
    (w : Walker) (r : PageTableWalk)
    → w.guest.ram_size ≡ none
    → r.physical_base + r.page_offset < 2 ^ 64
    → resolve w r ≡ ok r
unfolding resolve outside_ram
resolve_open w r size small = ground arith

huge_leaf_open :
    (w : Walker) (address k raw : ℕ) (level : Level) (levels : List WalkLevel)
    → w.guest.ram_size ≡ none
    → page_bits level ≡ some k
    → IsHuge raw
    → (r : PageTableWalk) × (huge_leaf w address level (decode raw) levels ≡ ok r)
      × (r.leaf ≡ decode raw)
unfolding huge_leaf huge_page_size
huge_leaf_open w address k raw pdpt levels size bits h =
    let r = huge_walk w address (2 ^ 30) (huge_frame raw 30) (decode raw) levels in
    (
      r,
      rw (leaf_1g raw h, expect) (resolve_open w r size (omega (arith, and_ones 30 address))),
      refl,
    )
huge_leaf_open w address k raw pd levels size bits h =
    let r = huge_walk w address (2 ^ 21) (huge_frame raw 21) (decode raw) levels in
    (
      r,
      rw (leaf_2m raw h, expect) (resolve_open w r size (omega (arith, and_ones 21 address))),
      refl,
    )
huge_leaf_open w address k raw _ levels size bits h = absurd (ground arith)

-- With no RAM size to check against and a table not visited before, the walk takes a huge entry whose
-- present bit is clear for a page, at the levels that have pages: it succeeds, with a leaf that is not
-- present, at the address that the entry's frame gives, while the manual's translation takes the
-- address nowhere from that table.
pub walk_from_absent_huge :
    (w : Walker) (address k raw table p : ℕ) (level : Level) (rest : List Level) (visited : List ℕ)
    (levels : List WalkLevel)
    → w.guest.ram_size ≡ none
    → contains visited table ≡ false
    → page_bits level ≡ some k
    → w.guest.read_u64 (slot level address table) ≡ ok raw
    → IsHuge raw
    → ¬ IsPresent raw
    → ((r : PageTableWalk) × (walk_from w address (level ∷ rest) table visited levels ≡ ok r)
        × (r.leaf.present ≡ false)
        × (physical_address r ≡ huge_frame raw k + address % 2 ^ k))
      × ¬ Translates w.guest address (level ∷ rest) table p
walk_from_absent_huge w address k raw table p level rest visited levels size fresh bits r h absent =
    (
      (
        leaf.0,
        reach ∙ leaf.1,
        ground (arith, leaf.2, decode_present raw),
        subst (Answers w.guest (huge_frame raw k + address % 2 ^ k)) leaf.1
            (huge_leaf-Answers w address k raw _ level (levels ++ step ∷ []) bits h refl),
      ),
      not-Translates w.guest address level rest table raw p r absent,
    )
  where
    step : WalkLevel
    step = walk_level level address table raw

    reach :
        walk_from w address (level ∷ rest) table visited levels
        ≡ huge_leaf w address level (decode raw) (levels ++ step ∷ [])
    reach =
        walk_from-huge w address raw table level rest visited levels
          (visit_open w.guest address level table raw visited size fresh r) h
          (page_bits-huge_page_allowed level k bits)

    leaf :
        (r : PageTableWalk) × (huge_leaf w address level (decode raw) (levels ++ step ∷ []) ≡ ok r)
        × (r.leaf ≡ decode raw)
    leaf = huge_leaf_open w address k raw level (levels ++ step ∷ []) size bits h
