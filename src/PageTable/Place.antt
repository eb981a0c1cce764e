-- ===== src/PageTable/Place.antt =====
-- The ranges that a result reports: the page around the address and the page around its image.
use princess_ide.Prelude.{
  ℕ, ◌+◌, ◌-◌, ◌%◌, ◌^◌, ◌<◌, ◌≤◌, ◌≡◌, refl, ◌∙◌, sym, ap, arith, some, List, [], ◌∷◌, ◌++◌, ok,
  inl, inr, ◌⊎◌, bit_and,
}
use princess_ide.Bits.{and_field, bit_not}
use princess_ide.PageTable.Entry.{
  Level, pdpt, pd, table_physical_address, LeafSize, page4k, huge2m, huge1g, leaf_bytes,
}
use princess_ide.PageTable.Registers.{la57, table_address}
use princess_ide.PageTable.Walk.{
  WalkLevel, PageTableWalk, Walker, walk_from, walk, levels_to_visit, physical_address,
  physical_range, virtual_range,
}
use princess_ide.PageTable.Fields.{huge_frame, table_address_frame}
use princess_ide.PageTable.Path.{visit-IsStep, walk_path}
use princess_ide.PageTable.Rounds.{judge-eq-ok, walk_from-eq-ok, walk-eq-ok}
use princess_ide.PageTable.Translation.{
  InPage, LeadsTo, LeadsTo-append, small_leaf-InPage, huge_leaf-InPage, step_frame_aligned,
  page_bits,
}

-- Some page of one of the three sizes, its base aligned to its size.
record Lands (address : ℕ) (r : PageTableWalk) : Type 0 where
  pub k : ℕ
  pub base : ℕ
  pub of_size : (k ≡ 12) ⊎ (k ≡ 21) ⊎ (k ≡ 30)
  pub in_page : InPage address k base r

page_bits_sizes : (l : Level) (k : ℕ) → page_bits l ≡ some k → (k ≡ 12) ⊎ (k ≡ 21) ⊎ (k ≡ 30)
page_bits_sizes pdpt k h = inr (inr (cc))
page_bits_sizes pd k h = inr (inl (cc))
page_bits_sizes _ k h = absurd (ground arith)

walk_from-Lands :
    (w : Walker) (address : ℕ) (rest : List Level) (table : ℕ) (visited : List ℕ)
    (levels : List WalkLevel) (r : PageTableWalk)
    → LeadsTo levels table
    → table % 4096 ≡ 0
    → walk_from w address rest table visited levels ≡ ok r
    → Lands address r
walk_from-Lands w address [] table visited levels r leads aligned h = record {
  k = 12;
  base = table;
  of_size = inl refl;
  in_page = small_leaf-InPage w address table levels r leads aligned (unfold walk_from in h);
}
walk_from-Lands w address (level ∷ rest) table visited levels r leads aligned h =
    let (step, v, j) = walk_from-eq-ok w address level rest table visited levels r h in
    let (good, fresh) = visit-IsStep w.guest address level table visited step v in
    elim (judge-eq-ok w address step (levels ++ step ∷ []) _ r j) [
      | inl (ps, leaf) ↦
          let (k, bits, place, same) =
            huge_leaf-InPage w address step.level step.entry (levels ++ step ∷ []) r leaf in
          record {
            k = k;
            base = huge_frame step.entry.raw k;
            of_size = page_bits_sizes step.level k bits;
            in_page = place;
          }
      | inr (ps, there, onward) ↦
          walk_from-Lands w address rest (table_physical_address step.entry) (visited ++ table ∷ [])
            (levels ++ step ∷ []) r (LeadsTo-append levels step) (step_frame_aligned step good)
            onward
    ]

-- `address & !(size - 1)` rounds down to a multiple of the size.
round_down :
    (size : LeafSize) (a : ℕ)
    → a < 2 ^ 64
    → bit_and a (bit_not (leaf_bytes size - 1)) ≡ a - a % leaf_bytes size
unfolding leaf_bytes
round_down page4k a h = omega (arith, and_field 12 52 a)
round_down huge2m a h = omega (arith, and_field 21 43 a)
round_down huge1g a h = omega (arith, and_field 30 34 a)

leaf_bytes_pos : (size : LeafSize) → 0 < leaf_bytes size
unfolding leaf_bytes
leaf_bytes_pos page4k = omega arith
leaf_bytes_pos huge2m = omega arith
leaf_bytes_pos huge1g = omega arith

-- The page around an address, and its end modulo 2 ^ 64.
page_end :
    (size : LeafSize) (a : ℕ)
    → a < 2 ^ 64
    → (a < (a - a % leaf_bytes size + leaf_bytes size) % 2 ^ 64)
      ⊎ (((a - a % leaf_bytes size + leaf_bytes size) % 2 ^ 64 ≡ 0)
          × (2 ^ 64 ≤ a + leaf_bytes size))
unfolding leaf_bytes
page_end page4k a h = ground arith
page_end huge2m a h = ground arith
page_end huge1g a h = ground arith

ranges :
    (address : ℕ) (r : PageTableWalk)
    → address < 2 ^ 64
    → r.address ≡ address
    → Lands address r
    → ((virtual_range r).0 ≤ address)
      × ((address < (virtual_range r).1)
          ⊎ (((virtual_range r).1 ≡ 0)
              × (2 ^ 64 ≤ address + ((physical_range r).1 - (physical_range r).0))))
      × ((virtual_range r).1
          ≡ ((virtual_range r).0 + ((physical_range r).1 - (physical_range r).0)) % 2 ^ 64)
      × (physical_address r ≡ (physical_range r).0 + (address - (virtual_range r).0))
      × (physical_address r < (physical_range r).1)
unfolding virtual_range physical_range
ranges address r small at lands =
    let v : bit_and r.address (bit_not (leaf_bytes r.leaf_size - 1))
        ≡ address - address % leaf_bytes r.leaf_size =
      ap (λ t. bit_and t (bit_not (leaf_bytes r.leaf_size - 1))) at
      ∙ round_down r.leaf_size address small in
    let p : physical_address r ≡ lands.base + address % leaf_bytes r.leaf_size =
      lands.in_page.sum ∙ ap (λ t. lands.base + address % t) (sym lands.in_page.size) in
    ground (
      arith,
      v,
      p,
      page_end r.leaf_size address small,
      lands.in_page.at_base,
      leaf_bytes_pos r.leaf_size,
    )

-- A walk of a 64-bit address that succeeds reports two ranges of one length, modulo 2 ^ 64: the
-- address lies at or above the start of the virtual one and below its end, but in the last page of the
-- address space, whose end wraps to 0; its image lies in the physical one, at the same distance from
-- the start.
pub walk_ranges :
    (w : Walker) (cr3 address : ℕ) (r : PageTableWalk)
    → address < 2 ^ 64
    → walk w cr3 address ≡ ok r
    → ((virtual_range r).0 ≤ address)
      × ((address < (virtual_range r).1)
          ⊎ (((virtual_range r).1 ≡ 0)
              × (2 ^ 64 ≤ address + ((physical_range r).1 - (physical_range r).0))))
      × ((virtual_range r).1
          ≡ ((virtual_range r).0 + ((physical_range r).1 - (physical_range r).0)) % 2 ^ 64)
      × (physical_address r ≡ (physical_range r).0 + (address - (virtual_range r).0))
      × (physical_address r < (physical_range r).1)
walk_ranges w cr3 address r small h = ranges address r small (walk_path w cr3 address r h).0 (
    walk_from-Lands w address (levels_to_visit (la57 w.cr4)) (table_address cr3) [] [] r (λ e q. cc)
      (omega (arith, table_address_frame cr3)) (walk-eq-ok w cr3 address r h))
