-- ===== src/PageTable/Pat.antt =====
-- crates/princess-bin/src/pagetable.rs: bit 7 of a `PTE`, which selects a memory type, not a page
-- size. `Walker::walk` refuses such an entry as reserved.
use mathlib.Core.Path.{subst}
use princess_ide.Prelude.{
  ℕ, ◌+◌, ◌/◌, ◌%◌, ◌≡◌, refl, sym, ap, ◌∙◌, arith, false, List, [], ◌∷◌, ◌++◌, ok, err, contains,
}
use princess_ide.GuestMem.{GuestMemory}
use princess_ide.PageTable.Entry.{Level, pt, huge_page_allowed}
use princess_ide.PageTable.Canonical.{canonical, canonicality}
use princess_ide.PageTable.Registers.{la57, table_address}
use princess_ide.PageTable.Walk.{
  WalkLevel, Walker, walk_from, walk, walk_level, visit, reserved_page_size_bit, outside_ram,
  levels_to_visit, canonical_bits,
}
use princess_ide.PageTable.Fields.{
  frame, decode_raw, decode_present, decode_page_size, table_index_lem, table_address_frame,
}
use princess_ide.PageTable.Translation.{Translates, page, next, slot, IsPresent, IsHuge, PointsOn}
use princess_ide.PageTable.Answers.{huge_flag}
use princess_ide.PageTable.Sound.{IsStep-slot}
use princess_ide.PageTable.Arrival.{Descends, arrived, down}
use princess_ide.PageTable.Complete.{judge_reserved, judge_next, next_table, walk_canonical}
use princess_ide.PageTable.Reserved.{PtLast, levels_to_visit-PtLast}

visit_inside :
    (guest : GuestMemory) (address : ℕ) (level : Level) (table raw : ℕ) (visited : List ℕ)
    → outside_ram guest table ≡ false
    → contains visited table ≡ false
    → guest.read_u64 (slot level address table) ≡ ok raw
    → visit guest address level table visited ≡ ok (walk_level level address table raw)
unfolding visit
visit_inside guest address level table raw visited inside fresh r =
    ground (arith, table_index_lem level address)

-- The round at the last level.
walk_from_refused :
    (w : Walker) (address raw table : ℕ) (rest : List Level) (visited : List ℕ)
    (levels : List WalkLevel)
    → outside_ram w.guest table ≡ false
    → contains visited table ≡ false
    → w.guest.read_u64 (slot pt address table) ≡ ok raw
    → IsHuge raw
    → walk_from w address (pt ∷ rest) table visited levels ≡ err (reserved_page_size_bit pt raw)
unfolding walk_from huge_page_allowed
walk_from_refused w address raw table rest visited levels inside fresh r pat =
    rw (visit_inside w.guest address pt table raw visited inside fresh r) (
      judge_reserved w address (walk_level pt address table raw) _ _ (huge_flag raw pat) refl
      ∙ ap (λ x. err (reserved_page_size_bit pt x)) (decode_raw raw))

-- A round above it goes on to the table that the entry names.
walk_from_on :
    (w : Walker) (address raw table : ℕ) (level : Level) (rest : List Level) (visited : List ℕ)
    (levels : List WalkLevel)
    → outside_ram w.guest table ≡ false
    → contains visited table ≡ false
    → w.guest.read_u64 (slot level address table) ≡ ok raw
    → IsPresent raw
    → raw / 128 % 2 ≡ 0
    → walk_from w address (level ∷ rest) table visited levels
      ≡ walk_from w address rest
          (frame raw)
          (visited ++ table ∷ [])
          (levels ++ walk_level level address table raw ∷ [])
unfolding walk_from
walk_from_on w address raw table level rest visited levels inside fresh r there plain =
    let s = walk_level level address table raw in
    rw (visit_inside w.guest address level table raw visited inside fresh r) (
      judge_next w address s (levels ++ s ∷ []) _ (ground (arith, decode_page_size raw))
        (ground (arith, decode_present raw))
      ∙ ap (λ t. walk_from w address rest t (visited ++ table ∷ []) (levels ++ s ∷ []))
          (next_table raw))

Descends-refused :
    (w : Walker) (address raw : ℕ) (rest : List Level) (table : ℕ) (visited : List ℕ)
    (above levels : List WalkLevel) (at : ℕ)
    → Descends w.guest address rest table visited above pt at
    → outside_ram w.guest at ≡ false
    → w.guest.read_u64 (slot pt address at) ≡ ok raw
    → IsHuge raw
    → walk_from w address rest table visited levels ≡ err (reserved_page_size_bit pt raw)
Descends-refused w address raw [] table visited above levels at path inside r pat = elim path [ ]
Descends-refused w address raw (l ∷ rest) table visited [] levels at (arrived fresh) inside r pat =
    walk_from_refused w address raw table rest visited levels inside fresh r pat
Descends-refused w address raw (l ∷ rest) table visited (s ∷ above) levels at
      (down s' good fresh there plain path) inside r pat =
    walk_from_on w address s.entry.raw table l rest visited levels good.inside fresh
      (IsStep-slot s good) there plain
    ∙ Descends-refused w address raw rest (frame s.entry.raw) (visited ++ table ∷ []) above
        (levels ++ walk_level l address table s.entry.raw ∷ []) at path inside r pat

PointsOn-plain : (l : Level) (raw : ℕ) → raw / 128 % 2 ≡ 0 → PointsOn l raw
PointsOn-plain pt raw h = tt
PointsOn-plain _ raw h = λ e. omega arith

Descends-Translates :
    (guest : GuestMemory) (address raw : ℕ) (rest : List Level) (table : ℕ) (visited : List ℕ)
    (above : List WalkLevel) (at : ℕ)
    → PtLast rest
    → Descends guest address rest table visited above pt at
    → guest.read_u64 (slot pt address at) ≡ ok raw
    → IsPresent raw
    → Translates guest address rest table (frame raw + address % 4096)
Descends-Translates guest address raw [] table visited above at end path r there = elim path [ ]
Descends-Translates guest address raw (l ∷ rest) table visited [] at (end, ends_pt) (arrived fresh)
      r there =
    next raw r there tt (
      subst (λ k. Translates guest address k (frame raw) (frame raw + address % 4096))
        (sym (end refl)) (page refl))
Descends-Translates guest address raw (l ∷ rest) table visited (s ∷ above) at (end, ends_pt)
      (down s' good fresh here plain path) r there =
    next s.entry.raw (IsStep-slot s good) here (PointsOn-plain l s.entry.raw plain) (
      Descends-Translates guest address raw rest (frame s.entry.raw) (visited ++ table ∷ []) above
        at ends_pt path r there)

-- Where the entries of a canonical address lead from `CR3` down to a page table in RAM, whose entry is
-- present and has bit 7 set, the walk refuses that entry as reserved, whereas the manual's translation
-- takes the address into the page of the entry's frame.
pub walk-pat :
    (w : Walker) (cr3 address raw at : ℕ) (above : List WalkLevel)
    → canonicality address (canonical_bits (la57 w.cr4)) ≡ canonical
    → Descends w.guest address (levels_to_visit (la57 w.cr4)) (frame cr3) [] above pt at
    → outside_ram w.guest at ≡ false
    → w.guest.read_u64 (slot pt address at) ≡ ok raw
    → IsPresent raw
    → IsHuge raw
    → (walk w cr3 address ≡ err (reserved_page_size_bit pt raw))
      × Translates w.guest address
          (levels_to_visit (la57 w.cr4))
          (frame cr3)
          (frame raw + address % 4096)
walk-pat w cr3 address raw at above c path inside r there pat = (
  walk_canonical w cr3 address c
      ∙ Descends-refused w address raw (levels_to_visit (la57 w.cr4)) (table_address cr3) [] above
          [] at
          (subst (λ t. Descends w.guest address (levels_to_visit (la57 w.cr4)) t [] above pt at)
            (sym (table_address_frame cr3)) path)
          inside r pat,
  Descends-Translates w.guest address raw (levels_to_visit (la57 w.cr4)) (frame cr3) [] above at
      (levels_to_visit-PtLast (la57 w.cr4)) path r there,
)
