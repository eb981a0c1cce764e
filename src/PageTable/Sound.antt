-- ===== src/PageTable/Sound.antt =====
-- Soundness of `Walker::walk`: a walk that succeeds gives the translation of the manual, reserved bits
-- aside.
use princess_ide.Prelude.{
  ℕ, ◌/◌, ◌%◌, ◌≡◌, ◌∙◌, sym, ap, arith, true, List, [], ◌∷◌, ◌++◌, ok, inl, inr, ◌==◌, ==_iff,
}
use mathlib.Core.Path.{subst}
use princess_ide.GuestMem.{GuestMemory}
use princess_ide.PageTable.Entry.{Level, pml5, pml4, pdpt, pd, pt, table_physical_address}
use princess_ide.PageTable.Registers.{la57, table_address}
use princess_ide.PageTable.Walk.{
  WalkLevel, PageTableWalk, Walker, walk_from, walk, levels_to_visit, physical_address,
}
use princess_ide.PageTable.Fields.{frame, decode_present, decode_page_size, table_address_frame}
use princess_ide.PageTable.Path.{IsStep, visit-IsStep, step_frame}
use princess_ide.PageTable.Rounds.{judge-eq-ok, walk_from-eq-ok, walk-eq-ok}
use princess_ide.PageTable.Translation.{
  Translates, page, huge, next, slot, IsPresent, IsHuge, PointsOn, page_bits, LeadsTo,
  small_leaf-InPage, huge_leaf-InPage, LeadsTo-append, step_frame_aligned,
}

PointsOn-small : (l : Level) (raw : ℕ) → ¬ IsHuge raw → PointsOn l raw
PointsOn-small pml5 raw h = h
PointsOn-small pml4 raw h = h
PointsOn-small pdpt raw h = h
PointsOn-small pd raw h = h
PointsOn-small pt raw h = tt

-- The decoded flags, as the digits of the raw entry.
pub IsStep-present :
    {guest : GuestMemory} {address : ℕ} {level : Level} {table : ℕ} (s : WalkLevel)
    → IsStep guest address level table s
    → s.entry.present ≡ true
    → IsPresent s.entry.raw
IsStep-present s good h = ground (arith, good.decoded, decode_present s.entry.raw)

pub IsStep-huge :
    {guest : GuestMemory} {address : ℕ} {level : Level} {table : ℕ} (s : WalkLevel)
    → IsStep guest address level table s
    → s.entry.page_size ≡ (s.entry.raw / 128 % 2 == 1)
IsStep-huge s good = ap (λ e. e.page_size) good.decoded ∙ decode_page_size s.entry.raw

pub IsStep-slot :
    {guest : GuestMemory} {address : ℕ} {level : Level} {table : ℕ} (s : WalkLevel)
    → IsStep guest address level table s
    → guest.read_u64 (slot level address table) ≡ ok s.entry.raw
IsStep-slot {guest} s good =
    ap guest.read_u64 (omega (arith, good.at_entry, good.at_index)) ∙ good.was_read

-- What the walk finds is a translation, provided that its leaf is present.
walk_from-Translates :
    (w : Walker) (address : ℕ) (rest : List Level) (table : ℕ) (visited : List ℕ)
    (levels : List WalkLevel) (r : PageTableWalk)
    → LeadsTo levels table
    → table % 4096 ≡ 0
    → walk_from w address rest table visited levels ≡ ok r
    → r.leaf.present ≡ true
    → Translates w.guest address rest table (physical_address r)
walk_from-Translates w address [] table visited levels r leads aligned h present =
    page (small_leaf-InPage w address table levels r leads aligned (unfold walk_from in h)).sum
walk_from-Translates w address (level ∷ rest) table visited levels r leads aligned h present =
    let (step, v, j) = walk_from-eq-ok w address level rest table visited levels r h in
    let (good, fresh) = visit-IsStep w.guest address level table visited step v in
    elim (judge-eq-ok w address step (levels ++ step ∷ []) _ r j) [
      | inl (ps, leaf) ↦
          let (k, bits, place, same) =
            huge_leaf-InPage w address step.level step.entry (levels ++ step ∷ []) r leaf in
          huge k step.entry.raw (ap page_bits (sym good.at_level) ∙ bits) (IsStep-slot step good)
            (IsStep-present step good (ap (λ e. e.present) (sym same) ∙ present))
            ((==_iff _ 1).0 (sym (IsStep-huge step good) ∙ ps)) place.sum
      | inr (ps, there, onward) ↦
          next step.entry.raw (IsStep-slot step good) (IsStep-present step good there)
            (PointsOn-small level step.entry.raw
              (λ e. cc (ps, IsStep-huge step good, (==_iff _ 1).1 e)))
            (subst (λ t. Translates w.guest address rest t (physical_address r)) (step_frame good)
              (walk_from-Translates w address rest (table_physical_address step.entry)
                (visited ++ table ∷ []) (levels ++ step ∷ []) r (LeadsTo-append levels step)
                (step_frame_aligned step good) onward present))
    ]

-- Where the walk of an address succeeds on a present leaf, the manual's translation takes the
-- address to the same physical address, offset included.
pub walk_sound :
    (w : Walker) (cr3 address : ℕ) (r : PageTableWalk)
    → walk w cr3 address ≡ ok r
    → r.leaf.present ≡ true
    → Translates w.guest address (levels_to_visit (la57 w.cr4)) (frame cr3) (physical_address r)
walk_sound w cr3 address r h present =
    subst (λ t. Translates w.guest address (levels_to_visit (la57 w.cr4)) t (physical_address r))
      (table_address_frame cr3)
      (walk_from-Translates w address (levels_to_visit (la57 w.cr4)) (table_address cr3) [] [] r
        (λ e q. cc) (omega (arith, table_address_frame cr3)) (walk-eq-ok w cr3 address r h) present)
