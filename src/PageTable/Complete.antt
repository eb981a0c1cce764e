-- ===== src/PageTable/Complete.antt =====
-- Completeness of `Walker::walk`: an address that the manual's translation maps is answered with
-- its physical address, or refused by one of the walker's own guards and by nothing else.
use mathlib.Core.Path.{subst}
use princess_ide.Prelude.{
  ℕ, ◌%◌, ◌^◌, ◌<◌, ◌≡◌, refl, sym, arith, Bool, Bool-cases, true, false, some, List, [], ◌∷◌, ◌++◌,
  Result, ok, err, ◌>>=◌, inl, inr, ◌⊎◌,
}
use princess_ide.GuestMem.{GuestMemory}
use princess_ide.PageTable.Entry.{
  Level, pml5, pml4, pdpt, pd, pt, decode, table_physical_address, huge_page_allowed,
}
use princess_ide.PageTable.Canonical.{canonical, canonicality}
use princess_ide.PageTable.Registers.{la57, table_address}
use princess_ide.PageTable.Walk.{
  WalkLevel, walk_level, PageTableWalk, WalkError, table_not_in_ram, cycle, reserved_page_size_bit,
  Walker, visit, judge, walk_from, walk, huge_leaf, outside_ram, levels_to_visit, canonical_bits,
}
use princess_ide.PageTable.Fields.{
  table_index_lem, frame, decode_address, decode_raw, decode_present, decode_page_size,
  table_address_frame,
}
use princess_ide.PageTable.Translation.{
  Translates, page, huge, next, slot, page_bits, IsPresent, IsHuge, PointsOn, last_entry-append,
}
use princess_ide.PageTable.Answers.{
  Answers, Ready, small_leaf-Answers, huge_flag, huge_leaf-Answers,
}

-- The three ways in which a visit of a readable entry can end.
visit_cases :
    (guest : GuestMemory) (address : ℕ) (level : Level) (table raw : ℕ) (visited : List ℕ)
    → guest.read_u64 (slot level address table) ≡ ok raw
    → ((visit guest address level table visited ≡ err (table_not_in_ram level table))
        × (outside_ram guest table ≡ true))
      ⊎ (visit guest address level table visited ≡ err (cycle table level))
      ⊎ (visit guest address level table visited ≡ ok (walk_level level address table raw))
unfolding visit
visit_cases guest address level table raw visited h = ground (arith, table_index_lem level address)

round-Answers :
    (w : Walker) (address : ℕ) (level : Level) (table raw p : ℕ) (visited : List ℕ)
    (body : WalkLevel → Result WalkError PageTableWalk)
    → w.guest.read_u64 (slot level address table) ≡ ok raw
    → Answers w.guest p (body (walk_level level address table raw))
    → Answers w.guest p (visit w.guest address level table visited >>= body)
round-Answers w address level table raw p visited body r h =
    elim (visit_cases w.guest address level table raw visited r) [
      | inl (e, out) ↦ rw e out
      | inr (inl e) ↦ rw e tt
      | inr (inr e) ↦ rw e h
    ]

pub judge_huge :
    (w : Walker) (address : ℕ) (step : WalkLevel) (levels : List WalkLevel)
    (onward : Result WalkError PageTableWalk)
    → step.entry.page_size ≡ true
    → huge_page_allowed step.level ≡ true
    → judge w address step levels onward ≡ huge_leaf w address step.level step.entry levels
unfolding judge
judge_huge w address step levels onward h a = rw (h, a)

pub judge_next :
    (w : Walker) (address : ℕ) (step : WalkLevel) (levels : List WalkLevel)
    (onward : Result WalkError PageTableWalk)
    → step.entry.page_size ≡ false
    → step.entry.present ≡ true
    → judge w address step levels onward ≡ onward
unfolding judge
judge_next w address step levels onward h a = rw (h, a)

pub page_bits-huge_page_allowed :
    (level : Level) (k : ℕ) → page_bits level ≡ some k → huge_page_allowed level ≡ true
unfolding huge_page_allowed
page_bits-huge_page_allowed pdpt k h = refl
page_bits-huge_page_allowed pd k h = refl
page_bits-huge_page_allowed _ k h = cc

pub judge_reserved :
    (w : Walker) (address : ℕ) (step : WalkLevel) (levels : List WalkLevel)
    (onward : Result WalkError PageTableWalk)
    → step.entry.page_size ≡ true
    → huge_page_allowed step.level ≡ false
    → judge w address step levels onward ≡ err (reserved_page_size_bit step.level step.entry.raw)
unfolding judge
judge_reserved w address step levels onward h a = rw (h, a)

judge_plain-Answers :
    (w : Walker) (address raw table p : ℕ) (level : Level) (levels : List WalkLevel)
    (onward : Result WalkError PageTableWalk)
    → IsPresent raw
    → ¬ IsHuge raw
    → Answers w.guest p onward
    → Answers w.guest p (judge w address (walk_level level address table raw) levels onward)
judge_plain-Answers w address raw table p level levels onward there plain h =
    rw
      (judge_next w address (walk_level level address table raw) levels onward
        (ground (arith, decode_page_size raw)) (ground (arith, decode_present raw)))
      h

-- An entry that points on is followed, or refused as reserved for its `PAT` bit.
judge_next-Answers :
    (w : Walker) (address raw table p : ℕ) (level : Level) (levels : List WalkLevel)
    (onward : Result WalkError PageTableWalk)
    → IsPresent raw
    → PointsOn level raw
    → Answers w.guest p onward
    → Answers w.guest p (judge w address (walk_level level address table raw) levels onward)
unfolding huge_page_allowed
judge_next-Answers w address raw table p pt levels onward there on h =
    let step = walk_level pt address table raw in
    elim (Bool-cases step.entry.page_size) [
      | inl pat ↦
          rw (judge_reserved w address step levels onward pat refl)
            (refl, ground (arith, decode_page_size raw, decode_raw raw))
      | inr plain ↦
          rw (judge_next w address step levels onward plain (ground (arith, decode_present raw))) h
    ]
judge_next-Answers w address raw table p pml5 levels onward there on h =
    judge_plain-Answers w address raw table p pml5 levels onward there on h
judge_next-Answers w address raw table p pml4 levels onward there on h =
    judge_plain-Answers w address raw table p pml4 levels onward there on h
judge_next-Answers w address raw table p pdpt levels onward there on h =
    judge_plain-Answers w address raw table p pdpt levels onward there on h
judge_next-Answers w address raw table p pd levels onward there on h =
    judge_plain-Answers w address raw table p pd levels onward there on h

Ready-append :
    (rest : List Level) (levels : List WalkLevel) (s : WalkLevel)
    → Ready rest (levels ++ s ∷ []) (table_physical_address s.entry)
unfolding table_physical_address
Ready-append [] levels s = (s.entry, last_entry-append levels s, refl)
Ready-append (_ ∷ _) levels s = tt

pub next_table : (raw : ℕ) → table_physical_address (decode raw) ≡ frame raw
unfolding table_physical_address
next_table raw = decode_address raw

walk_from-Answers :
    (w : Walker) (address : ℕ) (rest : List Level) (table p : ℕ) (visited : List ℕ)
    (levels : List WalkLevel)
    → Ready rest levels table
    → table % 4096 ≡ 0
    → table < 2 ^ 52
    → Translates w.guest address rest table p
    → Answers w.guest p (walk_from w address rest table visited levels)
unfolding walk_from
walk_from-Answers w address [] table p visited levels ready aligned small (page at) =
    small_leaf-Answers w address table p levels ready aligned small at
walk_from-Answers w address (level ∷ rest) table p visited levels ready aligned small
      (huge k raw bits r there h at) =
    let step = walk_level level address table raw in
    round-Answers w address level table raw p visited _ r (
      rw
        (judge_huge w address step (levels ++ step ∷ []) _ (huge_flag raw h)
          (page_bits-huge_page_allowed level k bits))
        (huge_leaf-Answers w address k raw p level (levels ++ step ∷ []) bits h at))
walk_from-Answers w address (level ∷ rest) table p visited levels ready aligned small
      (next raw r there on t) =
    let step = walk_level level address table raw in
    round-Answers w address level table raw p visited _ r (
      judge_next-Answers w address raw table p level (levels ++ step ∷ []) _ there on (
        walk_from-Answers w address rest (table_physical_address (decode raw)) p
          (visited ++ table ∷ []) (levels ++ step ∷ []) (Ready-append rest levels step)
          (omega (arith, next_table raw)) (omega (arith, next_table raw))
          (subst (λ t. Translates w.guest address rest t p) (sym (next_table raw)) t)))

Ready-start : (wide : Bool) (table : ℕ) → Ready (levels_to_visit wide) [] table
Ready-start true table = tt
Ready-start false table = tt

pub walk_canonical :
    (w : Walker) (cr3 address : ℕ)
    → canonicality address (canonical_bits (la57 w.cr4)) ≡ canonical
    → walk w cr3 address
      ≡ walk_from w address (levels_to_visit (la57 w.cr4)) (table_address cr3) [] []
unfolding walk
walk_canonical w cr3 address c = ground arith

-- A canonical address that the manual's translation, with no test of reserved bits, maps to `p` is
-- answered with `p`, or with one of four refusals: a table that is outside RAM, a report of a cycle, `p` itself outside RAM, or a
-- `PTE` with bit 7 set reported as reserved. No such address is reported as unmapped or unreadable.
pub walk_complete :
    (w : Walker) (cr3 address p : ℕ)
    → canonicality address (canonical_bits (la57 w.cr4)) ≡ canonical
    → Translates w.guest address (levels_to_visit (la57 w.cr4)) (frame cr3) p
    → Answers w.guest p (walk w cr3 address)
walk_complete w cr3 address p c t = rw (walk_canonical w cr3 address c) (
    walk_from-Answers w address (levels_to_visit (la57 w.cr4)) (table_address cr3) p [] []
      (Ready-start (la57 w.cr4) (table_address cr3)) (omega (arith, table_address_frame cr3))
      (omega (arith, table_address_frame cr3))
      (subst (λ q. Translates w.guest address (levels_to_visit (la57 w.cr4)) q p)
        (sym (table_address_frame cr3)) t))
