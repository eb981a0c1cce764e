-- ===== src/PageTable/Panic.antt =====
-- crates/princess-bin/src/pagetable.rs: the calls of `expect` in `Walker::walk` never fail.
use princess_ide.Prelude.{
  ℕ, ◌≡◌, arith, Bool, true, false, some, List, [], ◌∷◌, ◌++◌, Result, err, Result-cases, inl, inr,
}
use princess_ide.GuestMem.{GuestMemory}
use princess_ide.PageTable.Registers.{la57, table_address}
use princess_ide.PageTable.Entry.{
  Level, PageTableEntry, table_physical_address, huge_page_allowed, huge_page_size,
  leaf_physical_address,
}
use princess_ide.PageTable.Walk.{
  WalkLevel, Walker, PageTableWalk, WalkError, unwrapped_none, walk, walk_from, visit, judge,
  huge_leaf, small_leaf, resolve, last_entry, levels_to_visit,
}
use princess_ide.PageTable.Translation.{last_entry-append}

abbrev Unharmed : Result WalkError PageTableWalk → Type 0
Unharmed r = ¬ (r ≡ err unwrapped_none)

resolve-Unharmed : (w : Walker) (r : PageTableWalk) → Unharmed (resolve w r)
unfolding resolve
resolve-Unharmed w r h = ground arith

visit-ne-panic :
    (guest : GuestMemory) (address : ℕ) (level : Level) (table : ℕ) (visited : List ℕ)
    → ¬ (visit guest address level table visited ≡ err unwrapped_none)
unfolding visit
visit-ne-panic guest address level table visited h = ground arith

huge_leaf-Unharmed :
    (w : Walker) (address : ℕ) (level : Level) (entry : PageTableEntry) (levels : List WalkLevel)
    → entry.page_size ≡ true
    → huge_page_allowed level ≡ true
    → Unharmed (huge_leaf w address level entry levels)
unfolding huge_leaf huge_page_size leaf_physical_address huge_page_allowed
huge_leaf-Unharmed w address level entry levels ps allowed h = ground arith

judge-Unharmed :
    (w : Walker) (address : ℕ) (step : WalkLevel) (levels : List WalkLevel)
    (onward : Result WalkError PageTableWalk)
    → Unharmed onward
    → Unharmed (judge w address step levels onward)
unfolding judge
judge-Unharmed w address step levels onward safe h =
    ground (arith, huge_leaf-Unharmed w address step.level step.entry levels)

-- The loop never ends without a recorded level.
abbrev HasLast : List Level → List WalkLevel → Type 0
HasLast [] levels = (e : PageTableEntry) × (last_entry levels ≡ some e)
HasLast (_ ∷ _) levels = Unit {0}

HasLast-append :
    (rest : List Level) (levels : List WalkLevel) (s : WalkLevel) → HasLast rest (levels ++ s ∷ [])
HasLast-append [] levels s = (s.entry, last_entry-append levels s)
HasLast-append (_ ∷ _) levels s = tt

small_leaf-Unharmed :
    (w : Walker) (address : ℕ) (levels : List WalkLevel)
    → HasLast [] levels
    → Unharmed (small_leaf w address levels)
unfolding small_leaf
small_leaf-Unharmed w address levels (e, last) h = ground (arith, last)

walk_from-Unharmed :
    (w : Walker) (address : ℕ) (rest : List Level) (table : ℕ) (visited : List ℕ)
    (levels : List WalkLevel)
    → HasLast rest levels
    → Unharmed (walk_from w address rest table visited levels)
unfolding walk_from
walk_from-Unharmed w address [] table visited levels last h =
    small_leaf-Unharmed w address levels last h
walk_from-Unharmed w address (level ∷ rest) table visited levels last h =
    elim (Result-cases (visit w.guest address level table visited)) [
      | inl (step, e) ↦
          judge-Unharmed w address step (levels ++ step ∷ []) _
            (walk_from-Unharmed w address rest (table_physical_address step.entry)
              (visited ++ table ∷ []) (levels ++ step ∷ []) (HasLast-append rest levels step))
            (rw e at h)
      | inr (f, e) ↦ ground (arith, visit-ne-panic w.guest address level table visited)
    ]

HasLast-start : (wide : Bool) → HasLast (levels_to_visit wide) []
HasLast-start true = tt
HasLast-start false = tt

-- A walk never panics: whatever the memory holds, the calls of `expect` on a page's size, on its
-- address and on the last level find a value.
pub walk-ne-panic : (w : Walker) (cr3 address : ℕ) → ¬ (walk w cr3 address ≡ err unwrapped_none)
unfolding walk
walk-ne-panic w cr3 address h = ground (
  arith,
  walk_from-Unharmed w address (levels_to_visit (la57 w.cr4)) (table_address cr3) [] []
      (HasLast-start (la57 w.cr4)),
)
