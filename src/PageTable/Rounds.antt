-- ===== src/PageTable/Rounds.antt =====
-- `Walker::walk` taken apart: what each part of a round says where it succeeds.
use princess_ide.Prelude.{
  ℕ, ◌+◌, ◌*◌, ◌≡◌, arith, true, false, List, [], ◌∷◌, ◌++◌, Result, ok, inl, inr, contains,
  Result-cases, ◌⊎◌,
}
use princess_ide.GuestMem.{GuestMemory}
use princess_ide.PageTable.Entry.{Level, table_physical_address, PageTableEntry}
use princess_ide.PageTable.Walk.{
  WalkLevel, PageTableWalk, WalkError, Walker, visit, judge, walk_from, walk, small_leaf, huge_leaf,
  resolve, outside_ram, table_index, walk_level, levels_to_visit,
}
use princess_ide.PageTable.Registers.{la57, table_address}

-- What a successful visit says: both guards passed, and the entry was read where the index points.
pub visit-eq-ok :
    (guest : GuestMemory) (address : ℕ) (level : Level) (table : ℕ) (visited : List ℕ)
    (step : WalkLevel)
    → visit guest address level table visited ≡ ok step
    → (raw : ℕ) × (outside_ram guest table ≡ false)
      × (contains visited table ≡ false)
      × (guest.read_u64 (table + table_index level address * 8) ≡ ok raw)
      × (step ≡ walk_level level address table raw)
unfolding visit
visit-eq-ok guest address level table visited step h =
    elim (Result-cases (guest.read_u64 (table + table_index level address * 8))) [
      | inl (raw, e) ↦ (raw, ground arith, ground arith, e, ground arith)
      | inr (e, f) ↦ absurd (ground arith)
    ]

-- What the rest of a round says when the walk succeeds.
pub judge-eq-ok :
    (w : Walker) (address : ℕ) (step : WalkLevel) (levels : List WalkLevel)
    (onward : Result WalkError PageTableWalk) (r : PageTableWalk)
    → judge w address step levels onward ≡ ok r
    → ((step.entry.page_size ≡ true) × (huge_leaf w address step.level step.entry levels ≡ ok r))
      ⊎ ((step.entry.page_size ≡ false) × (step.entry.present ≡ true) × (onward ≡ ok r))
unfolding judge
judge-eq-ok w address step levels onward r h = ground arith

pub resolve-eq-ok :
    (w : Walker) (walk r : PageTableWalk)
    → resolve w walk ≡ ok r
    → (walk ≡ r) × (outside_ram w.guest (walk.physical_base + walk.page_offset) ≡ false)
unfolding resolve
resolve-eq-ok w walk r h = ground arith

-- One round of the loop, taken apart.
pub walk_from-eq-ok :
    (w : Walker) (address : ℕ) (level : Level) (rest : List Level) (table : ℕ) (visited : List ℕ)
    (levels : List WalkLevel) (r : PageTableWalk)
    → walk_from w address (level ∷ rest) table visited levels ≡ ok r
    → (step : WalkLevel) × (visit w.guest address level table visited ≡ ok step)
      × (judge w address step (levels ++ step ∷ []) (
            walk_from w address rest
              (table_physical_address step.entry)
              (visited ++ table ∷ [])
              (levels ++ step ∷ []))
          ≡ ok r)
unfolding walk_from
walk_from-eq-ok w address level rest table visited levels r h =
    elim (Result-cases (visit w.guest address level table visited)) [
      | inl (step, e) ↦ (step, e, rw e at h)
      | inr (e, f) ↦ absurd (ground arith)
    ]

pub small_leaf-levels :
    (w : Walker) (address : ℕ) (levels : List WalkLevel) (r : PageTableWalk)
    → small_leaf w address levels ≡ ok r
    → (r.levels ≡ levels) × (r.address ≡ address)
unfolding small_leaf
small_leaf-levels w address levels r h = ground arith

pub huge_leaf-levels :
    (w : Walker) (address : ℕ) (level : Level) (entry : PageTableEntry) (levels : List WalkLevel)
    (r : PageTableWalk)
    → huge_leaf w address level entry levels ≡ ok r
    → (r.levels ≡ levels) × (r.address ≡ address)
unfolding huge_leaf
huge_leaf-levels w address level entry levels r h = ground arith

pub walk-eq-ok :
    (w : Walker) (cr3 address : ℕ) (r : PageTableWalk)
    → walk w cr3 address ≡ ok r
    → walk_from w address (levels_to_visit (la57 w.cr4)) (table_address cr3) [] [] ≡ ok r
unfolding walk
walk-eq-ok w cr3 address r h = ground arith
