-- ===== src/PageTable/Reserved.antt =====
-- crates/princess-bin/src/pagetable.rs: the walk and reserved bits, which it does not look at. On a path
-- that has none set it agrees with a translation that faults on them.
use princess_ide.Prelude.{
  ℕ, ◌+◌, ◌/◌, ◌%◌, ◌^◌, ◌≡◌, refl, ◌∙◌, sym, arith, true, some, List, [], ◌∷◌, ◌++◌, ok, All,
  Result, Bool, false,
}
use mathlib.Core.Path.{subst}
use princess_ide.GuestMem.{GuestMemory, MemoryError}
use princess_ide.PageTable.Entry.{Level, pdpt, pd, pt, LeafSize, page4k, huge2m, huge1g}
use princess_ide.PageTable.Registers.{la57}
use princess_ide.PageTable.Walk.{
  WalkLevel, PageTableWalk, Walker, walk, levels_to_visit, physical_address,
}
use princess_ide.PageTable.Fields.{frame, huge_frame}
use princess_ide.PageTable.Path.{IsStep}
use princess_ide.PageTable.Translation.{
  Translates, page, huge, next, slot, page_bits, IsPresent, IsHuge, PointsOn,
}
use princess_ide.PageTable.Sound.{walk_sound, IsStep-slot}
use princess_ide.PageTable.Arrival.{Descends, arrived, down, EndsAt, walk-Arrives}

-- No reserved bit of an entry is set: 58:52, and the bits of a huge frame's address that its size leaves
-- out, above the memory type in bit 12.
abbrev pub IsClear : Level → ℕ → Type 0
IsClear pdpt raw = (raw / 2 ^ 52 % 2 ^ 7 ≡ 0) × (IsHuge raw → raw / 2 ^ 13 % 2 ^ 17 ≡ 0)
IsClear pd raw = (raw / 2 ^ 52 % 2 ^ 7 ≡ 0) × (IsHuge raw → raw / 2 ^ 13 % 2 ^ 8 ≡ 0)
IsClear _ raw = raw / 2 ^ 52 % 2 ^ 7 ≡ 0

-- The translation that faults on a reserved bit.
pub data Maps (guest : GuestMemory) (address : ℕ) : List Level → ℕ → ℕ → Type 0 where
  at_page : {table p : ℕ} → p ≡ table + address % 4096 → Maps guest address [] table p
  at_huge :
      {l : Level} {rest : List Level} {table p : ℕ} (k raw : ℕ)
      → page_bits l ≡ some k
      → guest.read_u64 (slot l address table) ≡ ok raw
      → IsClear l raw
      → IsPresent raw
      → IsHuge raw
      → p ≡ huge_frame raw k + address % 2 ^ k
      → Maps guest address (l ∷ rest) table p
  onward :
      {l : Level} {rest : List Level} {table p : ℕ} (raw : ℕ)
      → guest.read_u64 (slot l address table) ≡ ok raw
      → IsClear l raw
      → IsPresent raw
      → PointsOn l raw
      → Maps guest address rest (frame raw) p
      → Maps guest address (l ∷ rest) table p

abbrev pub AllClear : List WalkLevel → Type 0
AllClear steps = All (λ s. IsClear s.level s.entry.raw) steps

-- Nothing comes after the level of the page tables.
abbrev pub PtLast : List Level → Type 0
PtLast [] = Unit {0}
PtLast (l ∷ rest) = (l ≡ pt → rest ≡ []) × PtLast rest

one_word : (a b : ℕ) → ◌≡◌ {A = Result MemoryError ℕ} (ok a) (ok b) → a ≡ b
one_word a b h = ground arith

-- The word in the slot of a step is that of its entry, and clear if the entry is.
IsStep-word :
    (guest : GuestMemory) (address : ℕ) (l : Level) (table raw : ℕ) (s : WalkLevel)
    → IsStep guest address l table s
    → IsClear s.level s.entry.raw
    → guest.read_u64 (slot l address table) ≡ ok raw
    → (s.entry.raw ≡ raw) × IsClear l raw
IsStep-word guest address l table raw s good clear r =
    let same = one_word s.entry.raw raw (sym (IsStep-slot s good) ∙ r) in
    (same, subst (λ x. IsClear l x) same (subst (λ m. IsClear m s.entry.raw) good.at_level clear))

EndsAt-next :
    (l : Level) (rest : List Level) (raw : ℕ) (size : LeafSize)
    → EndsAt l raw size
    → PointsOn l raw
    → (l ≡ pt → rest ≡ [])
    → rest ≡ []
EndsAt-next pdpt rest raw huge1g ends on last = absurd (on ends)
EndsAt-next pd rest raw huge2m ends on last = absurd (on ends)
EndsAt-next pt rest raw page4k ends on last = last refl
EndsAt-next _ rest raw _ ends on last = absurd ends

Maps-end :
    (guest : GuestMemory) (address : ℕ) (rest : List Level) (table p : ℕ)
    → rest ≡ []
    → Translates guest address rest table p
    → Maps guest address rest table p
Maps-end guest address [] table p e (page at) = at_page at
Maps-end guest address (l ∷ rest) table p e t = absurd (ground arith)

-- The two translations agree along a path without reserved bits.
Descends-Maps :
    (guest : GuestMemory) (address : ℕ) (levels : List Level) (table p : ℕ) (visited : List ℕ)
    (above : List WalkLevel) (level : Level) (at : ℕ) (last : WalkLevel) (size : LeafSize)
    → PtLast levels
    → Descends guest address levels table visited above level at
    → IsStep guest address level at last
    → EndsAt level last.entry.raw size
    → AllClear (above ++ last ∷ [])
    → Translates guest address levels table p
    → Maps guest address levels table p
Descends-Maps guest address [] table p visited above level at last size end path step ends clear t =
    elim path [ ]
Descends-Maps guest address (l ∷ rest) table p visited [] level at last size (end, ends_pt)
      (arrived fresh) step ends (clear, none_left) (huge k raw bits r there h e) =
    let (same, good) = IsStep-word guest address l table raw last step clear r in
    at_huge k raw bits r good there h e
Descends-Maps guest address (l ∷ rest) table p visited [] level at last size (end, ends_pt)
      (arrived fresh) step ends (clear, none_left) (next raw r there on t) =
    let (same, good) = IsStep-word guest address l table raw last step clear r in
    onward raw r good there on (
      Maps-end guest address rest (frame raw) p
        (EndsAt-next l rest raw size (subst (λ x. EndsAt l x size) same ends) on end) t)
Descends-Maps guest address (l ∷ rest) table p visited (s ∷ above) level at last size (end, ends_pt)
      (down s' step_here fresh here small path) step ends (clear, more)
      (huge k raw bits r there h e) =
    let (same, good) = IsStep-word guest address l table raw s step_here clear r in
    absurd (omega (arith, same, small, h))
Descends-Maps guest address (l ∷ rest) table p visited (s ∷ above) level at last size (end, ends_pt)
      (down s' step_here fresh here small path) step ends (clear, more) (next raw r there on t) =
    let (same, good) = IsStep-word guest address l table raw s step_here clear r in
    onward raw r good there on (
      Descends-Maps guest address rest (frame raw) p (visited ++ table ∷ []) above level at last
        size ends_pt
        (subst (λ x. Descends guest address rest (frame x) (visited ++ table ∷ []) above level at)
          same path)
        step ends more t)

pub levels_to_visit-PtLast : (wide : Bool) → PtLast (levels_to_visit wide)
levels_to_visit-PtLast true = ground arith
levels_to_visit-PtLast false = ground arith

-- Where the walk of an address succeeds on a present leaf and no recorded entry has a reserved bit set
-- (58:52, or below the frame of a huge page), the manual's translation, which faults on a reserved bit,
-- takes the address to the same physical address, offset included.
pub walk-Maps :
    (w : Walker) (cr3 address : ℕ) (r : PageTableWalk)
    → walk w cr3 address ≡ ok r
    → r.leaf.present ≡ true
    → AllClear r.levels
    → Maps w.guest address (levels_to_visit (la57 w.cr4)) (frame cr3) (physical_address r)
walk-Maps w cr3 address r h present clear =
    let a = (walk-Arrives w cr3 address r h).1 in
    Descends-Maps w.guest address (levels_to_visit (la57 w.cr4)) (frame cr3) (physical_address r) []
      a.above a.level a.at a.last r.leaf_size (levels_to_visit-PtLast (la57 w.cr4)) a.path a.step
      a.ends (subst AllClear a.split clear) (walk_sound w cr3 address r h present)
