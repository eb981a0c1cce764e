-- ===== src/PageTable/Arrival.antt =====
-- crates/princess-bin/src/pagetable.rs: where the levels that `walk` records come from and end.
use mathlib.Core.Path.{subst}
use mathlib.Core.List.{append_assoc}
use princess_ide.Prelude.{
  ℕ, ◌/◌, ◌%◌, ◌≡◌, refl, ◌∙◌, sym, ap, arith, Bool, true, false, List, [], ◌∷◌, ◌++◌, ok, inl, inr,
  contains, map, Option-cases,
}
use princess_ide.GuestMem.{GuestMemory}
use princess_ide.PageTable.Entry.{
  Level, pdpt, pd, pt, table_physical_address, LeafSize, page4k, huge2m, huge1g, PageTableEntry,
  huge_page_size, leaf_physical_address,
}
use princess_ide.PageTable.Registers.{la57, table_address}
use princess_ide.PageTable.Walk.{
  WalkLevel, PageTableWalk, Walker, walk_from, walk, levels_to_visit, huge_leaf, small_leaf,
}
use princess_ide.PageTable.Fields.{frame, table_address_frame}
use princess_ide.PageTable.Path.{IsStep, visit-IsStep, step_frame, AllDistinct, walk_path}
use princess_ide.PageTable.Rounds.{
  judge-eq-ok, walk_from-eq-ok, walk-eq-ok, resolve-eq-ok, small_leaf-levels, huge_leaf-levels,
}
use princess_ide.PageTable.Translation.{last_entry-append}
use princess_ide.PageTable.Sound.{IsStep-present, IsStep-huge}

-- The entries of an address lead down from a table: each is present and points on, and the next
-- table is the one that it names. The levels left begin with the one of the table that is reached.
pub data Descends (guest : GuestMemory) (address : ℕ)
    : List Level → ℕ → List ℕ → List WalkLevel → Level → ℕ → Type 0 where
  arrived :
      {l : Level} {rest : List Level} {table : ℕ} {visited : List ℕ}
      → contains visited table ≡ false
      → Descends guest address (l ∷ rest) table visited [] l table
  down :
      {l m : Level} {rest : List Level} {table at : ℕ} {visited : List ℕ} {steps : List WalkLevel}
      (s : WalkLevel)
      → IsStep guest address l table s
      → contains visited table ≡ false
      → s.entry.raw % 2 ≡ 1
      → s.entry.raw / 128 % 2 ≡ 0
      → Descends guest address rest (frame s.entry.raw) (visited ++ table ∷ []) steps m at
      → Descends guest address (l ∷ rest) table visited (s ∷ steps) m at

-- The entries that end a walk, and the size of their page.
abbrev pub EndsAt : Level → ℕ → LeafSize → Type 0
EndsAt pdpt raw huge1g = raw / 128 % 2 ≡ 1
EndsAt pd raw huge2m = raw / 128 % 2 ≡ 1
EndsAt pt raw page4k = (raw / 128 % 2 ≡ 0) × (raw % 2 ≡ 1)
EndsAt _ _ _ = ⊥

-- The levels that were recorded after `before` lead down to the last one, whose entry is the leaf.
pub record Arrives (guest : GuestMemory) (address : ℕ) (rest : List Level) (table : ℕ)
    (visited : List ℕ) (before : List WalkLevel) (r : PageTableWalk) : Type 0 where
  pub above : List WalkLevel
  pub last : WalkLevel
  pub level : Level
  pub at : ℕ
  pub split : r.levels ≡ before ++ (above ++ last ∷ [])
  pub path : Descends guest address rest table visited above level at
  pub step : IsStep guest address level at last
  pub leaf : r.leaf ≡ last.entry
  pub ends : EndsAt level last.entry.raw r.leaf_size

-- The last level is that of the page tables.
abbrev EndsInPt : List Level → Type 0
EndsInPt [] = ⊥
EndsInPt (l ∷ []) = l ≡ pt
EndsInPt (l ∷ m ∷ rest) = EndsInPt (m ∷ rest)

huge_leaf-EndsAt :
    (w : Walker) (address : ℕ) (level : Level) (entry : PageTableEntry) (levels : List WalkLevel)
    (r : PageTableWalk) (raw : ℕ)
    → raw / 128 % 2 ≡ 1
    → huge_leaf w address level entry levels ≡ ok r
    → (r.leaf ≡ entry) × EndsAt level raw r.leaf_size
unfolding huge_leaf huge_page_size
huge_leaf-EndsAt w address pdpt entry levels r raw ps h =
    elim (Option-cases (leaf_physical_address entry pdpt)) [
      | inl nothing ↦ absurd (ground arith)
      | inr (base, e) ↦
          let same = (resolve-eq-ok w _ r (rw e at h)).0 in
          (ap (λ x. x.leaf) (sym same), subst (λ x. EndsAt pdpt raw x.leaf_size) same ps)
    ]
huge_leaf-EndsAt w address pd entry levels r raw ps h =
    elim (Option-cases (leaf_physical_address entry pd)) [
      | inl nothing ↦ absurd (ground arith)
      | inr (base, e) ↦
          let same = (resolve-eq-ok w _ r (rw e at h)).0 in
          (ap (λ x. x.leaf) (sym same), subst (λ x. EndsAt pd raw x.leaf_size) same ps)
    ]
huge_leaf-EndsAt w address _ entry levels r raw ps h = absurd (ground arith)

small_leaf-leaf :
    (w : Walker) (address : ℕ) (levels : List WalkLevel) (s : WalkLevel) (r : PageTableWalk)
    → small_leaf w address (levels ++ s ∷ []) ≡ ok r
    → (r.leaf ≡ s.entry) × (r.leaf_size ≡ page4k)
unfolding small_leaf
small_leaf-leaf w address levels s r h =
    let same = (resolve-eq-ok w _ r (rw (last_entry-append levels s) at h)).0 in
    (ap (λ x. x.leaf) (sym same), ap (λ x. x.leaf_size) (sym same))

-- A huge entry ends the walk in the table where it stands.
Arrives-huge :
    (w : Walker) (address : ℕ) (level : Level) (rest : List Level) (table : ℕ) (visited : List ℕ)
    (before : List WalkLevel) (r : PageTableWalk) (s : WalkLevel)
    → IsStep w.guest address level table s
    → contains visited table ≡ false
    → s.entry.page_size ≡ true
    → huge_leaf w address s.level s.entry (before ++ s ∷ []) ≡ ok r
    → Arrives w.guest address (level ∷ rest) table visited before r
Arrives-huge w address level rest table visited before r s good fresh ps h =
    let bit : s.entry.raw / 128 % 2 ≡ 1 = ground (arith, IsStep-huge s good) in
    let (leaf, ends) = huge_leaf-EndsAt w address s.level s.entry (before ++ s ∷ []) r _ bit h in
    record {
      above = [];
      last = s;
      level = level;
      at = table;
      split = (huge_leaf-levels w address s.level s.entry (before ++ s ∷ []) r h).0;
      path = arrived fresh;
      step = good;
      leaf = leaf;
      ends = subst (λ l. EndsAt l s.entry.raw r.leaf_size) good.at_level ends;
    }

-- The last level left is done without a huge entry.
Arrives-small :
    (w : Walker) (address : ℕ) (table : ℕ) (visited : List ℕ) (before : List WalkLevel)
    (r : PageTableWalk) (s : WalkLevel)
    → IsStep w.guest address pt table s
    → contains visited table ≡ false
    → s.entry.page_size ≡ false
    → s.entry.present ≡ true
    → small_leaf w address (before ++ s ∷ []) ≡ ok r
    → Arrives w.guest address (pt ∷ []) table visited before r
Arrives-small w address table visited before r s good fresh ps there h =
    let (leaf, size) = small_leaf-leaf w address before s r h in
    let bit : s.entry.raw / 128 % 2 ≡ 0 = ground (arith, IsStep-huge s good) in
    record {
      above = [];
      last = s;
      level = pt;
      at = table;
      split = (small_leaf-levels w address (before ++ s ∷ []) r h).0;
      path = arrived fresh;
      step = good;
      leaf = leaf;
      ends = subst (EndsAt pt s.entry.raw) (sym size) (bit, IsStep-present s good there);
    }

-- One level more in front of those that a later round recorded.
Arrives-down :
    (guest : GuestMemory) (address : ℕ) (level : Level) (rest : List Level) (table : ℕ)
    (visited : List ℕ) (before : List WalkLevel) (r : PageTableWalk) (s : WalkLevel)
    → IsStep guest address level table s
    → contains visited table ≡ false
    → s.entry.page_size ≡ false
    → s.entry.present ≡ true
    → Arrives guest address rest (frame s.entry.raw) (visited ++ table ∷ []) (before ++ s ∷ []) r
    → Arrives guest address (level ∷ rest) table visited before r
Arrives-down guest address level rest table visited before r s good fresh ps there a = record {
  above = s ∷ a.above;
  last = a.last;
  level = a.level;
  at = a.at;
  split = a.split ∙ append_assoc before (s ∷ []) (a.above ++ a.last ∷ []);
  path =
      down s good fresh (IsStep-present s good there) (ground (arith, IsStep-huge s good)) a.path;
  step = a.step;
  leaf = a.leaf;
  ends = a.ends;
}

walk_from-Arrives :
    (w : Walker) (address : ℕ) (rest : List Level) (table : ℕ) (visited : List ℕ)
    (before : List WalkLevel) (r : PageTableWalk)
    → EndsInPt rest
    → walk_from w address rest table visited before ≡ ok r
    → Arrives w.guest address rest table visited before r
walk_from-Arrives w address [] table visited before r end h = absurd end
walk_from-Arrives w address (level ∷ []) table visited before r end h =
    let (s, v, j) = walk_from-eq-ok w address level [] table visited before r h in
    let (good, fresh) = visit-IsStep w.guest address level table visited s v in
    elim (judge-eq-ok w address s (before ++ s ∷ []) _ r j) [
      | inl (ps, leaf) ↦ Arrives-huge w address level [] table visited before r s good fresh ps leaf
      | inr (ps, there, onward) ↦
          subst (λ l. Arrives w.guest address (l ∷ []) table visited before r) (sym end)
            (Arrives-small w address table visited before r s
              (subst (λ l. IsStep w.guest address l table s) end good) fresh ps there
              (unfold walk_from in onward))
    ]
walk_from-Arrives w address (level ∷ m ∷ rest) table visited before r end h =
    let (s, v, j) = walk_from-eq-ok w address level (m ∷ rest) table visited before r h in
    let (good, fresh) = visit-IsStep w.guest address level table visited s v in
    elim (judge-eq-ok w address s (before ++ s ∷ []) _ r j) [
      | inl (ps, leaf) ↦
          Arrives-huge w address level (m ∷ rest) table visited before r s good fresh ps leaf
      | inr (ps, there, onward) ↦
          let onto =
            walk_from-Arrives w address (m ∷ rest) (table_physical_address s.entry)
              (visited ++ table ∷ []) (before ++ s ∷ []) r end onward in
          Arrives-down w.guest address level (m ∷ rest) table visited before r s good fresh ps there
            (subst
              (λ t.
                Arrives w.guest address (m ∷ rest) t (visited ++ table ∷ []) (before ++ s ∷ []) r)
              (step_frame good) onto)
    ]

levels_to_visit-EndsInPt : (wide : Bool) → EndsInPt (levels_to_visit wide)
levels_to_visit-EndsInPt true = refl
levels_to_visit-EndsInPt false = refl

-- A walk that succeeds records, for the address it was given, the whole path from the table of
-- `CR3` to the leaf: each level read from its own table, which the test for RAM let pass, at the
-- index that the address holds for it; every entry but the last present, without bit 7, and naming
-- the next table; the last one the leaf, a huge entry of a PDPT or PD or a present one of a PT, with
-- the page size of its level; and no table occurs twice.
pub walk-Arrives :
    (w : Walker) (cr3 address : ℕ) (r : PageTableWalk)
    → walk w cr3 address ≡ ok r
    → (r.address ≡ address)
      × Arrives w.guest address (levels_to_visit (la57 w.cr4)) (frame cr3) [] [] r
      × AllDistinct (map (λ s. s.table_address) r.levels)
walk-Arrives w cr3 address r h =
    let (at, chain, distinct) = walk_path w cr3 address r h in
    (
      at,
      subst (λ t. Arrives w.guest address (levels_to_visit (la57 w.cr4)) t [] [] r)
          (table_address_frame cr3)
          (walk_from-Arrives w address (levels_to_visit (la57 w.cr4)) (table_address cr3) [] [] r
            (levels_to_visit-EndsInPt (la57 w.cr4)) (walk-eq-ok w cr3 address r h)),
      distinct,
    )
