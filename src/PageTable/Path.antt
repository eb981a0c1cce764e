-- ===== src/PageTable/Path.antt =====
-- The levels that a walk records are the path that the page tables spell out: each from its own
-- table, at the index that the address names, read from RAM, and leading to the next.
use princess_ide.Prelude.{
  ℕ, ◌+◌, ◌*◌, ◌/◌, ◌%◌, ◌^◌, ◌≤◌, ◌≡◌, refl, ◌∙◌, sym, ap, arith, false, List, [], ◌∷◌, ◌++◌, ok,
  inl, inr, contains, ◌||◌, ◌==◌, ◌≢◌, All, map,
}
use mathlib.Core.Path.{subst}
use mathlib.Core.List.{append-nil, append_assoc}
use princess_ide.GuestMem.{GuestMemory}
use princess_ide.PageTable.Entry.{Level, decode, table_physical_address}
use princess_ide.PageTable.Walk.{
  WalkLevel, PageTableWalk, Walker, visit, walk_from, walk, outside_ram, table_index, walk_level,
  levels_to_visit,
}
use princess_ide.PageTable.Registers.{la57, table_address}
use princess_ide.PageTable.Fields.{
  table_address_frame, shift_of, table_index_lem, frame, decode_address, decode_raw,
}
use princess_ide.PageTable.Rounds.{
  visit-eq-ok, judge-eq-ok, walk_from-eq-ok, small_leaf-levels, huge_leaf-levels, walk-eq-ok,
}

-- One recorded level, for the address and the table that the walk had there.
pub record IsStep (guest : GuestMemory) (address : ℕ) (level : Level) (table : ℕ) (step : WalkLevel)
    : Type 0 where
  pub at_level : step.level ≡ level
  pub at_table : step.table_address ≡ table
  pub at_index : step.index ≡ address / 2 ^ shift_of level % 512
  pub at_entry : step.entry_address ≡ table + step.index * 8
  pub in_table : step.entry_address + 8 ≤ table + 4096
  pub was_read : guest.read_u64 step.entry_address ≡ ok step.entry.raw
  pub decoded : step.entry ≡ decode step.entry.raw
  pub inside : outside_ram guest table ≡ false

pub walk_level-IsStep :
    (guest : GuestMemory) (address : ℕ) (level : Level) (table raw : ℕ)
    → outside_ram guest table ≡ false
    → guest.read_u64 (table + table_index level address * 8) ≡ ok raw
    → IsStep guest address level table (walk_level level address table raw)
walk_level-IsStep guest address level table raw o r = record {
  at_level = refl;
  at_table = refl;
  at_index = table_index_lem level address;
  at_entry = refl;
  in_table = omega (arith, table_index_lem level address);
  was_read = r ∙ ap ok (sym (decode_raw raw));
  decoded = ap decode (sym (decode_raw raw));
  inside = o;
}

pub visit-IsStep :
    (guest : GuestMemory) (address : ℕ) (level : Level) (table : ℕ) (visited : List ℕ)
    (step : WalkLevel)
    → visit guest address level table visited ≡ ok step
    → IsStep guest address level table step × (contains visited table ≡ false)
visit-IsStep guest address level table visited step h =
    let (raw, o, c, r, e) = visit-eq-ok guest address level table visited step h in
    (rw e (walk_level-IsStep guest address level table raw o r), c)

-- The recorded steps follow the levels, each table named by the entry before it and none of them
-- among those visited before.
abbrev pub IsChain : GuestMemory → ℕ → List Level → ℕ → List ℕ → List WalkLevel → Type 0
IsChain guest address levels table visited [] = Unit {0}
IsChain guest address [] table visited (s ∷ steps) = ⊥
IsChain guest address (level ∷ rest) table visited (s ∷ steps) =
    IsStep guest address level table s
    × (contains visited table ≡ false)
    × IsChain guest address rest (frame s.entry.raw) (visited ++ table ∷ []) steps

pub step_frame :
    {guest : GuestMemory} {address : ℕ} {level : Level} {table : ℕ} {step : WalkLevel}
    → IsStep guest address level table step
    → table_physical_address step.entry ≡ frame step.entry.raw
unfolding table_physical_address
step_frame {step} good = ap (λ e. e.address_bits) good.decoded ∙ decode_address step.entry.raw

walk_from-IsChain :
    (w : Walker) (address : ℕ) (rest : List Level) (table : ℕ) (visited : List ℕ)
    (levels : List WalkLevel) (r : PageTableWalk)
    → walk_from w address rest table visited levels ≡ ok r
    → (steps : List WalkLevel) × (r.levels ≡ levels ++ steps)
      × IsChain w.guest address rest table visited steps
      × (r.address ≡ address)
walk_from-IsChain w address [] table visited levels r h =
    let (same, at) = small_leaf-levels w address levels r (unfold walk_from in h) in
    ([], same ∙ sym (append-nil levels), tt, at)
walk_from-IsChain w address (level ∷ rest) table visited levels r h =
    let (step, v, j) = walk_from-eq-ok w address level rest table visited levels r h in
    let (good, fresh) = visit-IsStep w.guest address level table visited step v in
    elim (judge-eq-ok w address step (levels ++ step ∷ []) _ r j) [
      | inl (ps, leaf) ↦
          let (same, at) =
            huge_leaf-levels w address step.level step.entry (levels ++ step ∷ []) r leaf in
          (step ∷ [], same, (good, fresh, tt), at)
      | inr (ps, present, onward) ↦
          let (steps, same, chain, at) =
            walk_from-IsChain w address rest (table_physical_address step.entry)
              (visited ++ table ∷ []) (levels ++ step ∷ []) r onward in
          (
            step ∷ steps,
            same ∙ append_assoc levels (step ∷ []) steps,
            (
              good,
              fresh,
              subst (λ t. IsChain w.guest address rest t (visited ++ table ∷ []) steps)
                  (step_frame good) chain,
            ),
            at,
          )
    ]

-- No two of the numbers are equal.
abbrev pub AllDistinct : List ℕ → Type 0
AllDistinct [] = Unit {0}
AllDistinct (x ∷ xs) = All (λ y. x ≢ y) xs × AllDistinct xs

contains-append : (xs : List ℕ) (x y : ℕ) → contains (xs ++ x ∷ []) y ≡ contains xs y || (x == y)
contains-append [] x y = ground arith
contains-append (z ∷ xs) x y = ground (arith, contains-append xs x y)

avoids :
    (visited : List ℕ) (t s : ℕ) (ys : List ℕ)
    → s ≡ t
    → All (λ y. contains (visited ++ t ∷ []) y ≡ false) ys
    → All (λ y. contains visited y ≡ false) ys × All (λ y. s ≢ y) ys
avoids visited t s [] e h = (tt, tt)
avoids visited t s (y ∷ ys) e (h, hs) =
    let (a, b) = avoids visited t s ys e hs in
    (
      (ground (arith, contains-append visited t y), a),
      (ground (arith, contains-append visited t y), b),
    )

-- The tables of a chain avoid those visited before it, and one another.
IsChain-AllDistinct :
    (guest : GuestMemory) (address : ℕ) (levels : List Level) (table : ℕ) (visited : List ℕ)
    (steps : List WalkLevel)
    → IsChain guest address levels table visited steps
    → All (λ t. contains visited t ≡ false) (map (λ s. s.table_address) steps)
      × AllDistinct (map (λ s. s.table_address) steps)
IsChain-AllDistinct guest address levels table visited [] c = (tt, tt)
IsChain-AllDistinct guest address [] table visited (s ∷ steps) c = absurd c
IsChain-AllDistinct guest address (level ∷ rest) table visited (s ∷ steps) (good, fresh, c) =
    let (apart, distinct) =
      IsChain-AllDistinct guest address rest (frame s.entry.raw) (visited ++ table ∷ []) steps c in
    let (outside, ne) =
      avoids visited table s.table_address (map (λ x. x.table_address) steps) good.at_table apart in
    ((rw good.at_table fresh, outside), (ne, distinct))

-- A walk that succeeds records, for the address it was given, the path from the table of `CR3`:
-- each level read from its own table, which the test for RAM let pass, at the index that the address
-- holds for it, its entry decoded from the word there and naming the next table; and no table occurs
-- twice.
pub walk_path :
    (w : Walker) (cr3 address : ℕ) (r : PageTableWalk)
    → walk w cr3 address ≡ ok r
    → (r.address ≡ address)
      × IsChain w.guest address (levels_to_visit (la57 w.cr4)) (frame cr3) [] r.levels
      × AllDistinct (map (λ s. s.table_address) r.levels)
walk_path w cr3 address r h =
    let (steps, same, chain, at) =
      walk_from-IsChain w address (levels_to_visit (la57 w.cr4)) (table_address cr3) [] [] r
        (walk-eq-ok w cr3 address r h) in
    let whole : IsChain w.guest address (levels_to_visit (la57 w.cr4)) (frame cr3) [] r.levels =
      rw (same, ← table_address_frame cr3) chain in
    (
      at,
      whole,
      (IsChain-AllDistinct w.guest address (levels_to_visit (la57 w.cr4)) (frame cr3) [] r.levels
          whole).1,
    )
