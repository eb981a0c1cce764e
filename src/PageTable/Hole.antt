-- ===== src/PageTable/Hole.antt =====
-- `walk_or_explain`: the second pass over the tables finds the hole that the first one reported.
use mathlib.Core.Path.{subst, ap₂}
use mathlib.Core.List.{append_assoc}
use princess_ide.Prelude.{
  ◌+◌, ◌*◌, ◌/◌, ◌^◌, ℕ, ◌%◌, ◌<◌, ◌≡◌, refl, ◌∙◌, sym, ap, arith, Bool, true, false, List, [], ◌∷◌,
  ◌++◌, Result, ok, err, inl, inr, ◌⊎◌, All, Result-cases,
}
use princess_ide.GuestMem.{GuestMemory}
use princess_ide.PageTable.Entry.{Level, depth, decode, table_physical_address, PageTableEntry}
use princess_ide.PageTable.Registers.{la57, table_address}
use princess_ide.PageTable.Walk.{
  WalkLevel, PageTableWalk, WalkError, not_present, Walker, visit, judge, walk_from, walk,
  small_leaf, huge_leaf, levels_to_visit,
}
use princess_ide.PageTable.Explain.{
  NotPresent, partial_path_from, partial_path, last_entry_address, pop, explain, walk_or_explain,
}
use princess_ide.PageTable.Fields.{shift_of, frame, decode_present, table_address_frame}
use princess_ide.PageTable.Sound.{IsStep-present, IsStep-huge}
use princess_ide.PageTable.Arrival.{Descends, arrived, down}
use princess_ide.PageTable.Path.{IsStep, visit-IsStep, step_frame}

huge_leaf-ne-not_present :
    (w : Walker) (address : ℕ) (level : Level) (entry : PageTableEntry) (levels : List WalkLevel)
    (l : Level) (i raw : ℕ)
    → ¬ (huge_leaf w address level entry levels ≡ err (not_present l i raw))
unfolding huge_leaf
huge_leaf-ne-not_present w address level entry levels l i raw h = ground arith

small_leaf-ne-not_present :
    (w : Walker) (address : ℕ) (levels : List WalkLevel) (l : Level) (i raw : ℕ)
    → ¬ (small_leaf w address levels ≡ err (not_present l i raw))
unfolding small_leaf
small_leaf-ne-not_present w address levels l i raw h = ground arith

visit-ne-not_present :
    (guest : GuestMemory) (address : ℕ) (level : Level) (table : ℕ) (visited : List ℕ) (l : Level)
    (i raw : ℕ)
    → ¬ (visit guest address level table visited ≡ err (not_present l i raw))
unfolding visit
visit-ne-not_present guest address level table visited l i raw h = ground arith

-- A round that reports a hole found it here, or passes on what a later round found.
judge-not_present :
    (w : Walker) (address : ℕ) (step : WalkLevel) (levels : List WalkLevel)
    (onward : Result WalkError PageTableWalk) (l : Level) (i raw : ℕ)
    → judge w address step levels onward ≡ err (not_present l i raw)
    → ((step.entry.present ≡ false) × (step.level ≡ l) × (step.index ≡ i) × (step.entry.raw ≡ raw))
      ⊎ ((step.entry.page_size ≡ false)
          × (step.entry.present ≡ true)
          × (onward ≡ err (not_present l i raw)))
unfolding judge
judge-not_present w address step levels onward l i raw h =
    ground (arith, huge_leaf-ne-not_present w address step.level step.entry levels l i raw)

walk_from-not_present :
    (w : Walker) (address : ℕ) (level : Level) (rest : List Level) (table : ℕ) (visited : List ℕ)
    (levels : List WalkLevel) (l : Level) (i raw : ℕ)
    → walk_from w address (level ∷ rest) table visited levels ≡ err (not_present l i raw)
    → (step : WalkLevel) × (visit w.guest address level table visited ≡ ok step)
      × (judge w address step (levels ++ step ∷ []) (
            walk_from w address rest
              (table_physical_address step.entry)
              (visited ++ table ∷ [])
              (levels ++ step ∷ []))
          ≡ err (not_present l i raw))
unfolding walk_from
walk_from-not_present w address level rest table visited levels l i raw h =
    elim (Result-cases (visit w.guest address level table visited)) [
      | inl (step, e) ↦ (step, e, rw e at h)
      | inr (e, f) ↦
          absurd (visit-ne-not_present w.guest address level table visited l i raw (ground arith))
    ]

-- The levels are visited from the top down.
abbrev Ordered : List Level → Type 0
Ordered [] = Unit {0}
Ordered (x ∷ xs) = All (λ y. depth x < depth y) xs × Ordered xs

-- What the second pass returns: the entries that lead down to the one that is not present.
record FindsHole (w : Walker) (address : ℕ) (rest : List Level) (table : ℕ) (visited : List ℕ)
    (levels : List WalkLevel) (l : Level) (i raw : ℕ) : Type 0 where
  pub steps : List WalkLevel
  pub hole : WalkLevel
  pub found :
      partial_path_from w address l rest table visited levels ≡ ok (levels ++ (steps ++ hole ∷ []))
  pub at : ℕ
  pub path : Descends w.guest address rest table visited steps l at
  pub step : IsStep w.guest address l at hole
  pub at_index : hole.index ≡ i
  pub absent : hole.entry.present ≡ false
  pub the_raw : hole.entry.raw ≡ raw
  pub decoded : hole.entry ≡ decode raw
  pub was_read : w.guest.read_u64 hole.entry_address ≡ ok raw
  pub deeper : (d : ℕ) → All (λ y. d < depth y) rest → d < depth l

partial_stop :
    (w : Walker) (address : ℕ) (l level : Level) (rest : List Level) (table : ℕ) (visited : List ℕ)
    (levels : List WalkLevel) (step : WalkLevel)
    → visit w.guest address level table visited ≡ ok step
    → level ≡ l
    → partial_path_from w address l (level ∷ rest) table visited levels ≡ ok (levels ++ step ∷ [])
unfolding partial_path_from
partial_stop w address l level rest table visited levels step v e =
    rw v (ground (arith, ap depth e))

partial_on :
    (w : Walker) (address : ℕ) (l level : Level) (rest : List Level) (table : ℕ) (visited : List ℕ)
    (levels : List WalkLevel) (step : WalkLevel)
    → visit w.guest address level table visited ≡ ok step
    → depth level < depth l
    → partial_path_from w address l (level ∷ rest) table visited levels
      ≡ partial_path_from w address l rest
          (table_physical_address step.entry)
          (visited ++ table ∷ [])
          (levels ++ step ∷ [])
unfolding partial_path_from
partial_on w address l level rest table visited levels step v e = rw v (ground arith)

walk_from-FindsHole :
    (w : Walker) (address : ℕ) (rest : List Level) (table : ℕ) (visited : List ℕ)
    (levels : List WalkLevel) (l : Level) (i raw : ℕ)
    → Ordered rest
    → walk_from w address rest table visited levels ≡ err (not_present l i raw)
    → FindsHole w address rest table visited levels l i raw
walk_from-FindsHole w address [] table visited levels l i raw o h =
    absurd (small_leaf-ne-not_present w address levels l i raw (unfold walk_from in h))
walk_from-FindsHole w address (level ∷ rest) table visited levels l i raw (below, o) h =
    let (step, v, j) = walk_from-not_present w address level rest table visited levels l i raw h in
    let (good, fresh) = visit-IsStep w.guest address level table visited step v in
    elim (judge-not_present w address step (levels ++ step ∷ []) _ l i raw j) [
      | inl (absent, at, index, the_raw) ↦ record {
        steps = [];
        hole = step;
        found =
            partial_stop w address l level rest table visited levels step v
              (sym good.at_level ∙ at);
        at = table;
        path =
            subst (λ m. Descends w.guest address (level ∷ rest) table visited [] m table)
              (sym good.at_level ∙ at) (arrived fresh);
        step = subst (λ m. IsStep w.guest address m table step) (sym good.at_level ∙ at) good;
        at_index = index;
        absent = absent;
        the_raw = the_raw;
        decoded = good.decoded ∙ ap decode the_raw;
        was_read = good.was_read ∙ ap ok the_raw;
        deeper = λ d h. subst (λ t. d < depth t) (sym good.at_level ∙ at) h.0;
      }
      | inr (ps, there, onward) ↦
          let ih =
            walk_from-FindsHole w address rest (table_physical_address step.entry)
              (visited ++ table ∷ []) (levels ++ step ∷ []) l i raw o onward in
          record {
            steps = step ∷ ih.steps;
            hole = ih.hole;
            found =
                partial_on w address l level rest table visited levels step v (ih.deeper _ below)
                ∙ ih.found
                ∙ ap ok (append_assoc levels (step ∷ []) (ih.steps ++ ih.hole ∷ []));
            at = ih.at;
            path =
                down step good fresh (IsStep-present step good there)
                  (ground (arith, IsStep-huge step good))
                  (subst
                    (λ t. Descends w.guest address rest t (visited ++ table ∷ []) ih.steps l ih.at)
                    (step_frame good) ih.path);
            step = ih.step;
            at_index = ih.at_index;
            absent = ih.absent;
            the_raw = ih.the_raw;
            decoded = ih.decoded;
            was_read = ih.was_read;
            deeper = λ d h. ih.deeper d h.1;
          }
    ]

levels_to_visit-Ordered : (wide : Bool) → Ordered (levels_to_visit wide)
unfolding depth
levels_to_visit-Ordered true = omega arith
levels_to_visit-Ordered false = omega arith

pop-append : (xs : List WalkLevel) (x : WalkLevel) → pop (xs ++ x ∷ []) ≡ xs
pop-append [] x = refl
pop-append (y ∷ []) x = refl
pop-append (y ∷ z ∷ xs) x = ap (λ t. y ∷ t) (pop-append (z ∷ xs) x)

last_entry_address-append :
    (xs : List WalkLevel) (x : WalkLevel) → last_entry_address (xs ++ x ∷ []) ≡ x.entry_address
last_entry_address-append [] x = refl
last_entry_address-append (y ∷ []) x = refl
last_entry_address-append (y ∷ z ∷ xs) x = last_entry_address-append (z ∷ xs) x

walk-not_present :
    (w : Walker) (cr3 address : ℕ) (l : Level) (i raw : ℕ)
    → walk w cr3 address ≡ err (not_present l i raw)
    → walk_from w address (levels_to_visit (la57 w.cr4)) (table_address cr3) [] []
      ≡ err (not_present l i raw)
unfolding walk
walk-not_present w cr3 address l i raw h = ground arith

walk_or_explain-not_present :
    (w : Walker) (cr3 address : ℕ) (l : Level) (i raw : ℕ) (partial : List WalkLevel)
    → walk w cr3 address ≡ err (not_present l i raw)
    → partial_path w cr3 address l ≡ ok partial
    → walk_or_explain w cr3 address ≡ ok (explain l i partial)
unfolding walk_or_explain
walk_or_explain-not_present w cr3 address l i raw partial h p = ground arith

-- When the walk stops at an absent entry, `walk_or_explain` answers with that hole: the second pass
-- never fails; the level and the index are those of the first, and the index is the one that the
-- address holds for the level; the levels above are all those from `CR3` down to the table of the
-- hole, each present and naming the next; and the entry address is the index's place in that table,
-- where the memory holds the raw word of the absent entry.
pub walk_or_explain_hole :
    (w : Walker) (cr3 address : ℕ) (l : Level) (i raw : ℕ)
    → walk w cr3 address ≡ err (not_present l i raw)
    → (n : NotPresent) × (walk_or_explain w cr3 address ≡ ok (err n))
      × (n.level ≡ l)
      × (n.index ≡ i)
      × (i ≡ address / 2 ^ shift_of l % 512)
      × (w.guest.read_u64 n.entry_address ≡ ok raw)
      × (raw % 2 ≡ 0)
      × ((table : ℕ) × Descends w.guest address
            (levels_to_visit (la57 w.cr4))
            (frame cr3)
            []
            n.levels
            l
            table
          × (n.entry_address ≡ table + i * 8))
walk_or_explain_hole w cr3 address l i raw h =
    let f =
      walk_from-FindsHole w address (levels_to_visit (la57 w.cr4)) (table_address cr3) [] [] l i raw
        (levels_to_visit-Ordered (la57 w.cr4)) (walk-not_present w cr3 address l i raw h) in
    let whole : List WalkLevel = f.steps ++ f.hole ∷ [] in
    (
      record { levels = f.steps; level = l; index = i; entry_address = f.hole.entry_address },
      walk_or_explain-not_present w cr3 address l i raw whole h (unfold partial_path in f.found)
          ∙ ap ok (
              ap₂ (λ xs a. err (record { levels = xs; level = l; index = i; entry_address = a }))
                (pop-append f.steps f.hole) (last_entry_address-append f.steps f.hole)),
      refl,
      refl,
      sym f.at_index ∙ f.step.at_index,
      f.was_read,
      ground (arith, f.absent, f.decoded, decode_present raw),
      (
        f.at,
        subst (λ t. Descends w.guest address (levels_to_visit (la57 w.cr4)) t [] f.steps l f.at)
            (table_address_frame cr3) f.path,
        f.step.at_entry ∙ ap (λ k. f.at + k * 8) f.at_index,
      ),
    )
