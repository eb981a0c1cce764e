-- ===== src/PageTable/Explain.antt =====
-- crates/princess-bin/src/pagetable.rs: `NotPresent`, `Walker::walk_or_explain` and
-- `Walker::partial_path`.
use princess_ide.Prelude.{ℕ, Bool, List, [], ◌∷◌, ◌++◌, ◌==◌, if◌then◌else◌, Result, ok, err, ◌>>=◌}
use princess_ide.PageTable.Registers.{Cr3, la57, table_address}
use princess_ide.PageTable.Entry.{Level, depth, table_physical_address}
use princess_ide.PageTable.Walk.{
  Walker, WalkLevel, WalkError, not_present, PageTableWalk, walk, visit, levels_to_visit,
}

pub record NotPresent : Type 0 where
  pub levels : List WalkLevel
  pub level : Level
  pub index : ℕ
  pub entry_address : ℕ

-- The derived `==` of `Level`.
abbrev pub level_eq : Level → Level → Bool
level_eq a b = depth a == depth b

-- The loop of `partial_path`.
unfoldable pub partial_path_from :
    Walker
    → ℕ
    → Level
    → List Level
    → ℕ
    → List ℕ
    → List WalkLevel
    → Result WalkError (List WalkLevel)
unfolding depth
partial_path_from w address stop [] table visited out = ok out
partial_path_from w address stop (level ∷ rest) table visited out = do
  step ← visit w.guest address level table visited
  let out' = out ++ step ∷ []
  let onward =
      partial_path_from w address stop rest (table_physical_address step.entry)
        (visited ++ table ∷ []) out'
  if level_eq level stop then ok out' else onward

unfoldable pub partial_path : Walker → Cr3 → ℕ → Level → Result WalkError (List WalkLevel)
unfolding partial_path_from
partial_path w cr3 address stop =
    partial_path_from w address stop (levels_to_visit (la57 w.cr4)) (table_address cr3) [] []

-- `last().map_or(0, ..)`.
abbrev pub last_entry_address : List WalkLevel → ℕ
last_entry_address [] = 0
last_entry_address (x ∷ []) = x.entry_address
last_entry_address (x ∷ y ∷ rest) = last_entry_address (y ∷ rest)

-- `Vec::pop`, without the element.
abbrev pub pop : List WalkLevel → List WalkLevel
pop [] = []
pop (x ∷ []) = []
pop (x ∷ y ∷ rest) = x ∷ pop (y ∷ rest)

abbrev pub explain : Level → ℕ → List WalkLevel → Result NotPresent PageTableWalk
explain level index partial = err (record {
  levels = pop partial;
  level = level;
  index = index;
  entry_address = last_entry_address partial;
})

unfoldable pub walk_or_explain :
    Walker → Cr3 → ℕ → Result WalkError (Result NotPresent PageTableWalk)
walk_or_explain w cr3 address = elim (walk w cr3 address) [
  | ok done ↦ ok (ok done)
  | err e ↦ elim e [
    | not_present level index raw ↦
        partial_path w cr3 address level >>= λ partial. ok (explain level index partial)
    | other ↦ err other
  ]
]
