-- ===== src/PageTable/Halves.antt =====
-- crates/princess-bin/src/pagetable.rs: the addresses that `canonicality` accepts.
use princess_ide.Prelude.{ℕ, ◌-◌, ◌^◌, ◌<◌, ◌≤◌, ◌≡◌, ◌↔◌, ◌⊎◌, Bool, true, false}
use princess_ide.PageTable.Canonical.{canonical, canonicality, canonicality_48, canonicality_57}
use princess_ide.PageTable.Walk.{canonical_bits}

-- For either paging width a 64-bit address is canonical exactly when it lies below half of the
-- width's range, or as far from the top of the 64-bit range.
pub canonicality_halves :
    (wide : Bool) (a : ℕ)
    → a < 2 ^ 64
    → (canonicality a (canonical_bits wide) ≡ canonical)
      ↔ ((a < 2 ^ (canonical_bits wide - 1)) ⊎ (2 ^ 64 - 2 ^ (canonical_bits wide - 1) ≤ a))
canonicality_halves true a h = canonicality_57 a h
canonicality_halves false a h = canonicality_48 a h
